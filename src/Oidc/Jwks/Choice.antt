-- ===== src/Oidc/Jwks/Choice.antt =====
-- Which key findKey picks.
use talosctl_oidc.Base.{
  ◌≡◌, ◌≢◌, ◌⊎◌, eq_iff, inl, inr, refl, String, true, false, List, [], ◌∷◌, ◌++◌, some, arith,
  Bool-cases, any, ap,
}
use talosctl_oidc.Oidc.Jwks.{Jwk, is_alg_compatible, suits, find_key}

-- `k` is the first of the keys that the header asks for.
pub record IsFirst (keys : List Jwk) (kid alg : String) (k : Jwk) : Type 0 where
  pub earlier : List Jwk
  pub later : List Jwk
  pub splits : keys ≡ earlier ++ k ∷ later
  pub passed_over : any (suits kid alg) earlier ≡ false
  pub fits : suits kid alg k ≡ true

-- The key that findKey picks is the first one of the set that the header asks for: by its `kid`,
-- or, where the header has none, by an algorithm that the key is for.
pub find_key-IsFirst :
    (keys : List Jwk) (kid alg : String) {k : Jwk}
    → find_key keys kid alg ≡ some k
    → IsFirst keys kid alg k
unfolding find_key
find_key-IsFirst [] kid alg e = cc
find_key-IsFirst (j ∷ keys) kid alg {k} e = elim (Bool-cases (suits kid alg j)) [
  | inl fit ↦
      let same : j ≡ k = ground arith in
      record {
        earlier = [];
        later = keys;
        splits = ap (λ h. h ∷ keys) same;
        passed_over = refl;
        fits = rw (← same) fit;
      }
  | inr unfit ↦
      let r : IsFirst keys kid alg k = find_key-IsFirst keys kid alg (rw unfit at e) in
      record {
        earlier = j ∷ r.earlier;
        later = r.later;
        splits = ap (λ l. j ∷ l) r.splits;
        passed_over = rw unfit r.passed_over;
        fits = r.fits;
      }
]

-- Why a key suits a header: a header with a `kid` names that key, and one without leaves it to the
-- key's own algorithm, if it has one.
abbrev pub Chosen : String → String → Jwk → Type 0
Chosen kid alg k = ((kid ≢ "") × (k.kid ≡ kid)) ⊎ ((kid ≡ "") × ((k.alg ≡ alg) ⊎ (k.alg ≡ "")))

pub suits-Chosen : (kid alg : String) (k : Jwk) → suits kid alg k ≡ true → Chosen kid alg k
unfolding suits is_alg_compatible
suits-Chosen kid alg k h =
    ground (arith, eq_iff kid "", eq_iff k.kid kid, eq_iff k.alg alg, eq_iff k.alg "")
