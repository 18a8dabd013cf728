-- ===== src/Oidc/Jwt/Sound.antt =====
-- Every token that ValidateIDToken accepts is acceptable.
use talosctl_oidc.Base.Fallible.{◌>>=◌}
use talosctl_oidc.Base.{
  ℕ, ◌+◌, ◌≡◌, ◌≢◌, inl, inr, refl, ap, subst, ◌∙◌, String, Bool, true, false, List, [], ◌∷◌,
  Option, none, some, ok, err, fail_if, if◌then◌else◌, contains, is_empty, lookup, or_else, arith,
  eq_iff, Bool-cases, Option-cases, ℤ, pos, negsuc, contains_iff,
}
use talosctl_oidc.Text.{split, trim_suffix}
use talosctl_oidc.Text.Laws.{◌+++◌}
use talosctl_oidc.Claims.{
  Value, null, bool, num, str, arr, obj, strs, Claims, texts, as_string, as_number,
}
use talosctl_oidc.Oidc.Jwks.{Jwks, hmac_algs, find_key}
use talosctl_oidc.Oidc.Signature.{Bytes, Crypto}
use talosctl_oidc.Oidc.Jwt.{
  Header, Json, JwtError, Checked, default_algs, or_fail, three_parts, check_alg, check_issuer,
  audience, validate_audience, before, beyond, check_expiry, check_not_before, check_signature,
  check_claims, validate_id_token,
}
use talosctl_oidc.Oidc.Jwt.Accepted.{
  Names, alone, among, NotBefore, AtMost, Signed, by_secret, by_key, GoodClaims, Accepted,
}

-- Inversions of the steps of a chain that came out well.
pub bind-eq-ok :
    {A B : Type 0} (m : Checked A) (f : A → Checked B) {b : B}
    → (m >>= f) ≡ ok b
    → (a : A) × (m ≡ ok a) × (f a ≡ ok b)
bind-eq-ok (ok a) f h = (a, refl, h)
bind-eq-ok (err e) f h = cc

pub or_fail-eq-ok :
    {A : Type 0} (o : Option A) (e : JwtError) {a : A} → or_fail o e ≡ ok a → o ≡ some a
or_fail-eq-ok none e h = cc
or_fail-eq-ok (some b) e h = cc

fail_if-eq-ok : (b : Bool) (e : JwtError) {u : Unit {0}} → fail_if b e ≡ ok u → b ≡ false
fail_if-eq-ok true e h = cc
fail_if-eq-ok false e h = refl

three_parts-eq-ok :
    (l : List String) {p : String × String × String}
    → three_parts l ≡ ok p
    → l ≡ p.0 ∷ p.1 ∷ p.2 ∷ []
unfolding three_parts
three_parts-eq-ok (a ∷ b ∷ c ∷ []) h = ground arith
three_parts-eq-ok _ h = cc

pub check_alg-eq-ok :
    (algs : List String) (alg : String) {u : Unit {0}}
    → check_alg algs alg ≡ ok u
    → (alg ≢ "")
      × (alg ≢ "none")
      × (contains alg (if is_empty algs then default_algs else algs) ≡ true)
unfolding check_alg
check_alg-eq-ok algs alg h = ground (arith, eq_iff alg "", eq_iff alg "none")

check_issuer-eq-ok :
    (issuer : String) (claims : Claims) {u : Unit {0}}
    → check_issuer issuer claims ≡ ok u
    → trim_suffix b'/' (or_else (as_string (lookup "iss" claims)) "") ≡ trim_suffix b'/' issuer
unfolding check_issuer
check_issuer-eq-ok issuer claims h = (eq_iff _ _).0 (ground arith)

audience-eq-ok :
    (v : Value) (client : String) {u : Unit {0}} → audience v client ≡ ok u → Names client v
unfolding audience
audience-eq-ok (str s) client h = alone ((eq_iff s client).0 (ground arith))
audience-eq-ok (arr items) client h = among ((contains_iff client (texts items)).0 (ground arith))
audience-eq-ok null client h = cc
audience-eq-ok (bool b) client h = cc
audience-eq-ok (num n) client h = cc
audience-eq-ok (obj ms) client h = cc
audience-eq-ok (strs l) client h = cc

validate_audience-eq-ok :
    (client : String) (claims : Claims) {u : Unit {0}}
    → validate_audience client claims ≡ ok u
    → (v : Value) × (lookup "aud" claims ≡ some v) × Names client v
unfolding validate_audience
validate_audience-eq-ok client claims {u} h = elim (Option-cases (lookup "aud" claims)) [
  | inl e ↦ ground arith
  | inr (v, e) ↦ (v, e, audience-eq-ok v client {u = u} (ground arith))
]

before-NotBefore : (n : ℤ) (now : ℕ) → before n now ≡ false → NotBefore now n
before-NotBefore (pos n) now h = ground arith
before-NotBefore (negsuc n) now h = cc

beyond-AtMost : (n : ℤ) (limit : ℕ) → beyond n limit ≡ false → AtMost limit n
beyond-AtMost (pos n) limit h = ground arith
beyond-AtMost (negsuc n) limit h = tt

check_expiry-eq-ok :
    (now : ℕ) (claims : Claims) {u : Unit {0}}
    → check_expiry now claims ≡ ok u
    → (n : ℤ) × (as_number (lookup "exp" claims) ≡ some n) × NotBefore now n
unfolding check_expiry
check_expiry-eq-ok now claims {u} h = elim (Option-cases (as_number (lookup "exp" claims))) [
  | inl e ↦ ground arith
  | inr (n, e) ↦ (n, e, before-NotBefore n now (ground arith))
]

check_not_before-eq-ok :
    (now : ℕ) (claims : Claims) {u : Unit {0}}
    → check_not_before now claims ≡ ok u
    → (n : ℤ) → as_number (lookup "nbf" claims) ≡ some n
    → AtMost (now + 60) n
unfolding check_not_before
check_not_before-eq-ok now claims h n e = beyond-AtMost n (now + 60) (ground arith)

check_claims-eq-ok :
    (crypto : Crypto) (json : Json) (now : ℕ) (issuer client : String) (claims : Claims)
    {u : Unit {0}}
    → check_claims crypto json now issuer client claims ≡ ok u
    → GoodClaims now issuer client claims
unfolding check_claims
check_claims-eq-ok crypto json now issuer client claims h =
    let (_, h₁, rest₁) = bind-eq-ok (check_issuer issuer claims) _ h in
    let (_, h₂, rest₂) = bind-eq-ok (validate_audience client claims) _ rest₁ in
    let (_, h₃, rest₃) = bind-eq-ok (check_expiry now claims) _ rest₂ in
    let (aud, has_aud, named) = validate_audience-eq-ok client claims h₂ in
    let (exp, has_exp, unexpired) = check_expiry-eq-ok now claims h₃ in
    record {
      issued = check_issuer-eq-ok issuer claims h₁;
      aud = aud;
      has_aud = has_aud;
      for_client = named;
      exp = exp;
      has_exp = has_exp;
      unexpired = unexpired;
      begun = check_not_before-eq-ok now claims rest₃;
    }

module _ (crypto : Crypto) (json : Json) where
  check_signature-eq-ok :
      (jwks : Jwks) (secret : String) (header : Header) (input : String) (signature : Bytes)
      {u : Unit {0}}
      → check_signature crypto json jwks secret header input signature ≡ ok u
      → Signed crypto jwks secret header input signature
  unfolding check_signature
  check_signature-eq-ok jwks secret header input signature h =
      elim (Bool-cases (contains header.alg hmac_algs)) [
        | inl hmac ↦ by_secret hmac (ground (arith, eq_iff secret "")) (ground arith)
        | inr other ↦ elim (Option-cases (find_key jwks.keys header.kid header.alg)) [
          | inl e ↦ ground arith
          | inr (k, e) ↦ by_key k other e (ground arith)
        ]
      ]

  -- A token that is accepted is acceptable: three parts that decode, a permitted and listed
  -- algorithm, a good signature, and claims that fit; and the claims returned are its own.
  pub validate-Accepted :
      (now : ℕ) (raw : String) (jwks : Jwks) (issuer client secret : String) (algs : List String)
      (claims : Claims)
      → validate_id_token crypto json now raw jwks issuer client secret algs ≡ ok claims
      → Accepted crypto json now raw jwks issuer client secret algs claims
  unfolding validate_id_token
  validate-Accepted now raw jwks issuer client secret algs claims h =
      let (p, e₀, h₁) = bind-eq-ok (three_parts (split b'.' raw)) _ h in
      let (head_bytes, e₁, h₂) = bind-eq-ok (or_fail (crypto.decode p.0) _) _ h₁ in
      let (header, e₂, h₃) = bind-eq-ok (or_fail (json.header_of head_bytes) _) _ h₂ in
      let (_, e₃, h₄) = bind-eq-ok (check_alg algs header.alg) _ h₃ in
      let (signature, e₄, h₅) = bind-eq-ok (or_fail (crypto.decode p.2) _) _ h₄ in
      let (_, e₅, h₆) =
        bind-eq-ok
          (check_signature crypto json jwks secret header (p.0 +++ ("." +++ p.1)) signature) _ h₅ in
      let (payload_bytes, e₆, h₇) = bind-eq-ok (or_fail (crypto.decode p.1) _) _ h₆ in
      let (own, e₇, h₈) = bind-eq-ok (or_fail (json.claims_of payload_bytes) _) _ h₇ in
      let (_, e₈, h₉) = bind-eq-ok (check_claims crypto json now issuer client own) _ h₈ in
      let (nonempty, not_none, listed) = check_alg-eq-ok algs header.alg e₃ in
      let same : own ≡ claims = cc in
      record {
        head = p.0;
        payload = p.1;
        mac = p.2;
        parts = three_parts-eq-ok (split b'.' raw) e₀;
        head_bytes = head_bytes;
        head_decodes = or_fail-eq-ok (crypto.decode p.0) _ e₁;
        header = header;
        head_parses = or_fail-eq-ok (json.header_of head_bytes) _ e₂;
        permitted = (nonempty, not_none);
        listed = listed;
        signature = signature;
        signature_decodes = or_fail-eq-ok (crypto.decode p.2) _ e₄;
        signed = check_signature-eq-ok jwks secret header _ signature e₅;
        payload_bytes = payload_bytes;
        payload_decodes = or_fail-eq-ok (crypto.decode p.1) _ e₆;
        payload_parses = or_fail-eq-ok (json.claims_of payload_bytes) _ e₇ ∙ ap some same;
        good =
            subst (GoodClaims now issuer client) same
              (check_claims-eq-ok crypto json now issuer client own e₈);
      }
