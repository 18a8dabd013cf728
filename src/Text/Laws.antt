-- ===== src/Text/Laws.antt =====
-- What splitting guarantees.
use Prim.Native.Char.{Char, code}
use Prim.Native.String.{◌++◌ as append}
use text.Mathlib.TextLemmas.{nil-append, cons-append}
use talosctl_oidc.Text.{push_head, split_by, split, has}
use talosctl_oidc.Base.{ℕ, ◌≡◌, refl, String, Bool, false, List, [], ◌∷◌, ◌++◌, eqb, arith}

infixr 66 ◌+++◌
abbrev pub ◌+++◌ : String → String → String
s +++ t = append s t

push_head-push_head :
    (c d : Char) (xs ys : List String)
    → push_head c (push_head d xs ++ ys) ≡ push_head c (push_head d xs) ++ ys
push_head-push_head c d [] ys = refl
push_head-push_head c d (x ∷ xs) ys = refl

push_head-append :
    (sep : ℕ → Bool) (c : Char) (s : String) (ys : List String)
    → push_head c (split_by sep s ++ ys) ≡ push_head c (split_by sep s) ++ ys
unfolding split_by
push_head-append sep c String.[] ys = refl
push_head-append sep c (String.◌∷◌ d s) ys =
    ground (arith, push_head-push_head c d (split_by sep s) ys)

-- Splitting a text around a separator splits its two sides.
pub split-append :
    (c : Char) (s t : String)
    → split (code c) (s +++ (String.◌∷◌ c t)) ≡ split (code c) s ++ split (code c) t
unfolding split split_by
split-append c String.[] t = rw nil-append (ground arith)
split-append c (String.◌∷◌ d s) t =
    rw cons-append
      (ground (arith, split-append c s t, push_head-append (eqb (code c)) d s (split (code c) t)))

-- A text without the separator is one part.
pub split-has : (c : ℕ) (s : String) → has c s ≡ false → split c s ≡ s ∷ []
unfolding split split_by has
split-has c String.[] h = refl
split-has c (String.◌∷◌ d s) h =
    let tests : (eqb c (code d) ≡ false) × (has c s ≡ false) = ground arith in
    ground (arith, split-has c s tests.1)
