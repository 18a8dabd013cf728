-- ===== src/Text/Prefix.antt =====
-- What cutting a prefix off guarantees.
use Prim.Native.Char.{code}
use text.Mathlib.TextLemmas.{nil-append, cons-append}
use text.Mathlib.TextEquality.{Char-path}
use talosctl_oidc.Base.{
  ◌≡◌, ◌↔◌, refl, sym, ap, ◌∙◌, subst, String, some, eqb, arith, Bool-cases, inl, inr,
}
use talosctl_oidc.Text.{cut_prefix}
use talosctl_oidc.Text.Laws.{◌+++◌}

-- A prefix is cut off exactly where the text is the prefix and then the rest.
cut_prefix-append : (p t : String) → cut_prefix p (p +++ t) ≡ some t
unfolding cut_prefix
cut_prefix-append String.[] t = rw nil-append refl
cut_prefix-append (String.◌∷◌ c p) t = rw cons-append (ground (arith, cut_prefix-append p t))

append-cut_prefix : (p s : String) {t : String} → cut_prefix p s ≡ some t → s ≡ p +++ t
unfolding cut_prefix
append-cut_prefix String.[] s {t} h = ground (arith, nil-append t)
append-cut_prefix (String.◌∷◌ c p) String.[] h = cc
append-cut_prefix (String.◌∷◌ c p) (String.◌∷◌ d s) {t} h =
    elim (Bool-cases (eqb (code c) (code d))) [
      | inl e ↦
          let same : c ≡ d = Char-path c d (ground arith) in
          let rest : s ≡ p +++ t = append-cut_prefix p s (ground arith) in
          sym (
            cons-append c p t ∙ ap (λ u. String.◌∷◌ c u) (sym rest) ∙ ap (λ x. String.◌∷◌ x s) same)
      | inr ne ↦ ground arith
    ]

pub cut_prefix_iff : (p s t : String) → (cut_prefix p s ≡ some t) ↔ (s ≡ p +++ t)
cut_prefix_iff p s t = (
  append-cut_prefix p s,
  λ e. subst (λ u. cut_prefix p u ≡ some t) (sym e) (cut_prefix-append p t),
)
