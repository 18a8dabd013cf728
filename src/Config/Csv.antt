-- ===== src/Config/Csv.antt =====
-- pkg/config/config.go: splitCSV.
use Prim.Native.String.{◌++◌ as append}
use text.Mathlib.TextLemmas.{nil-append, cons-append}
use talosctl_oidc.Base.{
  ◌==◌, ◌≡◌, ◌≢◌, ◌∙◌, ap, refl, String, false, not, List, [], ◌∷◌, ◌++◌, map, keep, keep-append,
  All, arith, eq_iff,
}
use talosctl_oidc.Text.{split, trim_space, join, has}
use talosctl_oidc.Text.Laws.{◌+++◌, split-append, split-has}
use talosctl_oidc.Config.{split_csv}

-- An entry of a list: a text without a comma, and without spaces around it.
abbrev pub IsEntry : String → Type 0
IsEntry s = (has b',' s ≡ false) × (trim_space s ≡ s) × (s ≢ "")

map-append : (f : String → String) (xs ys : List String) → map f (xs ++ ys) ≡ map f xs ++ map f ys
map-append f [] ys = refl
map-append f (x ∷ xs) ys = ap (λ r. f x ∷ r) (map-append f xs ys)

split_csv-append :
    (s t : String) → split_csv (s +++ (String.◌∷◌ "," t)) ≡ split_csv s ++ split_csv t
unfolding split_csv
split_csv-append s t =
    ap (λ parts. keep (λ p. not (p == "")) (map trim_space parts)) (split-append "," s t)
    ∙ ap (keep (λ p. not (p == ""))) (map-append trim_space (split b',' s) (split b',' t))
    ∙ keep-append (λ p. not (p == "")) (map trim_space (split b',' s))
        (map trim_space (split b',' t))

split_csv-entry : (s : String) → IsEntry s → split_csv s ≡ s ∷ []
unfolding split_csv
split_csv-entry s (h, t, n) = rw (split-has b',' s h, t) (ground (arith, eq_iff s ""))

split_csv-nil : split_csv "" ≡ []
unfolding split_csv split trim_space
split_csv-nil = refl

join-cons :
    (x y : String) (ys : List String)
    → join "," (x ∷ (y ∷ ys)) ≡ x +++ (String.◌∷◌ "," (join "," (y ∷ ys)))
unfolding join
join-cons x y ys = ap (append x) (
    cons-append "," "" (join "," (y ∷ ys))
    ∙ ap (λ s. String.◌∷◌ "," s) (nil-append (join "," (y ∷ ys))))

-- Reading back a list that was written with commas: where no entry has a comma, spaces around it or
-- no text, splitCSV of the entries joined by commas gives these entries.
pub split_csv-join : (xs : List String) → All IsEntry xs → split_csv (join "," xs) ≡ xs
unfolding join
split_csv-join [] h = split_csv-nil
split_csv-join (x ∷ []) h = split_csv-entry x h.0
split_csv-join (x ∷ (y ∷ ys)) (h, k) =
    ap split_csv (join-cons x y ys)
    ∙ split_csv-append x (join "," (y ∷ ys))
    ∙ ap (λ l. l ++ split_csv (join "," (y ∷ ys))) (split_csv-entry x h)
    ∙ ap (λ l. x ∷ l) (split_csv-join (y ∷ ys) k)
