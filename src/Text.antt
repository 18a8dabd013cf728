-- ===== src/Text.antt =====
-- The functions of Go's `strings` that the program calls, over code points: `Split` at one
-- character, `TrimSpace`, `Fields`, `TrimSuffix` and `TrimRight` of one character, `Cut`.
pub mod Laws
pub mod Prefix
use Prim.Native.Char.{Char, code}
use Prim.Native.String.{◌++◌ as append}
use talosctl_oidc.Base.{
  ℕ, ◌==◌, ◌≡◌, refl, String, Bool, true, false, ◌&&◌, ◌||◌, not, List, [], ◌∷◌, Option, none, some,
  map, leb, eqb, keep, any, if◌then◌else◌,
}

-- unicode.IsSpace
pub is_space : ℕ → Bool
is_space c =
    (leb 9 c && leb c 13)
    || eqb c 32
    || eqb c 0x85
    || eqb c 0xa0
    || eqb c 0x1680
    || (leb 0x2000 c && leb c 0x200a)
    || eqb c 0x2028
    || eqb c 0x2029
    || eqb c 0x202f
    || eqb c 0x205f
    || eqb c 0x3000

abbrev pub push_head : Char → List String → List String
push_head c [] = (String.◌∷◌ c String.[]) ∷ []
push_head c (p ∷ ps) = (String.◌∷◌ c p) ∷ ps

-- The parts between the characters that pass the test.
pub split_by : (ℕ → Bool) → String → List String
split_by sep String.[] = String.[] ∷ []
split_by sep (String.◌∷◌ c s) =
    let rest = split_by sep s in if sep (code c) then String.[] ∷ rest else push_head c rest

-- strings.Split at one character
unfoldable pub split : ℕ → String → List String
unfolding split_by
split sep s = split_by (eqb sep) s

-- strings.Fields
unfoldable pub fields : String → List String
unfolding split_by is_space
fields s = keep (λ w. not (w == "")) (split_by is_space s)

trim_left : String → String
trim_left String.[] = String.[]
trim_left (String.◌∷◌ c s) =
    let rest = trim_left s in if is_space (code c) then rest else String.◌∷◌ c s

trim_right : String → String
trim_right String.[] = String.[]
trim_right (String.◌∷◌ c s) =
    let rest = trim_right s in if is_space (code c) && rest == "" then "" else String.◌∷◌ c rest

-- strings.TrimSpace
unfoldable pub trim_space : String → String
unfolding trim_left trim_right is_space
trim_space s = trim_right (trim_left s)

-- strings.TrimSuffix(s, "/")
unfoldable pub trim_suffix : ℕ → String → String
trim_suffix x String.[] = String.[]
trim_suffix x (String.◌∷◌ c s) =
    let rest = trim_suffix x s in
    if s == "" then (if eqb (code c) x then "" else String.◌∷◌ c s) else String.◌∷◌ c rest

-- strings.TrimRight(s, "/")
unfoldable pub trim_right_of : ℕ → String → String
trim_right_of x String.[] = String.[]
trim_right_of x (String.◌∷◌ c s) =
    let rest = trim_right_of x s in if rest == "" && eqb (code c) x then "" else String.◌∷◌ c rest

abbrev pub push_first : Char → Option (String × String) → Option (String × String)
push_first c none = none
push_first c (some (a, b)) = some (String.◌∷◌ c a, b)

-- strings.Cut at one character: what stands before and after the first one
unfoldable pub cut : ℕ → String → Option (String × String)
cut x String.[] = none
cut x (String.◌∷◌ c s) =
    let rest = push_first c (cut x s) in if eqb (code c) x then some ("", s) else rest

-- The same at the last one.
unfoldable pub cut_last : ℕ → String → Option (String × String)
cut_last x String.[] = none
cut_last x (String.◌∷◌ c s) = elim (cut_last x s) [
  | none ↦ if eqb (code c) x then some ("", s) else none
  | some (a, b) ↦ some (String.◌∷◌ c a, b)
]

-- What stands after a prefix; none for a text without it.
unfoldable pub cut_prefix : (prefix s : String) → Option String
cut_prefix String.[] s = some s
cut_prefix (String.◌∷◌ c prefix) String.[] = none
cut_prefix (String.◌∷◌ c prefix) (String.◌∷◌ d s) =
    let rest = cut_prefix prefix s in if eqb (code c) (code d) then rest else none

-- strings.Join
unfoldable pub join : String → List String → String
join sep [] = ""
join sep (s ∷ []) = s
join sep (s ∷ (t ∷ ts)) = append s (append sep (join sep (t ∷ ts)))

-- strings.ContainsRune
unfoldable pub has : ℕ → String → Bool
has x String.[] = false
has x (String.◌∷◌ c s) = eqb (code c) x || has x s

split_tests :
    (split b',' "a,,b" ≡ "a" ∷ "" ∷ "b" ∷ [])
    × (split b'.' "" ≡ "" ∷ [])
    × (fields "  a b   c " ≡ "a" ∷ "b" ∷ "c" ∷ [])
    × (trim_space " a b  " ≡ "a b")
    × (trim_suffix b'/' "https://x//" ≡ "https://x/")
    × (trim_right_of b'/' "https://x//" ≡ "https://x")
    × (cut_last b':' "1:2:3" ≡ some ("1:2", "3"))
    × (cut b'/' "10.0.0.0/8" ≡ some ("10.0.0.0", "8"))
unfolding split fields trim_space trim_suffix trim_right_of cut cut_last
split_tests = (refl, refl, refl, refl, refl, refl, refl, refl)
