-- ===== src/Net/Parse.antt =====
-- Go's `netip.ParseAddr`, which `net.ParseIP` and `net.ParseCIDR` call: the text of an address
-- without a zone, as the family (true is IPv4) and the 128-bit value.
use Prim.Native.Char.{code}
use talosctl_oidc.Base.{
  ℕ, zero, suc, ◌+◌, ◌-◌, ◌*◌, ◌/◌, ◌%◌, ◌==◌, String, Bool, true, false, ◌&&◌, ◌||◌, not, List, [],
  ◌∷◌, ◌++◌, Option, none, some, ◌>>=◌, leb, ltb, eqb, length, if◌then◌else◌,
}
use talosctl_oidc.Text.{split, has, push_first}

-- The value of a character as a digit, at most 15.
digit : ℕ → Option ℕ
digit c =
    if leb b'0' c && leb c b'9'
    then some (c - b'0')
    else if leb b'a' c && leb c b'f'
    then some (c - b'a' + 10)
    else if leb b'A' c && leb c b'F'
    then some (c - b'A' + 10)
    else none

-- The digits of a text, all below the base.
digits : ℕ → String → Option (List ℕ)
unfolding digit
digits base String.[] = some []
digits base (String.◌∷◌ c s) = elim (digits base s) [
  | none ↦ none
  | some ds ↦ do d ← digit (code c); if ltb d base then some (d ∷ ds) else none
]

value : ℕ → ℕ → List ℕ → ℕ
value base acc [] = acc
value base acc (d ∷ ds) = value base (acc * base + d) ds

-- One decimal octet: one to three digits, at most 255, and no leading zero.
octet : String → Option ℕ
unfolding digits value
octet s = elim (digits 10 s) [
  | none ↦ none
  | some [] ↦ none
  | some (d ∷ ds) ↦
      let n = value 10 d ds in
      if (eqb d 0 && not (eqb (length ds) 0)) || ltb 255 n then none else some n
]

parse_v4 : String → Option ℕ
unfolding octet split
parse_v4 s = elim (split b'.' s) [
  | a ∷ b ∷ c ∷ d ∷ [] ↦ do
    w ← octet a
    x ← octet b
    y ← octet c
    z ← octet d
    some (((w * 256 + x) * 256 + y) * 256 + z)
  | _ ↦ none
]

-- One hexadecimal field: one to four digits.
field : String → Option ℕ
unfolding digits value
field s = elim (digits 16 s) [
  | none ↦ none
  | some ds ↦ if eqb (length ds) 0 || ltb 4 (length ds) then none else some (value 16 0 ds)
]

-- Fields between colons; the last may be a dotted IPv4 address, which is worth two.
groups : List String → Option (List ℕ)
unfolding field parse_v4 has
groups [] = some []
groups (p ∷ []) =
    if has b'.' p
    then (do n ← parse_v4 p; some (n / 65536 ∷ n % 65536 ∷ []))
    else (do n ← field p; some (n ∷ []))
groups (p ∷ (q ∷ ps)) = elim (groups (q ∷ ps)) [
  | none ↦ none
  | some ns ↦ do n ← field p; some (n ∷ ns)
]

-- strings.Cut(s, "::")
cut_colons : String → Option (String × String)
cut_colons String.[] = none
cut_colons (String.◌∷◌ c String.[]) = none
cut_colons (String.◌∷◌ c (String.◌∷◌ d s)) =
    let later = push_first c (cut_colons (String.◌∷◌ d s)) in
    if eqb (code c) b':' && eqb (code d) b':' then some ("", s) else later

side : String → Option (List ℕ)
unfolding groups split
side s = if s == "" then some [] else groups (split b':' s)

zeros : ℕ → List ℕ
zeros zero = []
zeros (suc n) = 0 ∷ zeros n

-- An ellipsis stands for at least one field of zeros.
expand : List ℕ → List ℕ → Option ℕ
unfolding value zeros
expand ls rs =
    let n = length ls + length rs in
    if ltb n 8 then some (value 65536 0 (ls ++ (zeros (8 - n) ++ rs))) else none

parse_v6 : String → Option ℕ
unfolding cut_colons side groups split expand value has
parse_v6 s = elim (cut_colons s) [
  | none ↦ do
    ns ← groups (split b':' s)
    if eqb (length ns) 8 then some (value 65536 0 ns) else none
  | some (l, r) ↦ do ls ← if has b'.' l then none else side l; rs ← side r; expand ls rs
]

-- The family is that of the first dot or colon.
looks_v4 : String → Option Bool
looks_v4 String.[] = none
looks_v4 (String.◌∷◌ c s) =
    let later = looks_v4 s in
    if eqb (code c) b'.' then some true else if eqb (code c) b':' then some false else later

-- `(false, ip)` for an IPv6 text, `(true, ip)` with the IPv4-mapped value for an IPv4 one.
unfoldable pub parse_addr : String → Option (Bool × ℕ)
unfolding looks_v4 parse_v4 parse_v6
parse_addr s = elim (looks_v4 s) [
  | none ↦ none
  | some true ↦ do n ← parse_v4 s; some (true, 0xffff * 4294967296 + n)
  | some false ↦ do n ← parse_v6 s; some (false, n)
]

-- The decimal number of a mask's length.
unfoldable pub decimal : String → Option ℕ
unfolding digits value
decimal s = elim (digits 10 s) [
  | none ↦ none
  | some ds ↦ if eqb (length ds) 0 then none else some (value 10 0 ds)
]
