-- ===== src/Rbac/Roles.antt =====
-- Which roles a user gets.
use mathlib.Core.List.{Memᴰ}
use talosctl_oidc.Base.{
  ◌<◌, ◌==◌, ◌≡◌, ◌↔◌, inl, inr, String, Bool, true, false, ◌&&◌, ◌||◌, List, [], ◌∷◌, none, some,
  if◌then◌else◌, any, length, lookup, contains, contains-append, contains_iff, Bool-cases,
  Option-cases, arith, eq_iff,
}
use talosctl_oidc.Claims.{Value, null, bool, num, str, arr, obj, strs, Items, texts, Claims}
use talosctl_oidc.Text.{fields}
use talosctl_oidc.Rbac.{
  Rule, Mapper, matches_value, add_role, add_roles, try_rule, try_rules, map_roles,
}

-- What a claim's value has to be for a rule that expects the text `e`.
pub data Fits (e : String) : Value → Type 0 where
  -- The very text.
  exact : {s : String} → s ≡ e → Fits e (str s)
  -- One word of several.
  word : {s : String} → 1 < length (fields s) → Memᴰ e (fields s) → Fits e (str s)
  -- A text of the array.
  item : {items : Items} → Memᴰ e (texts items) → Fits e (arr items)
  listed : {l : List String} → Memᴰ e l → Fits e (strs l)

Fits-matches : (e : String) {v : Value} → Fits e v → matches_value v e ≡ true
unfolding matches_value
Fits-matches e (exact {s} h) = ground (arith, eq_iff s e)
Fits-matches e (word {s} many m) = ground (arith, contains_iff e (fields s))
Fits-matches e (item {items} m) = (contains_iff e (texts items)).1 m
Fits-matches e (listed {l} m) = (contains_iff e l).1 m

matches-Fits : (v : Value) (e : String) → matches_value v e ≡ true → Fits e v
unfolding matches_value
matches-Fits (str s) e h = elim (Bool-cases (s == e)) [
  | inl same ↦ exact ((eq_iff s e).0 same)
  | inr other ↦ word (ground arith) ((contains_iff e (fields s)).0 (ground arith))
]
matches-Fits (arr items) e h = item ((contains_iff e (texts items)).0 h)
matches-Fits (strs l) e h = listed ((contains_iff e l).0 h)
matches-Fits null e h = cc
matches-Fits (bool b) e h = cc
matches-Fits (num n) e h = cc
matches-Fits (obj ms) e h = cc

-- A claim's value matches a rule's expected text exactly when it is that text, or a text of
-- several words with that word among them, or an array or a list that has that text.
pub matches_value_iff : (v : Value) (e : String) → (matches_value v e ≡ true) ↔ Fits e v
matches_value_iff v e = (matches-Fits v e, Fits-matches e)

-- Whether a rule applies to the claims.
abbrev pub applies : Claims → Rule → Bool
applies claims rule = elim (lookup rule.claim claims) [
  | none ↦ false
  | some value ↦ matches_value value rule.value
]

contains-add_role :
    (r role : String) (set : List String)
    → contains r (add_role set role) ≡ (contains r set || role == r)
unfolding add_role
contains-add_role r role set = ground (arith, contains-append r set (role ∷ []), eq_iff role r)

contains-add_roles :
    (r : String) (set roles : List String)
    → contains r (add_roles set roles) ≡ (contains r set || contains r roles)
unfolding add_roles
contains-add_roles r set [] = ground arith
contains-add_roles r set (role ∷ roles) =
    ground (arith, contains-add_roles r (add_role set role) roles, contains-add_role r role set)

try_rule_lem :
    (r : String) (claims : Claims) (rule : Rule) (set : List String) (matched : Bool)
    → (contains r (try_rule claims rule (set, matched)).0
        ≡ (contains r set || (applies claims rule && contains r rule.roles)))
      × ((try_rule claims rule (set, matched)).1 ≡ (matched || applies claims rule))
unfolding try_rule
try_rule_lem r claims rule set matched = elim (Option-cases (lookup rule.claim claims)) [
  | inl e ↦ ground arith
  | inr (v, e) ↦ ground (arith, contains-add_roles r set rule.roles)
]

try_rules_lem :
    (r : String) (claims : Claims) (rules : List Rule) (set : List String) (matched : Bool)
    → (contains r (try_rules claims rules (set, matched)).0
        ≡ (contains r set || any (λ rule. applies claims rule && contains r rule.roles) rules))
      × ((try_rules claims rules (set, matched)).1 ≡ (matched || any (applies claims) rules))
unfolding try_rules
try_rules_lem r claims [] set matched = ground arith
try_rules_lem r claims (rule ∷ rules) set matched =
    let found = try_rule claims rule (set, matched) in
    ground
      (arith, try_rule_lem r claims rule set matched, try_rules_lem r claims rules found.0 found.1)

-- Where a rule applies, the roles are exactly those of the rules that apply; where none does, and
-- where there are no rules, they are the default roles.
pub map_roles_lem :
    (m : Mapper) (claims : Claims) (r : String)
    → contains r (map_roles m claims) ≡ (
        if any (applies claims) m.rules
        then any (λ rule. applies claims rule && contains r rule.roles) m.rules
        else contains r m.default_roles)
unfolding map_roles
map_roles_lem m claims r = ground (arith, try_rules_lem r claims m.rules [] false)
