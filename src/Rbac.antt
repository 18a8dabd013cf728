-- ===== src/Rbac.antt =====
-- pkg/rbac/rbac.go: the roles that a token's claims give. Go walks over the set of roles in an
-- order of its own; here the order is that of the first mention, and the theorems say nothing of it.
pub mod Roles
mod Examples
use talosctl_oidc.Base.{
  ◌<◌, ◌==◌, String, Bool, true, false, ◌&&◌, ◌||◌, not, List, [], ◌∷◌, ◌++◌, Option, none, some,
  if◌then◌else◌, any, length, ltb, is_empty, lookup, contains,
}
use talosctl_oidc.Claims.{Value, null, bool, num, str, arr, obj, strs, Items, texts, Claims}
use talosctl_oidc.Text.{fields}

-- config.RBACRule
pub record Rule : Type 0 where
  pub claim : String
  pub value : String
  pub roles : List String

pub record Mapper : Type 0 where
  pub rules : List Rule
  pub default_roles : List String

unfoldable pub new_mapper : List Rule → List String → Mapper
new_mapper rules default_roles = record { rules = rules; default_roles = default_roles }

unfoldable pub matches_value : Value → String → Bool
matches_value (str v) expected =
    v == expected || (ltb 1 (length (fields v)) && contains expected (fields v))
matches_value (arr items) expected = contains expected (texts items)
matches_value (strs v) expected = contains expected v
matches_value _ expected = false

-- `roleSet[role] = struct{}{}`
unfoldable pub add_role : List String → String → List String
add_role set role = if contains role set then set else set ++ role ∷ []

unfoldable pub add_roles : List String → List String → List String
add_roles set [] = set
add_roles set (role ∷ roles) = add_roles (add_role set role) roles

-- The state of the loop over the rules: the set of roles, and whether a rule has matched.
abbrev pub Found : Type 0
Found = List String × Bool

unfoldable pub try_rule : Claims → Rule → Found → Found
try_rule claims rule (set, matched) = elim (lookup rule.claim claims) [
  | none ↦ (set, matched)
  | some value ↦
      if matches_value value rule.value then (add_roles set rule.roles, true) else (set, matched)
]

unfoldable pub try_rules : Claims → List Rule → Found → Found
try_rules claims [] found = found
try_rules claims (rule ∷ rules) found = try_rules claims rules (try_rule claims rule found)

unfoldable pub map_roles : Mapper → Claims → List String
map_roles m claims =
    let (set, matched) = try_rules claims m.rules ([], false) in
    if is_empty m.rules then m.default_roles else if matched then set else m.default_roles

unfoldable pub has_rules : Mapper → Bool
has_rules m = not (is_empty m.rules)
