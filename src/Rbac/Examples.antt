-- ===== src/Rbac/Examples.antt =====
-- The mapping of roles at concrete rules and claims.
use talosctl_oidc.Base.{◌≡◌, refl, ◌&&◌, [], ◌∷◌, any, contains, lookup, if◌then◌else◌}
use talosctl_oidc.Text.{fields}
use talosctl_oidc.Claims.{Claims, str, arr, nil, cons}
use talosctl_oidc.Rbac.{Mapper, matches_value, add_role, add_roles, try_rule, try_rules, map_roles}
use talosctl_oidc.Rbac.Roles.{applies, map_roles_lem}

abbrev claims : Claims
claims =
    ("groups", arr (cons (str "dev") (cons (str "ops") nil))) ∷ ("scope", str "read write") ∷ []

abbrev mapper : Mapper
mapper = record {
  rules =
      record { claim = "groups"; value = "ops"; roles = "os:operator" ∷ [] }
      ∷ record { claim = "groups"; value = "admins"; roles = "os:admin" ∷ [] }
      ∷ record { claim = "scope"; value = "write"; roles = "os:operator" ∷ "os:reader" ∷ [] }
      ∷ [];
  default_roles = "os:reader" ∷ [];
}

map_roles_tests :
    (map_roles mapper claims ≡ "os:operator" ∷ "os:reader" ∷ [])
    × (map_roles mapper [] ≡ "os:reader" ∷ [])
unfolding map_roles try_rules try_rule add_roles add_role matches_value fields lookup
map_roles_tests = (refl, refl)

map_roles_lem_example : contains "os:admin" (map_roles mapper claims) ≡ (
    if any (applies claims) mapper.rules
    then any (λ rule. applies claims rule && contains "os:admin" rule.roles) mapper.rules
    else contains "os:admin" mapper.default_roles)
map_roles_lem_example = map_roles_lem mapper claims "os:admin"
