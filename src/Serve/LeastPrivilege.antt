-- ===== src/Serve/LeastPrivilege.antt =====
-- cmd/serve.go with pkg/config, pkg/rbac and pkg/server: the roles that a configuration gives out.
use talosctl_oidc.Base.{
  ◌≡◌, ◌∙◌, refl, sym, ap, String, Bool, true, false, List, [], ◌∷◌, ok, any, is_empty, contains,
  arith, eq_iff, ℕ, pos,
}
use talosctl_oidc.Request.{Request}
use talosctl_oidc.Rbac.{Rule, map_roles, has_rules, new_mapper}
use talosctl_oidc.Rbac.Roles.{applies, map_roles_lem}
use talosctl_oidc.Config.{Host, ResolvedConfig, load, apply_defaults}
use talosctl_oidc.Serve.{Setup, prepare, make_setup, make_mapper, server_config}
use talosctl_oidc.Serve.Startup.{BuiltFrom, prepare-loaded}
use talosctl_oidc.Server.{Config, Server, CertResponse, certificate, write_json}
use talosctl_oidc.Server.Tokens.{World, TokenClaims}
use talosctl_oidc.Server.Exchange.{assigned_roles, handle_exchange}
use talosctl_oidc.Server.Exchange.Issued.{IssuedFor, handle_exchange-IssuedFor}

is_empty-contains : (xs : List String) → is_empty xs ≡ false → (r : String) × (contains r xs ≡ true)
is_empty-contains [] h = cc
is_empty-contains (x ∷ xs) h = (x, ground (arith, eq_iff x x))

-- A mapper without default roles gives a role only where a rule applies.
map_roles-applies :
    (rules : List Rule) (tc : TokenClaims)
    → is_empty (map_roles (new_mapper rules []) tc.claims) ≡ false
    → any (applies tc.claims) rules ≡ true
unfolding new_mapper
map_roles-applies rules tc h =
    let some_role = is_empty-contains (map_roles (new_mapper rules []) tc.claims) h in
    ground (arith, map_roles_lem (new_mapper rules []) tc.claims some_role.0, some_role.1)

-- The roles of a server that was built from a configuration with rules.
assigned_roles-rules :
    (rc : ResolvedConfig) (cfg : Config) (tc : TokenClaims)
    → is_empty rc.rbac.rules ≡ false
    → cfg.rbac_mapper ≡ make_mapper rc
    → assigned_roles cfg tc ≡ map_roles (new_mapper rc.rbac.rules rc.roles) tc.claims
unfolding make_mapper assigned_roles new_mapper has_rules
assigned_roles-rules rc cfg tc rules e = rw (e, rules) (rw rules refl)

-- The server runs with what was set up, with a certificate lifetime that is not negative.
abbrev pub Runs : Setup → Server → Type 0
Runs setup s = (ttl : ℕ) × (setup.cert_ttl ≡ pos ttl) × (s.cfg ≡ server_config setup ttl)

Runs-mapper :
    (h : Host) (config_file : String) (loaded : ResolvedConfig) (setup : Setup) (s : Server)
    → BuiltFrom h config_file loaded setup
    → Runs setup s
    → s.cfg.rbac_mapper ≡ make_mapper (apply_defaults loaded)
unfolding server_config make_setup apply_defaults make_mapper
Runs-mapper h config_file loaded setup s b (ttl, lasts, e) =
    ap (λ (cfg : Config). cfg.rbac_mapper) e ∙ ap (λ (x : Setup). x.rbac_mapper) b.built

apply_defaults-rules :
    (rc : ResolvedConfig)
    → is_empty rc.rbac.rules ≡ false
    → ((apply_defaults rc).rbac ≡ rc.rbac) × ((apply_defaults rc).roles ≡ rc.roles)
unfolding apply_defaults
apply_defaults-rules rc h = (refl, ground arith)

-- Least privilege, from the configuration to the certificate: where a server runs with a
-- configuration that has rules and no roles, and a certificate lifetime that is not negative, a
-- certificate is handed out only for a token to whose claims one of these rules applies, whatever
-- else the file and the environment say.
pub handle_exchange-applies :
    (h : Host) (can_open : String → Bool) (config_file : String) (loaded : ResolvedConfig)
    (setup : Setup) (w : World) (r : Request) (s : Server) (c : CertResponse)
    → load h config_file ≡ ok loaded
    → prepare h can_open config_file ≡ ok setup
    → is_empty loaded.rbac.rules ≡ false
    → loaded.roles ≡ []
    → Runs setup s
    → (handle_exchange w r s).1 ≡ write_json (certificate c)
    → (issued : IssuedFor w r s c) × (any (applies issued.tc.claims) loaded.rbac.rules ≡ true)
handle_exchange-applies h can_open config_file loaded setup w r s c l e rules no_roles runs
      answered =
    let b = prepare-loaded h can_open config_file {loaded = loaded} {setup = setup} l e in
    let kept = apply_defaults-rules loaded rules in
    let issued = handle_exchange-IssuedFor w r s c answered in
    let mapped =
      assigned_roles-rules (apply_defaults loaded) s.cfg issued.tc
        (ap (λ x. is_empty x.rules) kept.0 ∙ rules)
        (Runs-mapper h config_file loaded setup s b runs)
      ∙ ap (λ x. map_roles (new_mapper x.rules (apply_defaults loaded).roles) issued.tc.claims)
          kept.0
      ∙ ap (λ x. map_roles (new_mapper loaded.rbac.rules x) issued.tc.claims) (kept.1 ∙ no_roles) in
    (
      issued,
      map_roles-applies loaded.rbac.rules issued.tc
          (ap (λ x. is_empty x) (sym mapped) ∙ issued.some_role),
    )
