-- ===== src/Serve/BlankLists.antt =====
-- cmd/serve.go with pkg/config: a list of the environment that is set and has no entry.
use talosctl_oidc.Base.{
  ◌≡◌, ◌≢◌, ◌∙◌, refl, ap, String, Bool, List, [], ◌∷◌, Option, none, ok, inl, inr, Result-cases,
  arith, eq_iff,
}
use talosctl_oidc.Request.{Request}
use talosctl_oidc.Config.{
  Host, Settings, ResolvedConfig, load, load_file, merge, env_list, config_path, split_csv,
  apply_defaults,
}
use talosctl_oidc.Allowlist.{Allowlist}
use talosctl_oidc.Serve.{Setup, prepare, make_setup, make_mapper, make_allowlist}
use talosctl_oidc.Serve.Startup.{prepare-loaded}
use talosctl_oidc.Server.{Server}
use talosctl_oidc.Server.Tokens.{World}
use talosctl_oidc.Server.Exchange.{handle_exchange}
use talosctl_oidc.Server.Guards.{screened_exchange}

env_list-blank :
    (h : Host) (key : String) (fallback : List String)
    → h.getenv key ≢ ""
    → split_csv (h.getenv key) ≡ []
    → env_list h key fallback ≡ []
unfolding env_list
env_list-blank h key fallback set blank = ground (arith, eq_iff (h.getenv key) "")

load-merge :
    (h : Host) (config_file : String) {loaded : ResolvedConfig}
    → load h config_file ≡ ok loaded
    → (file : Settings) × (load_file h (config_path h config_file) ≡ ok file)
      × (loaded ≡ merge h file)
unfolding load
load-merge h config_file {loaded} l =
    elim (Result-cases (load_file h (config_path h config_file))) [
      | inr (e, f) ↦ ground arith
      | inl (file, f) ↦ (file, f, ground arith)
    ]

make_mapper-secret :
    (rc : ResolvedConfig) (secret : String)
    → make_mapper (record rc { client_secret = secret }) ≡ make_mapper rc
unfolding make_mapper
make_mapper-secret rc secret = refl

make_allowlist-none :
    (rc : ResolvedConfig) {a : Option Allowlist}
    → rc.ip_allowlist ≡ []
    → make_allowlist (apply_defaults rc) ≡ ok a
    → a ≡ none
unfolding make_allowlist apply_defaults
make_allowlist-none rc {a} blank made = ground arith

apply_defaults-admin :
    (rc : ResolvedConfig)
    → rc.roles ≡ []
    → rc.rbac.rules ≡ []
    → ((apply_defaults rc).roles ≡ "os:admin" ∷ []) × (make_mapper (apply_defaults rc) ≡ none)
unfolding apply_defaults make_mapper
apply_defaults-admin rc no_roles no_rules = (rw (no_roles, no_rules) refl, rw no_rules refl)

-- Where the environment's list of roles is set but has no entry, such as ",", and the configuration
-- has no rules, a server that starts has the one static role os:admin and no mapper, so that every
-- user gets that role, whatever roles the file lists.
pub prepare-admin :
    (h : Host) (can_open : String → Bool) (config_file : String) (loaded : ResolvedConfig)
    (setup : Setup)
    → load h config_file ≡ ok loaded
    → prepare h can_open config_file ≡ ok setup
    → h.getenv "TALOSCTL_OIDC_ROLES" ≢ ""
    → split_csv (h.getenv "TALOSCTL_OIDC_ROLES") ≡ []
    → loaded.rbac.rules ≡ []
    → (setup.roles ≡ "os:admin" ∷ []) × (setup.rbac_mapper ≡ none)
unfolding merge make_setup
prepare-admin h can_open config_file loaded setup l e set blank no_rules =
    let b = prepare-loaded h can_open config_file {loaded = loaded} {setup = setup} l e in
    let (file, read, merged) = load-merge h config_file {loaded = loaded} l in
    let no_roles =
      ap (λ (x : Settings). x.roles) merged
      ∙ env_list-blank h "TALOSCTL_OIDC_ROLES" file.roles set blank in
    let defaults = apply_defaults-admin loaded no_roles no_rules in
    (
      ap (λ (x : Setup). x.roles) b.built ∙ defaults.0,
      ap (λ (x : Setup). x.rbac_mapper) b.built
          ∙ make_mapper-secret (apply_defaults loaded) b.secret
          ∙ defaults.1,
    )

-- Where the environment's allowlist is set but has no entry, such as ",", a server that starts has
-- no allowlist, whatever the file lists: every request that comes as far as the allowlist, which
-- stands behind the rate limiter, goes on to the handler of the exchange, from any address.
pub prepare-open :
    (h : Host) (can_open : String → Bool) (config_file : String) (loaded : ResolvedConfig)
    (setup : Setup) (w : World) (r : Request) (s : Server)
    → load h config_file ≡ ok loaded
    → prepare h can_open config_file ≡ ok setup
    → h.getenv "TALOSCTL_OIDC_IP_ALLOWLIST" ≢ ""
    → split_csv (h.getenv "TALOSCTL_OIDC_IP_ALLOWLIST") ≡ []
    → screened_exchange w r setup.allowlist s ≡ handle_exchange w r s
unfolding merge make_setup screened_exchange
prepare-open h can_open config_file loaded setup w r s l e set blank =
    let b = prepare-loaded h can_open config_file {loaded = loaded} {setup = setup} l e in
    let (file, read, merged) = load-merge h config_file {loaded = loaded} l in
    let blank_list =
      ap (λ (x : Settings). x.ip_allowlist) merged
      ∙ env_list-blank h "TALOSCTL_OIDC_IP_ALLOWLIST" file.ip_allowlist set blank in
    let off =
      ap (λ (x : Setup). x.allowlist) b.built
      ∙ make_allowlist-none loaded {a = b.allowlist} blank_list b.lists in
    ap (λ a. screened_exchange w r a s) off
