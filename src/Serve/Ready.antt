-- ===== src/Serve/Ready.antt =====
-- cmd/serve.go: what a server that starts has.
use talosctl_oidc.Base.{
  ◌≡◌, ◌≢◌, ◌↔◌, ◌⊎◌, inl, inr, refl, sym, subst, String, Bool, true, false, ◌&&◌, [], Option, some,
  ok, is_empty, Bool-cases, arith, eq_iff, ℤ,
}
use talosctl_oidc.Allowlist.{Allowlist}
use talosctl_oidc.Rbac.{Mapper, has_rules, new_mapper}
use talosctl_oidc.Config.{Host, ResolvedConfig, apply_defaults}
use talosctl_oidc.Config.Checks.{IsComplete, is_empty-nil}
use talosctl_oidc.Serve.{Setup, plain_http, prepare, make_setup, make_mapper, tls_mode}
use talosctl_oidc.Serve.Startup.{prepare-BuiltFrom}

-- What a server that starts has: an issuer, a client and an endpoint, plain HTTP exactly where it is asked
-- for, and roles or rules to get them from.
pub record IsReady (setup : Setup) : Type 0 where
  pub has_issuer : setup.issuer_url ≢ ""
  pub has_client : setup.client_id ≢ ""
  pub has_endpoint : setup.endpoints ≢ []
  pub plain : (tls_mode setup ≡ plain_http) ↔ (setup.insecure ≡ true)
  pub some_roles :
      (setup.roles ≢ [])
      ⊎ ((mapper : Mapper) × (setup.rbac_mapper ≡ some mapper) × (has_rules mapper ≡ true))

module _ (rc : ResolvedConfig) (ttl : ℤ) (cert_log : Option String) (a : Option Allowlist) where
  make_setup-plain :
      IsComplete rc
      → (tls_mode (make_setup rc ttl cert_log a) ≡ plain_http)
        ↔ ((make_setup rc ttl cert_log a).insecure ≡ true)
  unfolding make_setup tls_mode
  make_setup-plain c = (
    λ h. ground arith,
    λ h. ground (arith, c.pair, c.secure, eq_iff rc.tls_cert "", eq_iff rc.tls_key ""),
  )

  make_setup-some_roles :
      rc.roles ≢ [] ⊎ (is_empty rc.rbac.rules ≡ false)
      → ((make_setup rc ttl cert_log a).roles ≢ [])
        ⊎ ((mapper : Mapper) × ((make_setup rc ttl cert_log a).rbac_mapper ≡ some mapper)
            × (has_rules mapper ≡ true))
  unfolding make_setup make_mapper new_mapper has_rules
  make_setup-some_roles (inl some_roles) = inl some_roles
  make_setup-some_roles (inr rules) =
      inr (new_mapper rc.rbac.rules rc.roles, rw rules refl, rw rules refl)

  make_setup-IsReady :
      IsComplete rc
      → rc.roles ≢ [] ⊎ (is_empty rc.rbac.rules ≡ false)
      → IsReady (make_setup rc ttl cert_log a)
  unfolding make_setup
  make_setup-IsReady c some_roles = record {
    has_issuer = c.has_issuer;
    has_client = c.has_client;
    has_endpoint = c.has_endpoint;
    plain = make_setup-plain c;
    some_roles = make_setup-some_roles some_roles;
  }

apply_defaults-some_roles :
    (rc : ResolvedConfig)
    → (apply_defaults rc).roles ≢ [] ⊎ (is_empty (apply_defaults rc).rbac.rules ≡ false)
unfolding apply_defaults
apply_defaults-some_roles rc = elim (Bool-cases (is_empty rc.roles && is_empty rc.rbac.rules)) [
  | inl e ↦ inl (ground arith)
  | inr e ↦ elim (Bool-cases (is_empty rc.rbac.rules)) [
    | inl f ↦ inl (λ n. ground (arith, is_empty-nil rc.roles))
    | inr f ↦ inr f
  ]
]

-- A server that starts is ready: whatever the file and the environment are, where runServe gets to
-- the server, the server has an issuer, a client and an endpoint, it speaks plain HTTP exactly where
-- `insecure` is set, and it has static roles or rules that map claims to roles.
pub prepare-IsReady :
    (h : Host) (can_open : String → Bool) (config_file : String) {setup : Setup}
    → prepare h can_open config_file ≡ ok setup
    → IsReady setup
prepare-IsReady h can_open config_file {setup} e =
    let (loaded, b) = prepare-BuiltFrom h can_open config_file {setup = setup} e in
    subst IsReady (sym b.built) (
      make_setup-IsReady (record (apply_defaults loaded) { client_secret = b.secret }) b.ttl
        b.cert_log b.allowlist
        (record {
          has_issuer = b.complete.has_issuer;
          has_client = b.complete.has_client;
          has_endpoint = b.complete.has_endpoint;
          pair = b.complete.pair;
          secure = b.complete.secure;
        })
        (apply_defaults-some_roles loaded))
