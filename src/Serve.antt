-- ===== src/Serve.antt =====
-- cmd/serve.go: what runServe makes of the configuration, up to the start of the server, and
-- the choice of the TLS mode in pkg/server/server.go: Start. Whether a log file can be opened for
-- appending is a parameter.
pub mod Startup
pub mod Ready
pub mod LeastPrivilege
pub mod BlankLists
mod Examples
use talosctl_oidc.Base.{
  ℕ, ◌==◌, String, Bool, true, false, not, ◌&&◌, ◌||◌, List, [], ◌∷◌, Option, none, some, Result,
  ok, err, if◌then◌else◌, is_empty, is_positive, ℤ, pos,
}
use talosctl_oidc.Clock.{minute}
use talosctl_oidc.Ratelimit.{Limiter, new as new_limiter}
use talosctl_oidc.Allowlist.{Allowlist, ParseError, new as new_allowlist}
use talosctl_oidc.Rbac.{Mapper, new_mapper}
use talosctl_oidc.TalosApi.{Issuer, new_issuer}
use talosctl_oidc.Config.{
  Host, Settings, ResolvedConfig, ConfigError, load, validate, apply_defaults, load_client_secret,
  parse_cert_ttl,
}
use talosctl_oidc.Server.{Config}

-- The server.Config that runServe builds, and the path of the audit log that its logger writes.
pub record Setup : Type 0 where
  pub listen_addr : String
  pub issuer : Issuer
  pub cert_ttl : ℤ
  pub roles : List String
  pub issuer_url : String
  pub client_id : String
  pub client_secret : String
  pub endpoints : List String
  pub tls_cert_file : String
  pub tls_key_file : String
  pub insecure : Bool
  pub data_dir : String
  pub audit_log : String
  pub cert_log : Option String
  pub admin_token : String
  pub rate_limiter : Option Limiter
  pub allowlist : Option Allowlist
  pub rbac_mapper : Option Mapper

pub data ServeError : Type 0 where
  bad_config : ConfigError → ServeError
  no_audit_log no_cert_log : ServeError
  bad_allowlist : ParseError → ServeError

-- audit.NewLogger: whether it opens; it writes to the standard output for "" and "-".
unfoldable pub logger_opens : (String → Bool) → String → Bool
logger_opens can_open path = path == "" || path == "-" || can_open path

-- The certificate log, where one is configured.
unfoldable pub open_cert_log : (String → Bool) → String → Result ServeError (Option String)
open_cert_log can_open path =
    if path == "" then ok none else if can_open path then ok (some path) else err no_cert_log

unfoldable pub make_limiter : ResolvedConfig → Option Limiter
make_limiter rc =
    if is_positive rc.rate_limit_requests
    then some (
        new_limiter rc.rate_limit_requests
          (if is_positive rc.rate_limit_window then rc.rate_limit_window else pos minute)
          rc.trusted_proxies)
    else none

unfoldable pub make_allowlist : ResolvedConfig → Result ServeError (Option Allowlist)
make_allowlist rc =
    if is_empty rc.ip_allowlist
    then ok none
    else elim (new_allowlist rc.ip_allowlist rc.trusted_proxies) [
      | err e ↦ err (bad_allowlist e)
      | ok a ↦ ok (some a)
    ]

unfoldable pub make_mapper : ResolvedConfig → Option Mapper
make_mapper rc = if is_empty rc.rbac.rules then none else some (new_mapper rc.rbac.rules rc.roles)

unfoldable pub make_setup : ResolvedConfig → ℤ → Option String → Option Allowlist → Setup
make_setup rc ttl cert_log a = record {
  listen_addr = rc.listen;
  issuer = new_issuer rc.talos_config rc.endpoints;
  cert_ttl = ttl;
  roles = rc.roles;
  issuer_url = rc.issuer_url;
  client_id = rc.client_id;
  client_secret = rc.client_secret;
  endpoints = rc.endpoints;
  tls_cert_file = rc.tls_cert;
  tls_key_file = rc.tls_key;
  insecure = rc.insecure;
  data_dir = rc.data_dir;
  audit_log = rc.audit_log;
  cert_log = cert_log;
  admin_token = rc.admin_token;
  rate_limiter = make_limiter rc;
  allowlist = a;
  rbac_mapper = make_mapper rc;
}

-- runServe behind ParseCertTTL.
unfoldable pub build : (String → Bool) → ResolvedConfig → ℤ → Result ServeError Setup
build can_open rc ttl =
    if not (logger_opens can_open rc.audit_log)
    then err no_audit_log
    else elim (open_cert_log can_open rc.cert_log) [
      | err e ↦ err e
      | ok cert_log ↦ elim (make_allowlist rc) [
        | err e ↦ err e
        | ok a ↦ ok (make_setup rc ttl cert_log a)
      ]
    ]

module _ (h : Host) (can_open : String → Bool) where
  -- runServe behind Validate.
  unfoldable pub finish : ResolvedConfig → Result ServeError Setup
  finish rc = elim (load_client_secret h rc) [
    | err e ↦ err (bad_config e)
    | ok rc' ↦ elim (parse_cert_ttl h rc') [
      | err e ↦ err (bad_config e)
      | ok ttl ↦ build can_open rc' ttl
    ]
  ]

  -- runServe up to server.New, for the file that the flag names.
  unfoldable pub prepare : String → Result ServeError Setup
  prepare config_file = elim (load h config_file) [
    | err e ↦ err (bad_config e)
    | ok loaded ↦ elim (validate (apply_defaults loaded)) [
      | some e ↦ err (bad_config e)
      | none ↦ finish (apply_defaults loaded)
    ]
  ]

-- The part of server.Config that the exchange reads, for a lifetime that is not negative.
unfoldable pub server_config : Setup → ℕ → Config
server_config setup ttl = record {
  issuer = setup.issuer;
  cert_ttl = ttl;
  roles = setup.roles;
  issuer_url = setup.issuer_url;
  client_id = setup.client_id;
  client_secret = setup.client_secret;
  endpoints = setup.endpoints;
  admin_token = setup.admin_token;
  rbac_mapper = setup.rbac_mapper;
}

pub data TlsMode : Type 0 where
  provided : String → String → TlsMode
  plain_http self_signed : TlsMode

-- The choice of Start.
unfoldable pub tls_mode : Setup → TlsMode
tls_mode setup =
    if not (setup.tls_cert_file == "") && not (setup.tls_key_file == "")
    then provided setup.tls_cert_file setup.tls_key_file
    else if setup.insecure
    then plain_http
    else self_signed
