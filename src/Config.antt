-- ===== src/Config.antt =====
-- pkg/config/config.go: the configuration of the server, from a file and from the environment.
-- os.Getenv, os.ReadFile, the YAML decoding, time.ParseDuration and fmt.Sscanf of a number are
-- parameters.
pub mod Csv
pub mod Checks
use Prim.Native.Char.{code}
use talosctl_oidc.Base.{
  ℕ, ◌+◌, ◌==◌, String, Bool, true, false, not, ◌&&◌, ◌||◌, List, [], ◌∷◌, ◌++◌, map, Option, none,
  some, Result, ok, err, if◌then◌else◌, eqb, leb, is_empty, keep, or_else, ℤ, pos, ◌*◌,
}
use talosctl_oidc.Clock.{minute}
use talosctl_oidc.Text.{split, trim_space}
use talosctl_oidc.Rbac.{Rule}

-- RBACConfig
pub record RbacConfig : Type 0 where
  pub rules : List Rule

-- FileConfig and ResolvedConfig, which have the same fields. Their durations are nanoseconds.
pub record Settings : Type 0 where
  pub talos_config : String
  pub issuer_url : String
  pub client_id : String
  pub client_secret : String
  pub client_secret_file : String
  pub listen : String
  pub endpoints : List String
  pub cert_ttl : String
  pub roles : List String
  pub tls_cert : String
  pub tls_key : String
  pub insecure : Bool
  pub data_dir : String
  pub audit_log : String
  pub cert_log : String
  pub admin_token : String
  pub rate_limit_requests : ℤ
  pub rate_limit_window : ℤ
  pub ip_allowlist : List String
  pub trusted_proxies : List String
  pub rbac : RbacConfig

abbrev pub FileConfig : Type 0
FileConfig = Settings

abbrev pub ResolvedConfig : Type 0
ResolvedConfig = Settings

abbrev pub empty_config : FileConfig
empty_config = record {
  talos_config = "";
  issuer_url = "";
  client_id = "";
  client_secret = "";
  client_secret_file = "";
  listen = "";
  endpoints = [];
  cert_ttl = "";
  roles = [];
  tls_cert = "";
  tls_key = "";
  insecure = false;
  data_dir = "";
  audit_log = "";
  cert_log = "";
  admin_token = "";
  rate_limit_requests = pos 0;
  rate_limit_window = pos 0;
  ip_allowlist = [];
  trusted_proxies = [];
  rbac = record { rules = [] };
}

-- What the configuration reads. `scan_int` is the number that Sscanf("%d") finds, none where it
-- leaves its target as it is.
pub record Host : Type 0 where
  pub getenv : String → String
  pub read_file : String → Option String
  pub unmarshal : String → Option FileConfig
  pub parse_duration : String → Option ℤ
  pub scan_int : String → Option ℤ

pub data Missing : Type 0 where
  no_issuer_url no_client_id no_endpoints : Missing

pub data ConfigError : Type 0 where
  unreadable_config bad_config half_tls_pair tls_and_insecure unreadable_secret bad_cert_ttl :
      ConfigError
  not_set : List Missing → ConfigError

-- splitCSV
unfoldable pub split_csv : String → List String
split_csv v = keep (λ p. not (p == "")) (map trim_space (split b',' v))

-- A capital letter of ASCII as the small one.
abbrev fold : ℕ → ℕ
fold c = if leb 65 c && leb c 90 then c + 32 else c

-- strings.EqualFold of two texts; "true" has no letter with another form than the capital one.
unfoldable pub equal_fold : String → String → Bool
equal_fold String.[] String.[] = true
equal_fold String.[] (String.◌∷◌ d t) = false
equal_fold (String.◌∷◌ c s) String.[] = false
equal_fold (String.◌∷◌ c s) (String.◌∷◌ d t) = eqb (fold (code c)) (fold (code d)) && equal_fold s t

module _ (h : Host) where
  unfoldable pub load_file : String → Result ConfigError FileConfig
  load_file path = if path == "" then ok empty_config else elim (h.read_file path) [
    | none ↦ err unreadable_config
    | some content ↦ elim (h.unmarshal content) [ none ↦ err bad_config | some cfg ↦ ok cfg ]
  ]

  unfoldable pub env_or_default : String → String → String
  env_or_default env_key fallback =
      if not (h.getenv env_key == "") then h.getenv env_key else fallback

  -- A list of Load: the environment's, split at its commas, before the file's.
  unfoldable pub env_list : String → List String → List String
  env_list env_key fallback =
      if not (h.getenv env_key == "") then split_csv (h.getenv env_key) else fallback

  unfoldable pub env_bool : String → Bool → Bool
  env_bool env_key fallback =
      let v = h.getenv env_key in if v == "" then fallback else equal_fold v "true" || v == "1"

  -- A number or a duration of Load: the environment's where it is one.
  unfoldable pub env_parsed : (String → Option ℤ) → String → ℤ → ℤ
  env_parsed parse env_key fallback =
      let v = h.getenv env_key in if v == "" then fallback else or_else (parse v) fallback

  -- Load, behind the reading of the file.
  unfoldable pub merge : FileConfig → ResolvedConfig
  merge f = record {
    talos_config = env_or_default "TALOSCTL_OIDC_TALOS_CONFIG" f.talos_config;
    issuer_url = env_or_default "TALOSCTL_OIDC_ISSUER_URL" f.issuer_url;
    client_id = env_or_default "TALOSCTL_OIDC_CLIENT_ID" f.client_id;
    client_secret = env_or_default "TALOSCTL_OIDC_CLIENT_SECRET" f.client_secret;
    client_secret_file = env_or_default "TALOSCTL_OIDC_CLIENT_SECRET_FILE" f.client_secret_file;
    listen = env_or_default "TALOSCTL_OIDC_LISTEN" f.listen;
    endpoints = env_list "TALOSCTL_OIDC_ENDPOINTS" f.endpoints;
    cert_ttl = env_or_default "TALOSCTL_OIDC_CERT_TTL" f.cert_ttl;
    roles = env_list "TALOSCTL_OIDC_ROLES" f.roles;
    tls_cert = env_or_default "TALOSCTL_OIDC_TLS_CERT" f.tls_cert;
    tls_key = env_or_default "TALOSCTL_OIDC_TLS_KEY" f.tls_key;
    insecure = env_bool "TALOSCTL_OIDC_INSECURE" f.insecure;
    data_dir = env_or_default "TALOSCTL_OIDC_DATA_DIR" f.data_dir;
    audit_log = env_or_default "TALOSCTL_OIDC_AUDIT_LOG" f.audit_log;
    cert_log = env_or_default "TALOSCTL_OIDC_CERT_LOG" f.cert_log;
    admin_token = env_or_default "TALOSCTL_OIDC_ADMIN_TOKEN" f.admin_token;
    rate_limit_requests =
        env_parsed h.scan_int "TALOSCTL_OIDC_RATE_LIMIT_REQUESTS" f.rate_limit_requests;
    rate_limit_window =
        env_parsed h.parse_duration "TALOSCTL_OIDC_RATE_LIMIT_WINDOW" f.rate_limit_window;
    ip_allowlist = env_list "TALOSCTL_OIDC_IP_ALLOWLIST" f.ip_allowlist;
    trusted_proxies = env_list "TALOSCTL_OIDC_TRUSTED_PROXIES" f.trusted_proxies;
    rbac = f.rbac;
  }

  abbrev pub config_path : String → String
  config_path path = if path == "" then h.getenv "TALOSCTL_OIDC_CONFIG" else path

  unfoldable pub load : String → Result ConfigError ResolvedConfig
  load path = elim (load_file (config_path path)) [ err e ↦ err e | ok file ↦ ok (merge file) ]

  unfoldable pub load_client_secret : ResolvedConfig → Result ConfigError ResolvedConfig
  load_client_secret rc =
      if rc.client_secret_file == "" then ok rc else elim (h.read_file rc.client_secret_file) [
        | none ↦ err unreadable_secret
        | some content ↦ ok (record rc { client_secret = trim_space content })
      ]

  unfoldable pub parse_cert_ttl : ResolvedConfig → Result ConfigError ℤ
  parse_cert_ttl rc =
      if rc.cert_ttl == ""
      then ok (pos (5 * minute))
      else elim (h.parse_duration rc.cert_ttl) [ none ↦ err bad_cert_ttl | some d ↦ ok d ]

-- What Validate lists, in its order.
unfoldable pub missing : ResolvedConfig → List Missing
missing rc =
    (if rc.issuer_url == "" then no_issuer_url ∷ [] else [])
    ++ (if rc.client_id == "" then no_client_id ∷ [] else [])
    ++ (if is_empty rc.endpoints then no_endpoints ∷ [] else [])

abbrev differ : Bool → Bool → Bool
differ true b = not b
differ false b = b

-- Validate: the error, or none.
unfoldable pub validate : ResolvedConfig → Option ConfigError
validate rc =
    if not (is_empty (missing rc))
    then some (not_set (missing rc))
    else if differ (not (rc.tls_cert == "")) (not (rc.tls_key == ""))
    then some half_tls_pair
    else if not (rc.tls_cert == "") && rc.insecure
    then some tls_and_insecure
    else none

unfoldable pub apply_defaults : ResolvedConfig → ResolvedConfig
apply_defaults rc = record rc {
  listen = if rc.listen == "" then ":8443" else rc.listen;
  roles = if is_empty rc.roles && is_empty rc.rbac.rules then "os:admin" ∷ [] else rc.roles;
}
