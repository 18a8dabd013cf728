-- ===== src/Serve/Examples.antt =====
-- A start from a file with one rule and an allowlist, and the same with blank lists in the environment.
use talosctl_oidc.Base.{
  ◌==◌, ◌≡◌, ◌≢◌, refl, String, true, false, ◌||◌, [], ◌∷◌, none, some, ok, any, if◌then◌else◌, pos,
  arith, eq_iff,
}
use talosctl_oidc.Clock.{hour}
use talosctl_oidc.Text.{split, trim_space, has, join}
use talosctl_oidc.Config.{
  Host, Settings, empty_config, load, load_file, merge, env_or_default, env_list, env_bool,
  env_parsed, split_csv, validate, missing, apply_defaults, load_client_secret, parse_cert_ttl,
}
use talosctl_oidc.Config.Csv.{IsEntry, split_csv-join}
use talosctl_oidc.Rbac.{new_mapper}
use talosctl_oidc.Rbac.Roles.{applies}
use talosctl_oidc.TalosApi.{new_issuer}
use talosctl_oidc.Server.Toy.{world, request, server, response, handle_exchange_test}
use talosctl_oidc.Server.Exchange.{handle_exchange}
use talosctl_oidc.Server.Exchange.Issued.{IssuedFor}
use talosctl_oidc.Server.Guards.{screened_exchange}
use talosctl_oidc.Serve.{
  Setup, prepare, finish, build, make_setup, make_limiter, make_allowlist, make_mapper,
  open_cert_log, logger_opens, server_config,
}
use talosctl_oidc.Serve.Ready.{IsReady, prepare-IsReady}
use talosctl_oidc.Serve.LeastPrivilege.{Runs, handle_exchange-applies}
use talosctl_oidc.Serve.BlankLists.{prepare-admin, prepare-open}

-- The file has a rule and no roles.
abbrev file : Settings
file = record empty_config {
  issuer_url = "https://idp";
  client_id = "talos";
  endpoints = "10.0.0.1" ∷ [];
  cert_ttl = "1h";
  rbac = record {
    rules = record { claim = "groups"; value = "ops"; roles = "os:operator" ∷ [] } ∷ [];
  };
}

abbrev host : Host
host = record {
  getenv = λ key. if key == "TALOSCTL_OIDC_CONFIG" then "/config.yaml" else "";
  read_file = λ path. some "";
  unmarshal = λ content. some file;
  parse_duration = λ text. some (pos hour);
  scan_int = λ text. none;
}

abbrev loaded : Settings
loaded = file

abbrev setup : Setup
setup = record {
  listen_addr = ":8443";
  issuer = record { talos_config_path = ""; endpoints = "10.0.0.1" ∷ [] };
  cert_ttl = pos hour;
  roles = [];
  issuer_url = "https://idp";
  client_id = "talos";
  client_secret = "";
  endpoints = "10.0.0.1" ∷ [];
  tls_cert_file = "";
  tls_key_file = "";
  insecure = false;
  data_dir = "";
  audit_log = "";
  cert_log = none;
  admin_token = "";
  rate_limiter = none;
  allowlist = none;
  rbac_mapper = server.cfg.rbac_mapper;
}

load_test : load host "" ≡ ok loaded
unfolding load load_file merge env_or_default env_list env_bool env_parsed
load_test = refl

prepare_test : prepare host (λ path. false) "" ≡ ok setup
unfolding prepare finish build make_setup make_limiter make_allowlist make_mapper open_cert_log
    logger_opens load load_file merge env_or_default env_list env_bool env_parsed validate missing
    apply_defaults load_client_secret parse_cert_ttl new_mapper new_issuer
prepare_test = refl

prepare-IsReady_example : IsReady setup
prepare-IsReady_example = prepare-IsReady host (λ path. false) "" {setup = setup} prepare_test

server-Runs : Runs setup server
unfolding server_config
server-Runs = (hour, refl, refl)

handle_exchange-applies_example :
    (issued : IssuedFor world request server response) × (any
        (applies issued.tc.claims)
        loaded.rbac.rules
      ≡ true)
handle_exchange-applies_example =
    handle_exchange-applies host (λ path. false) "" loaded setup world request server response
      load_test prepare_test refl refl server-Runs handle_exchange_test

-- The file lists a role and an allowlist; the environment sets both lists to a comma.
abbrev narrow : Settings
narrow = record file {
  roles = "os:reader" ∷ [];
  ip_allowlist = "10.0.0.0/8" ∷ [];
  rbac = record { rules = [] };
}

abbrev blank_host : Host
blank_host = record host {
  getenv = λ key.
      if key == "TALOSCTL_OIDC_CONFIG"
      then "/config.yaml"
      else if key == "TALOSCTL_OIDC_ROLES" || key == "TALOSCTL_OIDC_IP_ALLOWLIST"
      then ","
      else "";
  unmarshal = λ content. some narrow;
}

abbrev blank_loaded : Settings
blank_loaded = record narrow { roles = []; ip_allowlist = [] }

abbrev open_setup : Setup
open_setup = record setup { roles = "os:admin" ∷ []; rbac_mapper = none }

comma_blank : split_csv "," ≡ []
unfolding split_csv split trim_space
comma_blank = refl

comma_set : ◌≢◌ {A = String} "," ""
comma_set = ground (arith, eq_iff "," "")

blank_load_test : load blank_host "" ≡ ok blank_loaded
unfolding load load_file merge env_or_default env_list env_bool env_parsed split_csv split
    trim_space
blank_load_test = refl

blank_prepare_test : prepare blank_host (λ path. false) "" ≡ ok open_setup
unfolding prepare finish build make_setup make_limiter make_allowlist make_mapper open_cert_log
    logger_opens load load_file merge env_or_default env_list env_bool env_parsed validate missing
    apply_defaults load_client_secret parse_cert_ttl new_mapper new_issuer split_csv split
    trim_space
blank_prepare_test = refl

prepare-admin_example : (open_setup.roles ≡ "os:admin" ∷ []) × (open_setup.rbac_mapper ≡ none)
prepare-admin_example =
    prepare-admin blank_host (λ path. false) "" blank_loaded open_setup blank_load_test
      blank_prepare_test comma_set comma_blank refl

prepare-open_example :
    screened_exchange world request open_setup.allowlist server
    ≡ handle_exchange world request server
prepare-open_example =
    prepare-open blank_host (λ path. false) "" blank_loaded open_setup world request server
      blank_load_test blank_prepare_test comma_set comma_blank

network_IsEntry : IsEntry "10.0.0.0/8"
unfolding trim_space has
network_IsEntry = (refl, refl, ground (arith, eq_iff "10.0.0.0/8" ""))

address_IsEntry : IsEntry "192.168.1.7"
unfolding trim_space has
address_IsEntry = (refl, refl, ground (arith, eq_iff "192.168.1.7" ""))

split_csv-join_test :
    split_csv (join "," ("10.0.0.0/8" ∷ "192.168.1.7" ∷ [])) ≡ "10.0.0.0/8" ∷ "192.168.1.7" ∷ []
split_csv-join_test =
    split_csv-join ("10.0.0.0/8" ∷ "192.168.1.7" ∷ []) (network_IsEntry, (address_IsEntry, tt))
