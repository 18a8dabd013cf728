-- ===== src/Server/Toy.antt =====
-- A small server and the world around it, and the exchange of a token there.
use talosctl_oidc.Base.{◌*◌, ◌/◌, ◌≡◌, refl, [], ◌∷◌, none, some, ok, lookup}
use talosctl_oidc.Clock.{second, hour}
use talosctl_oidc.Text.{split, trim_suffix}
use talosctl_oidc.Request.{Request}
use talosctl_oidc.Admin.{new_tracker}
use talosctl_oidc.Rbac.{
  has_rules, map_roles, try_rules, try_rule, add_roles, add_role, matches_value,
}
use talosctl_oidc.TalosApi.{issue, options}
use talosctl_oidc.Oidc.Jwks.{find_key, suits, is_alg_compatible}
use talosctl_oidc.Oidc.JwksCache.{get, get_locked, refresh, valid, new_cache}
use talosctl_oidc.Oidc.Signature.{verify_signature, verify_rsa, exponent}
use talosctl_oidc.Oidc.Jwt.{
  validate_id_token, three_parts, check_alg, check_issuer, audience, validate_audience,
  check_expiry, check_not_before, check_signature, check_claims,
}
use talosctl_oidc.Oidc.Provider.{
  Answer, ProviderConfig, discover, well_known, check_provider, fetch_jwks,
}
use talosctl_oidc.Oidc.Toy.{crypto, json, jwks}
use talosctl_oidc.Server.{Server, CertResponse, certificate, write_json, audit_log}
use talosctl_oidc.Server.Tokens.{
  World, validate_token, with_cache, with_jwks, current_jwks, check_token, claims_of,
  jwks_cache_for_issuer,
}
use talosctl_oidc.Server.Exchange.{
  handle_exchange, exchange_token, decide, authorize, deliver, assigned_roles, cert_response,
  note_use,
}

abbrev pub provider : ProviderConfig
provider = record {
  issuer = "https://idp";
  authorization_endpoint = "https://idp/auth";
  token_endpoint = "https://idp/token";
  userinfo_endpoint = "";
  jwks_uri = "https://idp/keys";
  device_authorization_endpoint = "";
}

abbrev pub answer : Answer
answer = record { status = 200; body = "{}" }

abbrev pub world : World
world = record {
  now = second;
  fetched_at = second;
  done = 2 * second;
  unix = λ t. t / second;
  transport = λ url. some answer;
  provider_of = λ body. some provider;
  jwks_of = λ body. some jwks;
  crypto = crypto;
  json = json;
  id_token_of = λ body. some body;
  token_hash = λ token. token;
  talos = record {
    connect = λ options. ok tt;
    generate =
        λ options roles ttl. ok (record { cert_pem = "cert"; key_pem = "key"; ca_pem = "ca" } ∷ []);
  };
  fingerprint = λ pem. some "aa:bb";
  marshal = λ event. some event.subject;
  request_id = "1";
  token_error_text = λ e. "refused";
  issue_error_text = λ e. "failed";
}

abbrev pub server : Server
server = record {
  cfg = record {
    issuer = record { talos_config_path = ""; endpoints = "10.0.0.1" ∷ [] };
    cert_ttl = hour;
    roles = [];
    issuer_url = "https://idp";
    client_id = "talos";
    client_secret = "";
    endpoints = "10.0.0.1" ∷ [];
    admin_token = "";
    rbac_mapper = some (record {
      rules = record { claim = "groups"; value = "ops"; roles = "os:operator" ∷ [] } ∷ [];
      default_roles = [];
    });
  };
  jwks_cache = none;
  detector = none;
  audit = some (record {
    lines = [];
    listeners = [];
    state = record { tracker = new_tracker 0; cert_log = [] };
  });
}

abbrev pub request : Request
request = record {
  method = "POST";
  remote_addr = "10.0.0.7:5000";
  headers = ("Content-Type", "application/json") ∷ [];
  cookie = none;
  body = some "h.p.s";
}

abbrev pub response : CertResponse
response = record {
  ca = "ca";
  cert = "cert";
  key = "key";
  endpoints = "10.0.0.1" ∷ [];
  ttl_seconds = 3600;
}

pub handle_exchange_test :
    (handle_exchange world request server).1 ≡ write_json (certificate response)
unfolding handle_exchange exchange_token decide authorize deliver assigned_roles cert_response
    note_use has_rules map_roles try_rules try_rule add_roles add_role matches_value issue options
    validate_token with_cache with_jwks current_jwks check_token claims_of jwks_cache_for_issuer get
    get_locked refresh valid new_cache discover well_known check_provider fetch_jwks
    validate_id_token three_parts check_alg check_issuer audience validate_audience check_expiry
    check_not_before check_signature check_claims find_key suits is_alg_compatible verify_signature
    verify_rsa exponent split trim_suffix lookup audit_log
handle_exchange_test = refl
