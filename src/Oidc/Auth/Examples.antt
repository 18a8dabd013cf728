-- ===== src/Oidc/Auth/Examples.antt =====
-- A login in the browser whose callback is followed by a forged one.
use talosctl_oidc.Base.{◌≡◌, refl, true, false, [], ◌∷◌, none, some, ok, pos, arith, eq_iff}
use talosctl_oidc.Clock.{second}
use talosctl_oidc.Text.{trim_suffix}
use talosctl_oidc.Oidc.Provider.{ProviderConfig, discover, well_known, check_provider}
use talosctl_oidc.Oidc.Tokens.{TokenResponse, Pkce, exchange_code, token_of}
use talosctl_oidc.Oidc.Callback.{
  AuthConfig, Query, World, new_callback_server, callback_tls, check_redirect, listen_all, called,
  handle_callback, send_result, send_error, first_result, happen, take_result, wait_for_callback,
}
use talosctl_oidc.Oidc.Auth.{
  generate_pkce, generate_state, new_stored_token, redeem, await, Waiting, authenticate,
}
use talosctl_oidc.Oidc.Auth.Calls.{HasCode}
use talosctl_oidc.Oidc.Auth.Approved.{AuthenticatedBy, authenticate-AuthenticatedBy}
use talosctl_oidc.Oidc.Auth.Reached.{authenticate-token}

abbrev provider : ProviderConfig
provider = record {
  issuer = "https://idp";
  authorization_endpoint = "https://idp/auth";
  token_endpoint = "https://idp/token";
  userinfo_endpoint = "";
  jwks_uri = "https://idp/keys";
  device_authorization_endpoint = "";
}

abbrev response : TokenResponse
response = record {
  access_token = "a";
  token_type = "Bearer";
  expires_in = pos 300;
  refresh_token = "r";
  id_token = "h.p.s";
  scope = "openid";
}

abbrev cfg : AuthConfig
cfg = record {
  issuer_url = "https://idp";
  client_id = "cli";
  client_secret = "";
  scopes = [];
  listen_addresses = "127.0.0.1:8900" ∷ [];
  redirect_url = "";
  tls_cert_file = "";
  tls_key_file = "";
}

abbrev world : World
world = record {
  transport = λ url. some (record { status = 200; body = "{}" });
  provider_of = λ body. some provider;
  post = λ url form. some (record { status = 200; body = "token" });
  token_of = λ body. some response;
  device_of = λ body. none;
  verifier_bytes = some (1 ∷ []);
  state_bytes = some (2 ∷ []);
  base64_url = λ bytes. "b64";
  sha256 = λ text. 3 ∷ [];
  hex = λ bytes. "02";
  encode = λ form. "";
  loads_pair = λ cert key. true;
  parse_url = λ url. none;
  listens = λ addr. true;
  now = second;
}

abbrev query : Query
query = record { error = ""; error_description = ""; code = "c"; state = "02" }

abbrev forged : Query
forged = record { error = "access_denied"; error_description = ""; code = ""; state = "" }

abbrev waiting : Waiting
waiting = record {
  events = called query ∷ called forged ∷ [];
  is_cancelled = false;
  choice = take_result;
}

abbrev pkce : Pkce
pkce = record { verifier = "b64"; challenge = "b64"; method = "S256" }

discover_test : discover world.transport world.provider_of cfg.issuer_url ≡ ok provider
unfolding discover well_known check_provider trim_suffix
discover_test = refl

generate_pkce_test : generate_pkce world ≡ some pkce
unfolding generate_pkce
generate_pkce_test = refl

generate_state_test : generate_state world ≡ some "02"
unfolding generate_state
generate_state_test = refl

new_callback_server_test : new_callback_server world cfg ≡ ok "http://127.0.0.1:8900/callback"
unfolding new_callback_server callback_tls check_redirect listen_all
new_callback_server_test = refl

exchange_code_test :
    exchange_code world.post world.token_of provider "cli" "" "c" "http://127.0.0.1:8900/callback"
      pkce
    ≡ ok response
unfolding exchange_code token_of
exchange_code_test = refl

query-HasCode : HasCode query
query-HasCode = (refl, ground (arith, eq_iff "c" ""))

authenticate-token_example :
    authenticate world cfg waiting ≡ some (ok (new_stored_token second response cfg))
authenticate-token_example =
    authenticate-token world cfg query (called forged ∷ []) false provider pkce "02"
      "http://127.0.0.1:8900/callback" response discover_test generate_pkce_test generate_state_test
      new_callback_server_test query-HasCode refl exchange_code_test

authenticate_test :
    authenticate world cfg waiting ≡ some (ok (new_stored_token second response cfg))
unfolding authenticate discover well_known check_provider trim_suffix generate_pkce generate_state
    new_callback_server callback_tls check_redirect listen_all await happen handle_callback
    send_result send_error wait_for_callback first_result redeem exchange_code token_of
authenticate_test = refl

authenticate-AuthenticatedBy_example :
    AuthenticatedBy world cfg waiting.events (new_stored_token second response cfg)
authenticate-AuthenticatedBy_example =
    authenticate-AuthenticatedBy world cfg waiting (new_stored_token second response cfg)
      authenticate_test
