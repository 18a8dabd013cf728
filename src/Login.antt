-- ===== src/Login.antt =====
-- cmd/login.go: how a login gets its ID token, from the cache, by a refresh or from the provider. The
-- network, the browser and the times are what the worlds of pkg/oidc have them; each call of the
-- keychain has its own way to behave.
pub mod Obtained
pub mod Renewal
pub mod Round
pub mod Cycle
pub mod Served
pub mod Toy
mod Examples
use talosctl_oidc.Base.{
  ℕ, zero, suc, ◌+◌, ◌==◌, String, Bool, true, false, not, ◌&&◌, ◌||◌, List, [], ◌∷◌, Option, none,
  some, Result, ok, err, if◌then◌else◌, is_empty, ℤ, pos, negsuc,
}
use talosctl_oidc.Clock.{hour}
use talosctl_oidc.Text.Laws.{◌+++◌}
use talosctl_oidc.Keychain.{
  StoredToken, is_expired, has_refresh_token, Access, Stores, store, retrieve,
}
use talosctl_oidc.Oidc.Provider.{discover}
use talosctl_oidc.Oidc.Tokens.{TokenResponse, refresh_access_token}
use talosctl_oidc.Oidc.Device.{Polls, duration}
use talosctl_oidc.Oidc.Callback.{AuthConfig, AuthError, World}
use talosctl_oidc.Oidc.Auth.{Waiting, add, authenticate, authenticate_device}

-- loginFlags
pub record Flags : Type 0 where
  pub provider : String
  pub client_id : String
  pub client_secret : String
  pub scopes : List String
  pub listen_addrs : List String
  pub callback_port : ℕ
  pub redirect_url : String
  pub local_cert : String
  pub local_key : String
  pub device_code : Bool
  pub context_name : String
  pub server_url : String
  pub server_ca : String
  pub insecure : Bool
  pub watch : Bool

pub record LoginWorld : Type 0 where
  pub oidc : World
  pub polls : Polls
  pub fuel : ℕ
  pub device_start : ℕ
  pub waiting : Waiting
  -- The three calls of the keychain: Retrieve, Store after a refresh, Store after a login.
  pub reading : Access
  pub refreshing : Access
  pub caching : Access
  -- When the cached token is looked at, and when a refresh is answered.
  pub now : ℕ
  pub refreshed_at : ℕ
  -- The printing of a port.
  pub print : ℕ → String

pub data LoginError : Type 0 where
  authentication : AuthError → LoginError
  no_id_token : LoginError

unfoldable pub callback_listen_addresses : LoginWorld → Flags → List String
callback_listen_addresses w flags =
    if is_empty flags.listen_addrs
    then ("127.0.0.1:" +++ w.print flags.callback_port) ∷ []
    else flags.listen_addrs

unfoldable pub auth_config : LoginWorld → Flags → AuthConfig
auth_config w flags = record {
  issuer_url = flags.provider;
  client_id = flags.client_id;
  client_secret = flags.client_secret;
  scopes = flags.scopes;
  listen_addresses = callback_listen_addresses w flags;
  redirect_url = flags.redirect_url;
  tls_cert_file = flags.local_cert;
  tls_key_file = flags.local_key;
}

-- `authenticate(ctx, authCfg)`; none where the login is not over.
unfoldable pub log_in : LoginWorld → Flags → Option (Result AuthError StoredToken)
log_in w flags =
    if flags.device_code
    then authenticate_device w.oidc w.polls (auth_config w flags) w.fuel w.device_start
    else authenticate w.oidc (auth_config w flags) w.waiting

-- The expiry of a refreshed token.
abbrev refreshed_expiry : ℕ → ℤ → ℕ
refreshed_expiry now (pos zero) = now + hour
refreshed_expiry now (pos (suc n)) = add now (duration (pos (suc n)))
refreshed_expiry now (negsuc n) = add now (duration (negsuc n))

unfoldable pub refreshed_token : ℕ → StoredToken → TokenResponse → StoredToken
refreshed_token now t response = record {
  access_token = response.access_token;
  refresh_token = if response.refresh_token == "" then t.refresh_token else response.refresh_token;
  id_token = response.id_token;
  expires_at = refreshed_expiry now response.expires_in;
  issuer = t.issuer;
  client_id = t.client_id;
}

-- The refresh of a stored token, at the provider and for the client it is from; none where it fails.
unfoldable pub refresh : LoginWorld → Flags → StoredToken → Option StoredToken
refresh w flags t = elim (discover w.oidc.transport w.oidc.provider_of t.issuer) [
  | err e ↦ none
  | ok provider ↦
      elim (refresh_access_token w.oidc.post w.oidc.token_of provider t.client_id
        flags.client_secret t.refresh_token flags.scopes) [
          | err e ↦ none
          | ok response ↦ some (refreshed_token w.refreshed_at t response)
        ]
]

abbrev pub Obtained : Type 0
Obtained = Option (Stores × Result LoginError String)

abbrev pub id_token_of : StoredToken → Result LoginError String
id_token_of t = if t.id_token == "" then err no_id_token else ok t.id_token

-- Behind `authenticate`.
unfoldable pub after_login :
    LoginWorld → Flags → Result AuthError StoredToken → Stores → Stores × Result LoginError String
after_login w flags (err e) s = (s, err (authentication e))
after_login w flags (ok t) s = ((store w.caching flags.context_name t s).0, id_token_of t)

unfoldable pub full_authentication : LoginWorld → Flags → Stores → Obtained
full_authentication w flags s = elim (log_in w flags) [
  | none ↦ none
  | some r ↦ some (after_login w flags r s)
]

unfoldable pub refresh_or_login : LoginWorld → Flags → StoredToken → Stores → Obtained
refresh_or_login w flags t s = elim (refresh w flags t) [
  | none ↦ full_authentication w flags s
  | some t' ↦
      let s' = (store w.refreshing flags.context_name t' s).0 in
      if not (t'.id_token == "") then some (s', ok t'.id_token) else full_authentication w flags s'
]

-- What is done with the token that the keychain gave.
unfoldable pub use_stored : LoginWorld → Flags → Option StoredToken → Stores → Obtained
use_stored w flags none s = full_authentication w flags s
use_stored w flags (some t) s =
    if not (is_expired w.now t) && not (t.id_token == "")
    then some (s, ok t.id_token)
    else if has_refresh_token t
    then refresh_or_login w flags t s
    else full_authentication w flags s

unfoldable pub obtain_id_token : LoginWorld → Flags → Stores → Obtained
obtain_id_token w flags s = use_stored w flags (retrieve w.reading flags.context_name s) s
