-- ===== src/Oidc/Auth.antt =====
-- pkg/oidc/auth.go with the PKCE and authorization URL of provider.go: the login in a browser and
-- the login with a device code. Random bytes, base64, SHA-256, the encoding of a query, the browser
-- and the network are parameters.
pub mod Calls
pub mod Approved
pub mod Reached
mod Examples
use talosctl_oidc.Base.{
  ℕ, zero, suc, ◌+◌, ◌-◌, ◌^◌, ◌==◌, String, Bool, true, false, not, ◌&&◌, ◌||◌, List, [], ◌∷◌,
  ◌++◌, Option, none, some, Result, ok, err, if◌then◌else◌, eqb, ltb, is_empty, length, ℤ, pos,
  negsuc,
}
use talosctl_oidc.Text.{join}
use talosctl_oidc.Text.Laws.{◌+++◌}
use talosctl_oidc.Keychain.{StoredToken}
use talosctl_oidc.Oidc.Signature.{Bytes}
use talosctl_oidc.Oidc.Provider.{ProviderConfig, Transport, DiscoverError, discover}
use talosctl_oidc.Oidc.Tokens.{
  Form, Post, TokenResponse, Pkce, RequestError, exchange_code, DeviceAuth, DeviceError,
  request_device_code,
}
use talosctl_oidc.Oidc.Callback.{
  AuthConfig, Query, AuthResult, CallbackError, AuthError, no_random, discovery, callback,
  cancelled, state_mismatch, exchange, device, polling, World, new_callback_server, Channels, Event,
  happen, Choice, wait_for_callback,
}
use talosctl_oidc.Oidc.Device.{Polls, PollError, duration, poll_device_token}

unfoldable pub scopes_or_default : AuthConfig → List String
scopes_or_default cfg =
    if is_empty cfg.scopes
    then "openid" ∷ "profile" ∷ "email" ∷ "offline_access" ∷ []
    else cfg.scopes

unfoldable pub generate_pkce : World → Option Pkce
generate_pkce w = elim w.verifier_bytes [
  | none ↦ none
  | some bytes ↦
      let verifier = w.base64_url bytes in
      some (record {
        verifier = verifier;
        challenge = w.base64_url (w.sha256 verifier);
        method = "S256";
      })
]

unfoldable pub generate_state : World → Option String
generate_state w = elim w.state_bytes [ none ↦ none | some bytes ↦ some (w.hex bytes) ]

unfoldable pub build_authorization_url :
    World → ProviderConfig → String → String → List String → String → Pkce → String
build_authorization_url w provider client_id redirect_uri scopes state pkce =
    provider.authorization_endpoint
    +++ ("?"
        +++ w.encode (
            ("response_type", "code")
            ∷ ("client_id", client_id)
            ∷ ("redirect_uri", redirect_uri)
            ∷ ("scope", join " " scopes)
            ∷ ("state", state)
            ∷ ("code_challenge", pkce.challenge)
            ∷ ("code_challenge_method", pkce.method)
            ∷ ("access_type", "offline")
            ∷ ("prompt", "consent")
            ∷ []))

-- `time.Now().Add(d)`; a date is long after Go's zero time, where the subtraction would stop.
abbrev pub add : ℕ → ℕ → ℕ
add now d = if ltb d (2 ^ 63) then now + d else now - (2 ^ 64 - d)

abbrev or_hour : ℤ → ℤ
or_hour (pos zero) = pos 3600
or_hour (pos (suc n)) = pos (suc n)
or_hour (negsuc n) = negsuc n

unfoldable pub new_stored_token : ℕ → TokenResponse → AuthConfig → StoredToken
new_stored_token now response cfg = record {
  access_token = response.access_token;
  refresh_token = response.refresh_token;
  id_token = response.id_token;
  expires_at = add now (duration (or_hour response.expires_in));
  issuer = cfg.issuer_url;
  client_id = cfg.client_id;
}

-- Authenticate behind the wait for the callback.
unfoldable pub redeem :
    World
    → AuthConfig
    → ProviderConfig
    → String
    → String
    → Pkce
    → Result AuthError AuthResult
    → Result AuthError StoredToken
redeem w cfg provider redirect_uri state pkce (err e) = err e
redeem w cfg provider redirect_uri state pkce (ok result) =
    if not (result.state == state)
    then err state_mismatch
    else elim (exchange_code w.post w.token_of provider cfg.client_id cfg.client_secret result.code
        redirect_uri pkce) [
          | err e ↦ err (exchange e)
          | ok response ↦ ok (new_stored_token w.now response cfg)
        ]

-- What happens while the login waits.
pub record Waiting : Type 0 where
  pub events : List Event
  pub is_cancelled : Bool
  pub choice : Choice

abbrev pub channels : AuthConfig → Channels
channels cfg = record { results = []; errors = []; error_room = length cfg.listen_addresses + 1 }

-- Authenticate behind the start of the callback server; none where the wait is not over.
unfoldable pub await :
    World
    → AuthConfig
    → Waiting
    → ProviderConfig
    → Pkce
    → String
    → String
    → Option (Result AuthError StoredToken)
await w cfg waiting provider pkce state redirect_uri =
    elim (wait_for_callback waiting.choice waiting.is_cancelled
      (happen waiting.events (channels cfg))) [
        | none ↦ none
        | some r ↦ some (redeem w cfg provider redirect_uri state pkce r)
      ]

unfoldable pub authenticate : World → AuthConfig → Waiting → Option (Result AuthError StoredToken)
authenticate w cfg waiting = elim (discover w.transport w.provider_of cfg.issuer_url) [
  | err e ↦ some (err (discovery e))
  | ok provider ↦ elim (generate_pkce w) [
    | none ↦ some (err no_random)
    | some pkce ↦ elim (generate_state w) [
      | none ↦ some (err no_random)
      | some state ↦ elim (new_callback_server w cfg) [
        | err e ↦ some (err e)
        | ok redirect_uri ↦ await w cfg waiting provider pkce state redirect_uri
      ]
    ]
  ]
]

-- AuthenticateDevice behind the polling.
unfoldable pub keep_device :
    World → AuthConfig → Result PollError TokenResponse → Result AuthError StoredToken
keep_device w cfg (err e) = err (polling e)
keep_device w cfg (ok response) = ok (new_stored_token w.now response cfg)

-- On fuel for the polls: none where it runs out.
unfoldable pub authenticate_device :
    World → Polls → AuthConfig → ℕ → ℕ → Option (Result AuthError StoredToken)
authenticate_device w polls cfg fuel start =
    elim (discover w.transport w.provider_of cfg.issuer_url) [
      | err e ↦ some (err (discovery e))
      | ok provider ↦
          elim (request_device_code w.post w.device_of provider cfg.client_id cfg.client_secret
            (scopes_or_default cfg)) [
              | err e ↦ some (err (device e))
              | ok auth ↦
                  elim (poll_device_token polls provider cfg.client_id cfg.client_secret auth fuel
                    start) [ none ↦ none | some r ↦ some (keep_device w cfg r) ]
            ]
    ]
