-- ===== src/Oidc/Callback.antt =====
-- pkg/oidc/auth.go: the server for the callback of a login in the browser. The network, the loading of a
-- key pair and the parsing of a URL are parameters. The two channels are lists with a bound.
use talosctl_oidc.Base.{
  ℕ, ◌==◌, String, Bool, true, false, not, ◌&&◌, ◌||◌, List, [], ◌∷◌, ◌++◌, Option, none, some,
  Result, ok, err, if◌then◌else◌, ltb, is_empty, length,
}
use talosctl_oidc.Text.Laws.{◌+++◌}
use talosctl_oidc.Oidc.Signature.{Bytes}
use talosctl_oidc.Oidc.Provider.{ProviderConfig, Transport, DiscoverError}
use talosctl_oidc.Oidc.Tokens.{Form, Post, TokenResponse, RequestError, DeviceAuth, DeviceError}
use talosctl_oidc.Oidc.Device.{PollError}

pub record AuthConfig : Type 0 where
  pub issuer_url : String
  pub client_id : String
  pub client_secret : String
  pub scopes : List String
  pub listen_addresses : List String
  pub redirect_url : String
  pub tls_cert_file : String
  pub tls_key_file : String

pub record Url : Type 0 where
  pub scheme : String
  pub host : String
  pub path : String

-- A query of the callback: the values that `query.Get` finds, "" where there is none.
pub record Query : Type 0 where
  pub error : String
  pub error_description : String
  pub code : String
  pub state : String

pub record AuthResult : Type 0 where
  pub code : String
  pub state : String

pub data CallbackError : Type 0 where
  refused : String → String → CallbackError
  no_code : CallbackError
  serve_failed : String → CallbackError

pub data AuthError : Type 0 where
  no_random half_tls_pair bad_tls_pair no_listen_address bad_redirect_url relative_redirect_url :
      AuthError
  cannot_listen : String → AuthError
  discovery : DiscoverError → AuthError
  callback : CallbackError → AuthError
  cancelled state_mismatch : AuthError
  exchange : RequestError → AuthError
  device : DeviceError → AuthError
  polling : PollError → AuthError

-- What a login meets.
pub record World : Type 0 where
  pub transport : Transport
  pub provider_of : String → Option ProviderConfig
  pub post : Post
  pub token_of : String → Option TokenResponse
  pub device_of : String → Option DeviceAuth
  pub verifier_bytes : Option Bytes
  pub state_bytes : Option Bytes
  pub base64_url : Bytes → String
  pub sha256 : String → Bytes
  pub hex : Bytes → String
  pub encode : Form → String
  pub loads_pair : String → String → Bool
  pub parse_url : String → Option Url
  pub listens : String → Bool
  pub now : ℕ

-- callbackTLSConfig: whether the callback is served over TLS.
unfoldable pub callback_tls : World → AuthConfig → Result AuthError Bool
callback_tls w cfg =
    if cfg.tls_cert_file == "" && cfg.tls_key_file == ""
    then ok false
    else if cfg.tls_cert_file == "" || cfg.tls_key_file == ""
    then err half_tls_pair
    else if w.loads_pair cfg.tls_cert_file cfg.tls_key_file
    then ok true
    else err bad_tls_pair

-- The redirect URI. On which paths the server answers is left out: a query is one that reached it.
unfoldable pub check_redirect : World → AuthConfig → String → Result AuthError String
check_redirect w cfg default_uri =
    if cfg.redirect_url == "" then ok default_uri else elim (w.parse_url cfg.redirect_url) [
      | none ↦ err bad_redirect_url
      | some u ↦
          if u.scheme == "" || u.host == "" then err relative_redirect_url else ok cfg.redirect_url
    ]

unfoldable pub listen_all : World → List String → Result AuthError (Unit {0})
listen_all w [] = ok tt
listen_all w (addr ∷ addrs) =
    let rest = listen_all w addrs in if w.listens addr then rest else err (cannot_listen addr)

-- NewCallbackServer: the redirect URI.
unfoldable pub new_callback_server : World → AuthConfig → Result AuthError String
new_callback_server w cfg = elim cfg.listen_addresses [
  | [] ↦ err no_listen_address
  | addr ∷ addrs ↦ elim (callback_tls w cfg) [
    | err e ↦ err e
    | ok use_tls ↦
        elim (check_redirect w cfg
          ((if use_tls then "https" else "http") +++ ("://" +++ (addr +++ "/callback")))) [
            | err e ↦ err e
            | ok uri ↦ elim (listen_all w (addr ∷ addrs)) [ err e ↦ err e | ok u ↦ ok uri ]
          ]
  ]
]

-- resultCh has room for one result, errCh for an error of each listener and one more.
pub record Channels : Type 0 where
  pub results : List AuthResult
  pub errors : List CallbackError
  pub error_room : ℕ

unfoldable pub send_error : CallbackError → Channels → Channels
send_error e cs =
    if ltb (length cs.errors) cs.error_room then record cs { errors = cs.errors ++ e ∷ [] } else cs

-- A send into a full channel blocks its handler, and changes nothing.
unfoldable pub send_result : AuthResult → Channels → Channels
send_result r cs = if is_empty cs.results then record cs { results = r ∷ [] } else cs

unfoldable pub handle_callback : Query → Channels → Channels
handle_callback q cs =
    if not (q.error == "")
    then send_error (refused q.error q.error_description) cs
    else if q.code == ""
    then send_error no_code cs
    else send_result (record { code = q.code; state = q.state }) cs

-- What happens to the callback server before the wait for it is over.
pub data Event : Type 0 where
  called : Query → Event
  failed : String → Event

unfoldable pub happen : List Event → Channels → Channels
happen [] cs = cs
happen (called q ∷ events) cs = happen events (handle_callback q cs)
happen (failed e ∷ events) cs = happen events (send_error (serve_failed e) cs)

-- The choice that `select` makes between what is ready.
pub data Choice : Type 0 where
  take_result take_error take_cancel : Choice

unfoldable pub first_result : Channels → Option (Result AuthError AuthResult)
first_result cs = elim cs.results [ [] ↦ none | r ∷ rs ↦ some (ok r) ]

unfoldable pub first_error : Channels → Option (Result AuthError AuthResult)
first_error cs = elim cs.errors [ [] ↦ none | e ∷ es ↦ some (err (callback e)) ]

-- WaitForCallback: none where the choice is not ready.
unfoldable pub wait_for_callback : Choice → Bool → Channels → Option (Result AuthError AuthResult)
wait_for_callback take_result is_cancelled cs = first_result cs
wait_for_callback take_error is_cancelled cs = first_error cs
wait_for_callback take_cancel is_cancelled cs = if is_cancelled then some (err cancelled) else none
