-- ===== src/Oidc/Tokens.antt =====
-- pkg/oidc/provider.go: the requests to the token endpoint for a code and for a refresh token, and
-- the request of a device code. The answer to a form that is posted is a parameter.
use talosctl_oidc.Base.{
  ◌==◌, String, not, List, [], ◌∷◌, ◌++◌, Option, none, some, Result, ok, err, if◌then◌else◌, eqb,
  is_empty, ℤ, pos, is_positive, ◌||◌,
}
use talosctl_oidc.Text.{join}
use talosctl_oidc.Oidc.Provider.{Answer, ProviderConfig}

abbrev pub Form : Type 0
Form = List (String × String)

-- postForm: none where no whole answer came.
abbrev pub Post : Type 0
Post = String → Form → Option Answer

pub record TokenResponse : Type 0 where
  pub access_token : String
  pub token_type : String
  pub expires_in : ℤ
  pub refresh_token : String
  pub id_token : String
  pub scope : String

pub record Pkce : Type 0 where
  pub verifier : String
  pub challenge : String
  pub method : String

pub data RequestError : Type 0 where
  no_answer bad_status bad_body : RequestError

-- `data.Set("client_secret", …)` and `data.Set("scope", …)`, where there is one
unfoldable pub with_secret : String → Form
with_secret secret = if secret == "" then [] else ("client_secret", secret) ∷ []

unfoldable pub with_scopes : List String → Form
with_scopes scopes = if is_empty scopes then [] else ("scope", join " " scopes) ∷ []

-- What ExchangeCode and RefreshAccessToken do with the answer.
unfoldable pub token_of :
    (String → Option TokenResponse) → Option Answer → Result RequestError TokenResponse
token_of decode none = err no_answer
token_of decode (some answer) =
    if not (eqb answer.status 200)
    then err bad_status
    else elim (decode answer.body) [ none ↦ err bad_body | some token ↦ ok token ]

unfoldable pub code_form : String → String → String → String → Pkce → Form
code_form client_id secret code redirect_uri pkce =
    ("grant_type", "authorization_code")
    ∷ ("code", code)
    ∷ ("redirect_uri", redirect_uri)
    ∷ ("client_id", client_id)
    ∷ ("code_verifier", pkce.verifier)
    ∷ with_secret secret

unfoldable pub exchange_code :
    Post
    → (String → Option TokenResponse)
    → ProviderConfig
    → String
    → String
    → String
    → String
    → Pkce
    → Result RequestError TokenResponse
exchange_code post decode provider client_id secret code redirect_uri pkce =
    token_of decode
      (post provider.token_endpoint (code_form client_id secret code redirect_uri pkce))

unfoldable pub refresh_form : String → String → String → List String → Form
refresh_form client_id secret refresh_token scopes =
    ("grant_type", "refresh_token")
    ∷ ("refresh_token", refresh_token)
    ∷ ("client_id", client_id)
    ∷ (with_scopes scopes ++ with_secret secret)

unfoldable pub refresh_access_token :
    Post
    → (String → Option TokenResponse)
    → ProviderConfig
    → String
    → String
    → String
    → List String
    → Result RequestError TokenResponse
refresh_access_token post decode provider client_id secret refresh_token scopes =
    token_of decode
      (post provider.token_endpoint (refresh_form client_id secret refresh_token scopes))

pub record DeviceAuth : Type 0 where
  pub device_code : String
  pub user_code : String
  pub verification_uri : String
  pub verification_uri_complete : String
  pub expires_in : ℤ
  pub interval : ℤ

pub data DeviceError : Type 0 where
  no_device_endpoint missing_codes : DeviceError
  request_failed : RequestError → DeviceError

-- The defaults for what the provider leaves out, and the check of the codes.
unfoldable pub check_device : DeviceAuth → Result DeviceError DeviceAuth
check_device auth =
    if auth.device_code == "" || auth.user_code == ""
    then err missing_codes
    else ok (record auth {
      interval = if is_positive auth.interval then auth.interval else pos 5;
      expires_in = if is_positive auth.expires_in then auth.expires_in else pos 600;
    })

unfoldable pub device_form : String → String → List String → Form
device_form client_id secret scopes =
    ("client_id", client_id) ∷ (with_scopes scopes ++ with_secret secret)

unfoldable pub device_of :
    (String → Option DeviceAuth) → Option Answer → Result DeviceError DeviceAuth
device_of decode none = err (request_failed no_answer)
device_of decode (some answer) =
    if not (eqb answer.status 200)
    then err (request_failed bad_status)
    else elim (decode answer.body) [
      | none ↦ err (request_failed bad_body)
      | some auth ↦ check_device auth
    ]

unfoldable pub request_device_code :
    Post
    → (String → Option DeviceAuth)
    → ProviderConfig
    → String
    → String
    → List String
    → Result DeviceError DeviceAuth
request_device_code post decode provider client_id secret scopes =
    if provider.device_authorization_endpoint == ""
    then err no_device_endpoint
    else device_of decode
        (post provider.device_authorization_endpoint (device_form client_id secret scopes))
