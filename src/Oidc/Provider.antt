-- ===== src/Oidc/Provider.antt =====
-- pkg/oidc/provider.go and jwt.go: the discovery document and the key set over HTTP. What a GET
-- of an address answers, and the JSON decoding of a body, are parameters.
use talosctl_oidc.Base.{
  ℕ, ◌==◌, String, Option, none, some, Result, ok, err, if◌then◌else◌, eqb, not,
}
use talosctl_oidc.Text.{trim_suffix}
use talosctl_oidc.Text.Laws.{◌+++◌}
use talosctl_oidc.Oidc.Jwks.{Jwks}
use talosctl_oidc.Oidc.JwksCache.{FetchError, fetch_failed}

-- The answer to a request: its status and its body, as read within the limit.
pub record Answer : Type 0 where
  pub status : ℕ
  pub body : String

-- `none` is a request that got no answer.
abbrev pub Transport : Type 0
Transport = String → Option Answer

pub record ProviderConfig : Type 0 where
  pub issuer : String
  pub authorization_endpoint : String
  pub token_endpoint : String
  pub userinfo_endpoint : String
  pub jwks_uri : String
  pub device_authorization_endpoint : String

pub data DiscoverError : Type 0 where
  no_answer bad_status bad_document no_authorization_endpoint no_token_endpoint : DiscoverError

unfoldable pub well_known : String → String
well_known issuer_url = trim_suffix b'/' issuer_url +++ "/.well-known/openid-configuration"

unfoldable pub check_provider : ProviderConfig → Result DiscoverError ProviderConfig
check_provider config =
    if config.authorization_endpoint == ""
    then err no_authorization_endpoint
    else if config.token_endpoint == ""
    then err no_token_endpoint
    else ok config

unfoldable pub discover :
    Transport → (String → Option ProviderConfig) → String → Result DiscoverError ProviderConfig
discover fetch decode issuer_url = elim (fetch (well_known issuer_url)) [
  | none ↦ err no_answer
  | some answer ↦
      if not (eqb answer.status 200) then err bad_status else elim (decode answer.body) [
        | none ↦ err bad_document
        | some config ↦ check_provider config
      ]
]

unfoldable pub fetch_jwks : Transport → (String → Option Jwks) → String → Result FetchError Jwks
fetch_jwks fetch decode jwks_uri = elim (fetch jwks_uri) [
  | none ↦ err fetch_failed
  | some answer ↦
      if not (eqb answer.status 200)
      then err fetch_failed
      else elim (decode answer.body) [ none ↦ err fetch_failed | some jwks ↦ ok jwks ]
]
