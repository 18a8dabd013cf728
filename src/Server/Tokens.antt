-- ===== src/Server/Tokens.antt =====
-- pkg/server/server.go: validateToken and the key set that it uses.
use talosctl_oidc.Base.{
  ℕ, ◌*◌, String, [], Option, none, some, Result, ok, err, lookup, or_else, pos,
}
use talosctl_oidc.Clock.{minute}
use talosctl_oidc.Claims.{Claims, as_string}
use talosctl_oidc.Audit.{Event}
use talosctl_oidc.Oidc.Jwks.{Jwks}
use talosctl_oidc.Oidc.Signature.{Crypto}
use talosctl_oidc.Oidc.JwksCache.{Cache, Fetched, FetchError, new_cache, get}
use talosctl_oidc.Oidc.Jwt.{Json, JwtError, validate_id_token}
use talosctl_oidc.Oidc.Provider.{Transport, ProviderConfig, DiscoverError, discover, fetch_jwks}
use talosctl_oidc.TalosApi.{Machinery, IssueError}
use talosctl_oidc.Server.{Server}

pub data TokenError : Type 0 where
  discovery_failed : DiscoverError → TokenError
  no_jwks : FetchError → TokenError
  invalid : JwtError → TokenError

-- What one request meets outside the server: the network, the decoders, the cryptography, the
-- Talos API, and the times at which it is handled (`now`), at which a fetched key set and at which
-- a certificate came (`fetched_at`, `done`).
pub record World : Type 0 where
  pub now : ℕ
  pub fetched_at : ℕ
  pub done : ℕ
  -- time.Time.Unix
  pub unix : ℕ → ℕ
  pub transport : Transport
  pub provider_of : String → Option ProviderConfig
  pub jwks_of : String → Option Jwks
  pub crypto : Crypto
  pub json : Json
  -- The `id_token` of a request's body: none for invalid JSON, "" where there is none.
  pub id_token_of : String → Option String
  pub token_hash : String → String
  pub talos : Machinery
  -- admin.FingerprintFromPEM
  pub fingerprint : String → Option String
  pub marshal : Event → Option String
  pub request_id : String
  -- `err.Error()`
  pub token_error_text : TokenError → String
  pub issue_error_text : IssueError → String

pub record TokenClaims : Type 0 where
  pub subject : String
  pub email : String
  pub issuer : String
  pub claims : Claims

-- jwksCacheForIssuer: discovery once, and again after a failure.
unfoldable pub jwks_cache_for_issuer : World → Server → Server × Result TokenError Cache
jwks_cache_for_issuer w s = elim s.jwks_cache [
  | some cache ↦ (s, ok cache)
  | none ↦ elim (discover w.transport w.provider_of s.cfg.issuer_url) [
    | err e ↦ (s, err (discovery_failed e))
    | ok provider ↦
        let cache = new_cache provider.jwks_uri (pos (5 * minute)) in
        (record s { jwks_cache = some cache }, ok cache)
  ]
]

-- The key set from the cache, which the server keeps.
unfoldable pub current_jwks : World → Cache → Server → Server × Result TokenError Jwks
current_jwks w cache s =
    let fetched : Fetched = record {
      result = fetch_jwks w.transport w.jwks_of cache.jwks_uri;
      at = w.fetched_at;
    } in
    let (cache', result) = get w.now w.now fetched cache in
    (
      record s { jwks_cache = some cache' },
      elim result [ err e ↦ err (no_jwks e) | ok jwks ↦ ok jwks ],
    )

unfoldable pub claims_of : Claims → TokenClaims
claims_of claims = record {
  subject = or_else (as_string (lookup "sub" claims)) "";
  email = or_else (as_string (lookup "email" claims)) "";
  issuer = or_else (as_string (lookup "iss" claims)) "";
  claims = claims;
}

-- The call of ValidateIDToken, with no list of algorithms.
unfoldable pub check_token : World → String → Jwks → Server → Result TokenError TokenClaims
check_token w id_token jwks s =
    elim (validate_id_token w.crypto w.json (w.unix w.now) id_token jwks s.cfg.issuer_url
      s.cfg.client_id s.cfg.client_secret []) [
        | err e ↦ err (invalid e)
        | ok claims ↦ ok (claims_of claims)
      ]

unfoldable pub with_jwks :
    World → String → Server × Result TokenError Jwks → Server × Result TokenError TokenClaims
with_jwks w id_token (s, err e) = (s, err e)
with_jwks w id_token (s, ok jwks) = (s, check_token w id_token jwks s)

unfoldable pub with_cache :
    World → String → Server × Result TokenError Cache → Server × Result TokenError TokenClaims
with_cache w id_token (s, err e) = (s, err e)
with_cache w id_token (s, ok cache) = with_jwks w id_token (current_jwks w cache s)

unfoldable pub validate_token : World → String → Server → Server × Result TokenError TokenClaims
validate_token w id_token s = with_cache w id_token (jwks_cache_for_issuer w s)
