-- ===== src/Oidc/Jwks.antt =====
-- pkg/oidc/jwt.go: a JSON Web Key Set, and the choice of a key for a token's header.
pub mod Choice
use talosctl_oidc.Base.{
  ◌==◌, String, Bool, true, false, ◌&&◌, ◌||◌, not, List, [], ◌∷◌, Option, none, some,
  if◌then◌else◌, contains,
}

pub record Jwk : Type 0 where
  pub kty : String
  pub use_for : String
  pub kid : String
  pub alg : String
  pub n : String
  pub e : String
  pub crv : String
  pub x : String
  pub y : String

pub record Jwks : Type 0 where
  pub keys : List Jwk

abbrev pub rsa_algs : List String
rsa_algs = "RS256" ∷ "RS384" ∷ "RS512" ∷ []

abbrev pub ec_algs : List String
ec_algs = "ES256" ∷ "ES384" ∷ "ES512" ∷ []

abbrev pub hmac_algs : List String
hmac_algs = "HS256" ∷ "HS384" ∷ "HS512" ∷ []

unfoldable pub is_alg_compatible : Jwk → String → Bool
is_alg_compatible key alg =
    if not (key.alg == "")
    then key.alg == alg
    else if contains alg rsa_algs
    then key.kty == "RSA"
    else if contains alg ec_algs
    then key.kty == "EC"
    else if alg == "EdDSA"
    then key.kty == "OKP"
    else false

-- The tests of one round of the loop of findKey.
unfoldable pub suits : String → String → Jwk → Bool
suits kid alg k = (not (kid == "") && k.kid == kid) || (kid == "" && is_alg_compatible k alg)

unfoldable pub find_key : List Jwk → String → String → Option Jwk
find_key [] kid alg = none
find_key (k ∷ keys) kid alg = if suits kid alg k then some k else find_key keys kid alg
