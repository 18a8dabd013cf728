-- ===== src/Oidc/Jwt.antt =====
-- pkg/oidc/jwt.go: ValidateIDToken. The JSON decoding of the header and of the claims is a
-- parameter, and so is the cryptography; `now` is `time.Now().Unix()`.
pub mod Accepted
pub mod Sound
pub mod Complete
pub mod Algorithms
mod Examples
use talosctl_oidc.Base.Fallible.{◌>>=◌, ◌>>◌}
use talosctl_oidc.Base.{
  ℕ, ◌+◌, ◌==◌, String, Bool, true, false, not, ◌||◌, ◌&&◌, List, [], ◌∷◌, Option, none, some,
  Result, ok, err, fail_if, if◌then◌else◌, ltb, contains, is_empty, lookup, or_else, ℤ, pos, negsuc,
  is_some,
}
use talosctl_oidc.Text.{split, trim_suffix}
use talosctl_oidc.Text.Laws.{◌+++◌}
use talosctl_oidc.Claims.{
  Value, null, bool, num, str, arr, obj, strs, Claims, texts, as_string, as_number,
}
use talosctl_oidc.Oidc.Jwks.{Jwk, Jwks, hmac_algs, find_key}
use talosctl_oidc.Oidc.Signature.{Bytes, Crypto, verify_hmac, verify_signature}

pub record Header : Type 0 where
  pub alg : String
  pub kid : String

pub data JwtError : Type 0 where
  wrong_parts bad_header_encoding bad_header alg_not_permitted alg_not_listed : JwtError
  bad_signature_encoding no_client_secret no_matching_key bad_signature : JwtError
  bad_claims_encoding bad_claims issuer_mismatch : JwtError
  missing_audience audience_mismatch bad_audience_type : JwtError
  expired missing_expiry not_yet_valid : JwtError

abbrev pub Checked : Type 0 → Type 0
Checked A = Result JwtError A

-- json.Unmarshal into the header's struct and into the claims' map.
pub record Json : Type 0 where
  pub header_of : Bytes → Option Header
  pub claims_of : Bytes → Option Claims

abbrev pub default_algs : List String
default_algs = "RS256" ∷ "RS384" ∷ "RS512" ∷ "ES256" ∷ "ES384" ∷ "ES512" ∷ "EdDSA" ∷ []

abbrev pub or_fail : {A : Type 0} → Option A → JwtError → Checked A
or_fail none e = err e
or_fail (some a) e = ok a

unfoldable pub three_parts : List String → Checked (String × String × String)
three_parts (a ∷ b ∷ c ∷ []) = ok (a, b, c)
three_parts _ = err wrong_parts

unfoldable pub check_alg : List String → String → Checked (Unit {0})
check_alg allowed_algs alg = do
  fail_if (alg == "" || alg == "none") alg_not_permitted
  fail_if (not (contains alg (if is_empty allowed_algs then default_algs else allowed_algs)))
      alg_not_listed

unfoldable pub check_issuer : String → Claims → Checked (Unit {0})
check_issuer expected claims =
    let iss = or_else (as_string (lookup "iss" claims)) "" in
    fail_if (not (trim_suffix b'/' iss == trim_suffix b'/' expected)) issuer_mismatch

-- validateAudience
unfoldable pub audience : Value → String → Checked (Unit {0})
audience (str v) expected = fail_if (not (v == expected)) audience_mismatch
audience (arr v) expected = fail_if (not (contains expected (texts v))) audience_mismatch
audience _ expected = err bad_audience_type

unfoldable pub validate_audience : String → Claims → Checked (Unit {0})
validate_audience expected claims = elim (lookup "aud" claims) [
  | none ↦ err missing_audience
  | some aud ↦ audience aud expected
]

-- `int64(exp) < now`
abbrev pub before : ℤ → ℕ → Bool
before (pos n) now = ltb n now
before (negsuc n) now = true

-- `int64(nbf) > now+60`
abbrev pub beyond : ℤ → ℕ → Bool
beyond (pos n) limit = ltb limit n
beyond (negsuc n) limit = false

unfoldable pub check_expiry : ℕ → Claims → Checked (Unit {0})
check_expiry now claims = elim (as_number (lookup "exp" claims)) [
  | none ↦ err missing_expiry
  | some exp ↦ fail_if (before exp now) expired
]

unfoldable pub check_not_before : ℕ → Claims → Checked (Unit {0})
check_not_before now claims = elim (as_number (lookup "nbf" claims)) [
  | none ↦ ok tt
  | some nbf ↦ fail_if (beyond nbf (now + 60)) not_yet_valid
]

module _ (crypto : Crypto) (json : Json) where
  -- The switch on the algorithm: HMAC with the client's secret, anything else with a key of the set.
  unfoldable pub check_signature : Jwks → String → Header → String → Bytes → Checked (Unit {0})
  check_signature jwks secret header input signature =
      if contains header.alg hmac_algs
      then (do
        fail_if (secret == "") no_client_secret
        fail_if (not (verify_hmac crypto header.alg secret input signature)) bad_signature)
      else (do
        key ← or_fail (find_key jwks.keys header.kid header.alg) no_matching_key
        fail_if (not (verify_signature crypto header.alg key input signature)) bad_signature)

  -- The checks of the claims, in their order.
  unfoldable pub check_claims : ℕ → String → String → Claims → Checked (Unit {0})
  check_claims now issuer aud claims = do
    check_issuer issuer claims
    validate_audience aud claims
    check_expiry now claims
    check_not_before now claims

  unfoldable pub validate_id_token :
      ℕ → String → Jwks → String → String → String → List String → Checked Claims
  validate_id_token now raw jwks issuer aud secret allowed_algs = do
    parts ← three_parts (split b'.' raw)
    header_bytes ← or_fail (crypto.decode parts.0) bad_header_encoding
    header ← or_fail (json.header_of header_bytes) bad_header
    check_alg allowed_algs header.alg
    signature ← or_fail (crypto.decode parts.2) bad_signature_encoding
    check_signature jwks secret header (parts.0 +++ ("." +++ parts.1)) signature
    claims_bytes ← or_fail (crypto.decode parts.1) bad_claims_encoding
    claims ← or_fail (json.claims_of claims_bytes) bad_claims
    check_claims now issuer aud claims
    ok claims
