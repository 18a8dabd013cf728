-- ===== src/Oidc/Jwt/Accepted.antt =====
-- What an acceptable ID token is, said of the token and not of the order of the checks.
use mathlib.Core.List.{Memᴰ}
use talosctl_oidc.Base.{
  ℕ, ◌+◌, ◌≤◌, ◌≡◌, ◌≢◌, String, true, false, List, [], ◌∷◌, some, lookup, or_else, ℤ, pos, negsuc,
  contains, is_empty, if◌then◌else◌,
}
use talosctl_oidc.Text.{split, trim_suffix}
use talosctl_oidc.Text.Laws.{◌+++◌}
use talosctl_oidc.Claims.{Value, str, arr, Claims, texts, as_string, as_number}
use talosctl_oidc.Oidc.Jwks.{Jwk, Jwks, hmac_algs, find_key}
use talosctl_oidc.Oidc.Signature.{Bytes, Crypto, verify_hmac, verify_signature}
use talosctl_oidc.Oidc.Jwt.{Header, Json, default_algs}

-- The claim `aud` names the client, alone or among others.
pub data Names (client : String) : Value → Type 0 where
  alone : {s : String} → s ≡ client → Names client (str s)
  among : {items : _} → Memᴰ client (texts items) → Names client (arr items)

-- A time that is not before `now`, and one that is at most `limit`.
abbrev pub NotBefore : ℕ → ℤ → Type 0
NotBefore now (pos n) = now ≤ n
NotBefore now (negsuc n) = ⊥

abbrev pub AtMost : ℕ → ℤ → Type 0
AtMost limit (pos n) = n ≤ limit
AtMost limit (negsuc n) = Unit

-- The signature is good: under the client's secret for an HMAC algorithm, and else under the key
-- of the set that the header picks.
pub data Signed (crypto : Crypto) (jwks : Jwks) (secret : String) (h : Header) (input : String)
    (signature : Bytes) : Type 0 where
  by_secret :
      contains h.alg hmac_algs ≡ true
      → secret ≢ ""
      → verify_hmac crypto h.alg secret input signature ≡ true
      → Signed crypto jwks secret h input signature
  by_key :
      (k : Jwk)
      → contains h.alg hmac_algs ≡ false
      → find_key jwks.keys h.kid h.alg ≡ some k
      → verify_signature crypto h.alg k input signature ≡ true
      → Signed crypto jwks secret h input signature

-- The claims that the server may act on.
pub record GoodClaims (now : ℕ) (issuer client : String) (claims : Claims) : Type 0 where
  -- The issuers are equal up to one slash at the end.
  pub issued :
      trim_suffix b'/' (or_else (as_string (lookup "iss" claims)) "") ≡ trim_suffix b'/' issuer
  pub aud : Value
  pub has_aud : lookup "aud" claims ≡ some aud
  pub for_client : Names client aud
  pub exp : ℤ
  pub has_exp : as_number (lookup "exp" claims) ≡ some exp
  pub unexpired : NotBefore now exp
  pub begun : (nbf : ℤ) → as_number (lookup "nbf" claims) ≡ some nbf → AtMost (now + 60) nbf

pub record Accepted (crypto : Crypto) (json : Json) (now : ℕ) (raw : String) (jwks : Jwks)
    (issuer client secret : String) (allowed_algs : List String) (claims : Claims) : Type 0 where
  pub head : String
  pub payload : String
  pub mac : String
  pub parts : split b'.' raw ≡ head ∷ payload ∷ mac ∷ []
  pub head_bytes : Bytes
  pub head_decodes : crypto.decode head ≡ some head_bytes
  pub header : Header
  pub head_parses : json.header_of head_bytes ≡ some header
  pub permitted : (header.alg ≢ "") × (header.alg ≢ "none")
  pub listed :
      contains header.alg (if is_empty allowed_algs then default_algs else allowed_algs) ≡ true
  pub signature : Bytes
  pub signature_decodes : crypto.decode mac ≡ some signature
  pub signed : Signed crypto jwks secret header (head +++ ("." +++ payload)) signature
  pub payload_bytes : Bytes
  pub payload_decodes : crypto.decode payload ≡ some payload_bytes
  pub payload_parses : json.claims_of payload_bytes ≡ some claims
  pub good : GoodClaims now issuer client claims
