-- ===== src/Oidc/Jwt/Complete.antt =====
-- Every acceptable token is accepted by ValidateIDToken.
use talosctl_oidc.Base.{
  ℕ, ◌+◌, ◌≡◌, ◌≢◌, ◌↔◌, refl, String, true, false, List, some, ok, if◌then◌else◌, contains,
  is_empty, lookup, or_else, arith, eq_iff, Option-cases, ℤ, pos, negsuc, contains_iff, inl, inr,
}
use talosctl_oidc.Text.{trim_suffix}
use talosctl_oidc.Claims.{Value, Claims, texts, as_string, as_number}
use talosctl_oidc.Oidc.Jwks.{Jwks}
use talosctl_oidc.Oidc.Signature.{Bytes, Crypto}
use talosctl_oidc.Oidc.Jwt.{
  Header, Json, default_algs, three_parts, check_alg, check_issuer, audience, validate_audience,
  before, beyond, check_expiry, check_not_before, check_signature, check_claims, validate_id_token,
}
use talosctl_oidc.Oidc.Jwt.Accepted.{
  Names, alone, among, NotBefore, AtMost, Signed, by_secret, by_key, GoodClaims, Accepted,
}
use talosctl_oidc.Oidc.Jwt.Sound.{validate-Accepted}

check_alg_of :
    (algs : List String) (alg : String)
    → alg ≢ ""
    → alg ≢ "none"
    → contains alg (if is_empty algs then default_algs else algs) ≡ true
    → check_alg algs alg ≡ ok tt
unfolding check_alg
check_alg_of algs alg nonempty not_none listed = ground (arith, eq_iff alg "", eq_iff alg "none")

check_issuer_of :
    (issuer : String) (claims : Claims)
    → trim_suffix b'/' (or_else (as_string (lookup "iss" claims)) "") ≡ trim_suffix b'/' issuer
    → check_issuer issuer claims ≡ ok tt
unfolding check_issuer
check_issuer_of issuer claims h = ground (
  arith,
  eq_iff (trim_suffix b'/' (or_else (as_string (lookup "iss" claims)) ""))
      (trim_suffix b'/' issuer),
)

audience_of : (client : String) {v : Value} → Names client v → audience v client ≡ ok tt
unfolding audience
audience_of client (alone {s} e) = ground (arith, eq_iff s client)
audience_of client (among {items} m) = ground (arith, contains_iff client (texts items))

validate_audience_of :
    (client : String) (claims : Claims) (v : Value)
    → lookup "aud" claims ≡ some v
    → Names client v
    → validate_audience client claims ≡ ok tt
unfolding validate_audience
validate_audience_of client claims v e named = ground (arith, audience_of client named)

before_of : (n : ℤ) (now : ℕ) → NotBefore now n → before n now ≡ false
before_of (pos n) now h = ground arith
before_of (negsuc n) now h = absurd h

beyond_of : (n : ℤ) (limit : ℕ) → AtMost limit n → beyond n limit ≡ false
beyond_of (pos n) limit h = ground arith
beyond_of (negsuc n) limit h = refl

check_expiry_of :
    (now : ℕ) (claims : Claims) (n : ℤ)
    → as_number (lookup "exp" claims) ≡ some n
    → NotBefore now n
    → check_expiry now claims ≡ ok tt
unfolding check_expiry
check_expiry_of now claims n e h = ground (arith, before_of n now h)

check_not_before_of :
    (now : ℕ) (claims : Claims)
    → ((n : ℤ) → as_number (lookup "nbf" claims) ≡ some n → AtMost (now + 60) n)
    → check_not_before now claims ≡ ok tt
unfolding check_not_before
check_not_before_of now claims h = elim (Option-cases (as_number (lookup "nbf" claims))) [
  | inl e ↦ rw (e, check_not_before)
  | inr (n, e) ↦ rw (e, check_not_before) (rw (beyond_of n (now + 60) (h n e)))
]

check_claims_of :
    (crypto : Crypto) (json : Json) (now : ℕ) (issuer client : String) (claims : Claims)
    → GoodClaims now issuer client claims
    → check_claims crypto json now issuer client claims ≡ ok tt
unfolding check_claims
check_claims_of crypto json now issuer client claims g = rw (
  check_issuer_of issuer claims g.issued,
  validate_audience_of client claims g.aud g.has_aud g.for_client,
  check_expiry_of now claims g.exp g.has_exp g.unexpired,
  check_not_before_of now claims g.begun,
)

module _ (crypto : Crypto) (json : Json) where
  check_signature_of :
      (jwks : Jwks) (secret : String) (header : Header) (input : String) (signature : Bytes)
      → Signed crypto jwks secret header input signature
      → check_signature crypto json jwks secret header input signature ≡ ok tt
  unfolding check_signature
  check_signature_of jwks secret header input signature (by_secret hmac nonempty good) =
      ground (arith, eq_iff secret "")
  check_signature_of jwks secret header input signature (by_key k other found good) = ground arith

  Accepted-validate :
      (now : ℕ) (raw : String) (jwks : Jwks) (issuer client secret : String) (algs : List String)
      (claims : Claims)
      → Accepted crypto json now raw jwks issuer client secret algs claims
      → validate_id_token crypto json now raw jwks issuer client secret algs ≡ ok claims
  unfolding validate_id_token three_parts
  Accepted-validate now raw jwks issuer client secret algs claims a = rw (
    a.parts,
    a.head_decodes,
    a.head_parses,
    check_alg_of algs a.header.alg a.permitted.0 a.permitted.1 a.listed,
    a.signature_decodes,
    check_signature_of jwks secret a.header _ a.signature a.signed,
    a.payload_decodes,
    a.payload_parses,
    check_claims_of crypto json now issuer client claims a.good,
  )

  -- ValidateIDToken returns claims exactly for an acceptable token, and then the token's own: its
  -- three parts decode, its algorithm is permitted and listed, its signature is good, and its
  -- claims name the issuer and the client, have not expired, and have begun or begin
  -- within the next 60 seconds.
  pub validate_iff :
      (now : ℕ) (raw : String) (jwks : Jwks) (issuer client secret : String) (algs : List String)
      (claims : Claims)
      → (validate_id_token crypto json now raw jwks issuer client secret algs ≡ ok claims)
        ↔ Accepted crypto json now raw jwks issuer client secret algs claims
  validate_iff now raw jwks issuer client secret algs claims = (
    validate-Accepted crypto json now raw jwks issuer client secret algs claims,
    Accepted-validate now raw jwks issuer client secret algs claims,
  )
