-- ===== src/Oidc/Signature.antt =====
-- pkg/oidc/jwt.go: the verification of a token's signature. Base64 and the primitives of Go's
-- crypto packages are parameters: each says whether a signature is good for a key and an input.
pub mod KeyTypes
use talosctl_oidc.Base.{
  ℕ, ◌+◌, ◌*◌, ◌%◌, ◌^◌, ◌/◌, ◌==◌, String, Bool, true, false, not, ◌||◌, List, [], ◌∷◌, Option,
  none, some, ◌>>=◌, if◌then◌else◌, eqb, ltb, length, contains,
}
use talosctl_oidc.Oidc.Jwks.{Jwk}

abbrev pub Bytes : Type 0
Bytes = List ℕ

pub data Hash : Type 0 where
  sha256 sha384 sha512 : Hash

pub data Curve : Type 0 where
  p256 p384 p521 : Curve

-- `(curve.Params().BitSize + 7) / 8`
abbrev pub coordinate_size : Curve → ℕ
coordinate_size p256 = (256 + 7) / 8
coordinate_size p384 = (384 + 7) / 8
coordinate_size p521 = (521 + 7) / 8

pub record Crypto : Type 0 where
  -- base64.RawURLEncoding.DecodeString
  pub decode : String → Option Bytes
  -- rsa.VerifyPKCS1v15 of the digest, with the modulus and the exponent
  pub rsa_verify : Hash → Bytes → ℕ → String → Bytes → Bool
  -- ecdsa.ParseUncompressedPublicKey of 0x04 || X || Y, both padded to the curve's size
  pub parse_point : Curve → Bytes → Bytes → Option Bytes
  -- ecdsa.Verify of the digest, with r || s
  pub ecdsa_verify : Hash → Curve → Bytes → String → Bytes → Bool
  pub ed25519_verify : Bytes → String → Bytes → Bool
  -- hmac.Equal with the code of the input under the secret
  pub hmac_verify : Hash → String → String → Bytes → Bool

-- `e = e<<8 + int(b)`, on a 64-bit int
unfoldable pub exponent : ℕ → Bytes → ℕ
exponent e [] = e
exponent e (b ∷ bytes) = exponent ((e * 256 + b) % 2 ^ 64) bytes

module _ (crypto : Crypto) where
  open crypto use {decode, rsa_verify, parse_point, ecdsa_verify, ed25519_verify, hmac_verify}

  -- The verifications answer true where the Go functions return nil.
  unfoldable pub verify_rsa : Jwk → Hash → String → Bytes → Bool
  verify_rsa key hash input signature =
      if not (key.kty == "RSA") then false else elim (decode key.n) [
        | none ↦ false
        | some n ↦ elim (decode key.e) [
          | none ↦ false
          | some e ↦ rsa_verify hash n (exponent 0 e) input signature
        ]
      ]

  unfoldable pub verify_ecdsa : Jwk → Hash → Curve → String → Bytes → Bool
  verify_ecdsa key hash curve input signature =
      if not (key.kty == "EC") then false else elim (decode key.x) [
        | none ↦ false
        | some x ↦ elim (decode key.y) [
          | none ↦ false
          | some y ↦
              let size = coordinate_size curve in
              if ltb size (length x) || ltb size (length y)
              then false
              else elim (parse_point curve x y) [
                | none ↦ false
                | some public ↦
                    if not (eqb (length signature) (2 * size))
                    then false
                    else ecdsa_verify hash curve public input signature
              ]
        ]
      ]

  unfoldable pub verify_eddsa : Jwk → String → Bytes → Bool
  verify_eddsa key input signature =
      if not (key.kty == "OKP") || not (key.crv == "Ed25519") then false else elim (decode key.x) [
        | none ↦ false
        | some x ↦ if not (eqb (length x) 32) then false else ed25519_verify x input signature
      ]

  unfoldable pub verify_hmac : String → String → String → Bytes → Bool
  verify_hmac alg secret input signature =
      if alg == "HS256"
      then hmac_verify sha256 secret input signature
      else if alg == "HS384"
      then hmac_verify sha384 secret input signature
      else if alg == "HS512"
      then hmac_verify sha512 secret input signature
      else false

  unfoldable pub verify_signature : String → Jwk → String → Bytes → Bool
  verify_signature alg key input signature =
      if alg == "RS256"
      then verify_rsa key sha256 input signature
      else if alg == "RS384"
      then verify_rsa key sha384 input signature
      else if alg == "RS512"
      then verify_rsa key sha512 input signature
      else if alg == "ES256"
      then verify_ecdsa key sha256 p256 input signature
      else if alg == "ES384"
      then verify_ecdsa key sha384 p384 input signature
      else if alg == "ES512"
      then verify_ecdsa key sha512 p521 input signature
      else if alg == "EdDSA"
      then verify_eddsa key input signature
      else false
