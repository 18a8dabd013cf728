-- ===== src/Oidc/Signature/KeyTypes.antt =====
-- A signature is only ever checked with a key of the type that its algorithm is for.
use talosctl_oidc.Base.{
  ◌==◌, ◌≡◌, ◌≢◌, inl, inr, refl, String, true, false, arith, eq_iff, if◌then◌else◌, contains,
  Bool-cases, subst, sym,
}
use talosctl_oidc.Oidc.Jwks.{Jwk, rsa_algs, ec_algs, hmac_algs}
use talosctl_oidc.Oidc.Signature.{
  Crypto, Hash, sha256, sha384, sha512, Curve, p256, p384, p521, Bytes, verify_rsa, verify_ecdsa,
  verify_eddsa, verify_signature,
}

-- The key type that an algorithm is for.
abbrev pub key_type : String → String
key_type alg =
    if contains alg rsa_algs
    then "RSA"
    else if contains alg ec_algs
    then "EC"
    else if alg == "EdDSA"
    then "OKP"
    else ""

-- The key is of the algorithm's type, and the algorithm is neither an HMAC one nor "none".
abbrev pub Suited : Jwk → String → Type 0
Suited key alg = (key.kty ≡ key_type alg) × (contains alg hmac_algs ≡ false) × (alg ≢ "none")

-- By evaluation at a literal algorithm.
by_name : (key : Jwk) (alg name : String) → (alg == name) ≡ true → Suited key name → Suited key alg
by_name key alg name e s = subst (Suited key) (sym ((eq_iff alg name).0 e)) s

module _ (crypto : Crypto) where
  verify_rsa-kty :
      (key : Jwk) (hash : Hash) (input : String) (signature : Bytes)
      → verify_rsa crypto key hash input signature ≡ true
      → key.kty ≡ "RSA"
  unfolding verify_rsa
  verify_rsa-kty key hash input signature h = ground (arith, eq_iff key.kty "RSA")

  verify_ecdsa-kty :
      (key : Jwk) (hash : Hash) (curve : Curve) (input : String) (signature : Bytes)
      → verify_ecdsa crypto key hash curve input signature ≡ true
      → key.kty ≡ "EC"
  unfolding verify_ecdsa
  verify_ecdsa-kty key hash curve input signature h = ground (arith, eq_iff key.kty "EC")

  verify_eddsa-kty :
      (key : Jwk) (input : String) (signature : Bytes)
      → verify_eddsa crypto key input signature ≡ true
      → key.kty ≡ "OKP"
  unfolding verify_eddsa
  verify_eddsa-kty key input signature h = ground (arith, eq_iff key.kty "OKP")

  -- A signature is found good only under a key of the type that the algorithm is for, and under an
  -- algorithm that is neither an HMAC one nor "none".
  pub verify_signature-kty :
      (alg : String) (key : Jwk) (input : String) (signature : Bytes)
      → verify_signature crypto alg key input signature ≡ true
      → Suited key alg
  unfolding verify_signature
  verify_signature-kty alg key input signature h = elim (Bool-cases (alg == "RS256")) [
    | inl eRS256 ↦ by_name key alg "RS256" eRS256 (
      verify_rsa-kty key sha256 input signature (ground arith),
      refl,
      ground (arith, eq_iff "RS256" "none"),
    )
    | inr nRS256 ↦ elim (Bool-cases (alg == "RS384")) [
      | inl eRS384 ↦ by_name key alg "RS384" eRS384 (
        verify_rsa-kty key sha384 input signature (ground arith),
        refl,
        ground (arith, eq_iff "RS384" "none"),
      )
      | inr nRS384 ↦ elim (Bool-cases (alg == "RS512")) [
        | inl eRS512 ↦ by_name key alg "RS512" eRS512 (
          verify_rsa-kty key sha512 input signature (ground arith),
          refl,
          ground (arith, eq_iff "RS512" "none"),
        )
        | inr nRS512 ↦ elim (Bool-cases (alg == "ES256")) [
          | inl eES256 ↦ by_name key alg "ES256" eES256 (
            verify_ecdsa-kty key sha256 p256 input signature (ground arith),
            refl,
            ground (arith, eq_iff "ES256" "none"),
          )
          | inr nES256 ↦ elim (Bool-cases (alg == "ES384")) [
            | inl eES384 ↦ by_name key alg "ES384" eES384 (
              verify_ecdsa-kty key sha384 p384 input signature (ground arith),
              refl,
              ground (arith, eq_iff "ES384" "none"),
            )
            | inr nES384 ↦ elim (Bool-cases (alg == "ES512")) [
              | inl eES512 ↦ by_name key alg "ES512" eES512 (
                verify_ecdsa-kty key sha512 p521 input signature (ground arith),
                refl,
                ground (arith, eq_iff "ES512" "none"),
              )
              | inr nES512 ↦ elim (Bool-cases (alg == "EdDSA")) [
                | inl eEdDSA ↦ by_name key alg "EdDSA" eEdDSA (
                  verify_eddsa-kty key input signature (ground arith),
                  refl,
                  ground (arith, eq_iff "EdDSA" "none"),
                )
                | inr nEdDSA ↦ ground arith
              ]
            ]
          ]
        ]
      ]
    ]
  ]
