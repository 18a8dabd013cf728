-- ===== src/Oidc/Jwt/Examples.antt =====
-- The token checks at a concrete token.
use talosctl_oidc.Base.{◌≡◌, ◌↔◌, refl, true, [], ◌∷◌, some, ok, err, lookup}
use talosctl_oidc.Text.{split, trim_suffix}
use talosctl_oidc.Oidc.Jwks.{is_alg_compatible, suits, find_key}
use talosctl_oidc.Oidc.Signature.{exponent, verify_rsa, verify_signature}
use talosctl_oidc.Oidc.Jwt.{
  three_parts, check_alg, check_issuer, audience, validate_audience, check_expiry, check_not_before,
  check_signature, check_claims, validate_id_token, expired, audience_mismatch, alg_not_listed,
}
use talosctl_oidc.Oidc.Jwt.Accepted.{Accepted}
use talosctl_oidc.Oidc.Jwt.Complete.{validate_iff}
use talosctl_oidc.Oidc.Jwt.Algorithms.{SignedByKey, validate-SignedByKey, validate_secret}
use talosctl_oidc.Oidc.Toy.{crypto, json, key, jwks, claims, raw}

validate_id_token_tests :
    (validate_id_token crypto json 1000 raw jwks "https://idp" "talos" "" [] ≡ ok claims)
    × (validate_id_token crypto json 1001 raw jwks "https://idp" "talos" "" [] ≡ err expired)
    × (validate_id_token crypto json 1000 raw jwks "https://idp" "web" "" []
        ≡ err audience_mismatch)
    × (validate_id_token crypto json 1000 raw jwks "https://idp" "talos" "" ("ES256" ∷ [])
        ≡ err alg_not_listed)
unfolding validate_id_token three_parts check_alg check_issuer audience validate_audience
    check_expiry check_not_before check_signature check_claims find_key suits is_alg_compatible
    verify_signature verify_rsa exponent split trim_suffix lookup
validate_id_token_tests = (refl, refl, refl, refl)

find_key_test : find_key jwks.keys "k1" "RS256" ≡ some key
unfolding find_key suits
find_key_test = refl

verify_signature_test : verify_signature crypto "RS256" key "h.p" (3 ∷ []) ≡ true
unfolding verify_signature verify_rsa exponent
verify_signature_test = refl

validate_iff_example :
    (validate_id_token crypto json 1000 raw jwks "https://idp" "talos" "" [] ≡ ok claims)
    ↔ Accepted crypto json 1000 raw jwks "https://idp" "talos" "" [] claims
validate_iff_example = validate_iff crypto json 1000 raw jwks "https://idp" "talos" "" [] claims

validate_id_token_secret :
    validate_id_token crypto json 1000 raw jwks "https://idp" "talos" "secret" [] ≡ ok claims
unfolding validate_id_token three_parts check_alg check_issuer audience validate_audience
    check_expiry check_not_before check_signature check_claims find_key suits is_alg_compatible
    verify_signature verify_rsa exponent split trim_suffix lookup
validate_id_token_secret = refl

validate-SignedByKey_example : SignedByKey crypto json raw jwks
validate-SignedByKey_example =
    validate-SignedByKey crypto json 1000 raw jwks "https://idp" "talos" "secret" claims
      validate_id_token_secret

validate_secret_example :
    validate_id_token crypto json 1000 raw jwks "https://idp" "talos" "secret" []
    ≡ validate_id_token crypto json 1000 raw jwks "https://idp" "talos" "" []
validate_secret_example =
    validate_secret crypto json 1000 raw jwks "https://idp" "talos" "secret" ""
