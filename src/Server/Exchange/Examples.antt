-- ===== src/Server/Exchange/Examples.antt =====
-- The exchange of a concrete token.
use talosctl_oidc.Base.{
  ◌*◌, ◌≡◌, ◌≢◌, refl, String, false, [], some, ok, arith, eq_iff, is_empty, lookup,
}
use talosctl_oidc.Clock.{second, minute}
use talosctl_oidc.Text.{split, trim_suffix}
use talosctl_oidc.Rbac.{
  has_rules, map_roles, try_rules, try_rule, add_roles, add_role, matches_value,
}
use talosctl_oidc.TalosApi.{issue}
use talosctl_oidc.Oidc.Jwks.{find_key, suits, is_alg_compatible}
use talosctl_oidc.Oidc.JwksCache.{Cache, valid}
use talosctl_oidc.Oidc.Signature.{verify_signature, verify_rsa, exponent}
use talosctl_oidc.Oidc.Jwt.{
  validate_id_token, three_parts, check_alg, check_issuer, audience, validate_audience,
  check_expiry, check_not_before, check_signature, check_claims,
}
use talosctl_oidc.Oidc.Jwt.Accepted.{Accepted}
use talosctl_oidc.Oidc.Jwt.Complete.{validate_iff}
use talosctl_oidc.Oidc.Toy.{crypto, json, jwks, claims}
use talosctl_oidc.Server.{Server, certificate, write_json}
use talosctl_oidc.Server.Tokens.{claims_of}
use talosctl_oidc.Server.Exchange.{handle_exchange, assigned_roles, cert_response}
use talosctl_oidc.Server.Exchange.Complete.{handle_exchange-certificate}
use talosctl_oidc.Server.Exchange.Audited.{Audited, handle_exchange-Audited}
use talosctl_oidc.Server.Toy.{world, request, server}

handle_exchange-Audited_example :
    Audited world request server.audit (handle_exchange world request server)
handle_exchange-Audited_example = handle_exchange-Audited world request server

abbrev cache : Cache
cache = record {
  jwks = some jwks;
  fetched_at = second;
  ttl = 5 * minute;
  jwks_uri = "https://idp/keys";
}

abbrev warm : Server
warm = record server { jwks_cache = some cache }

cache_valid : valid world.now cache ≡ some jwks
unfolding valid
cache_valid = refl

token_valid : validate_id_token crypto json 1 "h.p.s" jwks "https://idp" "talos" "" [] ≡ ok claims
unfolding validate_id_token three_parts check_alg check_issuer audience validate_audience
    check_expiry check_not_before check_signature check_claims find_key suits is_alg_compatible
    verify_signature verify_rsa exponent split trim_suffix lookup
token_valid = refl

token-Accepted : Accepted crypto json 1 "h.p.s" jwks "https://idp" "talos" "" [] claims
token-Accepted =
    (validate_iff crypto json 1 "h.p.s" jwks "https://idp" "talos" "" [] claims).0 token_valid

token_nonempty : ◌≢◌ {A = String} "h.p.s" ""
token_nonempty = ground (arith, eq_iff "h.p.s" "")

roles_assigned : is_empty (assigned_roles warm.cfg (claims_of claims)) ≡ false
unfolding assigned_roles claims_of has_rules map_roles try_rules try_rule add_roles add_role
    matches_value lookup
roles_assigned = refl

cert_issued_there :
    issue world.talos warm.cfg.issuer (assigned_roles warm.cfg (claims_of claims)) warm.cfg.cert_ttl
    ≡ ok (record { cert_pem = "cert"; key_pem = "key"; ca_pem = "ca" })
unfolding issue
cert_issued_there = refl

handle_exchange-certificate_example :
    (handle_exchange world request warm).1
    ≡ write_json (
        certificate
          (cert_response warm.cfg (record { cert_pem = "cert"; key_pem = "key"; ca_pem = "ca" })))
handle_exchange-certificate_example =
    handle_exchange-certificate world request warm "h.p.s" "h.p.s" cache jwks claims
      (record { cert_pem = "cert"; key_pem = "key"; ca_pem = "ca" }) refl refl refl token_nonempty
      refl cache_valid token-Accepted roles_assigned cert_issued_there
