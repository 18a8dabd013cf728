-- ===== src/Config/Checks.antt =====
-- pkg/config/config.go: what Validate and ApplyDefaults make of a configuration.
use talosctl_oidc.Base.{
  ◌==◌, ◌≡◌, ◌≢◌, ◌↔◌, refl, String, true, false, not, ◌&&◌, List, [], ◌∷◌, none, is_empty, arith,
  eq_iff,
}
use talosctl_oidc.Config.{ResolvedConfig, missing, validate}

-- What a configuration needs for the server to start.
pub record IsComplete (rc : ResolvedConfig) : Type 0 where
  pub has_issuer : rc.issuer_url ≢ ""
  pub has_client : rc.client_id ≢ ""
  pub has_endpoint : rc.endpoints ≢ []
  -- The certificate and the key come together, and not with plain HTTP.
  pub pair : (rc.tls_cert ≡ "") ↔ (rc.tls_key ≡ "")
  pub secure : rc.tls_cert ≢ "" → rc.insecure ≡ false

missing_lem :
    (rc : ResolvedConfig)
    → is_empty (missing rc)
      ≡ (not (rc.issuer_url == "") && (not (rc.client_id == "") && not (is_empty rc.endpoints)))
unfolding missing
missing_lem rc = ground arith

pub is_empty-nil : (xs : List String) → (is_empty xs ≡ true) ↔ (xs ≡ [])
is_empty-nil [] = (λ h. refl, λ h. refl)
is_empty-nil (x ∷ xs) = (λ h. cc, λ h. cc)

validate-IsComplete : (rc : ResolvedConfig) → validate rc ≡ none → IsComplete rc
unfolding validate
validate-IsComplete rc h = record {
  has_issuer = ground (arith, missing_lem rc, eq_iff rc.issuer_url "");
  has_client = ground (arith, missing_lem rc, eq_iff rc.client_id "");
  has_endpoint = ground (arith, missing_lem rc, is_empty-nil rc.endpoints);
  pair = (
    ground (arith, missing_lem rc, eq_iff rc.tls_cert "", eq_iff rc.tls_key ""),
    ground (arith, missing_lem rc, eq_iff rc.tls_cert "", eq_iff rc.tls_key ""),
  );
  secure = ground (arith, missing_lem rc, eq_iff rc.tls_cert "");
}

IsComplete-validate : (rc : ResolvedConfig) → IsComplete rc → validate rc ≡ none
unfolding validate
IsComplete-validate rc c = ground (
  arith,
  missing_lem rc,
  eq_iff rc.issuer_url "",
  eq_iff rc.client_id "",
  is_empty-nil rc.endpoints,
  eq_iff rc.tls_cert "",
  eq_iff rc.tls_key "",
  c.has_issuer,
  c.has_client,
  c.has_endpoint,
  c.pair,
  c.secure,
)

-- Validate accepts a configuration exactly when it has an issuer, a client and an endpoint, the TLS
-- certificate and key are both given or both not, and a certificate is not given with plain HTTP.
pub validate-none_iff : (rc : ResolvedConfig) → (validate rc ≡ none) ↔ IsComplete rc
validate-none_iff rc = (validate-IsComplete rc, IsComplete-validate rc)
