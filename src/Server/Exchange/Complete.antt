-- ===== src/Server/Exchange/Complete.antt =====
-- That a user with a good token gets a certificate.
use talosctl_oidc.Base.{
  ◌≡◌, ◌≢◌, refl, sym, ap, ◌∙◌, subst, String, false, List, [], none, some, ok, is_empty, arith,
  eq_iff, Option-cases, inl, inr,
}
use talosctl_oidc.Request.{Request}
use talosctl_oidc.Claims.{Claims}
use talosctl_oidc.Anomaly.{Detector, record_token_use}
use talosctl_oidc.TalosApi.{ClientCertificate, issue}
use talosctl_oidc.Oidc.Jwks.{Jwks}
use talosctl_oidc.Oidc.JwksCache.{Cache, Fetched, get, valid}
use talosctl_oidc.Oidc.Jwt.{validate_id_token}
use talosctl_oidc.Oidc.Jwt.Accepted.{Accepted}
use talosctl_oidc.Oidc.Jwt.Complete.{validate_iff}
use talosctl_oidc.Server.{Config, Server, certificate, write_json, audit_log}
use talosctl_oidc.Server.Tokens.{
  World, TokenClaims, claims_of, jwks_cache_for_issuer, current_jwks, check_token, with_jwks,
  with_cache, validate_token,
}
use talosctl_oidc.Server.Exchange.{
  note_use, success_event, assigned_roles, cert_response, deliver, authorize, decide,
  exchange_token, handle_exchange,
}
use talosctl_oidc.Server.Exchange.Issued.{audit_log-cfg}

module _ (w : World) where
  get-valid :
      (fetched : Fetched) (cache : Cache) {jwks : Jwks}
      → valid w.now cache ≡ some jwks
      → get w.now w.now fetched cache ≡ (cache, ok jwks)
  unfolding get
  get-valid fetched cache h = ground arith

  cached :
      (s : Server) (cache : Cache)
      → s.jwks_cache ≡ some cache
      → jwks_cache_for_issuer w s ≡ (s, ok cache)
  unfolding jwks_cache_for_issuer
  cached s cache had = ground arith

  current_jwks-ok :
      (cache : Cache) (s : Server) {jwks : Jwks}
      → valid w.now cache ≡ some jwks
      → current_jwks w cache s ≡ (record s { jwks_cache = some cache }, ok jwks)
  unfolding current_jwks
  current_jwks-ok cache s young = rw (get-valid _ cache young) refl

  check_token-ok :
      (token : String) (jwks : Jwks) (s : Server) (claims : Claims)
      → validate_id_token w.crypto w.json
          (w.unix w.now)
          token
          jwks
          s.cfg.issuer_url
          s.cfg.client_id
          s.cfg.client_secret
          []
        ≡ ok claims
      → check_token w token jwks s ≡ ok (claims_of claims)
  unfolding check_token
  check_token-ok token jwks s claims h = ground arith

  validate_token-ok :
      (token : String) (s : Server) (cache : Cache) (jwks : Jwks) (claims : Claims)
      → s.jwks_cache ≡ some cache
      → valid w.now cache ≡ some jwks
      → validate_id_token w.crypto w.json
          (w.unix w.now)
          token
          jwks
          s.cfg.issuer_url
          s.cfg.client_id
          s.cfg.client_secret
          []
        ≡ ok claims
      → validate_token w token s ≡ (record s { jwks_cache = some cache }, ok (claims_of claims))
  unfolding validate_token with_cache with_jwks check_token claims_of
  validate_token-ok token s cache jwks claims had young h =
      rw (cached s cache had, current_jwks-ok cache s young, check_token-ok token jwks s claims h)
        refl

  deliver-ok :
      (r : Request) (tc : TokenClaims) (roles : List String) (s : Server) (cert : ClientCertificate)
      → (deliver w r tc roles (ok cert) s).1 ≡ write_json (certificate (cert_response s.cfg cert))
  unfolding deliver
  deliver-ok r tc roles s cert = refl

  authorize-ok :
      (r : Request) (tc : TokenClaims) (s : Server) (cert : ClientCertificate)
      → is_empty (assigned_roles s.cfg tc) ≡ false
      → issue w.talos s.cfg.issuer (assigned_roles s.cfg tc) s.cfg.cert_ttl ≡ ok cert
      → (authorize w r tc s).1 ≡ write_json (certificate (cert_response s.cfg cert))
  unfolding authorize
  authorize-ok r tc s cert some_role signed =
      let roles = assigned_roles s.cfg tc in
      let s' = audit_log w.marshal w.now (success_event w r tc) s in
      let same : s'.cfg ≡ s.cfg = audit_log-cfg w.marshal w.now (success_event w r tc) s in
      rw (some_role, signed)
        (deliver-ok r tc roles s' cert
          ∙ ap (λ (cfg : Config). write_json (certificate (cert_response cfg cert))) same)

  note_use-none : (token : String) (s : Server) → s.detector ≡ none → note_use w token s ≡ s
  unfolding note_use
  note_use-none token s e = ground arith

  note_use-some :
      (token : String) (s : Server) (d : Detector)
      → s.detector ≡ some d
      → note_use w token s
        ≡ record s { detector = some (record_token_use w.token_hash w.now token d).0 }
  unfolding note_use
  note_use-some token s d e = ground arith

  module _ (r : Request) (token : String) (cache : Cache) (jwks : Jwks) (claims : Claims)
      (cert : ClientCertificate) where
    -- What has to hold of a server for it to hand out the certificate.
    abbrev Ready : Server → Type 0
    Ready s =
        (s.jwks_cache ≡ some cache)
        × (validate_id_token w.crypto w.json (w.unix w.now) token jwks s.cfg.issuer_url
              s.cfg.client_id s.cfg.client_secret []
            ≡ ok claims)
        × (is_empty (assigned_roles s.cfg (claims_of claims)) ≡ false)
        × (issue w.talos s.cfg.issuer (assigned_roles s.cfg (claims_of claims)) s.cfg.cert_ttl
            ≡ ok cert)

    abbrev Answered : Config → Server → Type 0
    Answered cfg s =
        (decide w r (validate_token w token s)).1
        ≡ write_json (certificate (cert_response cfg cert))

    decide-ok : (s : Server) → valid w.now cache ≡ some jwks → Ready s → Answered s.cfg s
    unfolding decide
    decide-ok s young (had, checked, some_role, signed) =
        rw (validate_token-ok token s cache jwks claims had young checked) (
          authorize-ok r (claims_of claims) (record s { jwks_cache = some cache }) cert some_role
            signed)

    decide-note_use :
        (s : Server) → valid w.now cache ≡ some jwks → Ready s → Answered s.cfg (note_use w token s)
    decide-note_use s young ready = elim (Option-cases s.detector) [
      | inl e ↦ subst (Answered s.cfg) (sym (note_use-none token s e)) (decide-ok s young ready)
      | inr (d, e) ↦ subst (Answered s.cfg) (sym (note_use-some token s d e)) (
          decide-ok (record s { detector = some (record_token_use w.token_hash w.now token d).0 })
            young ready)
    ]

  -- A POST of a token that is acceptable under the server's settings and a key set that the cache
  -- holds and that is not too old gets a certificate, where the token's claims give roles and the
  -- Talos API issues one for them: the response holds it, with the configured endpoints and lifetime.
  pub handle_exchange-certificate :
      (r : Request) (s : Server) (body token : String) (cache : Cache) (jwks : Jwks)
      (claims : Claims) (cert : ClientCertificate)
      → r.method ≡ "POST"
      → r.body ≡ some body
      → w.id_token_of body ≡ some token
      → token ≢ ""
      → s.jwks_cache ≡ some cache
      → valid w.now cache ≡ some jwks
      → Accepted w.crypto w.json
          (w.unix w.now)
          token
          jwks
          s.cfg.issuer_url
          s.cfg.client_id
          s.cfg.client_secret
          []
          claims
      → is_empty (assigned_roles s.cfg (claims_of claims)) ≡ false
      → issue w.talos s.cfg.issuer (assigned_roles s.cfg (claims_of claims)) s.cfg.cert_ttl
        ≡ ok cert
      → (handle_exchange w r s).1 ≡ write_json (certificate (cert_response s.cfg cert))
  unfolding handle_exchange exchange_token
  handle_exchange-certificate r s body token cache jwks claims cert posted has_body has_token
        nonempty had young accepted some_role signed =
      let result = decide-note_use r token cache jwks claims cert s young (
        had,
        (validate_iff w.crypto w.json (w.unix w.now) token jwks _ _ _ [] claims).1 accepted,
        some_role,
        signed,
      ) in
      ground (arith, eq_iff r.method "POST", eq_iff token "")
