-- ===== src/Server/Exchange/Issued.antt =====
-- When a certificate is handed out, and for whom.
use talosctl_oidc.Base.{
  ℕ, ◌≡◌, ◌≢◌, inl, inr, refl, sym, ◌∙◌, subst, String, false, List, [], Option, some, Result, ok,
  err, is_empty, arith, eq_iff, Bool-cases, Option-cases,
}
use talosctl_oidc.Request.{Request}
use talosctl_oidc.Audit.{Event}
use talosctl_oidc.TalosApi.{ClientCertificate, IssueError, issue}
use talosctl_oidc.Oidc.Jwt.Accepted.{Accepted}
use talosctl_oidc.Server.{Config, Server, CertResponse, certificate, write_json, audit_log}
use talosctl_oidc.Server.Tokens.{World, TokenError, TokenClaims, validate_token}
use talosctl_oidc.Server.Exchange.{
  note_use, success_event, assigned_roles, cert_response, deliver, authorize, decide,
  exchange_token, handle_exchange,
}
use talosctl_oidc.Server.Exchange.Valid.{Provenance, ValidFor, validate_token-ValidFor}

-- The request was a POST of a token that is acceptable under the server's settings; the roles that
-- its claims give, of which there are some, went to the Talos API with the configured lifetime; and
-- the response is the certificate that came back, with the configured endpoints.
pub record IssuedFor (w : World) (r : Request) (s : Server) (c : CertResponse) : Type 0 where
  pub posted : r.method ≡ "POST"
  pub body : String
  pub has_body : r.body ≡ some body
  pub token : String
  pub has_token : w.id_token_of body ≡ some token
  pub nonempty : token ≢ ""
  pub tc : TokenClaims
  pub valid : ValidFor w s.cfg s token tc
  pub some_role : is_empty (assigned_roles s.cfg tc) ≡ false
  pub cert : ClientCertificate
  pub signed : issue w.talos s.cfg.issuer (assigned_roles s.cfg tc) s.cfg.cert_ttl ≡ ok cert
  pub answered : c ≡ cert_response s.cfg cert

pub audit_log-cfg :
    (marshal : Event → Option String) (now : ℕ) (e : Event) (s : Server)
    → (audit_log marshal now e s).cfg ≡ s.cfg
unfolding audit_log
audit_log-cfg marshal now e s = ground arith

pub note_use_settings :
    (w : World) (token : String) (s : Server)
    → ((note_use w token s).cfg ≡ s.cfg) × ((note_use w token s).jwks_cache ≡ s.jwks_cache)
unfolding note_use
note_use_settings w token s = ground arith

ValidFor_of_settings :
    (w : World) (s u : Server) (token : String) (tc : TokenClaims)
    → s.cfg ≡ u.cfg
    → s.jwks_cache ≡ u.jwks_cache
    → ValidFor w s.cfg s token tc
    → ValidFor w u.cfg u token tc
ValidFor_of_settings w s u token tc same_cfg same_cache v = record {
  jwks = v.jwks;
  from = moved v.from;
  claims = v.claims;
  accepted =
      subst
        (λ (cfg : Config).
          Accepted w.crypto w.json (w.unix w.now) token v.jwks cfg.issuer_url cfg.client_id
            cfg.client_secret [] v.claims)
        same_cfg v.accepted;
  identity = v.identity;
}
  where
    moved : Provenance w s v.jwks → Provenance w u v.jwks
    moved (inl fetched) = inl fetched
    moved (inr (c, had, have)) = inr (c, sym same_cache ∙ had, have)

module _ (w : World) (r : Request) where
  deliver-certificate :
      (tc : TokenClaims) (roles : List String) (issued : Result IssueError ClientCertificate)
      (s : Server) {c : CertResponse}
      → (deliver w r tc roles issued s).1 ≡ write_json (certificate c)
      → (cert : ClientCertificate) × (issued ≡ ok cert) × (c ≡ cert_response s.cfg cert)
  unfolding deliver
  deliver-certificate tc roles (err e) s h = ground arith
  deliver-certificate tc roles (ok cert) s h = (cert, refl, ground arith)

  authorize-certificate :
      (tc : TokenClaims) (s : Server) {c : CertResponse}
      → (authorize w r tc s).1 ≡ write_json (certificate c)
      → (is_empty (assigned_roles s.cfg tc) ≡ false)
        × (cert : ClientCertificate) × (issue w.talos s.cfg.issuer
              (assigned_roles s.cfg tc)
              s.cfg.cert_ttl
            ≡ ok cert)
        × (c ≡ cert_response s.cfg cert)
  unfolding authorize
  authorize-certificate tc s {c} h =
      let roles = assigned_roles s.cfg tc in
      let issued = issue w.talos s.cfg.issuer roles s.cfg.cert_ttl in
      let s' = audit_log w.marshal w.now (success_event w r tc) s in
      elim (Bool-cases (is_empty roles)) [
        | inl nobody ↦ ground arith
        | inr some_role ↦
            let delivered : (deliver w r tc roles issued s').1 ≡ write_json (certificate c) =
              ground arith in
            let (cert, signed, answered) =
              deliver-certificate tc roles issued s' {c = c} delivered in
            let same : s'.cfg ≡ s.cfg = audit_log-cfg w.marshal w.now (success_event w r tc) s in
            (
              some_role,
              cert,
              signed,
              subst (λ (cfg : Config). c ≡ cert_response cfg cert) same answered,
            )
      ]

  -- Whose token it was that was found valid.
  decide-certificate :
      (p : Server × Result TokenError TokenClaims) {c : CertResponse}
      → (decide w r p).1 ≡ write_json (certificate c)
      → (s' : Server) × (tc : TokenClaims) × (p ≡ (s', ok tc))
        × ((authorize w r tc s').1 ≡ write_json (certificate c))
  unfolding decide
  decide-certificate (s', ok tc) h = (s', tc, refl, h)
  decide-certificate (s', err e) h = ground arith

  posted_token :
      (s : Server) {c : CertResponse}
      → (handle_exchange w r s).1 ≡ write_json (certificate c)
      → (r.method ≡ "POST")
        × (body : String) × (r.body ≡ some body)
        × (token : String) × (w.id_token_of body ≡ some token)
        × (token ≢ "")
        × ((decide w r (validate_token w token (note_use w token s))).1
            ≡ write_json (certificate c))
  unfolding handle_exchange exchange_token
  posted_token s h = elim (Option-cases r.body) [
    | inl e ↦ ground arith
    | inr (body, e) ↦ elim (Option-cases (w.id_token_of body)) [
      | inl e' ↦ ground arith
      | inr (token, e') ↦ (
        (eq_iff r.method "POST").0 (ground arith),
        body,
        e,
        token,
        e',
        ground (arith, eq_iff token ""),
        ground arith,
      )
    ]
  ]

  pub handle_exchange-IssuedFor :
      (s : Server) (c : CertResponse)
      → (handle_exchange w r s).1 ≡ write_json (certificate c)
      → IssuedFor w r s c
  handle_exchange-IssuedFor s c h =
      let (posted, body, has_body, token, has_token, nonempty, h₁) = posted_token s {c = c} h in
      let noted = note_use w token s in
      let (s', tc, e, h₂) = decide-certificate (validate_token w token noted) {c = c} h₁ in
      let (cfg₁, valid) = validate_token-ValidFor w token noted s' {tc = tc} e in
      let (cfg₂, cache) = note_use_settings w token s in
      let (some_role, cert, signed, answered) = authorize-certificate tc s' {c = c} h₂ in
      let same : s'.cfg ≡ s.cfg = cfg₁ ∙ cfg₂ in
      record {
        posted = posted;
        body = body;
        has_body = has_body;
        token = token;
        has_token = has_token;
        nonempty = nonempty;
        tc = tc;
        valid = ValidFor_of_settings w noted s token tc cfg₂ cache valid;
        some_role =
            subst (λ (cfg : Config). is_empty (assigned_roles cfg tc) ≡ false) same some_role;
        cert = cert;
        signed =
            subst
              (λ (cfg : Config).
                issue w.talos cfg.issuer (assigned_roles cfg tc) cfg.cert_ttl ≡ ok cert)
              same signed;
        answered = subst (λ (cfg : Config). c ≡ cert_response cfg cert) same answered;
      }
