-- ===== src/Server/Exchange/Audited.antt =====
-- Which audit events a request leaves behind.
use talosctl_oidc.Base.{
  ℕ, ◌==◌, ◌≡◌, refl, sym, ap, subst, ◌∙◌, String, List, [], ◌∷◌, Option, none, some, Result, ok,
  err, All, map, is_empty, if◌then◌else◌, eqb, arith, Bool-cases, Option-cases, inl, inr,
}
use talosctl_oidc.Request.{Request}
use talosctl_oidc.Audit.{
  Event, EventType, cert_issued, auth_failure, auth_success, cert_error, Logger, log,
  severity_for_event,
}
use talosctl_oidc.TalosApi.{ClientCertificate, IssueError, issue}
use talosctl_oidc.Oidc.Jwks.{Jwks}
use talosctl_oidc.Oidc.JwksCache.{Cache}
use talosctl_oidc.Server.{Sinks, Server, Response, write_error, audit_log}
use talosctl_oidc.Server.Tokens.{
  World, TokenError, TokenClaims, jwks_cache_for_issuer, current_jwks, with_jwks, with_cache,
  validate_token,
}
use talosctl_oidc.Server.Exchange.{
  client_ip, failure_event, success_event, cert_error_event, issued_event, note_use, note_failure,
  assigned_roles, deliver, authorize, decide, exchange_token, handle_exchange,
}

abbrev Audit : Type 0
Audit = Option (Logger Sinks)

abbrev pub log_one : (Event → Option String) → ℕ × Event → Audit → Audit
log_one marshal (now, e) none = none
log_one marshal (now, e) (some l) = some (log marshal now e l)

-- The events of a trail, each with the time of its call, logged one after another.
abbrev pub log_all : (Event → Option String) → List (ℕ × Event) → Audit → Audit
log_all marshal [] a = a
log_all marshal (e ∷ es) a = log_all marshal es (log_one marshal e a)

-- The types of the events that go with a status.
abbrev pub types_for : ℕ → List EventType
types_for status =
    if eqb status 200
    then auth_success ∷ cert_issued ∷ []
    else if eqb status 401
    then auth_failure ∷ []
    else if eqb status 403
    then auth_success ∷ []
    else if eqb status 500
    then auth_success ∷ cert_error ∷ []
    else []

-- An event names the peer of the request and has the severity of its type.
abbrev pub IsFor : Request → ℕ × Event → Type 0
IsFor r e = (e.1.client_ip ≡ r.remote_addr) × (e.1.severity ≡ severity_for_event e.1.type)

pub record Audited (w : World) (r : Request) (a : Audit) (p : Server × Response) : Type 0 where
  pub trail : List (ℕ × Event)
  pub logged : p.0.audit ≡ log_all w.marshal trail a
  pub types : map (λ e. e.1.type) trail ≡ types_for p.1.status
  pub named : All (IsFor r) trail

audit_log-audit :
    (marshal : Event → Option String) (now : ℕ) (e : Event) (s : Server)
    → (audit_log marshal now e s).audit ≡ log_one marshal (now, e) s.audit
unfolding audit_log
audit_log-audit marshal now e s = ground arith

module _ (w : World) (r : Request) where
  jwks_cache_for_issuer-audit : (s : Server) → (jwks_cache_for_issuer w s).0.audit ≡ s.audit
  unfolding jwks_cache_for_issuer
  jwks_cache_for_issuer-audit s = ground arith

  current_jwks-audit : (c : Cache) (s : Server) → (current_jwks w c s).0.audit ≡ s.audit
  unfolding current_jwks
  current_jwks-audit c s = refl

  with_jwks-audit :
      (token : String) (p : Server × Result TokenError Jwks)
      → (with_jwks w token p).0.audit ≡ p.0.audit
  unfolding with_jwks
  with_jwks-audit token (s, err e) = refl
  with_jwks-audit token (s, ok jwks) = refl

  with_cache-audit :
      (token : String) (p : Server × Result TokenError Cache)
      → (with_cache w token p).0.audit ≡ p.0.audit
  unfolding with_cache
  with_cache-audit token (s, err e) = refl
  with_cache-audit token (s, ok c) =
      with_jwks-audit token (current_jwks w c s) ∙ current_jwks-audit c s

  validate_token-audit :
      (token : String) (s : Server) → (validate_token w token s).0.audit ≡ s.audit
  unfolding validate_token
  validate_token-audit token s =
      with_cache-audit token (jwks_cache_for_issuer w s) ∙ jwks_cache_for_issuer-audit s

  note-audit :
      (token : String) (s : Server)
      → ((note_use w token s).audit ≡ s.audit) × ((note_failure w r s).audit ≡ s.audit)
  unfolding note_use note_failure
  note-audit token s = ground arith

  deliver-Audited :
      (tc : TokenClaims) (roles : List String) (issued : Result IssueError ClientCertificate)
      (a : Audit) (s : Server)
      → s.audit ≡ log_one w.marshal (w.now, success_event w r tc) a
      → Audited w r a (deliver w r tc roles issued s)
  unfolding deliver success_event cert_error_event issued_event severity_for_event client_ip
  deliver-Audited tc roles (err e) a s h = record {
    trail = (w.now, success_event w r tc) ∷ (w.now, cert_error_event w r tc e) ∷ [];
    logged =
        audit_log-audit w.marshal w.now (cert_error_event w r tc e) s
        ∙ ap (log_one w.marshal (w.now, cert_error_event w r tc e)) h;
    types = refl;
    named = ((refl, refl), ((refl, refl), tt));
  }
  deliver-Audited tc roles (ok cert) a s h =
      let event = issued_event w r s.cfg tc roles cert in
      record {
        trail = (w.now, success_event w r tc) ∷ (w.done, event) ∷ [];
        logged =
            audit_log-audit w.marshal w.done event s ∙ ap (log_one w.marshal (w.done, event)) h;
        types = refl;
        named = ((refl, refl), ((refl, refl), tt));
      }

  authorize-Audited :
      (tc : TokenClaims) (a : Audit) (s : Server) → s.audit ≡ a → Audited w r a (authorize w r tc s)
  unfolding authorize success_event severity_for_event client_ip
  authorize-Audited tc a s same =
      let roles = assigned_roles s.cfg tc in
      let logged =
        audit_log-audit w.marshal w.now (success_event w r tc) s
        ∙ ap (log_one w.marshal (w.now, success_event w r tc)) same in
      elim (Bool-cases (is_empty roles)) [
        | inl nobody ↦ rw nobody (record {
          trail = (w.now, success_event w r tc) ∷ [];
          logged = logged;
          types = refl;
          named = ((refl, refl), tt);
        })
        | inr some_role ↦ rw some_role (
            deliver-Audited tc roles (issue w.talos s.cfg.issuer roles s.cfg.cert_ttl) a
              (audit_log w.marshal w.now (success_event w r tc) s) logged)
      ]

  decide-Audited :
      (a : Audit) (p : Server × Result TokenError TokenClaims)
      → p.0.audit ≡ a
      → Audited w r a (decide w r p)
  unfolding decide failure_event severity_for_event client_ip
  decide-Audited a (s, ok tc) same = authorize-Audited tc a s same
  decide-Audited a (s, err e) same = record {
    trail = (w.now, failure_event w r e) ∷ [];
    logged =
        (note-audit "" (audit_log w.marshal w.now (failure_event w r e) s)).1
        ∙ audit_log-audit w.marshal w.now (failure_event w r e) s
        ∙ ap (log_one w.marshal (w.now, failure_event w r e)) same;
    types = refl;
    named = ((refl, refl), tt);
  }

  quiet :
      (s : Server) (response : Response)
      → types_for response.status ≡ []
      → Audited w r s.audit (s, response)
  quiet s response h = record { trail = []; logged = refl; types = sym h; named = tt }

  exchange_token-Audited :
      (token : String) (s : Server) → Audited w r s.audit (exchange_token w r token s)
  unfolding exchange_token
  exchange_token-Audited token s = elim (Bool-cases (token == "")) [
    | inl empty ↦ rw empty (quiet s _ refl)
    | inr given ↦ rw given (
        decide-Audited s.audit (validate_token w token (note_use w token s))
          (validate_token-audit token (note_use w token s) ∙ (note-audit token s).0))
  ]

  -- Every request leaves the audit events of its outcome, and no others: a success and an issuance
  -- with a certificate (200), a failure for a token that is refused (401), a success for a user
  -- without roles (403), a success and an error where issuing fails (500), and none for a request
  -- that is refused before its token is looked at. Each event names the direct peer and has the
  -- severity of its type.
  pub handle_exchange-Audited : (s : Server) → Audited w r s.audit (handle_exchange w r s)
  unfolding handle_exchange
  handle_exchange-Audited s = elim (Bool-cases (r.method == "POST")) [
    | inr other ↦ is (s, write_error 405 "method not allowed") (ground arith) (quiet s _ refl)
    | inl post ↦ elim (Option-cases r.body) [
      | inl e ↦
          is (s, write_error 413 "request body too large or unreadable") (ground arith)
            (quiet s _ refl)
      | inr (body, e) ↦ elim (Option-cases (w.id_token_of body)) [
        | inl e' ↦ is (s, write_error 400 "invalid JSON") (ground arith) (quiet s _ refl)
        | inr (token, e') ↦
            is (exchange_token w r token s) (ground arith) (exchange_token-Audited token s)
      ]
    ]
  ]
    where
      is :
          (p : Server × Response)
          → handle_exchange w r s ≡ p
          → Audited w r s.audit p
          → Audited w r s.audit (handle_exchange w r s)
      is p e a = subst (Audited w r s.audit) (sym e) a
