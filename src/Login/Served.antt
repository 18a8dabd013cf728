-- ===== src/Login/Served.antt =====
-- cmd/login.go with pkg/server: the exchange of a token between the client and the server.
use talosctl_oidc.Base.{
  ◌∷◌, [], ◌==◌, ◌≡◌, ◌↔◌, ◌∙◌, inl, inr, refl, sym, ap, subst, String, not, List, [], Option, none,
  some, Result, ok, err, eqb, is_empty, Bool-cases, Option-cases, arith,
}
use talosctl_oidc.Text.{trim_right_of}
use talosctl_oidc.Text.Laws.{◌+++◌}
use talosctl_oidc.Request.{Request}
use talosctl_oidc.TalosApi.{ClientCertificate, IssueError, issue}
use talosctl_oidc.Oidc.Provider.{Answer}
use talosctl_oidc.Server.{Server, CertResponse, Response, Body, certificate, write_json, audit_log}
use talosctl_oidc.Server.Tokens.{World, TokenError, TokenClaims, validate_token}
use talosctl_oidc.Server.Exchange.{
  assigned_roles, note_use, success_event, deliver, authorize, decide, exchange_token,
  handle_exchange,
}
use talosctl_oidc.Login.Renewal.{Client, exchange_token_for_cert}

-- The answer holds a certificate exactly where its status is 200.
abbrev Fits200 : Response → Type 0
Fits200 r = r.status ≡ 200 → (c : CertResponse) × (r ≡ write_json (certificate c))

module _ (w : World) (r : Request) where
  deliver-200 :
      (tc : TokenClaims) (roles : List String) (issued : Result IssueError ClientCertificate)
      (s : Server)
      → Fits200 (deliver w r tc roles issued s).1
  unfolding deliver
  deliver-200 tc roles (err e) s h = ground arith
  deliver-200 tc roles (ok cert) s h = (_, refl)

  authorize-200 : (tc : TokenClaims) (s : Server) → Fits200 (authorize w r tc s).1
  unfolding authorize
  authorize-200 tc s =
      let roles = assigned_roles s.cfg tc in
      let noted = audit_log w.marshal w.now (success_event w r tc) s in
      let issued = issue w.talos s.cfg.issuer roles s.cfg.cert_ttl in
      elim (Bool-cases (is_empty roles)) [
        | inl none_assigned ↦ λ h. ground arith
        | inr some_role ↦
            let same : (authorize w r tc s).1 ≡ (deliver w r tc roles issued noted).1 =
              ground arith in
            subst Fits200 (sym same) (deliver-200 tc roles issued noted)
      ]

  decide-200 : (v : Server × Result TokenError TokenClaims) → Fits200 (decide w r v).1
  unfolding decide
  decide-200 (s, ok tc) = authorize-200 tc s
  decide-200 (s, err e) = λ h. ground arith

  exchange_token-200 : (token : String) (s : Server) → Fits200 (exchange_token w r token s).1
  unfolding exchange_token
  exchange_token-200 token s =
      let v = validate_token w token (note_use w token s) in
      elim (Bool-cases (token == "")) [
        | inl blank ↦ λ h. ground arith
        | inr given ↦
            let same : (exchange_token w r token s).1 ≡ (decide w r v).1 = ground arith in
            subst Fits200 (sym same) (decide-200 v)
      ]

  handle_exchange-200 : (s : Server) → Fits200 (handle_exchange w r s).1
  unfolding handle_exchange
  handle_exchange-200 s = elim (Bool-cases (not (r.method == "POST"))) [
    | inl other ↦ λ h. ground arith
    | inr post ↦ elim (Option-cases r.body) [
      | inl e ↦ λ h. ground arith
      | inr (body, e) ↦ elim (Option-cases (w.id_token_of body)) [
        | inl f ↦ λ h. ground arith
        | inr (token, f) ↦
            let same : (handle_exchange w r s).1 ≡ (exchange_token w r token s).1 = ground arith in
            subst Fits200 (sym same) (exchange_token-200 token s)
      ]
    ]
  ]

-- The request that a client's POST is for the server, and the answer as the client gets it.
abbrev pub request : String → String → Request
request remote_addr body = record {
  method = "POST";
  remote_addr = remote_addr;
  headers = ("Content-Type", "application/json") ∷ [];
  cookie = none;
  body = some body;
}

abbrev pub answer_of : (Body → String) → Response → Answer
answer_of render response = record { status = response.status; body = render response.body }

-- The client is connected to the server, from an address: its post of an ID token is what the
-- server handles, and it reads a certificate that the server answers with as it was written.
pub record Connected (client : Client) (w : World) (s : Server) (addr server_url : String)
    (render : Body → String) (id_token : String) : Type 0 where
  pub posts :
      client.post (trim_right_of b'/' server_url +++ "/exchange") (client.marshal id_token)
      ≡ some (answer_of render (handle_exchange w (request addr (client.marshal id_token)) s).1)
  pub reads :
      (c : CertResponse)
      → (handle_exchange w (request addr (client.marshal id_token)) s).1
        ≡ write_json (certificate c)
      → client.cert_of (render (certificate c)) ≡ some c

certificate-eq : (c d : CertResponse) → ◌≡◌ {A = Option CertResponse} (some c) (some d) → c ≡ d
certificate-eq c d h = cc

-- An answer with a certificate.
exchange_token_for_cert-ok :
    (client : Client) (server_url id_token : String) (answer : Answer) (c : CertResponse)
    → client.post (trim_right_of b'/' server_url +++ "/exchange") (client.marshal id_token)
      ≡ some answer
    → exchange_token_for_cert client server_url id_token ≡ ok c
    → (answer.status ≡ 200) × (client.cert_of answer.body ≡ some c)
unfolding exchange_token_for_cert
exchange_token_for_cert-ok client server_url id_token answer c sent h =
    elim (Bool-cases (eqb answer.status 200)) [
      | inr bad ↦ ground arith
      | inl fine ↦ elim (Option-cases (client.cert_of answer.body)) [
        | inl e ↦ ground arith
        | inr (d, e) ↦ (ground arith, ground arith)
      ]
    ]

module _ (client : Client) (w : World) (s : Server) (addr server_url : String)
    (render : Body → String) (id_token : String)
    (connected : Connected client w s addr server_url render id_token) where
  served-exchange :
      (c : CertResponse)
      → (handle_exchange w (request addr (client.marshal id_token)) s).1
        ≡ write_json (certificate c)
      → exchange_token_for_cert client server_url id_token ≡ ok c
  unfolding exchange_token_for_cert
  served-exchange c h =
      let sent = connected.posts ∙ ap (λ x. some (answer_of render x)) h in
      rw (sent, connected.reads c h, exchange_token_for_cert) refl

  exchange-served :
      (c : CertResponse)
      → exchange_token_for_cert client server_url id_token ≡ ok c
      → (handle_exchange w (request addr (client.marshal id_token)) s).1
        ≡ write_json (certificate c)
  exchange-served c h =
      let body = client.marshal id_token in
      let response = (handle_exchange w (request addr body) s).1 in
      let (fine, read) =
        exchange_token_for_cert-ok client server_url id_token (answer_of render response) c
          connected.posts h in
      let (d, same) = handle_exchange-200 w (request addr body) s fine in
      let read_d =
        ap (λ (x : Response). client.cert_of (render x.body)) same ∙ connected.reads d same in
      same ∙ ap (λ x. write_json (certificate x)) (certificate-eq d c (sym read_d ∙ read))

  -- The client gets a certificate exactly when the server hands it out: for a client that is connected
  -- to the server, exchangeTokenForCert succeeds with a certificate exactly where the handler, given the
  -- body that the client posts, answers with that certificate.
  pub exchange_token_for_cert_iff :
      (c : CertResponse)
      → (exchange_token_for_cert client server_url id_token ≡ ok c) ↔ (
          (handle_exchange w (request addr (client.marshal id_token)) s).1
          ≡ write_json (certificate c))
  exchange_token_for_cert_iff c = (exchange-served c, served-exchange c)
