-- ===== src/Server/Exchange.antt =====
-- pkg/server/server.go: handleExchange, which turns an ID token into a client certificate.
pub mod Valid
pub mod Issued
pub mod Complete
pub mod Audited
mod Examples
use talosctl_oidc.Base.{
  ℕ, ◌+◌, ◌/◌, ◌==◌, String, Bool, true, false, ◌&&◌, not, List, [], ◌∷◌, Option, none, some,
  Result, ok, err, or_else, is_empty, if◌then◌else◌,
}
use talosctl_oidc.Clock.{second}
use talosctl_oidc.Request.{Request}
use talosctl_oidc.Audit.{Event, EventType, cert_issued, auth_failure, auth_success, cert_error}
use talosctl_oidc.Anomaly.{Detector, record_failure, record_token_use}
use talosctl_oidc.Rbac.{Mapper, map_roles, has_rules}
use talosctl_oidc.TalosApi.{ClientCertificate, IssueError, issue}
use talosctl_oidc.Server.{
  Config, Server, CertResponse, Response, certificate, write_error, write_json, audit_log,
}
use talosctl_oidc.Server.Tokens.{World, TokenError, TokenClaims, validate_token}

-- The key under which the handler counts a client: `clientIP := r.RemoteAddr`.
unfoldable pub client_ip : Request → String
client_ip r = r.remote_addr

-- The fields that the handler's audit events share; each event adds its own.
abbrev pub base_event : World → Request → EventType → Event
base_event w r type = record {
  timestamp = 0;
  type = type;
  subject = "";
  email = "";
  issuer = "";
  client_ip = client_ip r;
  roles = [];
  cert_ttl = 0;
  cert_expiry = none;
  cert_fingerprint = "";
  error = "";
  detail = "";
  request_id = w.request_id;
  event_category = "authentication";
  event_outcome = "success";
  event_action = "token-exchange";
  severity = "INFO";
}

unfoldable pub failure_event : World → Request → TokenError → Event
failure_event w r e = record (base_event w r auth_failure) {
  error = w.token_error_text e;
  event_outcome = "failure";
  severity = "WARN";
}

unfoldable pub success_event : World → Request → TokenClaims → Event
success_event w r tc = record (base_event w r auth_success) {
  subject = tc.subject;
  email = tc.email;
  issuer = tc.issuer;
}

unfoldable pub cert_error_event : World → Request → TokenClaims → IssueError → Event
cert_error_event w r tc e = record (base_event w r cert_error) {
  subject = tc.subject;
  email = tc.email;
  error = w.issue_error_text e;
  event_outcome = "failure";
  severity = "WARN";
}

unfoldable pub issued_event :
    World → Request → Config → TokenClaims → List String → ClientCertificate → Event
issued_event w r cfg tc roles cert = record (base_event w r cert_issued) {
  subject = tc.subject;
  email = tc.email;
  issuer = tc.issuer;
  roles = roles;
  cert_ttl = cfg.cert_ttl;
  cert_expiry = some (w.done + cfg.cert_ttl);
  cert_fingerprint = or_else (w.fingerprint cert.cert_pem) "";
}

-- The roles: the mapper's where it has rules, else the configured ones.
unfoldable pub assigned_roles : Config → TokenClaims → List String
assigned_roles cfg tc = elim cfg.rbac_mapper [
  | none ↦ cfg.roles
  | some mapper ↦ if has_rules mapper then map_roles mapper tc.claims else cfg.roles
]

unfoldable pub cert_response : Config → ClientCertificate → CertResponse
cert_response cfg cert = record {
  ca = cert.ca_pem;
  cert = cert.cert_pem;
  key = cert.key_pem;
  endpoints = cfg.endpoints;
  ttl_seconds = cfg.cert_ttl / second;
}

-- The detector is told of each use of a token; it only warns.
unfoldable pub note_use : World → String → Server → Server
note_use w token s = elim s.detector [
  | none ↦ s
  | some d ↦ record s { detector = some (record_token_use w.token_hash w.now token d).0 }
]

unfoldable pub note_failure : World → Request → Server → Server
note_failure w r s = elim s.detector [
  | none ↦ s
  | some d ↦ record s { detector = some (record_failure w.now (client_ip r) d).0 }
]

-- After the issuing call.
unfoldable pub deliver :
    World
    → Request
    → TokenClaims
    → List String
    → Result IssueError ClientCertificate
    → Server
    → Server × Response
deliver w r tc roles (err e) s = (
  audit_log w.marshal w.now (cert_error_event w r tc e) s,
  write_error 500 "failed to generate certificate",
)
deliver w r tc roles (ok cert) s = (
  audit_log w.marshal w.done (issued_event w r s.cfg tc roles cert) s,
  write_json (certificate (cert_response s.cfg cert)),
)

-- After the token is found valid.
unfoldable pub authorize : World → Request → TokenClaims → Server → Server × Response
authorize w r tc s =
    let s' = audit_log w.marshal w.now (success_event w r tc) s in
    let roles = assigned_roles s.cfg tc in
    if is_empty roles
    then (s', write_error 403 "no roles assigned - user does not match any RBAC rules")
    else deliver w r tc roles (issue w.talos s.cfg.issuer roles s.cfg.cert_ttl) s'

-- After the token is validated or refused.
unfoldable pub decide : World → Request → Server × Result TokenError TokenClaims → Server × Response
decide w r (s, ok tc) = authorize w r tc s
decide w r (s, err e) = (
  note_failure w r (audit_log w.marshal w.now (failure_event w r e) s),
  write_error 401 "invalid token",
)

unfoldable pub exchange_token : World → Request → String → Server → Server × Response
exchange_token w r token s =
    if token == ""
    then (s, write_error 400 "id_token is required")
    else decide w r (validate_token w token (note_use w token s))

unfoldable pub handle_exchange : World → Request → Server → Server × Response
handle_exchange w r s =
    if not (r.method == "POST") then (s, write_error 405 "method not allowed") else elim r.body [
      | none ↦ (s, write_error 413 "request body too large or unreadable")
      | some body ↦ elim (w.id_token_of body) [
        | none ↦ (s, write_error 400 "invalid JSON")
        | some token ↦ exchange_token w r token s
      ]
    ]
