-- ===== src/Server/Guards.antt =====
-- pkg/server/server.go: the middleware that New puts around the exchange, and the guard and the
-- handlers of the admin API.
pub mod Passed
pub mod Bearer
mod Examples
use talosctl_oidc.Base.{ℕ, ◌==◌, String, Bool, true, false, not, Option, none, some, if◌then◌else◌}
use talosctl_oidc.Text.{cut_prefix}
use talosctl_oidc.Request.{Request, header}
use talosctl_oidc.Ratelimit.{
  Limiter, Verdict as LimitVerdict, next as within_limit, too_many, middleware as limit,
  is_enabled as limits,
}
use talosctl_oidc.Allowlist.{
  Allowlist, Verdict as ListVerdict, next as listed, forbidden, middleware as screen,
  is_enabled as screens,
}
use talosctl_oidc.Admin.{Tracker, Stats, CertRecord, active_certs, get_stats}
use talosctl_oidc.Server.{Server, Response, Body, stats, certs, text, pem, write_error, write_json}
use talosctl_oidc.Server.Tokens.{World}
use talosctl_oidc.Server.Exchange.{handle_exchange}

unfoldable pub after_screen : World → Request → Server → ListVerdict → Server × Response
after_screen w r s listed = handle_exchange w r s
after_screen w r s forbidden = (s, write_error 403 "IP not allowed")

-- The handler behind the allowlist, which stands there only if it is configured and not empty.
unfoldable pub screened_exchange : World → Request → Option Allowlist → Server → Server × Response
screened_exchange w r none s = handle_exchange w r s
screened_exchange w r (some a) s =
    if screens a then after_screen w r s (screen r a) else handle_exchange w r s

unfoldable pub after_limit :
    World → Request → Option Allowlist → Server → LimitVerdict → Server × Response
after_limit w r a s within_limit = screened_exchange w r a s
after_limit w r a s (too_many retry_after) = (s, write_error 429 "rate limit exceeded")

-- The route "/exchange": the rate limiter, if it limits, stands before the allowlist.
unfoldable pub exchange_route :
    World
    → Request
    → Option Allowlist
    → Option Limiter
    → Server
    → Option Limiter × (Server × Response)
exchange_route w r a none s = (none, screened_exchange w r a s)
exchange_route w r a (some l) s =
    if limits l
    then (some (limit w.now r l).0, after_limit w r a s (limit w.now r l).1)
    else (some l, screened_exchange w r a s)

-- handleHealth and handleCA
unfoldable pub handle_health : Request → Response
handle_health r =
    if not (r.method == "GET")
    then write_error 405 "method not allowed"
    else record { status = 200; body = text "ok" }

unfoldable pub handle_ca : Request → String → Response
handle_ca r ca_pem =
    if not (r.method == "GET")
    then write_error 405 "method not allowed"
    else if ca_pem == ""
    then write_error 404 "CA endpoint only available in self-signed TLS mode"
    else record { status = 200; body = pem ca_pem }

-- requireAdminToken: the refusal, or none where the request goes on to the handler.
unfoldable pub require_admin_token : String → Request → Option Response
require_admin_token admin_token r =
    let auth = header "Authorization" r in
    if admin_token == ""
    then some (write_error 403 "admin API is disabled (no TALOSCTL_OIDC_ADMIN_TOKEN configured)")
    else if auth == ""
    then some (write_error 401 "missing Authorization header")
    else elim (cut_prefix "Bearer " auth) [
      | none ↦ some (write_error 401 "invalid Authorization header (expected Bearer token)")
      | some token ↦
          if not (token == admin_token) then some (write_error 403 "invalid admin token") else none
    ]

-- handleAdminStats and handleAdminCerts; the tracker drops what has expired.
unfoldable pub handle_admin_stats : ℕ → Request → Option Tracker → Option Tracker × Response
handle_admin_stats now r t =
    if not (r.method == "GET") then (t, write_error 405 "method not allowed") else elim t [
      | none ↦ (none, write_error 500 "tracker not initialized")
      | some tracker ↦
          (some (get_stats now tracker).0, write_json (stats (get_stats now tracker).1))
    ]

unfoldable pub handle_admin_certs : ℕ → Request → Option Tracker → Option Tracker × Response
handle_admin_certs now r t =
    if not (r.method == "GET") then (t, write_error 405 "method not allowed") else elim t [
      | none ↦ (none, write_error 500 "tracker not initialized")
      | some tracker ↦
          (some (active_certs now tracker).0, write_json (certs (active_certs now tracker).1))
    ]

-- A handler of the admin API behind its guard.
unfoldable pub guarded :
    String
    → Request
    → (Option Tracker → Option Tracker × Response)
    → Option Tracker
    → Option Tracker × Response
guarded admin_token r handler t = elim (require_admin_token admin_token r) [
  | some refusal ↦ (t, refusal)
  | none ↦ handler t
]
