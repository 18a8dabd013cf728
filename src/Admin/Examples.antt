-- ===== src/Admin/Examples.antt =====
-- The tracker and the certificate log after a concrete history.
use talosctl_oidc.Base.{ℕ, ◌≡◌, List, [], ◌∷◌, some, keep, length, arith}
use talosctl_oidc.Audit.{Event, EventType, cert_issued, auth_success, auth_failure, cert_error}
use talosctl_oidc.Admin.{new_tracker, active_certs, get_stats, is_active, round_second}
use talosctl_oidc.Admin.Tracking.{Call, see, look, run, events, issued, total, get_stats_lem}

abbrev event : EventType → ℕ → Event
event type expiry = record {
  timestamp = 1;
  type = type;
  subject = "alice";
  email = "";
  issuer = "https://idp";
  client_ip = "10.0.0.1:2001";
  roles = "os:reader" ∷ [];
  cert_ttl = 10;
  cert_expiry = some expiry;
  cert_fingerprint = "";
  error = "";
  detail = "";
  request_id = "1";
  event_category = "authentication";
  event_outcome = "success";
  event_action = "token-exchange";
  severity = "INFO";
}

abbrev history : List Call
history =
    see (event auth_success 0)
    ∷ see (event cert_issued 10)
    ∷ look 12
    ∷ see (event cert_issued 20)
    ∷ []

get_stats_lem_example :
    let t = run (new_tracker 0) history in
    ((active_certs 15 t).1 ≡ keep (is_active 15) (issued (events history)))
    × ((get_stats 15 t).1 ≡ record {
      started_at = 0;
      uptime = round_second 15;
      total_certs_issued = total cert_issued (events history);
      active_certs = length (keep (is_active 15) (issued (events history)));
      total_auth_successes = total auth_success (events history);
      total_auth_failures = total auth_failure (events history);
      total_cert_errors = total cert_error (events history);
    })
get_stats_lem_example = get_stats_lem 0 15 history (omega arith, tt)
