-- ===== src/Admin.antt =====
-- pkg/admin: the tracker of the issued certificates and the persistent certificate log, which both
-- listen to the audit events. Times are arguments; json.Marshal of a record is a parameter.
pub mod Tracking
mod Examples
use talosctl_oidc.Base.{
  ℕ, ◌+◌, ◌-◌, ◌*◌, ◌/◌, String, Bool, true, false, List, [], ◌∷◌, ◌++◌, Option, none, some,
  or_else, keep, length, if◌then◌else◌,
}
use talosctl_oidc.Clock.{second, after}
use talosctl_oidc.Audit.{Event, EventType, cert_issued, auth_failure, auth_success, cert_error}

pub record CertRecord : Type 0 where
  pub subject : String
  pub email : String
  pub issued_at : ℕ
  pub expires_at : ℕ
  pub client_ip : String
  pub roles : List String
  pub ttl : ℕ
  pub fingerprint : String

-- derefTime: a missing expiry is the zero time.
unfoldable pub deref_time : Option ℕ → ℕ
deref_time t = or_else t 0

-- The record that both listeners make of an event.
unfoldable pub record_of : Event → CertRecord
record_of event = record {
  subject = event.subject;
  email = event.email;
  issued_at = event.timestamp;
  expires_at = deref_time event.cert_expiry;
  client_ip = event.client_ip;
  roles = event.roles;
  ttl = event.cert_ttl;
  fingerprint = event.cert_fingerprint;
}

-- The int64 counters are taken not to wrap.
pub record Tracker : Type 0 where
  pub started_at : ℕ
  pub certs : List CertRecord
  pub total_certs_issued : ℕ
  pub total_auth_success : ℕ
  pub total_auth_failure : ℕ
  pub total_cert_errors : ℕ

unfoldable pub new_tracker : ℕ → Tracker
new_tracker now = record {
  started_at = now;
  certs = [];
  total_certs_issued = 0;
  total_auth_success = 0;
  total_auth_failure = 0;
  total_cert_errors = 0;
}

unfoldable pub count_event : EventType → CertRecord → Tracker → Tracker
count_event cert_issued rec t = record t {
  total_certs_issued = t.total_certs_issued + 1;
  certs = t.certs ++ rec ∷ [];
}
count_event auth_success rec t = record t { total_auth_success = t.total_auth_success + 1 }
count_event auth_failure rec t = record t { total_auth_failure = t.total_auth_failure + 1 }
count_event cert_error rec t = record t { total_cert_errors = t.total_cert_errors + 1 }

-- handleEvent of the tracker
unfoldable pub handle_event : Event → Tracker → Tracker
handle_event event t = count_event event.type (record_of event) t

-- `c.ExpiresAt.After(now)`
abbrev pub is_active : ℕ → CertRecord → Bool
is_active now c = after c.expires_at now

-- pruneExpiredLocked
unfoldable pub prune_expired : ℕ → Tracker → Tracker
prune_expired now t = record t { certs = keep (is_active now) t.certs }

unfoldable pub active_certs : ℕ → Tracker → Tracker × List CertRecord
active_certs now t = let t' = prune_expired now t in (t', t'.certs)

-- `d.Round(time.Second)`: halves go up.
abbrev pub round_second : ℕ → ℕ
round_second d = (d + second / 2) / second * second

-- `uptime` is the duration that the source writes as a text.
pub record Stats : Type 0 where
  pub started_at : ℕ
  pub uptime : ℕ
  pub total_certs_issued : ℕ
  pub active_certs : ℕ
  pub total_auth_successes : ℕ
  pub total_auth_failures : ℕ
  pub total_cert_errors : ℕ

unfoldable pub get_stats : ℕ → Tracker → Tracker × Stats
get_stats now t =
    let t' = prune_expired now t in
    (
      t',
      record {
        started_at = t.started_at;
        uptime = round_second (now - t.started_at);
        total_certs_issued = t.total_certs_issued;
        active_certs = length t'.certs;
        total_auth_successes = t.total_auth_success;
        total_auth_failures = t.total_auth_failure;
        total_cert_errors = t.total_cert_errors;
      },
    )

-- The certificate log is the lines of its file. handleEvent of the log:
unfoldable pub append_record : (CertRecord → Option String) → CertRecord → List String → List String
append_record marshal rec file = elim (marshal rec) [ none ↦ file | some line ↦ file ++ line ∷ [] ]

unfoldable pub is_issued : EventType → Bool
is_issued cert_issued = true
is_issued auth_failure = false
is_issued auth_success = false
is_issued cert_error = false

unfoldable pub log_event : (CertRecord → Option String) → Event → List String → List String
log_event marshal event file =
    if is_issued event.type then append_record marshal (record_of event) file else file
