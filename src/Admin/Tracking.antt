-- ===== src/Admin/Tracking.antt =====
-- What the tracker and the certificate log hold after any history.
use mathlib.Core.List.{append-nil, append_assoc}
use talosctl_oidc.Base.{
  ℕ, ◌+◌, ◌-◌, ◌≤◌, ◌≡◌, refl, sym, ap, ◌∙◌, String, Bool, true, false, List, [], ◌∷◌, ◌++◌, Option,
  some, keep, keep-append, length, count, arith, if◌then◌else◌, map,
}
use talosctl_oidc.Audit.{Event, EventType, cert_issued, auth_failure, auth_success, cert_error}
use talosctl_oidc.Admin.{
  CertRecord, Tracker, record_of, new_tracker, count_event, handle_event, is_active, prune_expired,
  round_second, active_certs, get_stats, is_issued, append_record, log_event,
}

-- An event, or a look at the dashboard, which drops what has expired.
pub data Call : Type 0 where
  see : Event → Call
  look : ℕ → Call

unfoldable pub step : Tracker → Call → Tracker
step t (see event) = handle_event event t
step t (look now) = (active_certs now t).0

unfoldable pub run : Tracker → List Call → Tracker
run t [] = t
run t (c ∷ cs) = run (step t c) cs

-- The events of a history.
abbrev pub events : List Call → List Event
events [] = []
events (see event ∷ cs) = event ∷ events cs
events (look now ∷ cs) = events cs

-- The records of the certificates that the events say were issued, oldest first.
abbrev pub issued : List Event → List CertRecord
issued [] = []
issued (e ∷ es) = let rest = issued es in if is_issued e.type then record_of e ∷ rest else rest

-- How many events of a type there are.
abbrev pub same_type : EventType → EventType → Bool
same_type cert_issued cert_issued = true
same_type auth_failure auth_failure = true
same_type auth_success auth_success = true
same_type cert_error cert_error = true
same_type _ _ = false

abbrev pub total : EventType → List Event → ℕ
total type = count (λ e. same_type type e.type)

-- No look is later than `now`.
abbrev pub Before : ℕ → List Call → Type 0
Before now [] = Unit
Before now (see event ∷ cs) = Before now cs
Before now (look t ∷ cs) = (t ≤ now) × Before now cs

-- What is active later is active earlier.
pub keep-keep :
    (t now : ℕ) (cs : List CertRecord)
    → t ≤ now
    → keep (is_active now) (keep (is_active t) cs) ≡ keep (is_active now) cs
keep-keep t now [] h = refl
keep-keep t now (c ∷ cs) h = ground (arith, keep-keep t now cs h)

pub record Totals (t u : Tracker) (es : List Event) : Type 0 where
  pub issued_total : u.total_certs_issued ≡ t.total_certs_issued + total cert_issued es
  pub success_total : u.total_auth_success ≡ t.total_auth_success + total auth_success es
  pub failure_total : u.total_auth_failure ≡ t.total_auth_failure + total auth_failure es
  pub error_total : u.total_cert_errors ≡ t.total_cert_errors + total cert_error es

count_event-Totals :
    (type : EventType) (rec : CertRecord) (t u : Tracker) (e : Event) (es : List Event)
    → e.type ≡ type
    → Totals (count_event type rec t) u es
    → Totals t u (e ∷ es)
unfolding count_event
count_event-Totals cert_issued rec t u e es k h = ground arith
count_event-Totals auth_success rec t u e es k h = ground arith
count_event-Totals auth_failure rec t u e es k h = ground arith
count_event-Totals cert_error rec t u e es k h = ground arith

run-Totals : (t : Tracker) (cs : List Call) → Totals t (run t cs) (events cs)
unfolding run step handle_event active_certs prune_expired
run-Totals t [] = ground arith
run-Totals t (see e ∷ cs) =
    count_event-Totals e.type (record_of e) t (run (step t (see e)) cs) e (events cs) refl
      (run-Totals (step t (see e)) cs)
run-Totals t (look now ∷ cs) =
    let h = run-Totals (step t (look now)) cs in
    record {
      issued_total = h.issued_total;
      success_total = h.success_total;
      failure_total = h.failure_total;
      error_total = h.error_total;
    }

count_event-certs :
    (e : Event) (t : Tracker) → (handle_event e t).certs ≡ t.certs ++ issued (e ∷ [])
unfolding handle_event count_event is_issued
count_event-certs e t = ground (arith, append-nil t.certs)

issued-cons : (e : Event) (es : List Event) → issued (e ∷ es) ≡ issued (e ∷ []) ++ issued es
issued-cons e es = ground arith

look-certs :
    (now : ℕ) (t : Tracker) (u : ℕ)
    → u ≤ now
    → keep (is_active now) (active_certs u t).0.certs ≡ keep (is_active now) t.certs
unfolding active_certs prune_expired
look-certs now t u h = keep-keep u now t.certs h

run-started_at : (t : Tracker) (cs : List Call) → (run t cs).started_at ≡ t.started_at
unfolding run step handle_event count_event active_certs prune_expired
run-started_at t [] = refl
run-started_at t (see e ∷ cs) = ground (arith, run-started_at (handle_event e t) cs)
run-started_at t (look u ∷ cs) = run-started_at (step t (look u)) cs

run-certs :
    (now : ℕ) (t : Tracker) (cs : List Call)
    → Before now cs
    → keep (is_active now) (run t cs).certs
      ≡ keep (is_active now) t.certs ++ keep (is_active now) (issued (events cs))
unfolding run step
run-certs now t [] h = sym (append-nil _)
run-certs now t (see e ∷ cs) h = ground (
  arith,
  run-certs now (handle_event e t) cs h,
  count_event-certs e t,
  keep-append (is_active now) t.certs (issued (e ∷ [])),
  issued-cons e (events cs),
  keep-append (is_active now) (issued (e ∷ [])) (issued (events cs)),
  append_assoc (keep (is_active now) t.certs) (keep (is_active now) (issued (e ∷ [])))
      (keep (is_active now) (issued (events cs))),
)
run-certs now t (look u ∷ cs) h =
    run-certs now (active_certs u t).0 cs h.1
    ∙ ap (λ l. l ++ keep (is_active now) (issued (events cs))) (look-certs now t u h.0)

-- After any history of audit events and looks at the dashboard, none of them after `now`, the
-- active certificates are those of the issuances in the history that expire after `now`, oldest
-- first, and the statistics give the number of events of each type and, rounded to a second, the time
-- since the start.
pub get_stats_lem :
    (start now : ℕ) (cs : List Call)
    → Before now cs
    → let t = run (new_tracker start) cs in
      ((active_certs now t).1 ≡ keep (is_active now) (issued (events cs)))
      × ((get_stats now t).1 ≡ record {
        started_at = start;
        uptime = round_second (now - start);
        total_certs_issued = total cert_issued (events cs);
        active_certs = length (keep (is_active now) (issued (events cs)));
        total_auth_successes = total auth_success (events cs);
        total_auth_failures = total auth_failure (events cs);
        total_cert_errors = total cert_error (events cs);
      })
unfolding active_certs prune_expired get_stats new_tracker
get_stats_lem start now cs h =
    let counts = run-Totals (new_tracker start) cs in
    let active = run-certs now (new_tracker start) cs h in
    (active, ground (arith, run-started_at (new_tracker start) cs))

-- The lines of the certificate log after a list of events.
unfoldable pub log_events : (CertRecord → Option String) → List Event → List String → List String
log_events marshal [] file = file
log_events marshal (e ∷ es) file = log_events marshal es (log_event marshal e file)

-- Where every record can be written as JSON, the certificate log holds the lines of exactly the
-- issued certificates, in their order, behind what the file held before.
pub log_events_lem :
    (line : CertRecord → String) (es : List Event) (file : List String)
    → log_events (λ r. some (line r)) es file ≡ file ++ map line (issued es)
unfolding log_events log_event append_record
log_events_lem line [] file = sym (append-nil file)
log_events_lem line (e ∷ es) file = ground (
  arith,
  log_events_lem line es (log_event (λ r. some (line r)) e file),
  append_assoc file (line (record_of e) ∷ []) (map line (issued es)),
)
