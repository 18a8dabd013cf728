-- ===== src/Server/Dashboard/Page.antt =====
-- pkg/server/admin_dashboard.go: handleAdminDashboard, over the tracker of pkg/admin. The clock is
-- an argument, read once, and so is whether the HTML template parses; what it renders is not
-- modelled.
pub mod Visits
use talosctl_oidc.Base.{
  ℕ, String, Bool, true, false, List, [], Option, none, some, no_entries, or_else, if◌then◌else◌,
  not,
}
use talosctl_oidc.Admin.{CertRecord, Tracker, Stats, get_stats, active_certs}
use talosctl_oidc.Request.{Request}
use talosctl_oidc.Server.Dashboard.{Dashboard, is_logged_in}

pub record AdminPageData : Type 0 where
  pub stats : Stats
  pub certs : List CertRecord
  pub current_time : ℕ
  pub logged_in : Bool
  pub error : String

-- The zero value of Stats.
abbrev pub no_stats : Stats
no_stats = record {
  started_at = 0;
  uptime = 0;
  total_certs_issued = 0;
  active_certs = 0;
  total_auth_successes = 0;
  total_auth_failures = 0;
  total_cert_errors = 0;
}

-- The data for a request without a session.
abbrev pub login_page : ℕ → AdminPageData
login_page now = record {
  stats = no_stats;
  certs = [];
  current_time = now;
  logged_in = false;
  error = "";
}

pub data Response : Type 0 where
  fails : ℕ → String → Response
  page : AdminPageData → Response

unfoldable pub render : Bool → AdminPageData → Response
render parses content = if parses then page content else fails 500 "failed to parse template"

-- The session is good: GetStats and then ActiveCerts, each of which drops what has expired.
unfoldable pub show : ℕ → Bool → Option Tracker → Option Tracker × Response
show now parses none = (none, fails 500 "tracker not initialized")
show now parses (some t) =
    let counted = get_stats now t in
    let listed = active_certs now counted.0 in
    (
      some listed.0,
      render parses (record {
        stats = counted.1;
        certs = listed.1;
        current_time = now;
        logged_in = true;
        error = "";
      }),
    )

unfoldable pub handle_admin_dashboard :
    ℕ → Request → Bool → Option Tracker → Dashboard → Dashboard × (Option Tracker × Response)
handle_admin_dashboard now r parses tracker d =
    let d' = record d { sessions = some (or_else d.sessions no_entries) } in
    if is_logged_in now r d'
    then (d', show now parses tracker)
    else (d', (tracker, render parses (login_page now)))
