-- ===== src/Server/Dashboard/Examples.antt =====
-- The dashboard's login at concrete requests.
use talosctl_oidc.Base.{
  ℕ, ◌+◌, ◌*◌, ◌≤◌, ◌≡◌, ◌≢◌, ◌↔◌, ◌⊎◌, refl, String, true, List, [], ◌∷◌, Option, none, some,
  no_entries, length, arith, eq_iff, lookup,
}
use talosctl_oidc.Clock.{minute, hour}
use talosctl_oidc.Text.{cut}
use talosctl_oidc.Request.{Request, header}
use talosctl_oidc.Server.Dashboard.{
  Dashboard, lockout_duration, is_locked_out, handle_admin_login, check_form, open_session,
  is_logged_in, validate_session, create_session, record_failed, record_success, fail_again,
  get_client_ip,
}
use talosctl_oidc.Admin.{new_tracker, get_stats, active_certs, prune_expired}
use talosctl_oidc.Server.Dashboard.Page.{
  AdminPageData, page, login_page, render, show, handle_admin_dashboard,
}
use talosctl_oidc.Server.Dashboard.Page.Visits.{
  Visit, login, look, visit, after_visits, Viewer, handle_admin_dashboard-Viewer,
}
use talosctl_oidc.Server.Dashboard.Sessions.{Act, create, drop}
use talosctl_oidc.Server.Dashboard.Lockout.{fails, last, is_locked_out_iff}
use talosctl_oidc.Server.Dashboard.Login.{handle_admin_login_fresh_name}

abbrev acts : List Act
acts = create 0 "s1" ∷ create hour "s2" ∷ drop "s1" ∷ []

abbrev minutes : List ℕ
minutes = minute ∷ 2 * minute ∷ 3 * minute ∷ 4 * minute ∷ []

is_locked_out_iff_example :
    (is_locked_out (10 * minute) "a" (fails (0 ∷ minutes) "a" no_entries) ≡ true)
    ↔ ((5 ≤ length (0 ∷ minutes)) × (10 * minute ≤ last 0 minutes + lockout_duration))
is_locked_out_iff_example = is_locked_out_iff 0 minutes (10 * minute) "a" no_entries refl (
  omega arith,
  omega arith,
  (omega arith, omega arith, (omega arith, omega arith, (omega arith, omega arith, tt))),
)

abbrev dashboard : Dashboard
dashboard = record { admin_token = "letmein"; sessions = none; brute_force = none }

abbrev post : Option String → Request
post cookie = record {
  method = "POST";
  remote_addr = "10.0.0.1:2001";
  headers = ("X-Forwarded-For", "anyone") ∷ [];
  cookie = cookie;
  body = none;
}

login_test :
    (handle_admin_login 0 (post none) (some "letmein") (some "s1") dashboard).1.cookie ≡ some "s1"
unfolding handle_admin_login check_form open_session is_locked_out
login_test = refl

abbrev visits : List Visit
visits =
    look hour (post (some "s2")) true none
    ∷ login minute (post none) (some "letmein") (some "s1")
    ∷ login 0 (post none) (some "guess") none
    ∷ []

abbrev shown : AdminPageData
shown = record {
  stats = record {
    started_at = 7;
    uptime = hour;
    total_certs_issued = 0;
    active_certs = 0;
    total_auth_successes = 0;
    total_auth_failures = 0;
    total_cert_errors = 0;
  };
  certs = [];
  current_time = hour;
  logged_in = true;
  error = "";
}

look_test :
    (handle_admin_dashboard hour
      (post (some "s1"))
      true
      (some (new_tracker 7))
      (after_visits "letmein" visits)).1.1
    ≡ page shown
unfolding handle_admin_dashboard show render is_logged_in validate_session visit handle_admin_login
    check_form open_session is_locked_out create_session record_failed record_success get_stats
    active_certs prune_expired new_tracker fail_again get_client_ip header lookup cut
look_test = refl

handle_admin_dashboard-Viewer_example :
    (shown ≡ login_page hour)
    ⊎ Viewer "letmein" visits hour (post (some "s1")) (some (new_tracker 7)) shown
handle_admin_dashboard-Viewer_example =
    handle_admin_dashboard-Viewer "letmein" visits hour (post (some "s1")) true
      (some (new_tracker 7)) shown look_test

s1_nonempty : ◌≢◌ {A = String} "s1" ""
s1_nonempty = ground (arith, eq_iff "s1" "")

anyone_header : header "X-Forwarded-For" (post none) ≡ "anyone"
unfolding header lookup
anyone_header = refl

anyone_nonempty : ◌≢◌ {A = String} "anyone" ""
anyone_nonempty = ground (arith, eq_iff "anyone" "")

anyone_whole : cut b',' "anyone" ≡ none
unfolding cut
anyone_whole = refl

handle_admin_login_fresh_name_example :
    (handle_admin_login 0 (post none) (some "guess") none dashboard).1.status ≢ 429
handle_admin_login_fresh_name_example =
    handle_admin_login_fresh_name 0 (post none) (some "guess") none dashboard "anyone" anyone_header
      anyone_nonempty anyone_whole refl
