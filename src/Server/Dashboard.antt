-- ===== src/Server/Dashboard.antt =====
-- pkg/server/admin_dashboard.go: the sessions of the web dashboard, the protection of its login
-- form, and the login and logout handlers. Random tokens are arguments, `none` a failed read.
pub mod Sessions
pub mod Lockout
pub mod Login
pub mod Page
mod Examples
use talosctl_oidc.Base.{
  ℕ, ◌+◌, ◌-◌, ◌*◌, ◌/◌, ◌==◌, String, Bool, true, false, ◌&&◌, not, List, Option, none, some, Map,
  no_entries, put, remove, or_else, if◌then◌else◌, leb,
}
use talosctl_oidc.Clock.{minute, hour, past}
use talosctl_oidc.Text.{cut, trim_space}
use talosctl_oidc.Net.{split_host_port}
use talosctl_oidc.Request.{Request, header}

abbrev pub session_timeout : ℕ
session_timeout = 24 * hour

abbrev pub max_login_attempts : ℕ
max_login_attempts = 5

abbrev pub lockout_duration : ℕ
lockout_duration = 15 * minute

abbrev pub failed_attempt_window : ℕ
failed_attempt_window = 15 * minute

-- A session's creation time, by its token.
abbrev pub Sessions : Type 0
Sessions = Map ℕ

-- sessionStore.create with the token that was drawn: expired sessions go first.
unfoldable pub create_session : ℕ → String → Sessions → Sessions
create_session now token sessions = put token now λ id. elim (sessions id) [
  | none ↦ none
  | some created_at ↦ if past now created_at session_timeout then none else some created_at
]

unfoldable pub validate_session : ℕ → String → Sessions → Bool
validate_session now token sessions = elim (sessions token) [
  | none ↦ false
  | some created_at ↦ not (past now created_at session_timeout)
]

unfoldable pub delete_session : String → Sessions → Sessions
delete_session token sessions = remove token sessions

-- The time 0 is Go's zero time.
pub record LoginAttempt : Type 0 where
  pub count : ℕ
  pub last_fail : ℕ
  pub locked_out : Bool
  pub lockout_at : ℕ

abbrev pub Attempts : Type 0
Attempts = Map LoginAttempt

-- getClientIP
unfoldable pub get_client_ip : Request → String
get_client_ip r =
    let xff = header "X-Forwarded-For" r in
    let xri = header "X-Real-Ip" r in
    if not (xff == "")
    then (elim (cut b',' xff) [ none ↦ xff | some parts ↦ trim_space parts.0 ])
    else if not (xri == "")
    then xri
    else or_else (split_host_port r.remote_addr) r.remote_addr

unfoldable pub is_locked_out : ℕ → String → Attempts → Bool
is_locked_out now ip attempts = elim (attempts ip) [
  | none ↦ false
  | some a ↦ a.locked_out && not (past now a.lockout_at lockout_duration)
]

-- One more failure, with the count started again after a quiet window.
unfoldable pub fail_again : ℕ → LoginAttempt → LoginAttempt
fail_again now a =
    let quiet = past now a.last_fail failed_attempt_window in
    let count = (if quiet then 0 else a.count) + 1 in
    let locked = leb max_login_attempts count in
    record {
      count = count;
      last_fail = now;
      locked_out = if locked then true else if quiet then false else a.locked_out;
      lockout_at = if locked then now else a.lockout_at;
    }

abbrev pub no_attempt : LoginAttempt
no_attempt = record { count = 0; last_fail = 0; locked_out = false; lockout_at = 0 }

unfoldable pub record_failed : ℕ → String → Attempts → Attempts
record_failed now ip attempts = put ip (fail_again now (or_else (attempts ip) no_attempt)) attempts

unfoldable pub record_success : String → Attempts → Attempts
record_success ip attempts = remove ip attempts

unfoldable pub remaining_lockout : ℕ → String → Attempts → ℕ
remaining_lockout now ip attempts = elim (attempts ip) [
  | none ↦ 0
  | some a ↦ if a.locked_out then a.lockout_at + lockout_duration - now else 0
]

-- What the login and logout handlers change; a store is made when it is first needed.
pub record Dashboard : Type 0 where
  pub admin_token : String
  pub sessions : Option Sessions
  pub brute_force : Option Attempts

-- What the page says: a text, or in how many minutes to try again.
pub data Notice : Type 0 where
  says : String → Notice
  try_again_in : ℕ → Notice

-- A response with the session cookie that it sets, "" where it clears it.
pub record Reply : Type 0 where
  pub status : ℕ
  pub message : Notice
  pub cookie : Option String

abbrev pub reply : ℕ → String → Reply
reply status message = record { status = status; message = says message; cookie = none }

-- The token was right: clear the failures, and make a session.
unfoldable pub open_session : ℕ → Option String → String → Attempts → Dashboard → Dashboard × Reply
open_session now drawn ip attempts d =
    let store = or_else d.sessions no_entries in
    let cleared = some (record_success ip attempts) in
    elim drawn [
      | none ↦ (
        record d { sessions = some store; brute_force = cleared },
        reply 500 "failed to create session",
      )
      | some token ↦ (
        record d { sessions = some (create_session now token store); brute_force = cleared },
        record { status = 303; message = says "/admin/"; cookie = some token },
      )
    ]

-- Behind the lockout: `form` is the submitted token, none where the form does not parse.
unfoldable pub check_form :
    ℕ → Option String → Option String → String → Attempts → Dashboard → Dashboard × Reply
check_form now form drawn ip attempts d = elim form [
  | none ↦ (record d { brute_force = some attempts }, reply 303 "/admin/")
  | some submitted ↦ if submitted == d.admin_token then open_session now drawn ip attempts d else (
    record d { brute_force = some (record_failed now ip attempts) },
    reply 401 "Invalid admin token",
  )
]

unfoldable pub handle_admin_login :
    ℕ → Request → Option String → Option String → Dashboard → Dashboard × Reply
handle_admin_login now r form drawn d =
    let attempts = or_else d.brute_force no_entries in
    let ip = get_client_ip r in
    if not (r.method == "POST")
    then (d, reply 405 "method not allowed")
    else if d.admin_token == ""
    then (d, reply 403 "admin API is disabled (no TALOSCTL_OIDC_ADMIN_TOKEN configured)")
    else if is_locked_out now ip attempts
    then (
      record d { brute_force = some attempts },
      record {
        status = 429;
        message = try_again_in (remaining_lockout now ip attempts / minute + 1);
        cookie = none;
      },
    )
    else check_form now form drawn ip attempts d

unfoldable pub forget : String → Option Sessions → Option Sessions
forget token none = none
forget token (some store) = if token == "" then some store else some (delete_session token store)

unfoldable pub handle_admin_logout : Request → Dashboard → Dashboard × Reply
handle_admin_logout r d =
    if not (r.method == "POST") then (d, reply 405 "method not allowed") else (
      record d { sessions = forget (or_else r.cookie "") d.sessions },
      record { status = 303; message = says "/admin/"; cookie = some "" },
    )

-- Whether handleAdminDashboard takes the request for a logged-in one.
unfoldable pub is_logged_in : ℕ → Request → Dashboard → Bool
is_logged_in now r d =
    let token = or_else r.cookie "" in
    not (token == "") && validate_session now token (or_else d.sessions no_entries)
