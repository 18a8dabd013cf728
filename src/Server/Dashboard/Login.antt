-- ===== src/Server/Dashboard/Login.antt =====
-- Who the login form lets in.
use talosctl_oidc.Base.{
  ℕ, ◌≡◌, ◌≢◌, ◌↔◌, ◌==◌, String, false, not, Option, none, some, no_entries, or_else, arith,
  eq_iff, ap, sym, ◌&&◌,
}
use talosctl_oidc.Clock.{past}
use talosctl_oidc.Text.{cut}
use talosctl_oidc.Request.{Request, header}
use talosctl_oidc.Server.Dashboard.{
  Dashboard, Attempts, Sessions, session_timeout, create_session, validate_session, delete_session,
  forget, get_client_ip, is_locked_out, open_session, check_form, handle_admin_login,
  handle_admin_logout, is_logged_in,
}

-- What has to hold for the login to hand out the session `token`.
pub record LetIn (now : ℕ) (r : Request) (form drawn : Option String) (d : Dashboard)
    (token : String) : Type 0 where
  pub posted : r.method ≡ "POST"
  pub configured : d.admin_token ≢ ""
  pub unlocked : is_locked_out now (get_client_ip r) (or_else d.brute_force no_entries) ≡ false
  pub right : form ≡ some d.admin_token
  pub random : drawn ≡ some token

check_form-cookie :
    (now : ℕ) (form drawn : Option String) (ip : String) (m : Attempts) (d : Dashboard)
    (token : String)
    → ((check_form now form drawn ip m d).1.cookie ≡ some token)
      ↔ ((form ≡ some d.admin_token) × (drawn ≡ some token))
unfolding check_form open_session
check_form-cookie now none drawn ip m d token = ground arith
check_form-cookie now (some s) none ip m d token = ground (arith, eq_iff s d.admin_token)
check_form-cookie now (some s) (some t) ip m d token = ground (arith, eq_iff s d.admin_token)

-- The login sets a session cookie exactly for a POST with the configured admin token, which is not
-- empty, from a key that is not locked out, and then it is the random token that was drawn.
pub handle_admin_login-LetIn :
    (now : ℕ) (r : Request) (form drawn : Option String) (d : Dashboard) (token : String)
    → ((handle_admin_login now r form drawn d).1.cookie ≡ some token)
      ↔ LetIn now r form drawn d token
unfolding handle_admin_login
handle_admin_login-LetIn now r form drawn d token =
    let m = or_else d.brute_force no_entries in
    let inner = check_form-cookie now form drawn (get_client_ip r) m d token in
    let posted = eq_iff r.method "POST" in
    let unset = eq_iff d.admin_token "" in
    (
      (λ h.
          let posted' : r.method ≡ "POST" = ground arith in
          let set : d.admin_token ≢ "" = ground arith in
          let unlocked' : is_locked_out now (get_client_ip r) m ≡ false = ground arith in
          let cookie : (check_form now form drawn (get_client_ip r) m d).1.cookie ≡ some token =
            ground arith in
          record {
            posted = posted';
            configured = set;
            unlocked = unlocked';
            right = (inner.0 cookie).0;
            random = (inner.0 cookie).1;
          }),
      λ l.
          let cookie = inner.1 (l.right, l.random) in
          let is_post = l.posted in
          let is_set = l.configured in let is_open = l.unlocked in ground arith,
    )

LetIn-sessions :
    (now : ℕ) (r : Request) (form drawn : Option String) (d : Dashboard) (token : String)
    → LetIn now r form drawn d token
    → (handle_admin_login now r form drawn d).0.sessions
      ≡ some (create_session now token (or_else d.sessions no_entries))
unfolding handle_admin_login check_form open_session
LetIn-sessions now r form drawn d token l =
    let is_post = l.posted in
    let is_set = l.configured in
    let is_open = l.unlocked in
    let is_right = l.right in
    let is_random = l.random in
    ground
      (arith, eq_iff r.method "POST", eq_iff d.admin_token "", eq_iff d.admin_token d.admin_token)

create-validate :
    (now later : ℕ) (token : String) (s : Sessions)
    → validate_session later token (create_session now token s)
      ≡ not (past later now session_timeout)
unfolding validate_session create_session
create-validate now later token s = ground (arith, eq_iff token token)

delete-validate :
    (now : ℕ) (token : String) (s : Sessions)
    → validate_session now token (delete_session token s) ≡ false
unfolding validate_session delete_session
delete-validate now token s = ground (arith, eq_iff token token)

-- A request with the cookie of a session that the login just made, which is not empty, counts as
-- logged in for 24 hours.
pub login-is_logged_in :
    (now later : ℕ) (r next : Request) (form drawn : Option String) (d : Dashboard) (token : String)
    → (handle_admin_login now r form drawn d).1.cookie ≡ some token
    → token ≢ ""
    → next.cookie ≡ some token
    → is_logged_in later next (handle_admin_login now r form drawn d).0
      ≡ not (past later now session_timeout)
unfolding is_logged_in
login-is_logged_in now later r next form drawn d token set nonempty carried =
    let made =
      LetIn-sessions now r form drawn d token
        ((handle_admin_login-LetIn now r form drawn d token).0 set) in
    ground (arith, eq_iff token "", create-validate now later token (or_else d.sessions no_entries))

forgotten :
    (now : ℕ) (token : String) (o : Option Sessions)
    → (not (token == "") && validate_session now token (or_else (forget token o) no_entries))
      ≡ false
unfolding forget validate_session
forgotten now token none = ground arith
forgotten now token (some s) = ground (arith, delete-validate now token s)

-- After a POST to the logout, a request with the same session cookie does not count as logged in.
pub logout-is_logged_in :
    (now : ℕ) (r next : Request) (d : Dashboard)
    → r.method ≡ "POST"
    → next.cookie ≡ r.cookie
    → is_logged_in now next (handle_admin_logout r d).0 ≡ false
unfolding is_logged_in handle_admin_logout forget
logout-is_logged_in now r next d posted same =
    let gone = forgotten now (or_else next.cookie "") d.sessions in
    let key : or_else r.cookie "" ≡ or_else next.cookie "" = ap (λ c. or_else c "") (sym same) in
    ground (arith, eq_iff r.method "POST")

-- A caller that writes into X-Forwarded-For a name that has no failures on record, without a comma
-- in it, is not told to wait, however many failures it has caused under other names.
pub handle_admin_login_fresh_name :
    (now : ℕ) (r : Request) (form drawn : Option String) (d : Dashboard) (name : String)
    → header "X-Forwarded-For" r ≡ name
    → name ≢ ""
    → cut b',' name ≡ none
    → or_else d.brute_force no_entries name ≡ none
    → (handle_admin_login now r form drawn d).1.status ≢ 429
unfolding handle_admin_login get_client_ip is_locked_out check_form open_session
handle_admin_login_fresh_name now r form drawn d name named nonempty whole fresh =
    ground (arith, eq_iff name "")
