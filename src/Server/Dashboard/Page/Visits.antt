-- ===== src/Server/Dashboard/Page/Visits.antt =====
-- Who sees the dashboard's figures.
use talosctl_oidc.Base.{
  ℕ, ◌≡◌, ◌≢◌, refl, sym, ◌∙◌, String, Bool, true, false, List, [], ◌∷◌, Option, none, some,
  no_entries, or_else, keep, ◌⊎◌, arith, eq_iff, Option-cases, inl, inr, subst, Bool-cases,
}
use mathlib.Core.Bool.{false≢true}
use talosctl_oidc.Clock.{past}
use talosctl_oidc.Admin.{Tracker, is_active, get_stats, active_certs, prune_expired}
use talosctl_oidc.Admin.Tracking.{keep-keep}
use talosctl_oidc.Request.{Request}
use talosctl_oidc.Server.Dashboard.{
  Dashboard, Sessions, Attempts, session_timeout, create_session, validate_session, delete_session,
  forget, open_session, check_form, handle_admin_login, handle_admin_logout, is_logged_in,
  get_client_ip,
}
use talosctl_oidc.Server.Dashboard.Login.{LetIn, handle_admin_login-LetIn}
use talosctl_oidc.Server.Dashboard.Page.{
  AdminPageData, login_page, page, render, show, handle_admin_dashboard,
}

-- A request to one of the three handlers, with what it finds.
pub data Visit : Type 0 where
  login : ℕ → Request → Option String → Option String → Visit
  logout : Request → Visit
  look : ℕ → Request → Bool → Option Tracker → Visit

unfoldable pub visit : Visit → Dashboard → Dashboard
visit (login now r form drawn) d = (handle_admin_login now r form drawn d).0
visit (logout r) d = (handle_admin_logout r d).0
visit (look now r parses tracker) d = (handle_admin_dashboard now r parses tracker d).0

abbrev pub new_dashboard : String → Dashboard
new_dashboard admin_token = record {
  admin_token = admin_token;
  sessions = none;
  brute_force = none;
}

-- The dashboard after some visits, the last one first.
abbrev pub after_visits : String → List Visit → Dashboard
after_visits admin_token [] = new_dashboard admin_token
after_visits admin_token (v ∷ vs) = visit v (after_visits admin_token vs)

-- A visit that does not end the session of a token.
abbrev pub Spares : String → Visit → Type 0
Spares token (logout r) = (r.method ≡ "POST") → or_else r.cookie "" ≢ token
Spares token _ = Unit

-- A login at the time `t` was let in and made the session of `token`, and no logout ended it.
pub data Open (admin_token token : String) : ℕ → List Visit → Type 0 where
  opened :
      (now : ℕ) (r : Request) (form drawn : Option String) (vs : List Visit)
      → LetIn now r form drawn (after_visits admin_token vs) token
      → Open admin_token token now (login now r form drawn ∷ vs)
  stays :
      (t : ℕ) (v : Visit) (vs : List Visit)
      → Spares token v
      → Open admin_token token t vs
      → Open admin_token token t (v ∷ vs)

abbrev session : String → Dashboard → Option ℕ
session token d = or_else d.sessions no_entries token

create-session :
    (now t : ℕ) (token other : String) (s : Sessions)
    → create_session now other s token ≡ some t
    → ((other ≡ token) × (now ≡ t)) ⊎ (s token ≡ some t)
unfolding create_session
create-session now t token other s h = elim (Option-cases (s token)) [
  | inl e ↦ ground (arith, eq_iff other token)
  | inr (made, e) ↦ ground (arith, eq_iff other token)
]

-- What a session after a login says: the login made it, or it was there.
abbrev Made : ℕ → String → Option Sessions → ℕ → Option String → Type 0
Made now token before t cookie =
    ((cookie ≡ some token) × (now ≡ t)) ⊎ (or_else before no_entries token ≡ some t)

check_form-Made :
    (now t : ℕ) (token : String) (form drawn : Option String) (ip : String) (m : Attempts)
    (d : Dashboard)
    → session token (check_form now form drawn ip m d).0 ≡ some t
    → Made now token d.sessions t (check_form now form drawn ip m d).1.cookie
unfolding check_form open_session
check_form-Made now t token none drawn ip m d h = inr h
check_form-Made now t token (some s) none ip m d h = ground arith
check_form-Made now t token (some s) (some other) ip m d h =
    ground (arith, create-session now t token other (or_else d.sessions no_entries))

login-Made :
    (now t : ℕ) (token : String) (r : Request) (form drawn : Option String) (d : Dashboard)
    → session token (handle_admin_login now r form drawn d).0 ≡ some t
    → Made now token d.sessions t (handle_admin_login now r form drawn d).1.cookie
unfolding handle_admin_login
login-Made now t token r form drawn d h =
    let m = or_else d.brute_force no_entries in
    ground (arith, check_form-Made now t token form drawn (get_client_ip r) m d)

logout-session :
    (token : String) (r : Request) (d : Dashboard) (t : ℕ)
    → token ≢ ""
    → session token (handle_admin_logout r d).0 ≡ some t
    → Spares token (logout r) × (session token d ≡ some t)
unfolding handle_admin_logout forget delete_session
logout-session token r d t nonempty h = elim (Option-cases d.sessions) [
  | inl e ↦ ground (arith, eq_iff r.method "POST")
  | inr (s, e) ↦ ground (
    arith,
    eq_iff r.method "POST",
    eq_iff (or_else r.cookie "") token,
    eq_iff (or_else r.cookie "") "",
  )
]

look-session :
    (token : String) (now : ℕ) (r : Request) (parses : Bool) (tracker : Option Tracker)
    (d : Dashboard)
    → session token (handle_admin_dashboard now r parses tracker d).0 ≡ session token d
unfolding handle_admin_dashboard
look-session token now r parses tracker d = ground arith

session-Open :
    (admin_token token : String) (t : ℕ) (vs : List Visit)
    → token ≢ ""
    → session token (after_visits admin_token vs) ≡ some t
    → Open admin_token token t vs
unfolding visit
session-Open admin_token token t [] nonempty h = ground arith
session-Open admin_token token t (login now r form drawn ∷ vs) nonempty h =
    let d = after_visits admin_token vs in
    elim (login-Made now t token r form drawn d h) [
      | inl (cookie, at) ↦
          subst (λ u. Open admin_token token u (login now r form drawn ∷ vs)) at
            (opened now r form drawn vs
              ((handle_admin_login-LetIn now r form drawn d token).0 cookie))
      | inr old ↦
          stays t (login now r form drawn) vs tt (session-Open admin_token token t vs nonempty old)
    ]
session-Open admin_token token t (logout r ∷ vs) nonempty h =
    let kept = logout-session token r (after_visits admin_token vs) t nonempty h in
    stays t (logout r) vs kept.0 (session-Open admin_token token t vs nonempty kept.1)
session-Open admin_token token t (look now r parses tracker ∷ vs) nonempty h =
    stays t (look now r parses tracker) vs tt (
      session-Open admin_token token t vs nonempty
        (sym (look-session token now r parses tracker (after_visits admin_token vs)) ∙ h))

-- A browser with an open session of at most 24 hours, and the figures of the tracker on its page.
pub record Viewer (admin_token : String) (vs : List Visit) (now : ℕ) (r : Request)
    (tracker : Option Tracker) (content : AdminPageData) : Type 0 where
  pub token : String
  pub made : ℕ
  pub carried : r.cookie ≡ some token
  pub nonempty : token ≢ ""
  pub fresh : past now made session_timeout ≡ false
  pub logged_in : Open admin_token token made vs
  pub tracked : Tracker
  pub present : tracker ≡ some tracked
  pub shows_certs : content.certs ≡ keep (is_active now) tracked.certs
  pub shows_stats : content.stats ≡ (get_stats now tracked).1

-- The session that a logged-in request carries.
record Carried (now : ℕ) (r : Request) (d : Dashboard) : Type 0 where
  token : String
  made : ℕ
  carried : r.cookie ≡ some token
  nonempty : token ≢ ""
  found : session token d ≡ some made
  fresh : past now made session_timeout ≡ false

logged_in-Carried :
    (now : ℕ) (r : Request) (d : Dashboard) → is_logged_in now r d ≡ true → Carried now r d
unfolding is_logged_in validate_session
logged_in-Carried now r d h = elim (Option-cases r.cookie) [
  | inl e ↦
      let no_in : false ≡ true = ground (arith, eq_iff (or_else r.cookie "") "") in
      absurd (false≢true no_in)
  | inr (token, e) ↦ elim (Option-cases (session token d)) [
    | inl gone ↦ let no_in : false ≡ true = ground arith in absurd (false≢true no_in)
    | inr (made, found) ↦
        let nonempty' : token ≢ "" = ground (arith, eq_iff token "") in
        let fresh' : past now made session_timeout ≡ false = ground arith in
        record {
          token = token;
          made = made;
          carried = e;
          nonempty = nonempty';
          found = found;
          fresh = fresh';
        }
  ]
]

show-tracked :
    (now : ℕ) (parses : Bool) (tracker : Option Tracker) (content : AdminPageData)
    → (show now parses tracker).1 ≡ page content
    → (tracked : Tracker) × (tracker ≡ some tracked)
      × (content.certs ≡ keep (is_active now) tracked.certs)
      × (content.stats ≡ (get_stats now tracked).1)
unfolding show render get_stats active_certs prune_expired
show-tracked now parses none content h =
    let no : false ≡ true = ground arith in absurd (false≢true no)
show-tracked now parses (some t) content h =
    (t, refl, ground (arith, keep-keep now now t.certs (omega arith)), ground arith)

-- After any history of logins, logouts and looks at the page, the page is either the login page,
-- without any figures, or it shows the active certificates and the statistics of the tracker, and
-- then the request carries a token whose session a login with the admin token made at most 24 hours
-- ago, and that no logout ended since.
pub handle_admin_dashboard-Viewer :
    (admin_token : String) (vs : List Visit) (now : ℕ) (r : Request) (parses : Bool)
    (tracker : Option Tracker) (content : AdminPageData)
    → (handle_admin_dashboard now r parses tracker (after_visits admin_token vs)).1.1 ≡ page content
    → (content ≡ login_page now) ⊎ Viewer admin_token vs now r tracker content
unfolding handle_admin_dashboard render
handle_admin_dashboard-Viewer admin_token vs now r parses tracker content h =
    let d = after_visits admin_token vs in
    let d' = record d { sessions = some (or_else d.sessions no_entries) } in
    elim (Bool-cases (is_logged_in now r d')) [
      | inl inside ↦
          let c = logged_in-Carried now r d' inside in
          let shown = show-tracked now parses tracker content (ground arith) in
          inr (record {
            token = c.token;
            made = c.made;
            carried = c.carried;
            nonempty = c.nonempty;
            fresh = c.fresh;
            logged_in = session-Open admin_token c.token c.made vs c.nonempty c.found;
            tracked = shown.0;
            present = shown.1;
            shows_certs = shown.2;
            shows_stats = shown.3;
          })
      | inr out ↦ inl (ground arith)
    ]
