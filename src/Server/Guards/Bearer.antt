-- ===== src/Server/Guards/Bearer.antt =====
-- Who may read the admin API.
use talosctl_oidc.Base.{
  ℕ, ◌≡◌, ◌≢◌, ◌↔◌, ◌==◌, inl, inr, String, true, false, none, some, if◌then◌else◌, arith, eqb,
  Bool-cases, Option-cases, eq_iff,
}
use talosctl_oidc.Text.{cut_prefix}
use talosctl_oidc.Text.Laws.{◌+++◌}
use talosctl_oidc.Text.Prefix.{cut_prefix_iff}
use talosctl_oidc.Request.{Request, header}
use talosctl_oidc.Admin.{Tracker, get_stats}
use talosctl_oidc.Server.{Response, stats, write_json}
use talosctl_oidc.Server.Guards.{require_admin_token, handle_admin_stats, guarded}

-- The request carries the configured token, which is not empty.
abbrev pub HasToken : String → Request → Type 0
HasToken admin_token r =
    (admin_token ≢ "")
    × (header "Authorization" r ≢ "")
    × (header "Authorization" r ≡ "Bearer " +++ admin_token)

require_admin_token-HasToken :
    (admin_token : String) (r : Request)
    → require_admin_token admin_token r ≡ none
    → HasToken admin_token r
unfolding require_admin_token
require_admin_token-HasToken admin_token r h =
    let auth = header "Authorization" r in
    elim (Option-cases (cut_prefix "Bearer " auth)) [
      | inl e ↦ ground arith
      | inr (token, e) ↦
          let same : token ≡ admin_token = ground (arith, eq_iff token admin_token) in
          let whole = (cut_prefix_iff "Bearer " auth token).0 e in
          (ground (arith, eq_iff admin_token ""), ground (arith, eq_iff auth ""), cc)
    ]

HasToken-require_admin_token :
    (admin_token : String) (r : Request)
    → HasToken admin_token r
    → require_admin_token admin_token r ≡ none
unfolding require_admin_token
HasToken-require_admin_token admin_token r (nonempty, given, whole) =
    let cut = (cut_prefix_iff "Bearer " (header "Authorization" r) admin_token).1 whole in
    ground (
      arith,
      eq_iff admin_token "",
      eq_iff (header "Authorization" r) "",
      eq_iff admin_token admin_token,
    )

-- The guard of the admin API lets a request through exactly where an admin token is configured and
-- the Authorization header is "Bearer " and that token.
pub require_admin_token_iff :
    (admin_token : String) (r : Request)
    → (require_admin_token admin_token r ≡ none) ↔ HasToken admin_token r
require_admin_token_iff admin_token r =
    (require_admin_token-HasToken admin_token r, HasToken-require_admin_token admin_token r)

refusal_status :
    (admin_token : String) (r : Request) {refusal : Response}
    → require_admin_token admin_token r ≡ some refusal
    → eqb refusal.status 200 ≡ false
unfolding require_admin_token
refusal_status admin_token r h =
    elim (Option-cases (cut_prefix "Bearer " (header "Authorization" r))) [
      | inl e ↦ ground arith
      | inr (token, e) ↦ ground arith
    ]

-- The statistics are answered (200) exactly to a GET with the configured token, and then they are the
-- tracker's, which drops its expired certificates; at any other request the tracker stays as it was.
pub handle_admin_stats_lem :
    (admin_token : String) (now : ℕ) (r : Request) (t : Tracker)
    → let p = guarded admin_token r (handle_admin_stats now r) (some t) in
      ((eqb p.1.status 200 ≡ true) ↔ (HasToken admin_token r × (r.method ≡ "GET")))
      × (p ≡ (
          if eqb p.1.status 200
          then (some (get_stats now t).0, write_json (stats (get_stats now t).1))
          else (some t, p.1)))
unfolding guarded handle_admin_stats
handle_admin_stats_lem admin_token now r t =
    let who = require_admin_token_iff admin_token r in
    elim (Option-cases (require_admin_token admin_token r)) [
      | inl e ↦ elim (Bool-cases (r.method == "GET")) [
        | inl get ↦
            ((λ h. (who.0 e, (eq_iff r.method "GET").0 get), λ h. ground arith), ground arith)
        | inr other ↦
            ((λ h. ground arith, λ h. ground (arith, eq_iff r.method "GET")), ground arith)
      ]
      | inr (refusal, e) ↦
          let status = refusal_status admin_token r {refusal = refusal} e in
          ((λ h. ground arith, λ h. let through = who.1 h.0 in ground arith), ground arith)
    ]
