-- ===== src/Ratelimit/Steps/Examples.antt =====
-- A limiter of one request a minute, as cells.
use talosctl_oidc.Base.{◌*◌, ◌≡◌, refl, String, true, [], no_entries, pos}
use talosctl_oidc.Clock.{second, minute}
use talosctl_oidc.Ratelimit.{is_enabled, allow}
use talosctl_oidc.Ratelimit.Steps.{Cells, look_up, enter, view}
use talosctl_oidc.Ratelimit.Steps.Separate.{IsSeparate}
use talosctl_oidc.Ratelimit.Steps.Atomic.{enter-look_up}
use talosctl_oidc.Ratelimit.Steps.Lost.{swept_grants, swept_grants_lem}

abbrev cells : Cells
cells = record {
  requests = pos 1;
  window = minute;
  trusted = [];
  clients = no_entries;
  timestamps = λ c. [];
  unused = 0;
}

cells-IsSeparate : IsSeparate cells
cells-IsSeparate = record { used = λ ip c h. cc; own = λ ip j c h k. cc }

cells_on : is_enabled (view cells) ≡ true
unfolding view is_enabled
cells_on = refl

enter-look_up_example :
    let r = enter (5 * second) (look_up "10.0.0.7" cells).1 (look_up "10.0.0.7" cells).0 in
    (r.1 ≡ (allow (5 * second) "10.0.0.7" (view cells)).1)
    × ((j : String)
        → (view r.0).clients j ≡ (allow (5 * second) "10.0.0.7" (view cells)).0.clients j)
    × IsSeparate r.0
enter-look_up_example = enter-look_up (5 * second) "10.0.0.7" cells cells-IsSeparate cells_on

swept_grants_lem_example : swept_grants 3 (5 * second) "10.0.0.7" cells ≡ 3
swept_grants_lem_example = swept_grants_lem 3 (5 * second) "10.0.0.7" cells refl refl
