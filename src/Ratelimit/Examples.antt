-- ===== src/Ratelimit/Examples.antt =====
-- Runs of the rate limiter on concrete requests, and the theorems at concrete histories.
use talosctl_oidc.Base.{◌≤◌, ◌<◌, ◌*◌, ◌≡◌, ◌↔◌, refl, true, List, [], ◌∷◌, count, arith, pos}
use talosctl_oidc.Clock.{second}
use talosctl_oidc.Ratelimit.{new, allow, fresh, cleanup, is_enabled, sweep}
use talosctl_oidc.Ratelimit.History.{Call, ask, tidy, run, step, grants, granted}
use talosctl_oidc.Ratelimit.Window.{in_window, allow_iff, window_bound}

-- Two requests in a minute.
abbrev calls : List Call
calls =
    ask 0 "10.0.0.1"
    ∷ ask (10 * second) "10.0.0.1"
    ∷ ask (20 * second) "10.0.0.1"
    ∷ ask (20 * second) "10.0.0.2"
    ∷ tidy (65 * second)
    ∷ ask (65 * second) "10.0.0.1"
    ∷ []

-- The third request of the first address is refused; the window has moved on at the fifth.
grants_test : grants "10.0.0.1" (new (pos 2) (pos 0) []) calls ≡ 0 ∷ 10 * second ∷ 65 * second ∷ []
unfolding new grants granted step run allow cleanup is_enabled sweep
grants_test = refl

allow_iff_example :
    ((allow (66 * second) "10.0.0.1" (run (new (pos 2) (pos 0) []) calls)).1 ≡ true) ↔ (
      count
        (fresh (new (pos 2) (pos 0) []).window (66 * second))
        (grants "10.0.0.1" (new (pos 2) (pos 0) []) calls)
      < 2)
allow_iff_example =
    allow_iff (pos 2) (pos 0) [] calls (66 * second) "10.0.0.1" refl (omega arith) (omega arith)

window_bound_example :
    count
      (in_window (new (pos 2) (pos 0) []).window (40 * second))
      (grants "10.0.0.1" (new (pos 2) (pos 0) []) calls)
    ≤ 2
window_bound_example =
    window_bound (pos 2) (pos 0) [] calls "10.0.0.1" (40 * second) refl (omega arith)
