-- ===== src/Anomaly/Examples.antt =====
-- The detector at concrete failures and uses.
use talosctl_oidc.Base.{◌*◌, ◌≤◌, ◌≡◌, ◌↔◌, refl, true, false, List, [], ◌∷◌, length, arith, none}
use talosctl_oidc.Clock.{second, minute}
use talosctl_oidc.Anomaly.{Config, Detector, new_detector, record_failure, start_window}
use talosctl_oidc.Anomaly.Alarms.{
  fail, present, tidy, Call, join, window_of, run, record_failure_iff,
}
use talosctl_oidc.Anomaly.Counting.{failures}

abbrev config : Config
config = record {
  max_failures_per_ip = 2;
  window = 5 * minute;
  token_replay_detection = true;
  max_token_uses = 2;
}

abbrev detector : Detector
detector = record { cfg = config; ip_map = λ k. none; tokens = λ k. none }

failures_test :
    (failures (0 ∷ second ∷ 2 * second ∷ 6 * minute ∷ []) "a" detector).1
    ≡ false ∷ true ∷ true ∷ false ∷ []
unfolding failures record_failure start_window
failures_test = refl

abbrev history : List Call
history =
    fail 0 "a"
    ∷ fail second "b"
    ∷ tidy (2 * second)
    ∷ present (3 * second) "token"
    ∷ fail (4 * second) "a"
    ∷ tidy (6 * minute)
    ∷ fail (7 * minute) "a"
    ∷ []

record_failure_iff_example :
    let seen = join config.window (window_of config.window "a" [] history) (8 * minute) in
    ((record_failure (8 * minute) "a" (run (λ token. token) (new_detector config) history)).1
      ≡ true)
    ↔ ((2 ≤ length seen) × (config.max_failures_per_ip ≤ length seen))
record_failure_iff_example =
    record_failure_iff (λ token. token) config history (8 * minute) "a"
      (
        omega arith,
        (
          omega arith,
          (omega arith, (omega arith, (omega arith, (omega arith, (omega arith, tt))))),
        ),
      )
      (omega arith)

-- The failure after seven minutes opened the window that the next one falls in.
seen_test :
    join config.window (window_of config.window "a" [] history) (8 * minute)
    ≡ 7 * minute ∷ 8 * minute ∷ []
seen_test = refl
