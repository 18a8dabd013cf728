-- ===== src/Anomaly/Alarms.antt =====
-- When a failure raises an alarm, after any history of calls on one detector.
use talosctl_oidc.Base.{
  ℕ, suc, ◌+◌, ◌≤◌, ◌≡◌, ◌↔◌, ◌==◌, refl, ap, ◌∙◌, String, Bool, true, false, List, [], ◌∷◌, ◌++◌,
  Option, none, some, put, length, leb, if◌then◌else◌, arith, eq_iff, inl, inr, Option-cases,
}
use talosctl_oidc.Clock.{after}
use talosctl_oidc.Anomaly.{
  Config, IpEntry, Detector, start_window, record_failure, record_token_use, cleanup, new_detector,
}

-- A failure under a key, a use of a token, or a cleanup, at a time.
pub data Call : Type 0 where
  fail : ℕ → String → Call
  present : ℕ → String → Call
  tidy : ℕ → Call

abbrev pub time : Call → ℕ
time (fail t key) = t
time (present t token) = t
time (tidy t) = t

-- The calls come in the order of their times, none before `from`.
abbrev pub IsOrdered : ℕ → List Call → Type 0
IsOrdered from [] = Unit
IsOrdered from (c ∷ cs) = (from ≤ time c) × IsOrdered (time c) cs

abbrev pub last_time : ℕ → List Call → ℕ
last_time from [] = from
last_time from (c ∷ cs) = last_time (time c) cs

unfoldable pub step : (String → String) → Detector → Call → Detector
step token_hash d (fail t key) = (record_failure t key d).0
step token_hash d (present t token) = (record_token_use token_hash t token d).0
step token_hash d (tidy t) = cleanup t d

unfoldable pub run : (String → String) → Detector → List Call → Detector
run token_hash d [] = d
run token_hash d (c ∷ cs) = run token_hash (step token_hash d c) cs

-- The reference: the failures of the window that the last failure is in, its first one ahead. A
-- failure that comes later than the window's length after the first one opens the next window.
abbrev pub join : ℕ → List ℕ → ℕ → List ℕ
join w [] t = t ∷ []
join w (first ∷ rest) t = if after t (first + w) then t ∷ [] else first ∷ rest ++ t ∷ []

-- That window of the failures under `key`, where it was `ts` before the calls.
abbrev pub window_of : ℕ → String → List ℕ → List Call → List ℕ
window_of w key ts [] = ts
window_of w key ts (fail t other ∷ cs) =
    window_of w key (if other == key then join w ts t else ts) cs
window_of w key ts (present t token ∷ cs) = window_of w key ts cs
window_of w key ts (tidy t ∷ cs) = window_of w key ts cs

-- The entry of a key that is still in its window.
abbrev live : ℕ → Option IpEntry → Option IpEntry
live now none = none
live now (some e) = if after now e.window_end then none else some e

abbrev entry_of : ℕ → List ℕ → Option IpEntry
entry_of w [] = none
entry_of w (first ∷ rest) = some (record { failures = suc (length rest); window_end = first + w })

-- The detector and the reference agree on the windows that are still open.
abbrev Agree : ℕ → Detector → ℕ → String → List ℕ → Type 0
Agree w d from key ts = (now : ℕ) → from ≤ now → live now (d.ip_map key) ≡ live now (entry_of w ts)

-- What a failure makes of an entry that is in its window or not there.
abbrev counted : ℕ → ℕ → Option IpEntry → IpEntry
counted w now none = record { failures = 1; window_end = now + w }
counted w now (some e) = record { failures = e.failures + 1; window_end = e.window_end }

abbrev alarms : ℕ → Option IpEntry → Bool
alarms max none = false
alarms max (some e) = leb max (e.failures + 1)

record_failure_lem :
    (now : ℕ) (key : String) (d : Detector)
    → record_failure now key d ≡ (
      record d { ip_map = put key (counted d.cfg.window now (live now (d.ip_map key))) d.ip_map },
      alarms d.cfg.max_failures_per_ip (live now (d.ip_map key)),
    )
unfolding record_failure start_window
record_failure_lem now key d = elim (Option-cases (d.ip_map key)) [
  | inl e ↦ ground arith
  | inr (entry, e) ↦ ground arith
]

length-snoc : (t : ℕ) (ts : List ℕ) → length (ts ++ t ∷ []) ≡ suc (length ts)
length-snoc t [] = refl
length-snoc t (u ∷ ts) = ground (arith, length-snoc t ts)

entry_of-join :
    (w now : ℕ) (ts : List ℕ)
    → entry_of w (join w ts now) ≡ some (counted w now (live now (entry_of w ts)))
entry_of-join w now [] = refl
entry_of-join w now (first ∷ rest) = ground (arith, length-snoc now rest)

step-cfg :
    (token_hash : String → String) (d : Detector) (c : Call) → (step token_hash d c).cfg ≡ d.cfg
unfolding step record_failure start_window record_token_use cleanup
step-cfg token_hash d (fail t key) = ground arith
step-cfg token_hash d (present t token) = ground arith
step-cfg token_hash d (tidy t) = refl

present-ip_map :
    (token_hash : String → String) (t : ℕ) (token : String) (d : Detector)
    → (record_token_use token_hash t token d).0.ip_map ≡ d.ip_map
unfolding record_token_use
present-ip_map token_hash t token d = ground arith

live-cleanup :
    (t now : ℕ) (key : String) (d : Detector)
    → t ≤ now
    → live now ((cleanup t d).ip_map key) ≡ live now (d.ip_map key)
unfolding cleanup
live-cleanup t now key d h = elim (Option-cases (d.ip_map key)) [
  | inl e ↦ ground arith
  | inr (entry, e) ↦ ground arith
]

fail-Agree :
    (d : Detector) (w from t : ℕ) (key other : String) (ts : List ℕ)
    → d.cfg.window ≡ w
    → from ≤ t
    → Agree w d from key ts
    → Agree w (record_failure t other d).0 t key (if other == key then join w ts t else ts)
fail-Agree d w from t key other ts same le agree = rw (record_failure_lem t other d) (λ now h.
    ground
      (arith, same, eq_iff other key, entry_of-join w t ts, agree t le, agree now (omega arith)))

run-Agree :
    (token_hash : String → String) (d : Detector) (w from : ℕ) (key : String) (ts : List ℕ)
    (cs : List Call)
    → d.cfg.window ≡ w
    → IsOrdered from cs
    → Agree w d from key ts
    → Agree w (run token_hash d cs) (last_time from cs) key (window_of w key ts cs)
unfolding run step
run-Agree token_hash d w from key ts [] same ordered agree = agree
run-Agree token_hash d w from key ts (fail t other ∷ cs) same ordered agree =
    run-Agree token_hash (record_failure t other d).0 w t key
      (if other == key then join w ts t else ts) cs
      (ap (λ (c : Config). c.window) (step-cfg token_hash d (fail t other)) ∙ same) ordered.1
      (fail-Agree d w from t key other ts same ordered.0 agree)
run-Agree token_hash d w from key ts (present t token ∷ cs) same ordered agree =
    run-Agree token_hash (record_token_use token_hash t token d).0 w t key ts cs
      (ap (λ (c : Config). c.window) (step-cfg token_hash d (present t token)) ∙ same) ordered.1
      (λ now h. ground (arith, present-ip_map token_hash t token d, agree now (omega arith)))
run-Agree token_hash d w from key ts (tidy t ∷ cs) same ordered agree =
    run-Agree token_hash (cleanup t d) w t key ts cs
      (ap (λ (c : Config). c.window) (step-cfg token_hash d (tidy t)) ∙ same) ordered.1
      (λ now h. live-cleanup t now key d h ∙ agree now (omega arith))

run-cfg :
    (token_hash : String → String) (d : Detector) (cs : List Call)
    → (run token_hash d cs).cfg ≡ d.cfg
unfolding run
run-cfg token_hash d [] = refl
run-cfg token_hash d (c ∷ cs) =
    run-cfg token_hash (step token_hash d c) cs ∙ step-cfg token_hash d c

-- An alarm at the next failure, by the reference.
alarms-join :
    (max w now : ℕ) (ts : List ℕ)
    → (alarms max (live now (entry_of w ts)) ≡ true)
      ↔ ((2 ≤ length (join w ts now)) × (max ≤ length (join w ts now)))
alarms-join max w now [] = ground arith
alarms-join max w now (first ∷ rest) = ground (arith, length-snoc now rest)

-- After any history of failures under any keys, uses of tokens and cleanups in the order of their
-- times, on a new detector, a failure that is not before the last of them raises an alarm exactly when
-- it is at least the second and at least the `max_failures_per_ip`-th failure of its key in the window
-- it falls in. A window starts with the first failure of the key that is outside the one before, and
-- lasts as long as is configured; other keys, tokens and cleanups make no difference.
pub record_failure_iff :
    (token_hash : String → String) (cfg : Config) (cs : List Call) (now : ℕ) (key : String)
    → IsOrdered 0 cs
    → last_time 0 cs ≤ now
    → let seen = join cfg.window (window_of cfg.window key [] cs) now in
      ((record_failure now key (run token_hash (new_detector cfg) cs)).1 ≡ true)
      ↔ ((2 ≤ length seen) × (cfg.max_failures_per_ip ≤ length seen))
unfolding new_detector
record_failure_iff token_hash cfg cs now key ordered le =
    let d = run token_hash (new_detector cfg) cs in
    let agree =
      run-Agree token_hash (new_detector cfg) cfg.window 0 key [] cs refl ordered (λ t h. refl) now
        le in
    rw (record_failure_lem now key d, agree, run-cfg token_hash (new_detector cfg) cs)
      (alarms-join cfg.max_failures_per_ip cfg.window now (window_of cfg.window key [] cs))
