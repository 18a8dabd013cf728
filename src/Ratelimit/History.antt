-- ===== src/Ratelimit/History.antt =====
-- A history of calls on one limiter, and how the stored time stamps stand to what was granted.
use mathlib.Core.List.{append-nil, append_assoc}
use talosctl_oidc.Base.{
  ℕ, ◌≤◌, ◌==◌, ◌≡◌, refl, String, true, ◌&&◌, List, [], ◌∷◌, ◌++◌, if◌then◌else◌, Map,
  Option-cases, is_empty-eq-nil, eq_iff, arith, inl, inr, keep-append,
}
use talosctl_oidc.Ratelimit.{Limiter, is_enabled, fresh, recent, stamps, allow, sweep, cleanup}

-- A request of an address, or a round of the background cleanup, at a time.
pub data Call : Type 0 where
  ask : ℕ → String → Call
  tidy : ℕ → Call

abbrev pub time : Call → ℕ
time (ask now ip) = now
time (tidy now) = now

-- The calls come in the order of their times, none before `from`.
abbrev pub IsOrdered : ℕ → List Call → Type 0
IsOrdered from [] = Unit
IsOrdered from (c ∷ cs) = (from ≤ time c) × IsOrdered (time c) cs

abbrev pub last_time : ℕ → List Call → ℕ
last_time from [] = from
last_time from (c ∷ cs) = last_time (time c) cs

unfoldable pub step : Limiter → Call → Limiter
step l (ask now ip) = (allow now ip l).0
step l (tidy now) = cleanup now l

unfoldable pub run : Limiter → List Call → Limiter
run l [] = l
run l (c ∷ cs) = run (step l c) cs

-- The times at which one call is granted to the address `ip`.
unfoldable pub granted : String → Limiter → Call → List ℕ
granted ip l (ask now j) = if j == ip && (allow now j l).1 then now ∷ [] else []
granted ip l (tidy now) = []

unfoldable pub grants : String → Limiter → List Call → List ℕ
grants ip l [] = []
grants ip l (c ∷ cs) = granted ip l c ++ grants ip (step l c) cs

keep-keep : (w t now : ℕ) (xs : List ℕ) → t ≤ now → recent w now (recent w t xs) ≡ recent w now xs
keep-keep w t now [] h = refl
keep-keep w t now (x ∷ xs) h = ground (arith, keep-keep w t now xs h)

stamps-sweep :
    (w t now : ℕ) (ip : String) (clients : Map (List ℕ))
    → t ≤ now
    → recent w now (stamps ip (sweep w t clients)) ≡ recent w now (stamps ip clients)
unfolding sweep
stamps-sweep w t now ip clients h = elim (Option-cases (clients ip)) [
  | inl e ↦ ground arith
  | inr (ts, e) ↦ ground (arith, keep-keep w t now ts h, is_empty-eq-nil (recent w t ts))
]

-- The stored time stamps and the granted times agree on what is still in the window.
abbrev pub Agree : Limiter → ℕ → String → List ℕ → Type 0
Agree l from ip times =
    (now : ℕ) → from ≤ now → recent l.window now (stamps ip l.clients) ≡ recent l.window now times

pub step-settings :
    (l : Limiter) (c : Call) → ((step l c).requests ≡ l.requests) × ((step l c).window ≡ l.window)
unfolding step allow cleanup
step-settings l (ask now ip) = ground arith
step-settings l (tidy now) = ground arith

-- One call keeps the agreement, whatever call it is.
pub step-Agree :
    (l : Limiter) (from : ℕ) (ip : String) (times : List ℕ) (c : Call)
    → is_enabled l ≡ true
    → from ≤ time c
    → Agree l from ip times
    → Agree (step l c) (time c) ip (times ++ granted ip l c)
unfolding step granted allow cleanup
step-Agree l from ip times (tidy t) on le agree now h =
    ground
      (arith, stamps-sweep l.window t now ip l.clients h, agree now (omega arith), append-nil times)
step-Agree l from ip times (ask t j) on le agree now h = ground (
  arith,
  keep-keep l.window t now (stamps ip l.clients) h,
  keep-append (fresh l.window now) (recent l.window t (stamps ip l.clients)) (t ∷ []),
  keep-append (fresh l.window now) times (t ∷ []),
  append-nil times,
  agree now (omega arith),
  eq_iff j ip,
)

pub step-is_enabled : (l : Limiter) (c : Call) → is_enabled l ≡ true → is_enabled (step l c) ≡ true
unfolding is_enabled
step-is_enabled l c on = ground (arith, step-settings l c)

-- So do all the calls of an ordered history.
pub run-Agree :
    (l : Limiter) (from : ℕ) (ip : String) (times : List ℕ) (cs : List Call)
    → is_enabled l ≡ true
    → IsOrdered from cs
    → Agree l from ip times
    → Agree (run l cs) (last_time from cs) ip (times ++ grants ip l cs)
unfolding run grants
run-Agree l from ip times [] on ord agree = rw append-nil agree
run-Agree l from ip times (c ∷ cs) on ord agree =
    rw (← append_assoc times (granted ip l c) (grants ip (step l c) cs)) (
      run-Agree (step l c) (time c) ip (times ++ granted ip l c) cs (step-is_enabled l c on) ord.1
        (step-Agree l from ip times c on ord.0 agree))

pub run-settings :
    (l : Limiter) (cs : List Call)
    → ((run l cs).requests ≡ l.requests) × ((run l cs).window ≡ l.window)
unfolding run
run-settings l [] = (refl, refl)
run-settings l (c ∷ cs) = ground (arith, run-settings (step l c) cs, step-settings l c)
