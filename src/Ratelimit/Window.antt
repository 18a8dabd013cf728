-- ===== src/Ratelimit/Window.antt =====
-- The contract of the limiter: `Allow` after any history, and the bound on every window.
use mathlib.Core.List.{append-nil, append_assoc}
use talosctl_oidc.Base.{
  ℕ, ◌+◌, ◌≤◌, ◌<◌, ◌≡◌, ◌↔◌, refl, String, Bool, true, ap, sym, subst, ◌∙◌, Bool-cases, inl, inr,
  eq_iff, ◌==◌, List, [], ◌∷◌, ◌++◌, count, arith, pos_part, ltb, leb, length-keep, count-append,
  ◌&&◌, ℤ, is_positive,
}
use talosctl_oidc.Ratelimit.{Limiter, new, is_enabled, fresh, allow}
use talosctl_oidc.Ratelimit.History.{
  Call, ask, tidy, time, IsOrdered, last_time, step, run, granted, grants, Agree, run-Agree,
  run-settings, step-settings, step-Agree, step-is_enabled,
}

-- Whether a time stamp lies in the window that ends at `t`.
abbrev pub in_window : ℕ → ℕ → ℕ → Bool
in_window window t ts = leb ts t && ltb t (ts + window)

new-Agree :
    (requests window : ℤ) (proxies : List String) (ip : String)
    → Agree (new requests window proxies) 0 ip []
unfolding new
new-Agree requests window proxies ip now h = refl

allow_of_Agree :
    (l : Limiter) (limit : ℤ) (window from now : ℕ) (ip : String) (times : List ℕ)
    → l.requests ≡ limit
    → l.window ≡ window
    → is_enabled l ≡ true
    → from ≤ now
    → Agree l from ip times
    → ((allow now ip l).1 ≡ true) ↔ (count (fresh window now) times < pos_part limit)
unfolding allow
allow_of_Agree l limit window from now ip times same_limit same_window on le agree =
    ground (arith, agree now le, length-keep (fresh l.window now) times)

module _ (l : Limiter) (on : is_enabled l ≡ true) where
  run-allow_iff :
      (cs : List Call) (now : ℕ) (ip : String)
      → Agree l 0 ip []
      → IsOrdered 0 cs
      → last_time 0 cs ≤ now
      → ((allow now ip (run l cs)).1 ≡ true)
        ↔ (count (fresh l.window now) (grants ip l cs) < pos_part l.requests)
  unfolding is_enabled
  run-allow_iff cs now ip start ord le =
      let (same_limit, same_window) = run-settings l cs in
      allow_of_Agree (run l cs) l.requests l.window (last_time 0 cs) now ip (grants ip l cs)
        same_limit same_window (ap is_positive same_limit ∙ on) le
        (run-Agree l 0 ip [] cs on ord start)

-- For a limiter made by New with a positive limit, after any history of requests and cleanups in
-- the order of their times, a request of an address at a time not before the last one is allowed
-- exactly when fewer requests than the limit were granted to that address in the window before it.
pub allow_iff :
    (requests window : ℤ) (proxies : List String) (cs : List Call) (now : ℕ) (ip : String)
    → is_positive requests ≡ true
    → IsOrdered 0 cs
    → last_time 0 cs ≤ now
    → let l = new requests window proxies in
      ((allow now ip (run l cs)).1 ≡ true)
      ↔ (count (fresh l.window now) (grants ip l cs) < pos_part requests)
unfolding new is_enabled
allow_iff requests window proxies cs now ip on ord le =
    run-allow_iff (new requests window proxies) on cs now ip (new-Agree requests window proxies ip)
      ord le

count-in_window-le :
    (w t now : ℕ) (xs : List ℕ) → now ≤ t → count (in_window w t) xs ≤ count (fresh w now) xs
count-in_window-le w t now [] h = omega arith
count-in_window-le w t now (x ∷ xs) h = ground (arith, count-in_window-le w t now xs h)

-- A call that is granted leaves every window within the limit.
step_bound :
    (l : Limiter) (from : ℕ) (ip : String) (times : List ℕ) (c : Call) (t : ℕ)
    → is_enabled l ≡ true
    → from ≤ time c
    → Agree l from ip times
    → count (in_window l.window t) times ≤ pos_part l.requests
    → count (in_window l.window t) (times ++ granted ip l c) ≤ pos_part l.requests
unfolding granted
step_bound l from ip times (tidy now) t on le agree h =
    rw (count-append (in_window l.window t) times []) (omega arith)
step_bound l from ip times (ask now j) t on le agree h =
    rw (count-append (in_window l.window t) times (granted ip l (ask now j)))
      (elim (Bool-cases (j == ip)) [
        | inl same ↦ ground (
          arith,
          eq_iff j ip,
          allow_of_Agree l l.requests l.window from now ip times refl refl on le agree,
          count-in_window-le l.window t now times,
        )
        | inr other ↦ rw (other, granted) (omega arith)
      ])

Bound_of_settings :
    (l m : Limiter) (times : List ℕ) (t : ℕ)
    → l.requests ≡ m.requests
    → l.window ≡ m.window
    → count (in_window l.window t) times ≤ pos_part l.requests
    → count (in_window m.window t) times ≤ pos_part m.requests
Bound_of_settings l m times t e f h = ground arith

run_bound :
    (l : Limiter) (from : ℕ) (ip : String) (times : List ℕ) (cs : List Call) (t : ℕ)
    → is_enabled l ≡ true
    → IsOrdered from cs
    → Agree l from ip times
    → count (in_window l.window t) times ≤ pos_part l.requests
    → count (in_window l.window t) (times ++ grants ip l cs) ≤ pos_part l.requests
unfolding grants
run_bound l from ip times [] t on ord agree h = rw append-nil h
run_bound l from ip times (c ∷ cs) t on ord agree h =
    let (same_limit, same_window) = step-settings l c in
    let done = times ++ granted ip l c in
    let later =
      run_bound (step l c) (time c) ip done cs t (step-is_enabled l c on) ord.1
        (step-Agree l from ip times c on ord.0 agree) in
    let now = step_bound l from ip times c t on ord.0 agree h in
    subst (λ xs. count (in_window l.window t) xs ≤ pos_part l.requests)
      (append_assoc times (granted ip l c) (grants ip (step l c) cs))
      (Bound_of_settings (step l c) l (done ++ grants ip (step l c) cs) t same_limit same_window
        (later (Bound_of_settings l (step l c) done t (sym same_limit) (sym same_window) now)))

-- For a limiter made by New with a positive limit, in any history of requests and cleanups in the
-- order of their times, and whichever window of the configured length is looked at, the requests
-- of one address that were granted in it are no more than the limit.
pub window_bound :
    (requests window : ℤ) (proxies : List String) (cs : List Call) (ip : String) (t : ℕ)
    → is_positive requests ≡ true
    → IsOrdered 0 cs
    → let l = new requests window proxies in
      count (in_window l.window t) (grants ip l cs) ≤ pos_part requests
unfolding new is_enabled
window_bound requests window proxies cs ip t on ord =
    run_bound (new requests window proxies) 0 ip [] cs t on ord
      (new-Agree requests window proxies ip) (omega arith)
