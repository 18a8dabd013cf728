-- ===== src/Server/Dashboard/Lockout.antt =====
-- When the login form is locked for a key, and when it is not.
use talosctl_oidc.Base.{
  ℕ, suc, ◌+◌, ◌≤◌, ◌≡◌, ◌↔◌, sym, ap, String, true, List, [], ◌∷◌, none, some, put, arith, leb,
  length, or_else, put_self, subst,
}
use talosctl_oidc.Server.Dashboard.{
  Attempts, LoginAttempt, max_login_attempts, lockout_duration, failed_attempt_window, no_attempt,
  is_locked_out, fail_again, record_failed,
}

-- Failures of one key at a list of times.
unfoldable pub fails : List ℕ → String → Attempts → Attempts
fails [] ip m = m
fails (t ∷ ts) ip m = fails ts ip (record_failed t ip m)

-- Each failure comes at most a window after the one before it, the first after `from`.
abbrev pub IsRun : ℕ → List ℕ → Type 0
IsRun from [] = Unit
IsRun from (t ∷ ts) = (from ≤ t) × (t ≤ from + failed_attempt_window) × IsRun t ts

abbrev pub last : ℕ → List ℕ → ℕ
last t [] = t
last t (u ∷ us) = last u us

-- The entry after `n` failures in a row, the last of them at `t`.
abbrev Counts : ℕ → ℕ → LoginAttempt → Type 0
Counts n t a =
    (a.count ≡ n)
    × (a.last_fail ≡ t)
    × (a.locked_out ≡ leb max_login_attempts n)
    × (leb max_login_attempts n ≡ true → a.lockout_at ≡ t)

fail_again-Counts :
    (n t u : ℕ) (a : LoginAttempt)
    → t ≤ u
    → u ≤ t + failed_attempt_window
    → Counts n t a
    → Counts (suc n) u (fail_again u a)
unfolding fail_again
fail_again-Counts n t u a le near h = ground arith

fails-Counts :
    (n t : ℕ) (ts : List ℕ) (ip : String) (m : Attempts) (a : LoginAttempt)
    → m ip ≡ some a
    → Counts n t a
    → IsRun t ts
    → (b : LoginAttempt) × (fails ts ip m ip ≡ some b) × Counts (n + length ts) (last t ts) b
unfolding fails record_failed
fails-Counts n t [] ip m a e h r = (a, e, subst (λ k. Counts k t a) (omega arith) h)
fails-Counts n t (u ∷ us) ip m a e h (le, near, r) =
    let b = fail_again u (or_else (m ip) no_attempt) in
    let same : b ≡ fail_again u a = ap (λ o. fail_again u (or_else o no_attempt)) e in
    let counts = subst (Counts (suc n) u) (sym same) (fail_again-Counts n t u a le near h) in
    let rest = fails-Counts (suc n) u us ip (put ip b m) b (put_self ip b m) counts r in
    (rest.0, rest.1, subst (λ k. Counts k (last u us) rest.0) (omega arith) rest.2)

first-Counts : (t : ℕ) → Counts 1 t (fail_again t no_attempt)
unfolding fail_again
first-Counts t = ground arith

is_locked_out-Counts :
    (n t now : ℕ) (ip : String) (m : Attempts) (a : LoginAttempt)
    → m ip ≡ some a
    → Counts n t a
    → (is_locked_out now ip m ≡ true) ↔ ((5 ≤ n) × (now ≤ t + lockout_duration))
unfolding is_locked_out
is_locked_out-Counts n t now ip m a e h = ground arith

-- Failures of a key that has none on record, each at most 15 minutes after the one before it,
-- lock the key at a time `now` exactly when there were five or more of them and the last is at
-- most 15 minutes old.
pub is_locked_out_iff :
    (t : ℕ) (ts : List ℕ) (now : ℕ) (ip : String) (m : Attempts)
    → m ip ≡ none
    → IsRun t ts
    → (is_locked_out now ip (fails (t ∷ ts) ip m) ≡ true)
      ↔ ((5 ≤ length (t ∷ ts)) × (now ≤ last t ts + lockout_duration))
unfolding fails record_failed
is_locked_out_iff t ts now ip m fresh run =
    let b = fail_again t (or_else (m ip) no_attempt) in
    let same : b ≡ fail_again t no_attempt = ap (λ o. fail_again t (or_else o no_attempt)) fresh in
    let counts = subst (Counts 1 t) (sym same) (first-Counts t) in
    let rest = fails-Counts 1 t ts ip (put ip b m) b (put_self ip b m) counts run in
    is_locked_out-Counts (length (t ∷ ts)) (last t ts) now ip (fails ts ip (put ip b m)) rest.0
      rest.1 (subst (λ k. Counts k (last t ts) rest.0) (omega arith) rest.2)
