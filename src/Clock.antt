-- ===== src/Clock.antt =====
-- Times and durations: nanoseconds as natural numbers, a time counted from Go's zero `time.Time`.
-- A test that the source writes with a subtraction, such as `ts.After(now.Add(-window))`, is
-- written with the sum on the other side, since a difference of natural numbers stops at 0.
use talosctl_oidc.Base.{ℕ, ◌+◌, ◌*◌, Bool, ltb}

abbrev pub second : ℕ
second = 1000000000

abbrev pub minute : ℕ
minute = 60 * second

abbrev pub hour : ℕ
hour = 60 * minute

-- `a.After(b)`; `b.Before(a)` is the same test.
abbrev pub after : ℕ → ℕ → Bool
after a b = ltb b a

-- `time.Since(start) < d` at the time `now`
abbrev pub within : ℕ → ℕ → ℕ → Bool
within now start d = ltb now (start + d)

-- `time.Since(start) > d` at the time `now`
abbrev pub past : ℕ → ℕ → ℕ → Bool
past now start d = ltb (start + d) now
