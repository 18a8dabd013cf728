-- ===== src/Login/Cycle.antt =====
-- cmd/login.go: runLogin. When a round renews the certificate, and how long a watch sleeps.
use talosctl_oidc.Base.{
  ℕ, ◌+◌, ◌-◌, ◌*◌, ◌≤◌, ◌<◌, ◌≡◌, ◌⊎◌, subst, sym, inl, inr, refl, true, none, some, ok, ltb, pos,
  Bool-cases, arith, eq_iff,
}
use talosctl_oidc.Clock.{minute}
use talosctl_oidc.Keychain.{Stores}
use talosctl_oidc.TalosConfig.{Disk, is_certificate_expired}
use talosctl_oidc.Config.{Host, ResolvedConfig, parse_cert_ttl}
use talosctl_oidc.Login.{Flags}
use talosctl_oidc.Login.Renewal.{
  RoundWorld, again, wait_duration, current_expiry, check_certificate, renew, login_round,
}

wait_duration_lem :
    (now expiry : ℕ)
    → (wait_duration now expiry ≤ minute)
      × ((now + wait_duration now expiry + 5 * minute ≤ expiry) ⊎ (wait_duration now expiry ≡ 0))
unfolding wait_duration
wait_duration_lem now expiry = elim (Bool-cases (ltb minute (expiry - (now + 5 * minute)))) [
  | inl long ↦ (ground arith, inl (ground arith))
  | inr short ↦ (
    ground arith,
    elim (Bool-cases (ltb (now + 5 * minute) expiry)) [
      | inl early ↦ inl (ground arith)
      | inr late ↦ inr (ground arith)
    ],
  )
]

check_certificate-again :
    (w : RoundWorld) (flags : Flags) (expiry duration : ℕ)
    → current_expiry w flags ≡ some expiry
    → check_certificate w flags ≡ some (again duration)
    → duration ≡ wait_duration w.waited_from expiry
unfolding check_certificate
check_certificate-again w flags expiry duration e h = ground (arith, e)

-- A watch does not oversleep: where a round finds the certificate still valid and sleeps, it sleeps
-- for a minute at most, and it wakes no later than five minutes before the certificate expires, or does not
-- sleep at all.
pub check_certificate-wakes :
    (w : RoundWorld) (flags : Flags) (expiry duration : ℕ)
    → current_expiry w flags ≡ some expiry
    → check_certificate w flags ≡ some (again duration)
    → (duration ≤ minute) × ((w.waited_from + duration + 5 * minute ≤ expiry) ⊎ (duration ≡ 0))
check_certificate-wakes w flags expiry duration e h =
    subst (λ d. (d ≤ minute) × ((w.waited_from + d + 5 * minute ≤ expiry) ⊎ (d ≡ 0)))
      (sym (check_certificate-again w flags expiry duration e h))
      (wait_duration_lem w.waited_from expiry)

check_certificate-due :
    (w : RoundWorld) (flags : Flags) (expiry : ℕ)
    → current_expiry w flags ≡ some expiry
    → expiry < w.checked_at + 5 * minute
    → check_certificate w flags ≡ none
unfolding check_certificate is_certificate_expired
check_certificate-due w flags expiry e soon =
    let late : is_certificate_expired w.checked_at (5 * minute) (some expiry) ≡ true =
      ground arith in
    rw (e, check_certificate) (rw late refl)

parse_cert_ttl-default :
    (h : Host) (rc : ResolvedConfig) (ttl : ℕ)
    → rc.cert_ttl ≡ ""
    → parse_cert_ttl h rc ≡ ok (pos ttl)
    → ttl ≡ 5 * minute
unfolding parse_cert_ttl
parse_cert_ttl-default h rc ttl blank parsed = ground (arith, eq_iff rc.cert_ttl "")

-- With the server's default lifetime every round renews: where no `cert_ttl` is set and the
-- context's certificate expires no later than the parsed lifetime after it was issued, a round of
-- login that checks it after it was issued goes on to renew it, however fresh it is, with and
-- without a watch.
pub login_round-default :
    (h : Host) (rc : ResolvedConfig) (ttl issued expiry : ℕ) (w : RoundWorld) (flags : Flags)
    (s : Stores) (disk : Disk)
    → rc.cert_ttl ≡ ""
    → parse_cert_ttl h rc ≡ ok (pos ttl)
    → expiry ≤ issued + ttl
    → current_expiry w flags ≡ some expiry
    → issued < w.checked_at
    → login_round w flags s disk ≡ renew w flags s disk
unfolding login_round
login_round-default h rc ttl issued expiry w flags s disk blank parsed lasts e later =
    let default = parse_cert_ttl-default h rc ttl blank parsed in
    rw (check_certificate-due w flags expiry e (omega (arith, default)), login_round) refl
