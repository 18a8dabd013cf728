-- ===== src/Oidc/Device/Ends.antt =====
-- That the polling ends, and where its token comes from.
use talosctl_oidc.Base.{
  ℕ, suc, zero, ◌+◌, ◌*◌, ◌%◌, ◌^◌, ◌≤◌, ◌<◌, ◌≡◌, ◌⊎◌, inl, inr, refl, ◌==◌, String, true, false,
  Option, none, some, Result, ok, eqb, ℤ, pos, negsuc, is_some, is_positive, pos_part, List, arith,
  ap, ◌∙◌, Option-cases, Bool-cases,
}
use talosctl_oidc.Clock.{second}
use talosctl_oidc.Oidc.Provider.{Answer, ProviderConfig}
use talosctl_oidc.Oidc.Tokens.{
  Post, Form, TokenResponse, DeviceAuth, check_device, device_form, device_of, request_device_code,
}
use talosctl_oidc.Oidc.Device.{
  Polls, Round, finished, go_on, PollError, duration, wait_of, is_over, on_error, on_answer,
  after_wait, round, poll, poll_form, poll_device_token,
}

-- What `slow_down` makes of an interval.
abbrev slower : ℕ → ℕ
slower interval = (interval + 5 * second) % 2 ^ 64

on_error-go_on :
    (e : Option String) (interval : ℕ) {next : ℕ}
    → on_error e interval ≡ go_on next
    → (next ≡ interval) ⊎ (next ≡ slower interval)
unfolding on_error
on_error-go_on none interval h = cc
on_error-go_on (some e) interval h = elim (Bool-cases (e == "authorization_pending")) [
  | inl pending ↦ inl (ground arith)
  | inr other ↦ inr (ground arith)
]

pub Round-cases :
    (r : Round)
    → ((res : Result PollError TokenResponse) × (r ≡ finished res))
      ⊎ ((next : ℕ) × (r ≡ go_on next))
Round-cases (finished res) = inl (res, refl)
Round-cases (go_on next) = inr (next, refl)

module _ (w : Polls) (endpoint : String) (form : Form) where
  on_answer-go_on :
      (a : Option Answer) (interval : ℕ) {next : ℕ}
      → on_answer w endpoint form a interval ≡ go_on next
      → (next ≡ interval) ⊎ (next ≡ slower interval)
  unfolding on_answer
  on_answer-go_on none interval h = cc
  on_answer-go_on (some a) interval {next} h = elim (Bool-cases (eqb a.status 200)) [
    | inl fine ↦ elim (Option-cases (w.token_of a.body)) [
      | inl e ↦ ground arith
      | inr (token, e) ↦ ground arith
    ]
    | inr bad ↦ on_error-go_on (w.error_of a.body) interval {next = next} (ground arith)
  ]

  after_wait-go_on :
      (n : ℕ) (r : Round) {next : ℕ} → after_wait w endpoint form n r ≡ go_on next → r ≡ go_on next
  unfolding after_wait
  after_wait-go_on n (finished r) h = h
  after_wait-go_on n (go_on i) h = ground arith

  round-go_on :
      (start lifetime n now interval : ℕ) {next : ℕ}
      → round w endpoint form start lifetime n now interval ≡ go_on next
      → (is_over start lifetime now ≡ false) × ((next ≡ interval) ⊎ (next ≡ slower interval))
  unfolding round
  round-go_on start lifetime n now interval {next} h =
      elim (Bool-cases (is_over start lifetime now)) [
        | inl late ↦ ground arith
        | inr early ↦ (
          early,
          on_answer-go_on (w.post n endpoint form) interval {next = next}
              (after_wait-go_on n _ {next = next} (ground arith)),
        )
      ]

  pub poll-finished :
      (start lifetime fuel n now interval : ℕ) {r : Result PollError TokenResponse}
      → round w endpoint form start lifetime n now interval ≡ finished r
      → poll w endpoint form start lifetime (suc fuel) n now interval ≡ some r
  unfolding poll
  poll-finished start lifetime fuel n now interval h = ground arith

  pub poll-go_on :
      (start lifetime fuel n now interval : ℕ) {next : ℕ}
      → round w endpoint form start lifetime n now interval ≡ go_on next
      → poll w endpoint form start lifetime (suc fuel) n now interval
        ≡ poll w endpoint form start lifetime fuel (suc n) (now + w.took n + wait_of next) next
  unfolding poll
  poll-go_on start lifetime fuel n now interval h = rw (h, poll) refl

  -- An interval of at least a second stays one, and grows by at most five seconds.
  next_bounds :
      (interval next : ℕ)
      → second ≤ interval
      → interval + 5 * second < 2 ^ 63
      → (next ≡ interval) ⊎ (next ≡ slower interval)
      → (second ≤ wait_of next) × (second ≤ next) × (next ≤ interval + 5 * second)
  next_bounds interval next positive room (inl e) = ground arith
  next_bounds interval next positive room (inr e) =
      let grown : next ≡ interval + 5 * second = omega arith in ground arith

  poll-ends :
      (start lifetime fuel n now interval : ℕ)
      → lifetime < 2 ^ 63
      → second ≤ interval
      → interval + fuel * (5 * second) < 2 ^ 63
      → start + lifetime < now + fuel * second
      → is_some (poll w endpoint form start lifetime (suc fuel) n now interval) ≡ true
  poll-ends start lifetime zero n now interval small positive room over =
      elim (Round-cases (round w endpoint form start lifetime n now interval)) [
        | inl (r, e) ↦ ap is_some (poll-finished start lifetime 0 n now interval e)
        | inr (next, e) ↦
            let early = (round-go_on start lifetime n now interval {next = next} e).0 in
            ground arith
      ]
  poll-ends start lifetime (suc fuel) n now interval small positive room over =
      elim (Round-cases (round w endpoint form start lifetime n now interval)) [
        | inl (r, e) ↦ ap is_some (poll-finished start lifetime (suc fuel) n now interval e)
        | inr (next, e) ↦
            let b =
              next_bounds interval next positive (omega arith)
                (round-go_on start lifetime n now interval {next = next} e).1 in
            ap is_some (poll-go_on start lifetime (suc fuel) n now interval e)
            ∙ poll-ends start lifetime fuel (suc n) (now + w.took n + wait_of next) next small b.1
                (omega (arith, b)) (omega (arith, b))
      ]

device_of-positive :
    (decode : String → Option DeviceAuth) (a : Option Answer) {auth : DeviceAuth}
    → device_of decode a ≡ ok auth
    → (is_positive auth.interval ≡ true) × (is_positive auth.expires_in ≡ true)
unfolding device_of check_device
device_of-positive decode none h = cc
device_of-positive decode (some a) {auth} h = elim (Option-cases (decode a.body)) [
  | inl e ↦ ground arith
  | inr (raw, e) ↦ ground arith
]

request_device_code-positive :
    (post : Post) (decode : String → Option DeviceAuth) (provider : ProviderConfig)
    (client_id secret : String) (scopes : List String) {auth : DeviceAuth}
    → request_device_code post decode provider client_id secret scopes ≡ ok auth
    → (is_positive auth.interval ≡ true) × (is_positive auth.expires_in ≡ true)
unfolding request_device_code
request_device_code-positive post decode provider client_id secret scopes {auth} h =
    elim (Bool-cases (provider.device_authorization_endpoint == "")) [
      | inl e ↦ ground arith
      | inr e ↦
          device_of-positive decode
            (post provider.device_authorization_endpoint (device_form client_id secret scopes))
            {auth = auth} (ground arith)
    ]

duration_lem :
    (d : ℤ)
    → is_positive d ≡ true
    → pos_part d ≤ 10 ^ 9
    → (duration d ≡ pos_part d * second) × (1 ≤ pos_part d)
unfolding duration
duration_lem (pos n) positive small = ground arith
duration_lem (negsuc n) positive small = cc

-- The polling ends: for a device code that RequestDeviceCode gave, with an interval and a lifetime
-- of at most 10^9 seconds, PollDeviceToken has a result after at most two rounds more than the
-- lifetime has seconds, whatever the provider answers and however long it takes.
pub poll_device_token-ends :
    (w : Polls) (post : Post) (decode : String → Option DeviceAuth) (provider : ProviderConfig)
    (client_id secret : String) (scopes : List String) (auth : DeviceAuth) (now : ℕ)
    → request_device_code post decode provider client_id secret scopes ≡ ok auth
    → pos_part auth.expires_in ≤ 10 ^ 9
    → pos_part auth.interval ≤ 10 ^ 9
    → is_some
        (poll_device_token w provider client_id secret auth (pos_part auth.expires_in + 2) now)
      ≡ true
unfolding poll_device_token
poll_device_token-ends w post decode provider client_id secret scopes auth now asked small low =
    let positive =
      request_device_code-positive post decode provider client_id secret scopes asked in
    let lifetime = duration_lem auth.expires_in positive.1 small in
    let interval = duration_lem auth.interval positive.0 low in
    let fuel : pos_part auth.expires_in + 2 ≡ suc (pos_part auth.expires_in + 1) = omega arith in
    ap
      (λ f. is_some (
        poll w provider.token_endpoint (poll_form client_id secret auth.device_code) now
          (duration auth.expires_in) f 0 now (duration auth.interval)))
      fuel
    ∙ poll-ends w provider.token_endpoint (poll_form client_id secret auth.device_code) now
        (duration auth.expires_in) (pos_part auth.expires_in + 1) 0 now (duration auth.interval)
        (omega arith) (omega arith) (omega arith) (omega arith)
