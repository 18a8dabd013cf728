-- ===== src/Oidc/Device/Approved.antt =====
-- pkg/oidc/provider.go: PollDeviceToken. Where the token of the polling comes from.
use talosctl_oidc.Base.{
  ℕ, suc, zero, ◌+◌, ◌≡◌, ◌≢◌, ap, sym, ◌∙◌, inl, inr, refl, String, false, Option, none, some, ok,
  eqb, arith, Option-cases, Bool-cases,
}
use talosctl_oidc.Oidc.Provider.{Answer, ProviderConfig}
use talosctl_oidc.Oidc.Tokens.{Form, TokenResponse, DeviceAuth}
use talosctl_oidc.Oidc.Device.{
  Polls, Round, finished, go_on, duration, is_over, wait_of, on_error, on_answer, after_wait, round,
  poll, poll_form, poll_device_token,
}
use talosctl_oidc.Oidc.Device.Ends.{Round-cases, poll-finished, poll-go_on}

on_error-ok :
    (e : Option String) (interval : ℕ) {token : TokenResponse}
    → on_error e interval ≢ finished (ok token)
unfolding on_error
on_error-ok none interval h = cc
on_error-ok (some e) interval h = ground arith

module _ (w : Polls) (endpoint : String) (form : Form) where
  -- The n-th poll is answered with the token, as a success.
  abbrev pub Gives : ℕ → TokenResponse → Type 0
  Gives n token =
      (answer : Answer) × (w.post n endpoint form ≡ some answer)
      × (answer.status ≡ 200)
      × (w.token_of answer.body ≡ some token)

  on_answer-ok :
      (a : Option Answer) (interval : ℕ) {token : TokenResponse}
      → on_answer w endpoint form a interval ≡ finished (ok token)
      → (answer : Answer) × (a ≡ some answer)
        × (answer.status ≡ 200)
        × (w.token_of answer.body ≡ some token)
  unfolding on_answer
  on_answer-ok none interval h = cc
  on_answer-ok (some a) interval {token} h = elim (Bool-cases (eqb a.status 200)) [
    | inl fine ↦ elim (Option-cases (w.token_of a.body)) [
      | inl e ↦ ground arith
      | inr (t, e) ↦ (a, refl, ground arith, ground arith)
    ]
    | inr bad ↦ elim (on_error-ok (w.error_of a.body) interval {token = token} (ground arith)) [ ]
  ]

  after_wait-ok :
      (n : ℕ) (r : Round) {token : TokenResponse}
      → after_wait w endpoint form n r ≡ finished (ok token)
      → r ≡ finished (ok token)
  unfolding after_wait
  after_wait-ok n (finished r) h = h
  after_wait-ok n (go_on i) h = ground arith

  round-ok :
      (start lifetime n now interval : ℕ) {token : TokenResponse}
      → round w endpoint form start lifetime n now interval ≡ finished (ok token)
      → (is_over start lifetime now ≡ false) × Gives n token
  unfolding round
  round-ok start lifetime n now interval {token} h =
      elim (Bool-cases (is_over start lifetime now)) [
        | inl late ↦ ground arith
        | inr early ↦ (
          early,
          on_answer-ok (w.post n endpoint form) interval {token = token} (
              after_wait-ok n (on_answer w endpoint form (w.post n endpoint form) interval)
                {token = token} (ground arith)),
        )
      ]

  poll-no_fuel :
      (start lifetime n now interval : ℕ) {token : TokenResponse}
      → poll w endpoint form start lifetime 0 n now interval ≢ some (ok token)
  unfolding poll
  poll-no_fuel start lifetime n now interval h = cc

  -- The rounds of a polling that began at `start`: the n-th one comes at a time, with an interval.
  pub data Reached (start lifetime interval : ℕ) : ℕ → ℕ → ℕ → Type 0 where
    first : Reached start lifetime interval 0 start interval
    later :
        {n now i next : ℕ}
        → Reached start lifetime interval n now i
        → round w endpoint form start lifetime n now i ≡ go_on next
        → Reached start lifetime interval (suc n) (now + w.took n + wait_of next) next

  poll-ok :
      (start lifetime interval fuel n now i : ℕ) {token : TokenResponse}
      → Reached start lifetime interval n now i
      → poll w endpoint form start lifetime fuel n now i ≡ some (ok token)
      → (k : ℕ) × (at : ℕ) × (last : ℕ) × Reached start lifetime interval k at last
        × (is_over start lifetime at ≡ false)
        × Gives k token
  poll-ok start lifetime interval zero n now i {token} r h =
      elim (poll-no_fuel start lifetime n now i {token = token} h) [ ]
  poll-ok start lifetime interval (suc fuel) n now i {token} reached h =
      elim (Round-cases (round w endpoint form start lifetime n now i)) [
        | inl (r, e) ↦
            let given : r ≡ ok token =
              cc (poll-finished w endpoint form start lifetime fuel n now i e) in
            let here = round-ok start lifetime n now i {token = token} (e ∙ ap finished given) in
            (n, now, i, reached, here.0, here.1)
        | inr (next, e) ↦
            poll-ok start lifetime interval fuel (suc n) (now + w.took n + wait_of next) next
              {token = token} (Reached.later reached e)
              (sym (poll-go_on w endpoint form start lifetime fuel n now i e) ∙ h)
      ]

-- A device login yields a token only when the provider gave it: where PollDeviceToken gives a
-- token, a poll that its rounds reach was answered 200 with a body that decodes to that token, and
-- it was sent at a time not after the end of the device code's lifetime.
pub poll_device_token-ok :
    (w : Polls) (provider : ProviderConfig) (client_id secret : String) (auth : DeviceAuth)
    (fuel now : ℕ) {token : TokenResponse}
    → poll_device_token w provider client_id secret auth fuel now ≡ some (ok token)
    → let form = poll_form client_id secret auth.device_code in
      (k : ℕ) × (at : ℕ) × (i : ℕ) × Reached w provider.token_endpoint form now
        (duration auth.expires_in)
        (duration auth.interval)
        k
        at
        i
      × (is_over now (duration auth.expires_in) at ≡ false)
      × Gives w provider.token_endpoint form k token
unfolding poll_device_token
poll_device_token-ok w provider client_id secret auth fuel now {token} h =
    poll-ok w provider.token_endpoint (poll_form client_id secret auth.device_code) now
      (duration auth.expires_in) (duration auth.interval) fuel 0 now (duration auth.interval)
      {token = token} Reached.first h
