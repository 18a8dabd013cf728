-- ===== src/Oidc/Device.antt =====
-- pkg/oidc/provider.go: PollDeviceToken. A duration is a 64-bit word, negative from 2^63 on, as
-- `time.Duration(n) * time.Second` wraps. What the n-th poll meets is a parameter: its answer, how
-- long it takes, and whether the context ends in the wait behind it.
pub mod Ends
pub mod Approved
mod Examples
use talosctl_oidc.Base.{
  ℕ, suc, zero, ◌+◌, ◌-◌, ◌*◌, ◌%◌, ◌^◌, ◌==◌, String, Bool, true, false, not, List, [], ◌∷◌,
  Option, none, some, Result, ok, err, if◌then◌else◌, eqb, ltb, ℤ, pos, negsuc,
}
use talosctl_oidc.Clock.{second}
use talosctl_oidc.Oidc.Provider.{Answer, ProviderConfig}
use talosctl_oidc.Oidc.Tokens.{Form, TokenResponse, DeviceAuth, with_secret}

-- `time.Duration(n) * time.Second`
unfoldable pub duration : ℤ → ℕ
duration (pos n) = n * second % 2 ^ 64
duration (negsuc n) = (2 ^ 64 - suc n * second % 2 ^ 64) % 2 ^ 64

-- How long `time.After` waits.
abbrev pub wait_of : ℕ → ℕ
wait_of d = if ltb d (2 ^ 63) then d else 0

-- `time.Now().After(start.Add(d))`
abbrev pub is_over : ℕ → ℕ → ℕ → Bool
is_over start d now = if ltb d (2 ^ 63) then ltb (start + d) now else ltb start (now + (2 ^ 64 - d))

pub data PollError : Type 0 where
  code_expired no_answer bad_token bad_answer cancelled : PollError
  refused : String → PollError

-- One round either ends the loop or goes on with an interval.
pub data Round : Type 0 where
  finished : Result PollError TokenResponse → Round
  go_on : ℕ → Round

pub record Polls : Type 0 where
  pub post : ℕ → String → Form → Option Answer
  pub took : ℕ → ℕ
  pub is_cancelled : ℕ → Bool
  pub token_of : String → Option TokenResponse
  -- The `error` of a body, "" where there is none; none for a body that is no JSON.
  pub error_of : String → Option String

unfoldable pub poll_form : String → String → String → Form
poll_form client_id secret device_code =
    ("grant_type", "urn:ietf:params:oauth:grant-type:device_code")
    ∷ ("device_code", device_code)
    ∷ ("client_id", client_id)
    ∷ with_secret secret

-- The switch on the error of an answer that is no success.
unfoldable pub on_error : Option String → ℕ → Round
on_error none interval = finished (err bad_answer)
on_error (some e) interval =
    if e == ""
    then finished (err bad_answer)
    else if e == "authorization_pending"
    then go_on interval
    else if e == "slow_down"
    then go_on ((interval + 5 * second) % 2 ^ 64)
    else finished (err (refused e))

module _ (w : Polls) (endpoint : String) (form : Form) where
  unfoldable pub on_answer : Option Answer → ℕ → Round
  on_answer none interval = finished (err no_answer)
  on_answer (some answer) interval =
      if eqb answer.status 200
      then (elim (w.token_of answer.body) [
        | none ↦ finished (err bad_token)
        | some token ↦ finished (ok token)
      ])
      else on_error (w.error_of answer.body) interval

  unfoldable pub after_wait : ℕ → Round → Round
  after_wait n (finished r) = finished r
  after_wait n (go_on interval) =
      if w.is_cancelled n then finished (err cancelled) else go_on interval

  -- The n-th round, at `now`.
  unfoldable pub round : ℕ → ℕ → ℕ → ℕ → ℕ → Round
  round start lifetime n now interval =
      if is_over start lifetime now
      then finished (err code_expired)
      else after_wait n (on_answer (w.post n endpoint form) interval)

  -- The loop on fuel: none where the fuel runs out.
  unfoldable pub poll : ℕ → ℕ → ℕ → ℕ → ℕ → ℕ → Option (Result PollError TokenResponse)
  poll start lifetime zero n now interval = none
  poll start lifetime (suc fuel) n now interval = elim (round start lifetime n now interval) [
    | finished r ↦ some r
    | go_on next ↦ poll start lifetime fuel (suc n) (now + w.took n + wait_of next) next
  ]

unfoldable pub poll_device_token :
    Polls
    → ProviderConfig
    → String
    → String
    → DeviceAuth
    → ℕ
    → ℕ
    → Option (Result PollError TokenResponse)
poll_device_token w provider client_id secret auth fuel now =
    poll w provider.token_endpoint (poll_form client_id secret auth.device_code) now
      (duration auth.expires_in) fuel 0 now (duration auth.interval)
