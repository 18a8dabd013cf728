-- ===== src/Oidc/Device/Examples.antt =====
-- A device login that waits twice, is told to slow down once, and is approved.
use talosctl_oidc.Base.{
  ℕ, zero, suc, ◌*◌, ◌≡◌, refl, true, false, [], ◌∷◌, Option, some, ok, ◌==◌, if◌then◌else◌,
  is_some, pos, arith,
}
use talosctl_oidc.Clock.{second}
use talosctl_oidc.Oidc.Provider.{Answer, ProviderConfig}
use talosctl_oidc.Oidc.Tokens.{
  Post, TokenResponse, DeviceAuth, check_device, device_of, request_device_code,
}
use talosctl_oidc.Oidc.Device.{
  Polls, duration, is_over, on_error, on_answer, after_wait, round, poll, poll_form,
  poll_device_token,
}
use talosctl_oidc.Oidc.Device.Ends.{poll_device_token-ends}
use talosctl_oidc.Oidc.Device.Approved.{Reached, Gives, poll_device_token-ok}

abbrev provider : ProviderConfig
provider = record {
  issuer = "https://idp";
  authorization_endpoint = "https://idp/auth";
  token_endpoint = "https://idp/token";
  userinfo_endpoint = "";
  jwks_uri = "https://idp/keys";
  device_authorization_endpoint = "https://idp/device";
}

abbrev token : TokenResponse
token = record {
  access_token = "a";
  token_type = "Bearer";
  expires_in = pos 300;
  refresh_token = "r";
  id_token = "h.p.s";
  scope = "openid";
}

-- The provider gives no interval.
abbrev given : DeviceAuth
given = record {
  device_code = "d";
  user_code = "ABCD";
  verification_uri = "https://idp/activate";
  verification_uri_complete = "";
  expires_in = pos 60;
  interval = pos 0;
}

abbrev asked : DeviceAuth
asked = record given { interval = pos 5 }

abbrev device_post : Post
device_post endpoint form = some (record { status = 200; body = "device" })

abbrev answer : ℕ → Option Answer
answer zero = some (record { status = 400; body = "pending" })
answer (suc zero) = some (record { status = 400; body = "slow" })
answer (suc (suc n)) = some (record { status = 200; body = "token" })

abbrev approved : Polls
approved = record {
  post = λ n endpoint form. answer n;
  took = λ n. second;
  is_cancelled = λ n. false;
  token_of = λ body. some token;
  error_of = λ body. some (if body == "slow" then "slow_down" else "authorization_pending");
}

request_device_code_test :
    request_device_code device_post (λ body. some given) provider "cli" "" ("openid" ∷ [])
    ≡ ok asked
unfolding request_device_code device_of check_device
request_device_code_test = refl

poll_device_token-ends_example :
    is_some (poll_device_token approved provider "cli" "" asked 62 (100 * second)) ≡ true
poll_device_token-ends_example =
    poll_device_token-ends approved device_post (λ body. some given) provider "cli" ""
      ("openid" ∷ []) asked (100 * second) request_device_code_test (omega arith) (omega arith)

approved_test :
    poll_device_token approved provider "cli" "" asked 62 (100 * second) ≡ some (ok token)
unfolding poll_device_token poll round duration after_wait on_answer on_error
approved_test = refl

poll_device_token-ok_example :
    let form = poll_form "cli" "" "d" in
    (k : ℕ) × (at : ℕ) × (i : ℕ) × Reached approved "https://idp/token" form
      (100 * second)
      (duration (pos 60))
      (duration (pos 5))
      k
      at
      i
    × (is_over (100 * second) (duration (pos 60)) at ≡ false)
    × Gives approved "https://idp/token" form k token
poll_device_token-ok_example =
    poll_device_token-ok approved provider "cli" "" asked 62 (100 * second) {token = token}
      approved_test
