-- ===== src/Login/Examples.antt =====
-- A login whose cached token is fresh, and the rounds around it.
use talosctl_oidc.Base.{
  ◌+◌, ◌*◌, ◌≤◌, ◌==◌, ◌≡◌, ◌⊎◌, ◌↔◌, refl, String, true, List, [], ◌∷◌, none, some, ok, All,
  if◌then◌else◌, pos, no_entries, put, ap, sym, ◌∙◌, arith, lookup,
}
use talosctl_oidc.Clock.{second, minute, hour}
use talosctl_oidc.Text.{trim_right_of, cut_prefix}
use talosctl_oidc.Keychain.{
  is_expired, retrieve, keyring_token, file_token, file_retrieve, read_token_file, best_token,
}
use talosctl_oidc.Server.{CertResponse, Response, Body, certificate, write_json}
use talosctl_oidc.Server.Toy.{world, server, response, handle_exchange_test}
use talosctl_oidc.Server.Exchange.{handle_exchange}
use talosctl_oidc.TalosConfig.{
  Context, TalosConfig, Disk, set_context, is_certificate_expired, save,
}
use talosctl_oidc.Config.{Host, empty_config, parse_cert_ttl}
use talosctl_oidc.Login.{obtain_id_token, use_stored}
use talosctl_oidc.Login.Toy.{works, stores, flags, login_world, disk, yaml}
use talosctl_oidc.Login.Obtained.{Sound, obtain_id_token-Sound}
use talosctl_oidc.Login.Renewal.{
  Client, RoundWorld, again, wait_duration, current_expiry, check_certificate, http_client_builds,
  exchange_token_for_cert, after_save, after_set, write_config, exchange_and_write, after_obtain,
  renew, login_round,
}
use talosctl_oidc.Login.Round.{Justified, login_round-Justified}
use talosctl_oidc.Login.Cycle.{check_certificate-wakes, login_round-default}
use talosctl_oidc.Login.Served.{Connected, request, answer_of, exchange_token_for_cert_iff}

obtain_id_token_test : obtain_id_token login_world flags stores ≡ some (stores, ok "h.p.s")
unfolding obtain_id_token use_stored retrieve keyring_token file_token file_retrieve read_token_file
    best_token is_expired lookup
obtain_id_token_test = refl

obtain_id_token-Sound_example : Sound login_world flags (retrieve works "oidc" stores) "h.p.s"
obtain_id_token-Sound_example =
    obtain_id_token-Sound login_world flags stores stores "h.p.s" obtain_id_token_test

-- The client posts the token as it is, and is connected to the small server.
abbrev render : Body → String
render (certificate c) = "certificate"
render body = "other"

abbrev client : Client
client = record {
  post = λ url body.
      some (answer_of render (handle_exchange world (request "10.0.0.7:5000" body) server).1);
  marshal = λ id_token. id_token;
  cert_of = λ body. if body == "certificate" then some response else none;
  error_of = λ body. none;
}

certificate-response :
    (c : CertResponse)
    → ◌≡◌ {A = Response} (write_json (certificate response)) (write_json (certificate c))
    → response ≡ c
certificate-response c h = cc

client-Connected : Connected client world server "10.0.0.7:5000" "https://server/" render "h.p.s"
unfolding trim_right_of
client-Connected = record {
  posts = refl;
  reads = λ c h. ap some (certificate-response c (sym handle_exchange_test ∙ h));
}

exchange_token_for_cert_iff_example :
    (exchange_token_for_cert client "https://server/" "h.p.s" ≡ ok response) ↔ (
      (handle_exchange world (request "10.0.0.7:5000" "h.p.s") server).1
      ≡ write_json (certificate response))
exchange_token_for_cert_iff_example =
    exchange_token_for_cert_iff client world server "10.0.0.7:5000" "https://server/" render "h.p.s"
      client-Connected response

exchange_test : exchange_token_for_cert client "https://server/" "h.p.s" ≡ ok response
exchange_test =
    (exchange_token_for_cert_iff client world server "10.0.0.7:5000" "https://server/" render
        "h.p.s" client-Connected response).1
      handle_exchange_test

abbrev empty_talosconfig : TalosConfig
empty_talosconfig = record { context = ""; contexts = no_entries }

abbrev old_context : Context
old_context = record { endpoints = []; nodes = []; ca = "ca"; crt = "crt"; key = "key" }

-- A round without a certificate, and one with a certificate that expires in two hours.
abbrev first_round : RoundWorld
first_round = record {
  login = login_world;
  config_before = some empty_talosconfig;
  config_after = some empty_talosconfig;
  expiry_of = λ context. some (2 * hour);
  checked_at = second;
  waited_from = second;
  ca_loads = true;
  client = client;
  base64 = λ pem. pem;
  yaml = yaml;
}

abbrev later_round : RoundWorld
later_round = record first_round {
  config_before = some (record { context = "oidc"; contexts = put "oidc" old_context no_entries });
}

abbrev disks : List Disk
disks =
    record { target = some "oidc"; temporary = none }
    ∷ record disk { temporary = some "oidc" }
    ∷ disk
    ∷ []

login_round_test :
    login_round first_round flags stores disk ≡ some (stores, (disks, again (10 * second)))
unfolding login_round check_certificate current_expiry renew cut_prefix after_obtain
    exchange_and_write http_client_builds write_config after_set after_save set_context save
login_round_test = rw (obtain_id_token_test, exchange_test) refl

login_round-Justified_example : All (Justified first_round flags disk stores stores) disks
login_round-Justified_example =
    login_round-Justified first_round flags disk stores stores disks (again (10 * second))
      login_round_test

later_expiry : current_expiry later_round flags ≡ some (2 * hour)
unfolding current_expiry
later_expiry = refl

later_sleep : check_certificate later_round flags ≡ some (again minute)
unfolding check_certificate current_expiry is_certificate_expired wait_duration
later_sleep = refl

check_certificate-wakes_test :
    (minute ≤ minute) × ((second + minute + 5 * minute ≤ 2 * hour) ⊎ (minute ≡ 0))
check_certificate-wakes_test =
    check_certificate-wakes later_round flags (2 * hour) minute later_expiry later_sleep

-- A certificate of the default lifetime, a second old.
abbrev fresh_round : RoundWorld
fresh_round = record later_round {
  expiry_of = λ context. some (5 * minute + second);
  checked_at = 2 * second;
}

abbrev host : Host
host = record {
  getenv = λ key. "";
  read_file = λ path. none;
  unmarshal = λ content. none;
  parse_duration = λ text. none;
  scan_int = λ text. none;
}

default_ttl : parse_cert_ttl host empty_config ≡ ok (pos (5 * minute))
unfolding parse_cert_ttl
default_ttl = refl

fresh_expiry : current_expiry fresh_round flags ≡ some (5 * minute + second)
unfolding current_expiry
fresh_expiry = refl

login_round-default_example :
    login_round fresh_round flags stores disk ≡ renew fresh_round flags stores disk
login_round-default_example =
    login_round-default host empty_config (5 * minute) second (5 * minute + second) fresh_round
      flags stores disk refl default_ttl (omega arith) fresh_expiry (omega arith)
