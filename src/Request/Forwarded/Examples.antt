-- ===== src/Request/Forwarded/Examples.antt =====
-- The client's address at concrete requests.
use talosctl_oidc.Base.{
  ◌+◌, ◌*◌, ◌^◌, ◌≡◌, ◌≢◌, refl, String, false, List, [], ◌∷◌, none, some, arith, eq_iff, reverse,
  lookup,
}
use talosctl_oidc.Text.{split}
use talosctl_oidc.Text.Laws.{◌+++◌}
use talosctl_oidc.Net.{Network, addresses}
use talosctl_oidc.Request.{Request, header}
use talosctl_oidc.Request.Forwarded.{is_trusted_proxy, first_untrusted, peer, extract_ip}
use talosctl_oidc.Request.Forwarded.Spoofing.{extract_ip-forged}

abbrev request_from : String → String → Request
request_from remote_addr xff = record {
  method = "POST";
  remote_addr = remote_addr;
  headers = ("X-Forwarded-For", xff) ∷ [];
  cookie = none;
  body = none;
}

-- 10.0.0.0/24
abbrev proxies : List Network
proxies = record { base = 0xffff * 2 ^ 32 + 0x0a000000; ones = 120 } ∷ []

abbrev direct : Request
direct = request_from "1.2.3.4:5000" "6.6.6.6"

abbrev own : String
own = "1.2.3.4, 10.0.0.2"

abbrev honest : Request
honest = request_from "10.0.0.9:443" own

abbrev forged : Request
forged = request_from "10.0.0.9:443" ("6.6.6.6" +++ ("," +++ own))

extract_ip_tests :
    (extract_ip proxies direct ≡ "1.2.3.4")
    × (extract_ip proxies honest ≡ "1.2.3.4")
    × (extract_ip proxies forged ≡ "1.2.3.4")
unfolding extract_ip peer is_trusted_proxy first_untrusted header lookup addresses
extract_ip_tests = (refl, refl, refl)

direct_untrusted : is_trusted_proxy proxies (peer direct) ≡ false
unfolding peer is_trusted_proxy addresses
direct_untrusted = refl

own_found : first_untrusted proxies (reverse (split b',' own)) ≡ some "1.2.3.4"
unfolding first_untrusted is_trusted_proxy addresses
own_found = refl

own_nonempty : own ≢ ""
own_nonempty = ground (arith, eq_iff own "")

own_header : header "X-Forwarded-For" honest ≡ own
unfolding header lookup
own_header = refl

forged_header : header "X-Forwarded-For" forged ≡ "6.6.6.6" +++ ("," +++ own)
unfolding header lookup
forged_header = refl

same_peer : peer forged ≡ peer honest
unfolding peer
same_peer = refl

extract_ip-forged_example : extract_ip proxies forged ≡ extract_ip proxies honest
extract_ip-forged_example =
    extract_ip-forged proxies honest forged own "6.6.6.6" "1.2.3.4" same_peer own_header
      own_nonempty forged_header own_found
