-- ===== src/Allowlist/Examples.antt =====
-- The allowlist at a concrete configuration.
use talosctl_oidc.Base.{
  ℕ, ◌+◌, ◌*◌, ◌^◌, ◌≡◌, ◌↔◌, ◌⊎◌, refl, String, true, false, ◌&&◌, List, [], ◌∷◌, some, ok, err,
  any,
}
use talosctl_oidc.Net.{parse_ip, addresses}
use talosctl_oidc.Allowlist.{
  Allowlist, add_entry, add_entries, parse_nets_from, parse_nets, new, allowed, is_enabled, matches,
  invalid_entry,
}
use talosctl_oidc.Allowlist.Coverage.{covers, is_entry, allowed-new_iff}

abbrev entries : List String
entries = "10.0.0.0/8" ∷ " " ∷ "192.168.1.7" ∷ []

abbrev built : Allowlist
built = record {
  nets = record { base = 0xffff * 2 ^ 32 + 10 * 2 ^ 24; ones = 104 } ∷ [];
  ips = (0xffff * 2 ^ 32 + 0xc0a80107) ∷ [];
  trusted = [];
}

new_test : new entries [] ≡ ok built
unfolding new parse_nets parse_nets_from add_entries add_entry addresses
new_test = refl

new_error_test : new ("10.0.0.0/8" ∷ "x" ∷ []) [] ≡ err (invalid_entry "x")
unfolding new parse_nets parse_nets_from add_entries add_entry addresses
new_error_test = refl

allowed_tests :
    (allowed built "10.200.0.1" ≡ true)
    × (allowed built "192.168.1.7" ≡ true)
    × (allowed built "192.168.1.8" ≡ false)
    × (allowed built "nonsense" ≡ false)
unfolding allowed is_enabled matches addresses
allowed_tests = (refl, refl, refl, refl)

abbrev inside : ℕ
inside = 0xffff * 2 ^ 32 + 0x0ac80001

inside_parses : parse_ip "10.200.0.1" ≡ some inside
unfolding addresses
inside_parses = refl

allowed-new_iff_example :
    (allowed built "10.200.0.1" ≡ true)
    ↔ ((any is_entry entries ≡ false) ⊎ (any (λ e. is_entry e && covers inside e) entries ≡ true))
allowed-new_iff_example =
    allowed-new_iff entries [] built "10.200.0.1" inside new_test inside_parses
