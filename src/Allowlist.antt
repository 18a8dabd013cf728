-- ===== src/Allowlist.antt =====
-- pkg/allowlist/allowlist.go: the list of the addresses and networks that may call the server.
pub mod Coverage
mod Examples
use talosctl_oidc.Base.Fallible.{◌>>=◌}
use talosctl_oidc.Base.{
  ℕ, ◌==◌, String, Bool, true, false, not, ◌||◌, ◌&&◌, List, [], ◌∷◌, ◌++◌, Option, none, some,
  Result, ok, err, any, eqb, if◌then◌else◌, is_empty,
}
use talosctl_oidc.Text.{trim_space}
use talosctl_oidc.Net.{Network, parse_ip, parse_cidr, contains, host_network}
use talosctl_oidc.Request.{Request}
use talosctl_oidc.Request.Forwarded.{extract_ip}

pub record Allowlist : Type 0 where
  pub nets : List Network
  pub ips : List ℕ
  pub trusted : List Network

-- ParseError: the entry that is neither a network nor an address.
pub data ParseError : Type 0 where
  invalid_entry : String → ParseError

abbrev Parsed {ℓ} : Type ℓ → Type ℓ
Parsed A = Result ParseError A

-- One round of the loop of parseNets.
unfoldable pub add_net : List Network → String → Parsed (List Network)
add_net nets entry =
    let s = trim_space entry in
    if s == "" then ok nets else elim (parse_cidr s) [
      | some net ↦ ok (nets ++ net ∷ [])
      | none ↦ elim (parse_ip s) [
        | some ip ↦ ok (nets ++ host_network ip ∷ [])
        | none ↦ err (invalid_entry s)
      ]
    ]

unfoldable pub parse_nets_from : List Network → List String → Parsed (List Network)
parse_nets_from nets [] = ok nets
parse_nets_from nets (entry ∷ entries) = do
  nets' ← add_net nets entry
  parse_nets_from nets' entries

unfoldable pub parse_nets : List String → Parsed (List Network)
parse_nets entries = parse_nets_from [] entries

-- One round of the loop of New.
unfoldable pub add_entry : Allowlist → String → Parsed Allowlist
add_entry a entry =
    let s = trim_space entry in
    if s == "" then ok a else elim (parse_cidr s) [
      | some net ↦ ok (record a { nets = a.nets ++ net ∷ [] })
      | none ↦ elim (parse_ip s) [
        | some ip ↦ ok (record a { ips = a.ips ++ ip ∷ [] })
        | none ↦ err (invalid_entry s)
      ]
    ]

unfoldable pub add_entries : Allowlist → List String → Parsed Allowlist
add_entries a [] = ok a
add_entries a (entry ∷ entries) = do a' ← add_entry a entry; add_entries a' entries

unfoldable pub new : List String → List String → Parsed Allowlist
new allowed trusted_proxies = do
  trusted ← parse_nets trusted_proxies
  add_entries (record { nets = []; ips = []; trusted = trusted }) allowed

unfoldable pub is_enabled : Allowlist → Bool
is_enabled a = not (is_empty a.nets) || not (is_empty a.ips)

-- The two loops of Allowed, over the addresses and the networks: each answers at the first that
-- fits.
unfoldable pub matches : ℕ → Allowlist → Bool
matches parsed a = any (λ own. eqb own parsed) a.ips || any (λ n. contains n parsed) a.nets

unfoldable pub allowed : Allowlist → String → Bool
allowed a ip =
    if not (is_enabled a)
    then true
    else elim (parse_ip ip) [ none ↦ false | some parsed ↦ matches parsed a ]

-- What the middleware does with a request: hand it on, or answer 403.
pub data Verdict : Type 0 where
  next forbidden : Verdict

unfoldable pub middleware : Request → Allowlist → Verdict
middleware r a =
    if not (is_enabled a)
    then next
    else if allowed a (extract_ip a.trusted r)
    then next
    else forbidden
