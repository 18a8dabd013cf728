-- ===== src/Request/Forwarded.antt =====
-- `extractIP` and `isTrustedProxy`, the same text in pkg/ratelimit/ratelimit.go and
-- pkg/allowlist/allowlist.go: whose address a request counts as.
pub mod Spoofing
mod Examples
use talosctl_oidc.Base.{
  ℕ, ◌==◌, ◌≡◌, refl, String, Bool, true, false, not, List, [], ◌∷◌, ◌++◌, reverse, Option, none,
  some, any, or_else, if◌then◌else◌,
}
use talosctl_oidc.Text.{split, trim_space}
use talosctl_oidc.Net.{Network, parse_ip, contains, split_host_port}
use talosctl_oidc.Request.{Request, header}

-- isTrustedProxy
unfoldable pub is_trusted_proxy : List Network → String → Bool
is_trusted_proxy trusted ip = elim (parse_ip ip) [
  | none ↦ false
  | some parsed ↦ any (λ n. contains n parsed) trusted
]

-- The loop of extractIP over the parts of the header from the last to the first.
unfoldable pub first_untrusted : List Network → List String → Option String
first_untrusted trusted [] = none
first_untrusted trusted (part ∷ parts) =
    let ip = trim_space part in
    let rest = first_untrusted trusted parts in
    if is_trusted_proxy trusted ip then rest else some ip

-- The direct peer: the host of RemoteAddr, or all of it where it has no port.
unfoldable pub peer : Request → String
peer r = or_else (split_host_port r.remote_addr) r.remote_addr

-- extractIP
unfoldable pub extract_ip : List Network → Request → String
extract_ip trusted r =
    let host = peer r in
    let xff = header "X-Forwarded-For" r in
    if is_trusted_proxy trusted host
    then (if xff == ""
        then host
        else or_else (first_untrusted trusted (reverse (split b',' xff))) host)
    else host
