-- ===== src/Ratelimit.antt =====
-- pkg/ratelimit/ratelimit.go: a sliding-window limit of requests for each client address. The
-- time of a call is an argument, and each call is one step on the limiter.
pub mod History
pub mod Window
pub mod Steps
mod Examples
use talosctl_oidc.Base.{
  ℕ, ◌+◌, ◌/◌, ◌==◌, ◌≡◌, refl, String, Bool, true, false, not, List, [], ◌∷◌, ◌++◌, Option, none,
  some, ltb, leb, if◌then◌else◌, is_some, or_else, keep, length, is_empty, Map, no_entries, put, ℤ,
  pos, negsuc, pos_part, is_positive,
}
use talosctl_oidc.Clock.{minute, second, after}
use talosctl_oidc.Text.{trim_space}
use talosctl_oidc.Net.{Network, parse_ip, parse_cidr, host_network}
use talosctl_oidc.Request.{Request}
use talosctl_oidc.Request.Forwarded.{extract_ip}

-- `clients` holds the time stamps of each address, oldest first.
pub record Limiter : Type 0 where
  pub requests : ℤ
  pub window : ℕ
  pub clients : Map (List ℕ)
  pub trusted : List Network

-- One round of parseNets; an entry that does not parse is skipped.
unfoldable pub add_net : List Network → String → List Network
add_net nets entry =
    let s = trim_space entry in
    if s == "" then nets else elim (parse_cidr s) [
      | some net ↦ nets ++ net ∷ []
      | none ↦ elim (parse_ip s) [ some ip ↦ nets ++ host_network ip ∷ [] | none ↦ nets ]
    ]

unfoldable pub parse_nets_from : List Network → List String → List Network
parse_nets_from nets [] = nets
parse_nets_from nets (s ∷ entries) = parse_nets_from (add_net nets s) entries

unfoldable pub parse_nets : List String → List Network
parse_nets entries = parse_nets_from [] entries

unfoldable pub new : ℤ → ℤ → List String → Limiter
new requests window trusted_proxies = record {
  requests = requests;
  window = if is_positive window then pos_part window else minute;
  clients = no_entries;
  trusted = parse_nets trusted_proxies;
}

unfoldable pub is_enabled : Limiter → Bool
is_enabled l = is_positive l.requests

-- `ts.After(now.Add(-window))`
abbrev pub fresh : ℕ → ℕ → ℕ → Bool
fresh window now ts = after (ts + window) now

-- The loop that removes the time stamps outside the window.
abbrev pub recent : ℕ → ℕ → List ℕ → List ℕ
recent window now = keep (fresh window now)

-- The time stamps of an address; none for an address that has no entry.
abbrev pub stamps : String → Map (List ℕ) → List ℕ
stamps ip clients = or_else (clients ip) []

unfoldable pub allow : ℕ → String → Limiter → Limiter × Bool
allow now ip l =
    let valid = recent l.window now (stamps ip l.clients) in
    if not (is_enabled l)
    then (l, true)
    else if leb (pos_part l.requests) (length valid)
    then (record l { clients = put ip valid l.clients }, false)
    else (record l { clients = put ip (valid ++ now ∷ []) l.clients }, true)

-- What the middleware does with a request: hand it on, or answer 429 with Retry-After.
pub data Verdict : Type 0 where
  next : Verdict
  too_many : ℕ → Verdict

unfoldable pub middleware : ℕ → Request → Limiter → Limiter × Verdict
middleware now r l =
    let (l', allowed) = allow now (extract_ip l.trusted r) l in
    if not (is_enabled l)
    then (l, next)
    else if allowed
    then (l', next)
    else (l', too_many (l.window / second))

-- What Cleanup does to each entry: an entry with no recent time stamp is dropped.
unfoldable pub sweep : ℕ → ℕ → Map (List ℕ) → Map (List ℕ)
sweep window now clients ip = elim (clients ip) [
  | none ↦ none
  | some ts ↦ let valid = recent window now ts in if is_empty valid then none else some valid
]

unfoldable pub cleanup : ℕ → Limiter → Limiter
cleanup now l =
    if not (is_enabled l) then l else record l { clients = sweep l.window now l.clients }
