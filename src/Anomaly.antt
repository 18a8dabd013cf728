-- ===== src/Anomaly.antt =====
-- pkg/anomaly/detector.go: failures counted for each key in a window, and uses of each token. The
-- time is an argument, SHA-256 of a token a parameter; int counters are taken not to wrap.
pub mod Counting
pub mod Alarms
mod Examples
use talosctl_oidc.Base.{
  ℕ, ◌+◌, ◌*◌, String, Bool, true, false, Option, none, some, Map, no_entries, put, if◌then◌else◌,
  leb,
}
use talosctl_oidc.Clock.{minute, hour, after}

pub record Config : Type 0 where
  pub max_failures_per_ip : ℕ
  pub window : ℕ
  pub token_replay_detection : Bool
  pub max_token_uses : ℕ

unfoldable pub default_config : Config
default_config = record {
  max_failures_per_ip = 10;
  window = 5 * minute;
  token_replay_detection = true;
  max_token_uses = 3;
}

pub record IpEntry : Type 0 where
  pub failures : ℕ
  pub window_end : ℕ

pub record TokenEntry : Type 0 where
  pub uses : ℕ
  pub first_seen : ℕ

pub record Detector : Type 0 where
  pub cfg : Config
  pub ip_map : Map IpEntry
  pub tokens : Map TokenEntry

unfoldable pub new_detector : Config → Detector
new_detector cfg = record { cfg = cfg; ip_map = no_entries; tokens = no_entries }

unfoldable pub start_window : ℕ → String → Detector → Detector × Bool
start_window now ip d =
    let entry : IpEntry = record { failures = 1; window_end = now + d.cfg.window } in
    (record d { ip_map = put ip entry d.ip_map }, false)

unfoldable pub record_failure : ℕ → String → Detector → Detector × Bool
record_failure now ip d = elim (d.ip_map ip) [
  | none ↦ start_window now ip d
  | some entry ↦
      let failures = entry.failures + 1 in
      let counted : IpEntry = record { failures = failures; window_end = entry.window_end } in
      if after now entry.window_end
      then start_window now ip d
      else (record d { ip_map = put ip counted d.ip_map }, leb d.cfg.max_failures_per_ip failures)
]

-- `token_hash` is the first 16 bytes of SHA-256, in hexadecimal.
unfoldable pub record_token_use : (String → String) → ℕ → String → Detector → Detector × Bool
record_token_use token_hash now raw_token d =
    let hash = token_hash raw_token in
    if d.cfg.token_replay_detection
    then elim (d.tokens hash) [
      | none ↦
          let entry : TokenEntry = record { uses = 1; first_seen = now } in
          (record d { tokens = put hash entry d.tokens }, false)
      | some entry ↦
          let uses = entry.uses + 1 in
          let counted : TokenEntry = record { uses = uses; first_seen = entry.first_seen } in
          (record d { tokens = put hash counted d.tokens }, leb d.cfg.max_token_uses uses)
    ]
    else (d, false)

-- Cleanup, for each entry of the two maps.
unfoldable pub cleanup : ℕ → Detector → Detector
cleanup now d = record d {
  ip_map = λ ip. elim (d.ip_map ip) [
    | none ↦ none
    | some entry ↦ if after now entry.window_end then none else some entry
  ];
  tokens = λ hash. elim (d.tokens hash) [
    | none ↦ none
    | some entry ↦ if after now (entry.first_seen + 24 * hour) then none else some entry
  ];
}
