-- ===== src/Anomaly/Counting.antt =====
-- When the detector raises an alarm.
use talosctl_oidc.Base.{
  ℕ, suc, ◌+◌, ◌≤◌, ◌<◌, ◌≡◌, inl, inr, refl, String, Bool, true, false, List, [], ◌∷◌, none, some,
  put, leb, All, arith, put_self, ap, Option-cases,
}
use talosctl_oidc.Anomaly.{
  IpEntry, TokenEntry, Detector, start_window, record_failure, record_token_use,
}

-- The failures of one key at a list of times, and the alarms that they raise.
unfoldable pub failures : List ℕ → String → Detector → Detector × List Bool
failures [] ip d = (d, [])
failures (t ∷ ts) ip d =
    let (d', alarm) = record_failure t ip d in
    let (d'', alarms) = failures ts ip d' in (d'', alarm ∷ alarms)

-- The alarms of failures that are the `n + 1`-th and later ones of their window.
abbrev pub expected_alarms : ℕ → ℕ → List ℕ → List Bool
expected_alarms max n [] = []
expected_alarms max n (t ∷ ts) = leb max (suc n) ∷ expected_alarms max (suc n) ts

later_failures :
    (ts : List ℕ) (ip : String) (d : Detector) (entry : IpEntry)
    → d.ip_map ip ≡ some entry
    → All (λ t. t ≤ entry.window_end) ts
    → (failures ts ip d).1 ≡ expected_alarms d.cfg.max_failures_per_ip entry.failures ts
unfolding failures record_failure
later_failures [] ip d entry e h = refl
later_failures (t ∷ ts) ip d entry e h =
    let counted : IpEntry = record {
      failures = entry.failures + 1;
      window_end = entry.window_end;
    } in
    let d' : Detector = record d { ip_map = put ip counted d.ip_map } in
    ground (arith, later_failures ts ip d' counted, put_self ip counted d.ip_map, h.0, h.1)

opens :
    (t : ℕ) (ip : String) (d : Detector)
    → ((entry : IpEntry) → d.ip_map ip ≡ some entry → entry.window_end < t)
    → record_failure t ip d ≡ start_window t ip d
unfolding record_failure
opens t ip d closed = elim (Option-cases (d.ip_map ip)) [
  | inl e ↦ ground arith
  | inr (entry, e) ↦ ground (arith, closed entry e)
]

-- A key without a window that is still open: the first failure opens one and raises no alarm, and
-- each later failure in that window raises one exactly when it is at least the configured one.
pub failures_lem :
    (t : ℕ) (ts : List ℕ) (ip : String) (d : Detector)
    → ((entry : IpEntry) → d.ip_map ip ≡ some entry → entry.window_end < t)
    → All (λ u. u ≤ t + d.cfg.window) ts
    → (failures (t ∷ ts) ip d).1 ≡ false ∷ expected_alarms d.cfg.max_failures_per_ip 1 ts
unfolding failures start_window
failures_lem t ts ip d closed h =
    let entry : IpEntry = record { failures = 1; window_end = t + d.cfg.window } in
    let d' : Detector = record d { ip_map = put ip entry d.ip_map } in
    rw (opens t ip d closed) (
      ap (λ (l : List Bool). false ∷ l)
        (later_failures ts ip d' entry (put_self ip entry d.ip_map) h))

-- The uses of one token at a list of times, and the alarms that they raise.
unfoldable pub uses : (String → String) → List ℕ → String → Detector → Detector × List Bool
uses token_hash [] token d = (d, [])
uses token_hash (t ∷ ts) token d =
    let (d', alarm) = record_token_use token_hash t token d in
    let (d'', alarms) = uses token_hash ts token d' in (d'', alarm ∷ alarms)

later_uses :
    (token_hash : String → String) (ts : List ℕ) (token : String) (d : Detector)
    (entry : TokenEntry)
    → d.cfg.token_replay_detection ≡ true
    → d.tokens (token_hash token) ≡ some entry
    → (uses token_hash ts token d).1 ≡ expected_alarms d.cfg.max_token_uses entry.uses ts
unfolding uses record_token_use
later_uses token_hash [] token d entry on e = refl
later_uses token_hash (t ∷ ts) token d entry on e =
    let counted : TokenEntry = record { uses = entry.uses + 1; first_seen = entry.first_seen } in
    let d' : Detector = record d { tokens = put (token_hash token) counted d.tokens } in
    ground (
      arith,
      later_uses token_hash ts token d' counted on,
      put_self (token_hash token) counted d.tokens,
    )

-- With replay detection on, the first use of a token that was not seen before raises no alarm, and
-- each later use, at whatever time, raises one exactly when it is at least the configured one.
pub uses_lem :
    (token_hash : String → String) (t : ℕ) (ts : List ℕ) (token : String) (d : Detector)
    → d.cfg.token_replay_detection ≡ true
    → d.tokens (token_hash token) ≡ none
    → (uses token_hash (t ∷ ts) token d).1 ≡ false ∷ expected_alarms d.cfg.max_token_uses 1 ts
unfolding uses record_token_use
uses_lem token_hash t ts token d on new =
    let entry : TokenEntry = record { uses = 1; first_seen = t } in
    let d' : Detector = record d { tokens = put (token_hash token) entry d.tokens } in
    ground (
      arith,
      later_uses token_hash ts token d' entry on,
      put_self (token_hash token) entry d.tokens,
    )
