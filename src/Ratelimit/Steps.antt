-- ===== src/Ratelimit/Steps.antt =====
-- pkg/ratelimit/ratelimit.go: Allow in the two steps that its locks make of it, the lookup under the
-- limiter's lock and the rest under the entry's, and one entry's turn in Cleanup. An entry is a
-- cell; an address refers to it, and a request holds it between its two steps.
pub mod Separate
pub mod Atomic
pub mod Lost
mod Examples
use talosctl_oidc.Base.{
  ℕ, suc, ◌==◌, String, Bool, true, false, List, [], ◌∷◌, ◌++◌, Option, none, some, if◌then◌else◌,
  eqb, leb, length, is_empty, Map, put, remove, ℤ, pos_part,
}
use talosctl_oidc.Net.{Network}
use talosctl_oidc.Ratelimit.{Limiter, recent}

pub record Cells : Type 0 where
  pub requests : ℤ
  pub window : ℕ
  pub trusted : List Network
  pub clients : Map ℕ
  pub timestamps : ℕ → List ℕ
  -- The next cell that was not used yet.
  pub unused : ℕ

abbrev pub write : ℕ → List ℕ → (ℕ → List ℕ) → ℕ → List ℕ
write c v timestamps d = if eqb c d then v else timestamps d

-- The lookup, which makes an entry where there is none.
unfoldable pub look_up : String → Cells → Cells × ℕ
look_up ip s = elim (s.clients ip) [
  | some c ↦ (s, c)
  | none ↦ (
    record s {
      clients = put ip s.unused s.clients;
      timestamps = write s.unused [] s.timestamps;
      unused = suc s.unused;
    },
    s.unused,
  )
]

-- The rest of Allow, on the cell that was found.
unfoldable pub enter : ℕ → ℕ → Cells → Cells × Bool
enter now c s =
    let valid = recent s.window now (s.timestamps c) in
    if leb (pos_part s.requests) (length valid)
    then (record s { timestamps = write c valid s.timestamps }, false)
    else (record s { timestamps = write c (valid ++ now ∷ []) s.timestamps }, true)

-- The turn of one address in Cleanup's loop.
unfoldable pub sweep_entry : ℕ → String → Cells → Cells
sweep_entry now ip s = elim (s.clients ip) [
  | none ↦ s
  | some c ↦
      let valid = recent s.window now (s.timestamps c) in
      record s {
        timestamps = write c valid s.timestamps;
        clients = if is_empty valid then remove ip s.clients else s.clients;
      }
]

-- Cleanup, over the addresses in the order that Go gives them.
unfoldable pub sweep_entries : ℕ → List String → Cells → Cells
sweep_entries now [] s = s
sweep_entries now (ip ∷ ips) s = sweep_entries now ips (sweep_entry now ip s)

-- The limiter with whole calls.
abbrev pub contents : (ℕ → List ℕ) → Option ℕ → Option (List ℕ)
contents timestamps none = none
contents timestamps (some c) = some (timestamps c)

unfoldable pub view : Cells → Limiter
view s = record {
  requests = s.requests;
  window = s.window;
  clients = λ ip. contents s.timestamps (s.clients ip);
  trusted = s.trusted;
}
