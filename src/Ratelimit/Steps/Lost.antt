-- ===== src/Ratelimit/Steps/Lost.antt =====
-- A request that Cleanup comes between.
use talosctl_oidc.Base.{
  ℕ, zero, suc, ◌≡◌, refl, ap, ◌∙◌, String, Bool, true, false, [], none, some, if◌then◌else◌, leb,
  length, put, remove, is_positive, pos_part, ℤ, pos, negsuc, arith, eq_iff,
}
use talosctl_oidc.Ratelimit.{recent}
use talosctl_oidc.Ratelimit.Steps.{Cells, write, look_up, enter, sweep_entry}
use talosctl_oidc.Ratelimit.Steps.Separate.{look_up-none}
use talosctl_oidc.Ratelimit.Steps.Atomic.{enter-room}

-- A request whose address Cleanup sweeps between its two steps.
abbrev pub swept_request : ℕ → String → Cells → Cells × Bool
swept_request now ip s = enter now (look_up ip s).1 (sweep_entry now ip (look_up ip s).0)

-- How many of that many such requests, one after another, are granted.
unfoldable pub swept_grants : ℕ → ℕ → String → Cells → ℕ
swept_grants zero now ip s = 0
swept_grants (suc n) now ip s =
    let later = swept_grants n now ip (swept_request now ip s).0 in
    if (swept_request now ip s).1 then suc later else later

is_positive-leb : (n : ℤ) → is_positive n ≡ true → leb (pos_part n) 0 ≡ false
is_positive-leb (pos n) h = ground arith
is_positive-leb (negsuc n) h = cc

-- An entry without time stamps is dropped.
sweep_entry-empty :
    (now : ℕ) (ip : String) (s : Cells) (c : ℕ)
    → s.clients ip ≡ some c
    → s.timestamps c ≡ []
    → sweep_entry now ip s
      ≡ record s { timestamps = write c [] s.timestamps; clients = remove ip s.clients }
unfolding sweep_entry
sweep_entry-empty now ip s c h empty = rw (h, sweep_entry) (rw empty refl)

-- Such a request is granted, and leaves its address without an entry.
enter-empty :
    (now c : ℕ) (s : Cells)
    → is_positive s.requests ≡ true
    → s.timestamps c ≡ []
    → ((enter now c s).1 ≡ true)
      × ((enter now c s).0.clients ≡ s.clients)
      × ((enter now c s).0.requests ≡ s.requests)
enter-empty now c s on empty =
    let room : leb (pos_part s.requests) (length (recent s.window now (s.timestamps c))) ≡ false =
      rw empty (is_positive-leb s.requests on) in
    let e = enter-room now c s room in
    (ap (λ r. r.1) e, ap (λ r. r.0.clients) e, ap (λ r. r.0.requests) e)

swept_request_lem :
    (now : ℕ) (ip : String) (s : Cells)
    → is_positive s.requests ≡ true
    → s.clients ip ≡ none
    → ((swept_request now ip s).1 ≡ true)
      × ((swept_request now ip s).0.clients ip ≡ none)
      × ((swept_request now ip s).0.requests ≡ s.requests)
swept_request_lem now ip s on h =
    let looked = look_up-none ip s h in
    let c = s.unused in
    let s₁ : Cells = record s {
      clients = put ip c s.clients;
      timestamps = write c [] s.timestamps;
      unused = suc c;
    } in
    let s₂ : Cells = record s₁ {
      timestamps = write c [] s₁.timestamps;
      clients = remove ip s₁.clients;
    } in
    let dropped = sweep_entry-empty now ip s₁ c (ground (arith, eq_iff ip ip)) (ground arith) in
    let same : swept_request now ip s ≡ enter now c s₂ =
      ap (λ r. enter now r.1 (sweep_entry now ip r.0)) looked ∙ ap (enter now c) dropped in
    let e = enter-empty now c s₂ on (ground arith) in
    (
      ap (λ r. r.1) same ∙ e.0,
      ap (λ r. r.0.clients ip) same ∙ ap (λ m. m ip) e.1 ∙ ground (arith, eq_iff ip ip),
      ap (λ r. r.0.requests) same ∙ e.2,
    )

-- The limit does not hold for requests that Cleanup comes between: for a limiter with a positive
-- limit and an address without an entry, any number of requests, one after another at one
-- time, is granted, where each is swept between its two steps.
pub swept_grants_lem :
    (n now : ℕ) (ip : String) (s : Cells)
    → is_positive s.requests ≡ true
    → s.clients ip ≡ none
    → swept_grants n now ip s ≡ n
unfolding swept_grants
swept_grants_lem zero now ip s on h = refl
swept_grants_lem (suc n) now ip s on h =
    let r = swept_request_lem now ip s on h in
    rw (r.0)
      (ap suc (swept_grants_lem n now ip (swept_request now ip s).0 (ap is_positive r.2 ∙ on) r.1))
