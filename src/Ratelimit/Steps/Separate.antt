-- ===== src/Ratelimit/Steps/Separate.antt =====
-- That each address has a cell of its own, before and after a step.
use talosctl_oidc.Base.{
  ℕ, suc, ◌<◌, ◌==◌, ◌≡◌, ◌≢◌, refl, sym, ◌∙◌, inl, inr, String, [], none, some, leb, length, put,
  pos_part, Bool-cases, Option-cases, arith, eq_iff,
}
use talosctl_oidc.Ratelimit.{recent, stamps}
use talosctl_oidc.Ratelimit.Steps.{Cells, write, look_up, enter, view}

-- Each address has a cell of its own, and the next one is not in use.
pub record IsSeparate (s : Cells) : Type 0 where
  pub used : (ip : String) (c : ℕ) → s.clients ip ≡ some c → c < s.unused
  pub own : (ip j : String) (c : ℕ) → s.clients ip ≡ some c → s.clients j ≡ some c → ip ≡ j

pub look_up-some : (ip : String) (s : Cells) (c : ℕ) → s.clients ip ≡ some c → look_up ip s ≡ (s, c)
unfolding look_up
look_up-some ip s c h = rw (h, look_up) refl

pub look_up-none :
    (ip : String) (s : Cells)
    → s.clients ip ≡ none
    → look_up ip s ≡ (
      record s {
        clients = put ip s.unused s.clients;
        timestamps = write s.unused [] s.timestamps;
        unused = suc s.unused;
      },
      s.unused,
    )
unfolding look_up
look_up-none ip s h = rw (h, look_up) refl

-- After the lookup the address refers to the cell that was found, with the time stamps it had.
pub look_up_lem :
    (ip : String) (s : Cells)
    → let r = look_up ip s in
      (r.0.clients ip ≡ some r.1) × (r.0.timestamps r.1 ≡ stamps ip (view s).clients)
unfolding view
look_up_lem ip s = elim (Option-cases (s.clients ip)) [
  | inr (c, h) ↦ rw (look_up-some ip s c h) (h, ground (arith, h))
  | inl h ↦ rw (look_up-none ip s h) (ground (arith, eq_iff ip ip), ground (arith, h))
]

-- The lookup changes nothing for another address.
pub look_up-other :
    (ip j : String) (s : Cells)
    → IsSeparate s
    → ip ≢ j
    → (view (look_up ip s).0).clients j ≡ (view s).clients j
unfolding view
look_up-other ip j s separate other = elim (Option-cases (s.clients ip)) [
  | inr (c, h) ↦ rw (look_up-some ip s c h) refl
  | inl h ↦ rw (look_up-none ip s h) (elim (Option-cases (s.clients j)) [
    | inl g ↦ ground (arith, eq_iff ip j)
    | inr (d, g) ↦ let below = separate.used j d g in ground (arith, eq_iff ip j)
  ])
]

pub look_up-IsSeparate : (ip : String) (s : Cells) → IsSeparate s → IsSeparate (look_up ip s).0
look_up-IsSeparate ip s separate = elim (Option-cases (s.clients ip)) [
  | inr (c, h) ↦ rw (look_up-some ip s c h) separate
  | inl h ↦ rw (look_up-none ip s h) (record {
    used = λ j c g. elim (Bool-cases (ip == j)) [
      | inl same ↦ ground arith
      | inr other ↦ let below = separate.used j c (ground arith) in ground arith
    ];
    own = λ i j c g k. elim (Bool-cases (ip == i)) [
      | inl here ↦ elim (Bool-cases (ip == j)) [
        | inl there ↦ sym ((eq_iff ip i).0 here) ∙ (eq_iff ip j).0 there
        | inr other ↦ let below = separate.used j c (ground arith) in ground arith
      ]
      | inr away ↦ elim (Bool-cases (ip == j)) [
        | inl there ↦ let below = separate.used i c (ground arith) in ground arith
        | inr other ↦ separate.own i j c (ground arith) (ground arith)
      ]
    ];
  })
]

pub enter-IsSeparate : (now c : ℕ) (s : Cells) → IsSeparate s → IsSeparate (enter now c s).0
unfolding enter
enter-IsSeparate now c s separate =
    elim (Bool-cases (leb (pos_part s.requests) (length (recent s.window now (s.timestamps c))))) [
      | inl full ↦ rw full (record { used = separate.used; own = separate.own })
      | inr room ↦ rw room (record { used = separate.used; own = separate.own })
    ]
