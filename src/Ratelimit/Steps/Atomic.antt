-- ===== src/Ratelimit/Steps/Atomic.antt =====
-- That the two steps of a request, with no cleanup between them, are one call.
use talosctl_oidc.Base.{
  ℕ, ◌==◌, ◌≡◌, ◌≢◌, refl, sym, ap, ◌∙◌, inl, inr, String, true, false, List, [], ◌∷◌, ◌++◌, some,
  eqb, leb, length, Map, put, is_positive, or_else, pos_part, Bool-cases, Option-cases, arith,
  eq_iff,
}
use talosctl_oidc.Ratelimit.{Limiter, is_enabled, recent, stamps, allow}
use talosctl_oidc.Ratelimit.Steps.{Cells, contents, write, look_up, enter, view}
use talosctl_oidc.Ratelimit.Steps.Separate.{
  IsSeparate, look_up-some, look_up-none, look_up_lem, look_up-other, look_up-IsSeparate,
  enter-IsSeparate,
}

enter-full :
    (now c : ℕ) (s : Cells)
    → leb (pos_part s.requests) (length (recent s.window now (s.timestamps c))) ≡ true
    → enter now c s ≡ (
      record s { timestamps = write c (recent s.window now (s.timestamps c)) s.timestamps },
      false,
    )
unfolding enter
enter-full now c s full = rw (full, enter) refl

pub enter-room :
    (now c : ℕ) (s : Cells)
    → leb (pos_part s.requests) (length (recent s.window now (s.timestamps c))) ≡ false
    → enter now c s ≡ (
      record s {
        timestamps = write c (recent s.window now (s.timestamps c) ++ now ∷ []) s.timestamps;
      },
      true,
    )
unfolding enter
enter-room now c s room = rw (room, enter) refl

allow-full :
    (now : ℕ) (ip : String) (l : Limiter)
    → is_enabled l ≡ true
    → leb (pos_part l.requests) (length (recent l.window now (stamps ip l.clients))) ≡ true
    → allow now ip l
      ≡ (record l { clients = put ip (recent l.window now (stamps ip l.clients)) l.clients }, false)
unfolding allow
allow-full now ip l on full = rw (on, allow) (rw full refl)

allow-room :
    (now : ℕ) (ip : String) (l : Limiter)
    → is_enabled l ≡ true
    → leb (pos_part l.requests) (length (recent l.window now (stamps ip l.clients))) ≡ false
    → allow now ip l ≡ (
      record l {
        clients = put ip (recent l.window now (stamps ip l.clients) ++ now ∷ []) l.clients;
      },
      true,
    )
unfolding allow
allow-room now ip l on room = rw (on, allow) (rw room refl)

-- What a write to the cell of an address changes: that address's entry, and no other.
write_lem :
    (ip j : String) (c : ℕ) (v : List ℕ) (s : Cells)
    → IsSeparate s
    → s.clients ip ≡ some c
    → (view (record s { timestamps = write c v s.timestamps })).clients j
      ≡ put ip v (view s).clients j
unfolding view
write_lem ip j c v s separate h = elim (Option-cases (s.clients j)) [
  | inl g ↦ ground (arith, eq_iff ip j)
  | inr (d, g) ↦ elim (Bool-cases (eqb c d)) [
    | inl same ↦
        let both = separate.own ip j c h (g ∙ ap some (ground arith)) in ground (arith, eq_iff ip j)
    | inr other ↦ elim (Bool-cases (ip == j)) [
      | inl here ↦ let same = sym h ∙ ap s.clients ((eq_iff ip j).0 here) ∙ g in ground arith
      | inr away ↦ ground arith
    ]
  ]
]

-- The second step, on the cell of the address, is a call of Allow.
enter-allow :
    (now c : ℕ) (ip : String) (s : Cells)
    → IsSeparate s
    → s.clients ip ≡ some c
    → is_enabled (view s) ≡ true
    → s.timestamps c ≡ stamps ip (view s).clients
    → ((enter now c s).1 ≡ (allow now ip (view s)).1)
      × ((j : String) → (view (enter now c s).0).clients j ≡ (allow now ip (view s)).0.clients j)
unfolding view
enter-allow now c ip s separate h on same =
    let valid = recent s.window now (s.timestamps c) in
    let found = ap (recent s.window now) same in
    let limited = ap (λ ts. leb (pos_part s.requests) (length ts)) found in
    elim (Bool-cases (leb (pos_part s.requests) (length valid))) [
      | inl full ↦
          let b = enter-full now c s full in
          let a = allow-full now ip (view s) on (sym limited ∙ full) in
          (
            ap (λ r. r.1) b ∙ sym (ap (λ r. r.1) a),
            λ j.
                ap (λ r. (view r.0).clients j) b
                ∙ write_lem ip j c valid s separate h
                ∙ ap (λ ts. put ip ts (view s).clients j) found
                ∙ sym (ap (λ r. r.0.clients j) a),
          )
      | inr room ↦
          let b = enter-room now c s room in
          let a = allow-room now ip (view s) on (sym limited ∙ room) in
          (
            ap (λ r. r.1) b ∙ sym (ap (λ r. r.1) a),
            λ j.
                ap (λ r. (view r.0).clients j) b
                ∙ write_lem ip j c (valid ++ now ∷ []) s separate h
                ∙ ap (λ ts. put ip (ts ++ now ∷ []) (view s).clients j) found
                ∙ sym (ap (λ r. r.0.clients j) a),
          )
    ]

put_other :
    (ip j : String) (v : List ℕ) (m m' : Map (List ℕ))
    → (ip ≢ j → m j ≡ m' j)
    → put ip v m j ≡ put ip v m' j
put_other ip j v m m' others = elim (Bool-cases (ip == j)) [
  | inl here ↦ ground arith
  | inr away ↦ let same = others (ground (arith, eq_iff ip j)) in ground arith
]

-- Allow reads of the limiter no more than the address's own time stamps.
allow-same :
    (now : ℕ) (ip j : String) (l l' : Limiter)
    → is_enabled l ≡ true
    → is_enabled l' ≡ true
    → l.requests ≡ l'.requests
    → l.window ≡ l'.window
    → stamps ip l.clients ≡ stamps ip l'.clients
    → (ip ≢ j → l.clients j ≡ l'.clients j)
    → ((allow now ip l).1 ≡ (allow now ip l').1)
      × ((allow now ip l).0.clients j ≡ (allow now ip l').0.clients j)
allow-same now ip j l l' on on' requests window times others =
    let found : recent l.window now (stamps ip l.clients)
        ≡ recent l'.window now (stamps ip l'.clients) =
      ap (λ x. recent x now (stamps ip l.clients)) window ∙ ap (recent l'.window now) times in
    let put_same = λ (v : List ℕ). put_other ip j v l.clients l'.clients others in
    elim (Bool-cases
      (leb (pos_part l.requests) (length (recent l.window now (stamps ip l.clients))))) [
        | inl full ↦
            let a = allow-full now ip l on full in
            let b = allow-full now ip l' on' (ground arith) in
            (
              ap (λ r. r.1) a ∙ sym (ap (λ r. r.1) b),
              ap (λ r. r.0.clients j) a
                  ∙ put_same (recent l.window now (stamps ip l.clients))
                  ∙ ap (λ v. put ip v l'.clients j) found
                  ∙ sym (ap (λ r. r.0.clients j) b),
            )
        | inr room ↦
            let a = allow-room now ip l on room in
            let b = allow-room now ip l' on' (ground arith) in
            (
              ap (λ r. r.1) a ∙ sym (ap (λ r. r.1) b),
              ap (λ r. r.0.clients j) a
                  ∙ put_same (recent l.window now (stamps ip l.clients) ++ now ∷ [])
                  ∙ ap (λ v. put ip (v ++ now ∷ []) l'.clients j) found
                  ∙ sym (ap (λ r. r.0.clients j) b),
            )
      ]

look_up-settings :
    (ip : String) (s : Cells)
    → ((look_up ip s).0.requests ≡ s.requests) × ((look_up ip s).0.window ≡ s.window)
look_up-settings ip s = elim (Option-cases (s.clients ip)) [
  | inr (c, h) ↦ rw (look_up-some ip s c h) (refl, refl)
  | inl h ↦ rw (look_up-none ip s h) (refl, refl)
]

-- The two steps of a request refine one call: where each address has a cell of its own, the lookup and
-- the rest of Allow, with nothing in between, answer as Allow does on the limiter as a
-- whole and leave every address the time stamps that it leaves, and each address still has a cell of
-- its own.
pub enter-look_up :
    (now : ℕ) (ip : String) (s : Cells)
    → IsSeparate s
    → is_enabled (view s) ≡ true
    → let r = enter now (look_up ip s).1 (look_up ip s).0 in
      (r.1 ≡ (allow now ip (view s)).1)
      × ((j : String) → (view r.0).clients j ≡ (allow now ip (view s)).0.clients j)
      × IsSeparate r.0
unfolding view is_enabled
enter-look_up now ip s separate on =
    let s' = (look_up ip s).0 in
    let c = (look_up ip s).1 in
    let (refers, times) = look_up_lem ip s in
    let (requests, window) = look_up-settings ip s in
    let separate' = look_up-IsSeparate ip s separate in
    let on' : is_enabled (view s') ≡ true = ap is_positive requests ∙ on in
    let own : stamps ip (view s').clients ≡ s'.timestamps c =
      ap (λ e. or_else (contents s'.timestamps e) []) refers in
    let one = enter-allow now c ip s' separate' refers on' (sym own) in
    let same = λ (j : String).
      allow-same now ip j (view s') (view s) on' on requests window (own ∙ times)
        (look_up-other ip j s separate) in
    (one.0 ∙ (same ip).0, λ j. one.1 j ∙ (same j).1, enter-IsSeparate now c s' separate')
