-- ===== src/Allowlist/Coverage.antt =====
-- What a configured list lets through, said of its entries.
use talosctl_oidc.Base.{
  ℕ, ◌==◌, ◌≡◌, ◌↔◌, ◌⊎◌, refl, String, Bool, true, false, not, ◌||◌, ◌&&◌, List, [], ◌∷◌, ◌++◌,
  none, some, ok, any, eqb, arith, is_ok, is_some, all, inl, inr, Option-cases, Result-cases,
  is_empty-append,
}
use talosctl_oidc.Text.{trim_space}
use talosctl_oidc.Net.{Network, parse_ip, parse_cidr, contains}
use talosctl_oidc.Allowlist.{
  Allowlist, add_entry, add_entries, add_net, parse_nets_from, parse_nets, new, is_enabled, matches,
  allowed,
}

-- Whether one entry of the configuration covers an address: a network by containing it, a bare
-- address by being it.
abbrev pub covers : ℕ → String → Bool
covers ip entry = elim (parse_cidr (trim_space entry)) [
  | some net ↦ contains net ip
  | none ↦ elim (parse_ip (trim_space entry)) [ some own ↦ eqb own ip | none ↦ false ]
]

-- Whether an entry is skipped.
abbrev pub is_blank : String → Bool
is_blank entry = trim_space entry == ""

abbrev pub is_entry : String → Bool
is_entry entry = not (is_blank entry)

any-append {ℓ} :
    {A : Type ℓ} (p : A → Bool) (xs ys : List A) → any p (xs ++ ys) ≡ (any p xs || any p ys)
any-append p [] ys = refl
any-append p (x ∷ xs) ys = ground (arith, any-append p xs ys)

add_entry-matches :
    (ip : ℕ) (a b : Allowlist) (entry : String)
    → add_entry a entry ≡ ok b
    → (matches ip b ≡ (matches ip a || (is_entry entry && covers ip entry)))
      × (is_enabled b ≡ (is_enabled a || is_entry entry))
unfolding add_entry is_enabled matches
add_entry-matches ip a b entry e = elim (Option-cases (parse_cidr (trim_space entry))) [
  | inl no_net ↦ elim (Option-cases (parse_ip (trim_space entry))) [
    | inl no_ip ↦ ground arith
    | inr (own, is_ip) ↦
        ground (
          arith,
          any-append (λ (x : ℕ). eqb x ip) a.ips (own ∷ []),
          is_empty-append a.ips (own ∷ []),
        )
  ]
  | inr (net, is_net) ↦ ground (
    arith,
    any-append (λ (n : Network). contains n ip) a.nets (net ∷ []),
    is_empty-append a.nets (net ∷ []),
  )
]

add_entries-matches :
    (ip : ℕ) (a b : Allowlist) (entries : List String)
    → add_entries a entries ≡ ok b
    → (matches ip b ≡ (matches ip a || any (λ e. is_entry e && covers ip e) entries))
      × (is_enabled b ≡ (is_enabled a || any is_entry entries))
unfolding add_entries
add_entries-matches ip a b [] e = ground arith
add_entries-matches ip a b (entry ∷ entries) e = elim (Result-cases (add_entry a entry)) [
  | inl (c, added) ↦
      ground (arith, add_entry-matches ip a c entry added, add_entries-matches ip c b entries)
  | inr (bad, refused) ↦ ground arith
]

-- An address that parses is allowed exactly when no entry of the configured list is more than
-- blanks, or one that is covers it: a network that contains the address, or the address itself.
pub allowed-new_iff :
    (entries proxies : List String) (a : Allowlist) (ip : String) (parsed : ℕ)
    → new entries proxies ≡ ok a
    → parse_ip ip ≡ some parsed
    → (allowed a ip ≡ true)
      ↔ ((any is_entry entries ≡ false) ⊎ (any (λ e. is_entry e && covers parsed e) entries ≡ true))
unfolding new allowed is_enabled matches
allowed-new_iff entries proxies a ip parsed made parses = elim (Result-cases (parse_nets proxies)) [
  | inl (nets, trusts) ↦
      ground (
        arith,
        add_entries-matches parsed (record { nets = []; ips = []; trusted = nets }) a entries,
      )
  | inr (bad, refused) ↦ ground arith
]

-- Whether New takes an entry.
abbrev pub is_valid : String → Bool
is_valid entry =
    is_blank entry
    || is_some (parse_cidr (trim_space entry))
    || is_some (parse_ip (trim_space entry))

add_net-is_ok : (nets : List Network) (entry : String) → is_ok (add_net nets entry) ≡ is_valid entry
unfolding add_net
add_net-is_ok nets entry = ground arith

add_entry-is_ok : (a : Allowlist) (entry : String) → is_ok (add_entry a entry) ≡ is_valid entry
unfolding add_entry
add_entry-is_ok a entry = ground arith

parse_nets_from-is_ok :
    (nets : List Network) (entries : List String)
    → is_ok (parse_nets_from nets entries) ≡ all is_valid entries
unfolding parse_nets_from
parse_nets_from-is_ok nets [] = refl
parse_nets_from-is_ok nets (entry ∷ entries) = elim (Result-cases (add_net nets entry)) [
  | inl (nets', added) ↦
      ground (arith, add_net-is_ok nets entry, parse_nets_from-is_ok nets' entries)
  | inr (bad, refused) ↦ ground (arith, add_net-is_ok nets entry)
]

add_entries-is_ok :
    (a : Allowlist) (entries : List String) → is_ok (add_entries a entries) ≡ all is_valid entries
unfolding add_entries
add_entries-is_ok a [] = refl
add_entries-is_ok a (entry ∷ entries) = elim (Result-cases (add_entry a entry)) [
  | inl (b, added) ↦ ground (arith, add_entry-is_ok a entry, add_entries-is_ok b entries)
  | inr (bad, refused) ↦ ground (arith, add_entry-is_ok a entry)
]

-- New succeeds exactly when every entry of both lists that is not blank is a network or an
-- address.
pub new-is_ok :
    (entries proxies : List String)
    → is_ok (new entries proxies) ≡ (all is_valid proxies && all is_valid entries)
unfolding new parse_nets
new-is_ok entries proxies = elim (Result-cases (parse_nets_from [] proxies)) [
  | inl (nets, parsed) ↦ ground (
    arith,
    parse_nets_from-is_ok [] proxies,
    add_entries-is_ok (record { nets = []; ips = []; trusted = nets }) entries,
  )
  | inr (bad, refused) ↦ ground (arith, parse_nets_from-is_ok [] proxies)
]
