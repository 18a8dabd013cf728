-- ===== src/Keychain/Better.antt =====
-- What comes back from the two stores.
use talosctl_oidc.Base.{
  ◌≡◌, ◌⊎◌, refl, inl, inr, ap, ◌∙◌, String, Bool, true, false, ◌&&◌, ◌||◌, not, [], ◌∷◌, Option,
  none, some, ok, remove, arith, eq_iff, is_empty, lookup, Bool-cases, Option-cases, leb,
}
use talosctl_oidc.Clock.{after}
use talosctl_oidc.Keychain.{
  StoredToken, TokenMap, TokenFile, missing, unreadable, tokens, Stores, Access, has_refresh_token,
  best_token, read_token_file, write_token_file, unset, file_store, file_retrieve, file_delete,
  keyring_token, file_token, store, retrieve, delete,
}

-- `t` is at least as good as `u`: it can be refreshed and `u` cannot, or both or neither can and it
-- expires no earlier.
abbrev pub is_as_good : StoredToken → StoredToken → Bool
is_as_good t u =
    (has_refresh_token t && not (has_refresh_token u))
    || (((has_refresh_token t && has_refresh_token u)
          || (not (has_refresh_token t) && not (has_refresh_token u)))
        && leb u.expires_at t.expires_at)

is_as_good_refl : (t : StoredToken) → is_as_good t t ≡ true
is_as_good_refl t = elim (Bool-cases (has_refresh_token t)) [
  | inl e ↦ ground arith
  | inr e ↦ ground arith
]

best_of_two :
    (a b : StoredToken)
    → (t : StoredToken) × (best_token (some a) (some b) ≡ some t)
      × ((is_as_good t a ≡ true) × (is_as_good t b ≡ true))
unfolding best_token
best_of_two a b = elim (Bool-cases (has_refresh_token a)) [
  | inl ea ↦ elim (Bool-cases (has_refresh_token b)) [
    | inl eb ↦ elim (Bool-cases (after b.expires_at a.expires_at)) [
      | inl later ↦ (b, ground arith, (ground arith, ground arith))
      | inr earlier ↦ (a, ground arith, (ground arith, ground arith))
    ]
    | inr eb ↦ (a, ground arith, (ground arith, ground arith))
  ]
  | inr ea ↦ elim (Bool-cases (has_refresh_token b)) [
    | inl eb ↦ (b, ground arith, (ground arith, ground arith))
    | inr eb ↦ elim (Bool-cases (after b.expires_at a.expires_at)) [
      | inl later ↦ (b, ground arith, (ground arith, ground arith))
      | inr earlier ↦ (a, ground arith, (ground arith, ground arith))
    ]
  ]
]

best_with_left :
    (o : Option StoredToken) (u : StoredToken)
    → (t : StoredToken) × (best_token (some u) o ≡ some t) × (is_as_good t u ≡ true)
unfolding best_token
best_with_left none u = (u, refl, is_as_good_refl u)
best_with_left (some b) u = let r = best_of_two u b in (r.0, r.1, r.2.0)

best_with_right :
    (o : Option StoredToken) (u : StoredToken)
    → (t : StoredToken) × (best_token o (some u) ≡ some t) × (is_as_good t u ≡ true)
unfolding best_token
best_with_right none u = (u, refl, is_as_good_refl u)
best_with_right (some b) u = let r = best_of_two b u in (r.0, r.1, r.2.1)

lookup-unset : (a : Access) (name : String) (m : TokenMap) → lookup name (unset a name m) ≡ none
unfolding unset lookup
lookup-unset a name [] = refl
lookup-unset a name (entry ∷ m) = ground (arith, lookup-unset a name m)

file_store-file_retrieve :
    (a b : Access) (name : String) (token : StoredToken) (file : TokenFile)
    → (file_store a name token file).1 ≡ ok tt
    → b.has_path ≡ true
    → file_retrieve b name (file_store a name token file).0 ≡ ok (some token)
unfolding file_store file_retrieve read_token_file write_token_file lookup
file_store-file_retrieve a b name token missing stored path = ground (arith, eq_iff name name)
file_store-file_retrieve a b name token unreadable stored path = ground (arith, eq_iff name name)
file_store-file_retrieve a b name token (tokens m) stored path = ground (arith, eq_iff name name)

store-keyring_token :
    (a b : Access) (name : String) (token : StoredToken) (s : Stores)
    → (store a name token s).1 ≡ ok tt
    → a.keyring_sets ≡ true
    → b.keyring_gets ≡ true
    → keyring_token b name (store a name token s).0 ≡ some token
unfolding store keyring_token
store-keyring_token a b name token s stored sets gets = ground (arith, eq_iff name name)

store-file_token :
    (a b : Access) (name : String) (token : StoredToken) (s : Stores)
    → (store a name token s).1 ≡ ok tt
    → a.keyring_sets ≡ false
    → b.has_path ≡ true
    → file_token b name (store a name token s).0 ≡ some token
unfolding store file_token
store-file_token a b name token s stored fails path =
    ground (arith, file_store-file_retrieve a b name token s.file)

file_delete-file_retrieve :
    (a b : Access) (name : String) (file : TokenFile) (keyring : _)
    → (file_delete a name file).1 ≡ ok tt
    → file_token b name (record { keyring = keyring; file = (file_delete a name file).0 }) ≡ none
unfolding file_delete file_token file_retrieve read_token_file write_token_file lookup
file_delete-file_retrieve a b name missing keyring filed = ground arith
file_delete-file_retrieve a b name unreadable keyring filed = ground arith
file_delete-file_retrieve a b name (tokens m) keyring filed =
    let gone = lookup-unset a name m in
    elim (Option-cases (lookup name m)) [
      | inl absent ↦ ground arith
      | inr (old, present) ↦ elim (Bool-cases (is_empty (unset a name m))) [
        | inl emptied ↦ ground arith
        | inr kept ↦ ground arith
      ]
    ]

-- A token that was stored without an error comes back, or one at least as good does, where at the
-- time of the reading the keychain answers and the file's place is known.
pub store-retrieve :
    (a b : Access) (name : String) (token : StoredToken) (s : Stores)
    → (store a name token s).1 ≡ ok tt
    → b.keyring_gets ≡ true
    → b.has_path ≡ true
    → (t : StoredToken) × (retrieve b name (store a name token s).0 ≡ some t)
      × (is_as_good t token ≡ true)
unfolding retrieve
store-retrieve a b name token s stored gets path = elim (Bool-cases a.keyring_sets) [
  | inl sets ↦
      let s' : Stores = (store a name token s).0 in
      let found : keyring_token b name s' ≡ some token =
        store-keyring_token a b name token s stored sets gets in
      let r = best_with_left (file_token b name s') token in
      (r.0, ap (λ o. best_token o (file_token b name s')) found ∙ r.1, r.2)
  | inr fails ↦
      let s' : Stores = (store a name token s).0 in
      let found : file_token b name s' ≡ some token =
        store-file_token a b name token s stored fails path in
      let r = best_with_right (keyring_token b name s') token in
      (r.0, ap (λ o. best_token (keyring_token b name s') o) found ∙ r.1, r.2)
]

delete-keyring_token :
    (a b : Access) (name : String) (s : Stores)
    → a.keyring_deletes ≡ true
    → keyring_token b name (delete a name s) ≡ none
unfolding delete keyring_token
delete-keyring_token a b name s deletes = ground (arith, eq_iff name name)

-- After a delete for which the keychain works and the file's part succeeds, nothing comes back.
pub delete-retrieve :
    (a b : Access) (name : String) (s : Stores)
    → a.keyring_deletes ≡ true
    → (file_delete a name s.file).1 ≡ ok tt
    → retrieve b name (delete a name s) ≡ none
unfolding retrieve delete best_token
delete-retrieve a b name s deletes filed =
    let no_file = file_delete-file_retrieve a b name s.file (remove name s.keyring) filed in
    let no_entry : keyring_token b name (delete a name s) ≡ none =
      delete-keyring_token a b name s deletes in
    ground arith

best_token-one_of :
    (o p : Option StoredToken) {t : StoredToken}
    → best_token o p ≡ some t
    → (o ≡ some t) ⊎ (p ≡ some t)
unfolding best_token
best_token-one_of none p h = inr h
best_token-one_of (some a) none h = inl h
best_token-one_of (some a) (some b) h = elim (Bool-cases (has_refresh_token a)) [
  | inl ea ↦ elim (Bool-cases (has_refresh_token b)) [
    | inl eb ↦ elim (Bool-cases (after b.expires_at a.expires_at)) [
      | inl later ↦ inr (ground arith)
      | inr earlier ↦ inl (ground arith)
    ]
    | inr eb ↦ inl (ground arith)
  ]
  | inr ea ↦ elim (Bool-cases (has_refresh_token b)) [
    | inl eb ↦ inr (ground arith)
    | inr eb ↦ elim (Bool-cases (after b.expires_at a.expires_at)) [
      | inl later ↦ inr (ground arith)
      | inr earlier ↦ inl (ground arith)
    ]
  ]
]

best_token-is_as_good :
    (o p : Option StoredToken) (u : StoredToken)
    → (o ≡ some u) ⊎ (p ≡ some u)
    → (t : StoredToken) × (best_token o p ≡ some t) × (is_as_good t u ≡ true)
best_token-is_as_good o p u (inl e) =
    let r = best_with_left p u in (r.0, ap (λ x. best_token x p) e ∙ r.1, r.2)
best_token-is_as_good o p u (inr e) =
    let r = best_with_right o u in (r.0, ap (λ x. best_token o x) e ∙ r.1, r.2)

-- Where the keychain or the file has a token, Retrieve answers one of theirs that is at least as good.
pub retrieve-is_as_good :
    (a : Access) (name : String) (s : Stores) (u : StoredToken)
    → (keyring_token a name s ≡ some u) ⊎ (file_token a name s ≡ some u)
    → (t : StoredToken) × (retrieve a name s ≡ some t)
      × (is_as_good t u ≡ true)
      × ((keyring_token a name s ≡ some t) ⊎ (file_token a name s ≡ some t))
unfolding retrieve
retrieve-is_as_good a name s u h =
    let r = best_token-is_as_good (keyring_token a name s) (file_token a name s) u h in
    (r.0, r.1, r.2, best_token-one_of (keyring_token a name s) (file_token a name s) r.1)
