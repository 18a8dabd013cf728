-- ===== src/Keychain/Frame.antt =====
-- What a store or a delete leaves alone.
use talosctl_oidc.Base.{◌≡◌, ◌≢◌, refl, String, [], ◌∷◌, ok, arith, eq_iff, lookup}
use talosctl_oidc.Keychain.{
  StoredToken, TokenMap, TokenFile, missing, unreadable, tokens, Stores, Access, read_token_file,
  write_token_file, unset, file_store, file_retrieve, keyring_token, file_token, store, retrieve,
}

lookup-unset_ne :
    (a : Access) (name other : String) (m : TokenMap)
    → name ≢ other
    → lookup other (unset a name m) ≡ lookup other m
unfolding unset lookup
lookup-unset_ne a name other [] ne = refl
lookup-unset_ne a name other (entry ∷ m) ne = ground (
  arith,
  lookup-unset_ne a name other m,
  eq_iff name other,
  eq_iff entry.0 name,
  eq_iff entry.0 other,
)

file_store_other :
    (a b : Access) (name other : String) (token : StoredToken) (file : TokenFile)
    → name ≢ other
    → (file_store a name token file).1 ≡ ok tt
    → file_retrieve b other (file_store a name token file).0 ≡ file_retrieve b other file
unfolding file_store file_retrieve read_token_file write_token_file lookup
file_store_other a b name other token missing ne stored =
    ground (arith, eq_iff name other, lookup-unset_ne a name other [] ne, eq_iff other other)
file_store_other a b name other token unreadable ne stored = ground arith
file_store_other a b name other token (tokens m) ne stored =
    ground (arith, eq_iff name other, lookup-unset_ne a name other m)

-- A token that is stored under one name, without an error, changes nothing of what is read under
-- another name.
pub store_other :
    (a b : Access) (name other : String) (token : StoredToken) (s : Stores)
    → name ≢ other
    → (store a name token s).1 ≡ ok tt
    → retrieve b other (store a name token s).0 ≡ retrieve b other s
unfolding retrieve store keyring_token file_token
store_other a b name other token s ne stored =
    ground (arith, eq_iff name other, file_store_other a b name other token s.file)
