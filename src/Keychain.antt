-- ===== src/Keychain.antt =====
-- pkg/keychain/keychain.go: the tokens of the command line, in the system's keychain and, where that
-- fails, in one file for all contexts. What the keychain and the file system answer is an argument;
-- the file's JSON is the list of its entries, and a keychain entry what its text decodes to.
pub mod Better
pub mod Frame
mod Examples
use talosctl_oidc.Base.{
  ℕ, ◌+◌, ◌*◌, ◌==◌, String, Bool, true, false, ◌&&◌, not, List, [], ◌∷◌, Option, none, some, Map,
  put, remove, Result, ok, err, if◌then◌else◌, keep, is_empty, lookup, is_some, or_else,
}
use talosctl_oidc.Base.Fallible.{◌>>=◌}
use talosctl_oidc.Clock.{second, after}

-- pkg/oidc/provider.go
pub record StoredToken : Type 0 where
  pub access_token : String
  pub refresh_token : String
  pub id_token : String
  pub expires_at : ℕ
  pub issuer : String
  pub client_id : String

-- Expired half a minute before its time.
unfoldable pub is_expired : ℕ → StoredToken → Bool
is_expired now t = after (now + 30 * second) t.expires_at

unfoldable pub has_refresh_token : StoredToken → Bool
has_refresh_token t = not (t.refresh_token == "")

-- An entry may be null.
abbrev pub TokenMap : Type 0
TokenMap = List (String × Option StoredToken)

-- What the token file is: not there, there but not to be read or parsed, or entries.
pub data TokenFile : Type 0 where
  missing unreadable : TokenFile
  tokens : TokenMap → TokenFile

pub record Stores : Type 0 where
  pub keyring : Map (Option StoredToken)
  pub file : TokenFile

-- How the system behaves in one call: what works, and what a failed write leaves behind.
pub record Access : Type 0 where
  pub marshals : Bool
  pub keyring_sets : Bool
  pub keyring_gets : Bool
  pub keyring_deletes : Bool
  pub has_path : Bool
  pub failed_write : Option TokenFile
  pub removes : Bool

pub data StoreError : Type 0 where
  not_marshaled no_path not_read not_written not_removed : StoreError

abbrev pub Outcome : Type 0
Outcome = TokenFile × Result StoreError (Unit {0})

-- bestToken
unfoldable pub best_token : Option StoredToken → Option StoredToken → Option StoredToken
best_token none b = b
best_token (some a) none = some a
best_token (some a) (some b) =
    if has_refresh_token a && not (has_refresh_token b)
    then some a
    else if has_refresh_token b && not (has_refresh_token a)
    then some b
    else if after b.expires_at a.expires_at
    then some b
    else some a

module _ (a : Access) where
  unfoldable pub read_token_file : TokenFile → Result StoreError TokenMap
  read_token_file file =
      if not a.has_path
      then err no_path
      else elim file [ missing ↦ ok [] | unreadable ↦ err not_read | tokens m ↦ ok m ]

  unfoldable pub write_token_file : TokenMap → Outcome
  write_token_file m = elim a.failed_write [
    | none ↦ (tokens m, ok tt)
    | some left ↦ (left, err not_written)
  ]

  -- `delete(m, name)` and `m[name] = token`
  unfoldable pub unset : String → TokenMap → TokenMap
  unset name m = keep (λ entry. not (entry.0 == name)) m

  unfoldable pub file_store : String → StoredToken → TokenFile → Outcome
  file_store name token file = elim (read_token_file file) [
    | err e ↦ (file, err e)
    | ok m ↦ write_token_file ((name, some token) ∷ unset name m)
  ]

  -- Retrieve goes on without the file where this fails, as where there is no entry.
  unfoldable pub file_retrieve : String → TokenFile → Result StoreError (Option StoredToken)
  file_retrieve name file = elim (read_token_file file) [
    | err e ↦ err e
    | ok m ↦ ok (or_else (lookup name m) none)
  ]

  unfoldable pub file_delete : String → TokenFile → Outcome
  file_delete name file = elim (read_token_file file) [
    | err e ↦ (file, err e)
    | ok m ↦
        let rest = unset name m in
        if not (is_some (lookup name m))
        then (file, ok tt)
        else if is_empty rest
        then (if a.removes then (missing, ok tt) else (file, err not_removed))
        else write_token_file rest
  ]

  -- What the keychain holds for a name, if it answers and that is a token.
  unfoldable pub keyring_token : String → Stores → Option StoredToken
  keyring_token name s = if a.keyring_gets then or_else (s.keyring name) none else none

  unfoldable pub file_token : String → Stores → Option StoredToken
  file_token name s = elim (file_retrieve name s.file) [ err e ↦ none | ok t ↦ t ]

  unfoldable pub store : String → StoredToken → Stores → Stores × Result StoreError (Unit {0})
  store name token s =
      let filed = file_store name token s.file in
      if not a.marshals
      then (s, err not_marshaled)
      else if a.keyring_sets
      then (record s { keyring = put name (some token) s.keyring }, ok tt)
      else (record s { file = filed.0 }, filed.1)

  unfoldable pub retrieve : String → Stores → Option StoredToken
  retrieve name s = best_token (keyring_token name s) (file_token name s)

  -- Delete answers nil whatever happens.
  unfoldable pub delete : String → Stores → Stores
  delete name s = record {
    keyring = if a.keyring_deletes then remove name s.keyring else s.keyring;
    file = (file_delete name s.file).0;
  }
