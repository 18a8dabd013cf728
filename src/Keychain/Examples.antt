-- ===== src/Keychain/Examples.antt =====
-- The two stores at concrete tokens.
use talosctl_oidc.Base.{
  ◌≡◌, ◌≢◌, refl, String, true, false, [], ◌∷◌, none, some, ok, arith, eq_iff, no_entries, lookup,
}
use talosctl_oidc.Keychain.{
  StoredToken, missing, tokens, Stores, Access, read_token_file, write_token_file, unset,
  file_store, file_retrieve, file_delete, file_token, store, retrieve,
}
use talosctl_oidc.Keychain.Better.{is_as_good, store-retrieve}

-- Everything works but the keychain.
abbrev no_keychain : Access
no_keychain = record {
  marshals = true;
  keyring_sets = false;
  keyring_gets = true;
  keyring_deletes = true;
  has_path = true;
  failed_write = none;
  removes = true;
}

abbrev token : StoredToken
token = record {
  access_token = "a";
  refresh_token = "";
  id_token = "i";
  expires_at = 100;
  issuer = "https://idp";
  client_id = "talos";
}

abbrev bare : Stores
bare = record { keyring = no_entries; file = missing }

abbrev held : Stores
held = record { keyring = no_entries; file = tokens (("home", some token) ∷ []) }

store_test : store no_keychain "home" token bare ≡ (held, ok tt)
unfolding store file_store read_token_file write_token_file unset
store_test = refl

stored : (store no_keychain "home" token bare).1 ≡ ok tt
unfolding store file_store read_token_file write_token_file unset
stored = refl

deleted : (file_delete no_keychain "home" held.file).1 ≡ ok tt
unfolding file_delete read_token_file unset lookup
deleted = refl

found : file_token no_keychain "home" held ≡ some token
unfolding file_token file_retrieve read_token_file lookup
found = refl

store-retrieve_example :
    (t : StoredToken) × (retrieve no_keychain "home" (store no_keychain "home" token bare).0
      ≡ some t)
    × (is_as_good t token ≡ true)
store-retrieve_example = store-retrieve no_keychain no_keychain "home" token bare stored refl refl

names_differ : ◌≢◌ {A = String} "home" "work"
names_differ = ground (arith, eq_iff "home" "work")
