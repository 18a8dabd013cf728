-- ===== src/Logout.antt =====
-- cmd/logout.go: runLogout, for a path of the file that is known. The keychain and the file system
-- answer as in pkg/keychain and pkg/talosconfig.
mod Examples
use talosctl_oidc.Base.{
  ◌==◌, ◌≡◌, ◌∙◌, ap, String, Bool, true, false, not, List, [], ◌∷◌, Option, none, some, Result, ok,
  err, if◌then◌else◌, arith,
}
use talosctl_oidc.Keychain.{Access, Stores, file_delete, delete}
use talosctl_oidc.Keychain.Better.{delete-retrieve}
use talosctl_oidc.TalosConfig.{
  TalosConfig, remove_context, has_context, Disk, FileSystem, SaveError, save,
}
use talosctl_oidc.Login.{Flags, LoginWorld, full_authentication, use_stored, obtain_id_token}

pub data LogoutError : Type 0 where
  no_talosconfig : LogoutError
  not_saved : SaveError → LogoutError

abbrev saved_result : Result SaveError (Unit {0}) → Result LogoutError (Unit {0})
saved_result (err e) = err (not_saved e)
saved_result (ok u) = ok tt

-- The context goes from the file; `loaded` is what Load gave, none where it failed.
unfoldable pub remove_from_file :
    Option TalosConfig
    → (TalosConfig → FileSystem)
    → String
    → Disk
    → List Disk × Result LogoutError (Unit {0})
remove_from_file none yaml name disk = (disk ∷ [], err no_talosconfig)
remove_from_file (some cfg) yaml name disk =
    let saved = save (yaml (remove_context name cfg)) disk in
    if not (has_context name cfg) then (disk ∷ [], ok tt) else (saved.0, saved_result saved.1)

unfoldable pub run_logout :
    Access
    → Option TalosConfig
    → (TalosConfig → FileSystem)
    → String
    → Stores
    → Disk
    → Stores × (List Disk × Result LogoutError (Unit {0}))
run_logout a loaded yaml name s disk = (delete a name s, remove_from_file loaded yaml name disk)

-- After a logout a login starts anew: where the keychain deletes and the file's part of the deletion
-- succeeds, whatever becomes of the talosconfig, the next login for that context uses neither a
-- cached token nor a refresh token, but goes through a full authentication.
pub run_logout-obtain_id_token :
    (a : Access) (loaded : Option TalosConfig) (yaml : TalosConfig → FileSystem) (s : Stores)
    (disk : Disk) (w : LoginWorld) (flags : Flags)
    → a.keyring_deletes ≡ true
    → (file_delete a flags.context_name s.file).1 ≡ ok tt
    → obtain_id_token w flags (run_logout a loaded yaml flags.context_name s disk).0
      ≡ full_authentication w flags (run_logout a loaded yaml flags.context_name s disk).0
unfolding obtain_id_token run_logout use_stored
run_logout-obtain_id_token a loaded yaml s disk w flags deletes filed =
    ap (λ t. use_stored w flags t (delete a flags.context_name s))
      (delete-retrieve a w.reading flags.context_name s deletes filed)
