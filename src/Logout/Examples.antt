-- ===== src/Logout/Examples.antt =====
-- A logout of the login of the other examples.
use talosctl_oidc.Base.{◌≡◌, refl, none, ok, lookup}
use talosctl_oidc.Keychain.{file_delete, read_token_file, unset}
use talosctl_oidc.Login.{full_authentication, obtain_id_token}
use talosctl_oidc.Login.Toy.{works, stores, flags, login_world, disk, yaml}
use talosctl_oidc.Logout.{run_logout, run_logout-obtain_id_token}

deleted : (file_delete works "oidc" stores.file).1 ≡ ok tt
unfolding file_delete read_token_file unset lookup
deleted = refl

run_logout-obtain_id_token_example :
    obtain_id_token login_world flags (run_logout works none yaml "oidc" stores disk).0
    ≡ full_authentication login_world flags (run_logout works none yaml "oidc" stores disk).0
run_logout-obtain_id_token_example =
    run_logout-obtain_id_token works none yaml stores disk login_world flags refl deleted
