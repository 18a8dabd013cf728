-- ===== src/TalosConfig/Examples.antt =====
-- A configuration and its file, at concrete changes.
use talosctl_oidc.Base.{◌≡◌, refl, true, false, List, [], ◌∷◌, none, some, no_entries, All}
use talosctl_oidc.TalosConfig.{TalosConfig, Disk, FileSystem, save, set_context, remove_context}
use talosctl_oidc.TalosConfig.Current.{Change, set, drop, change, changes}
use talosctl_oidc.TalosConfig.Saving.{IsWhole, save-IsWhole}

abbrev blank : TalosConfig
blank = record { context = ""; contexts = no_entries }

abbrev history : List Change
history = set "home" [] "ca" "cert" "key" ∷ set "work" [] "ca" "cert" "" ∷ drop "work" ∷ []

current_test : (changes (λ s. s) blank history).context ≡ "home"
unfolding changes change set_context remove_context
current_test = refl

abbrev stuck : FileSystem
stuck = record {
  makes_directory = true;
  yaml = some "new";
  failed_write = none;
  renames = false;
  removes = true;
}

abbrev disk : Disk
disk = record { target = some "old"; temporary = none }

save-IsWhole_example : All (IsWhole stuck disk) (save stuck disk).0
save-IsWhole_example = save-IsWhole stuck disk
