-- ===== src/Base/Assoc.antt =====
-- A Go map with string keys that the program only reads, as the list of its entries.
use Prim.Native.String.{String}
use package.talosctl_oidc.Base.Tests.{if◌then◌else◌}
use mathlib.Core.List.{List, [], ◌∷◌}
use mathlib.Core.Option.{Option, some, none}
use text.Mathlib.Text.{◌==◌}

-- The value of the first entry with that name.
unfoldable pub lookup : {V : Type 0} (name : String) (entries : List (String × V)) → Option V
lookup name [] = none
lookup name (entry ∷ rest) =
    let later = lookup name rest in if entry.0 == name then some entry.1 else later
