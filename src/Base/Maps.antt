-- ===== src/Base/Maps.antt =====
-- Go's `map[string]V` where the program walks over no keys but to drop some: a function.
use Prim.Native.String.{String}
use mathlib.Core.Path.{◌≡◌}
use mathlib.Core.Logic.{◌≢◌}
use mathlib.Core.Option.{Option, none, some}
use native.Mathlib.Omega.{arith}
use text.Mathlib.Text.{◌==◌}
use text.Mathlib.TextEquality.{eq_iff}
use package.talosctl_oidc.Base.Tests.{if◌then◌else◌}

abbrev pub Map : Type 0 → Type 0
Map V = String → Option V

abbrev pub no_entries : {V : Type 0} → Map V
no_entries k = none

abbrev pub put : {V : Type 0} → String → V → Map V → Map V
put k v m j = if k == j then some v else m j

abbrev pub remove : {V : Type 0} → String → Map V → Map V
remove k m j = if k == j then none else m j

pub put_self : {V : Type 0} (k : String) (v : V) (m : Map V) → put k v m k ≡ some v
put_self k v m = ground (arith, eq_iff k k)

pub put_ne : {V : Type 0} (k j : String) (v : V) (m : Map V) → k ≢ j → put k v m j ≡ m j
put_ne k j v m h = ground (arith, eq_iff k j)
