-- ===== src/Claims.antt =====
-- The values of a token's claims: what `json.Unmarshal` puts into a `map[string]interface{}`, and
-- the `[]string` that pkg/rbac/rbac.go also takes. Of a number the program reads only
-- `int64(v)`, so that is what a number holds.
use talosctl_oidc.Base.{String, Bool, List, [], ◌∷◌, Option, some, none, ℤ}

mutual
  pub data Value : Type 0 where
    null : Value
    bool : Bool → Value
    num : ℤ → Value
    str : String → Value
    arr : Items → Value
    obj : Members → Value
    strs : List String → Value

  pub data Items : Type 0 where
    nil : Items
    cons : Value → Items → Items

  pub data Members : Type 0 where
    end : Members
    member : String → Value → Members → Members

abbrev pub Claims : Type 0
Claims = List (String × Value)

-- `v, ok := claims[name].(string)`
abbrev pub as_string : Option Value → Option String
as_string none = none
as_string (some (str s)) = some s
as_string (some _) = none

-- `v, ok := claims[name].(float64)`
abbrev pub as_number : Option Value → Option ℤ
as_number none = none
as_number (some (num n)) = some n
as_number (some _) = none

-- The strings among the items of an array; the others are passed over.
abbrev pub texts : Items → List String
texts nil = []
texts (cons (str s) items) = s ∷ texts items
texts (cons _ items) = texts items
