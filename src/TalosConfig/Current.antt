-- ===== src/TalosConfig/Current.antt =====
-- The current context.
use talosctl_oidc.Base.{◌≡◌, ◌⊎◌, inl, inr, String, true, List, [], ◌∷◌, arith, eq_iff}
use talosctl_oidc.TalosConfig.{TalosConfig, set_context, remove_context, has_context}

-- A change of the configuration.
pub data Change : Type 0 where
  set : (name : String) → (endpoints : List String) → (ca cert key : String) → Change
  drop : (name : String) → Change

-- The current context is none or one of the contexts.
abbrev pub IsSound : TalosConfig → Type 0
IsSound config = (config.context ≡ "") ⊎ (has_context config.context config ≡ true)

module _ (encode : String → String) where
  unfoldable pub change : TalosConfig → Change → TalosConfig
  change config (set name endpoints ca cert key) =
      (set_context encode name endpoints ca cert key config).0
  change config (drop name) = remove_context name config

  unfoldable pub changes : TalosConfig → List Change → TalosConfig
  changes config [] = config
  changes config (c ∷ cs) = changes (change config c) cs

  set_context-IsSound :
      (name : String) (endpoints : List String) (ca cert key : String) (config : TalosConfig)
      → IsSound config
      → IsSound (set_context encode name endpoints ca cert key config).0
  unfolding set_context has_context
  set_context-IsSound name endpoints ca cert key config (inl e) = ground (arith, eq_iff name name)
  set_context-IsSound name endpoints ca cert key config (inr e) = ground (arith, eq_iff name name)

  remove_context-IsSound :
      (name : String) (config : TalosConfig) → IsSound config → IsSound (remove_context name config)
  unfolding remove_context has_context
  remove_context-IsSound name config (inl e) = ground (arith, eq_iff config.context name)
  remove_context-IsSound name config (inr e) =
      ground (arith, eq_iff config.context name, eq_iff name config.context)

  -- Contexts that are set and removed in any order leave a current context that is none or one of
  -- the contexts, where it was so before.
  pub changes-IsSound :
      (cs : List Change) (config : TalosConfig) → IsSound config → IsSound (changes config cs)
  unfolding changes change
  changes-IsSound [] config sound = sound
  changes-IsSound (set name endpoints ca cert key ∷ cs) config sound =
      changes-IsSound cs (change config (set name endpoints ca cert key))
        (set_context-IsSound name endpoints ca cert key config sound)
  changes-IsSound (drop name ∷ cs) config sound =
      changes-IsSound cs (change config (drop name)) (remove_context-IsSound name config sound)
