-- ===== src/TalosConfig/Saving.antt =====
-- That a reader of the file never sees half of it.
use talosctl_oidc.Base.{
  ◌≡◌, ◌⊎◌, inl, inr, refl, List, [], ◌∷◌, none, some, All, arith, subst, sym, Bool-cases,
  Option-cases,
}
use talosctl_oidc.TalosConfig.{Disk, FileSystem, save}

-- The file is as it was, or it holds the new data whole.
abbrev pub IsWhole : FileSystem → Disk → Disk → Type 0
IsWhole fs old d = (d.target ≡ old.target) ⊎ ((d.target ≡ fs.yaml) × (fs.failed_write ≡ none))

-- In every state that the disk goes through while Save runs, whatever fails, the file is as it was
-- before or holds the new data whole.
pub save-IsWhole : (fs : FileSystem) (d : Disk) → All (IsWhole fs d) (save fs d).0
unfolding save
save-IsWhole fs d = elim (Bool-cases fs.makes_directory) [
  | inr e ↦ is (d ∷ []) (ground arith) (inl refl, tt)
  | inl e ↦ elim (Option-cases fs.yaml) [
    | inl e₁ ↦ is (d ∷ []) (ground arith) (inl refl, tt)
    | inr (text, e₁) ↦ elim (Option-cases fs.failed_write) [
      | inr (left, e₂) ↦
          is (record d { temporary = some left } ∷ d ∷ []) (ground arith) (inl refl, (inl refl, tt))
      | inl e₂ ↦
          let written : Disk = record d { temporary = some text } in
          elim (Bool-cases fs.renames) [
            | inl e₃ ↦
                is (record { target = some text; temporary = none } ∷ written ∷ d ∷ [])
                  (ground arith) (inr (sym e₁, e₂), (inl refl, (inl refl, tt)))
            | inr e₃ ↦ elim (Bool-cases fs.removes) [
              | inl e₄ ↦
                  is (record d { temporary = none } ∷ written ∷ d ∷ []) (ground arith)
                    (inl refl, (inl refl, (inl refl, tt)))
              | inr e₄ ↦
                  is (written ∷ written ∷ d ∷ []) (ground arith)
                    (inl refl, (inl refl, (inl refl, tt)))
            ]
          ]
    ]
  ]
]
  where
    is :
        (l : List Disk)
        → (save fs d).0 ≡ l
        → All (IsWhole fs d) l
        → All (IsWhole fs d) (save fs d).0
    is l e all = subst (All (IsWhole fs d)) (sym e) all
