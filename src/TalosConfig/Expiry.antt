-- ===== src/TalosConfig/Expiry.antt =====
-- pkg/talosconfig/talosconfig.go: that the loop of GetCertificateExpiry ends.
use talosctl_oidc.Base.{
  ℕ, zero, suc, ◌≤◌, ◌<◌, ◌≡◌, refl, sym, inl, inr, String, Option, some, Option-cases, arith,
  eq_iff,
}
use talosctl_oidc.TalosConfig.{Block, Pem, last_block}

abbrev size : String → ℕ
size String.[] = 0
size (String.◌∷◌ c s) = suc (size s)

-- What comes behind a block is shorter than the whole.
abbrev pub Shrinks : Pem → Type 0
Shrinks decode =
    (rest more : String) (b : Block) → decode rest ≡ some (b, more) → size more < size rest

size-zero : (s : String) → size s ≤ 0 → s ≡ ""
size-zero String.[] h = refl
size-zero (String.◌∷◌ c s) h = ground arith

last_block-empty :
    (decode : Pem) (fuel : ℕ) (block : Option Block) (rest : String)
    → rest ≡ ""
    → last_block decode fuel block rest ≡ block
unfolding last_block
last_block-empty decode zero block rest empty = refl
last_block-empty decode (suc fuel) block rest empty = elim (Option-cases (decode rest)) [
  | inl e ↦ ground (arith, eq_iff rest "")
  | inr ((b, behind), e) ↦ ground (arith, eq_iff rest "")
]

-- The loop ends: where what comes behind a block is shorter than the whole, any two amounts of fuel
-- that are at least the length of the text give the same block.
pub last_block_fuel :
    (decode : Pem) (fuel more : ℕ) (block : Option Block) (rest : String)
    → Shrinks decode
    → size rest ≤ fuel
    → size rest ≤ more
    → last_block decode fuel block rest ≡ last_block decode more block rest
unfolding last_block
last_block_fuel decode zero zero block rest shrinks h k = refl
last_block_fuel decode zero (suc more) block rest shrinks h k =
    sym (last_block-empty decode (suc more) block rest (size-zero rest h))
last_block_fuel decode (suc fuel) zero block rest shrinks h k =
    last_block-empty decode (suc fuel) block rest (size-zero rest k)
last_block_fuel decode (suc fuel) (suc more) block rest shrinks h k =
    elim (Option-cases (decode rest)) [
      | inl e ↦ ground arith
      | inr ((b, behind), e) ↦
          let shorter = shrinks rest behind b e in
          let same =
            last_block_fuel decode fuel more (some b) behind shrinks (omega arith) (omega arith) in
          ground arith
    ]
