-- ===== src/Index/Reset.antt =====
-- reset of index.go: its loop ends.
use minlz.Prelude.{ℕ, zero, suc, ◌*◌, ◌^◌, ◌≤◌, ◌≡◌, refl, arith, [], some, none}
use minlz.Prelude.{ltb, Bool-cases, inl, inr}
use native.Mathlib.Nat.{pow-suc}
use minlz.Index.State.{Index, min_index_dist, grow, reset}
use minlz.Index.Spaced.{IsValid}

grow-reaches :
    (rounds max_block : ℕ)
    → min_index_dist ≤ max_block * 2 ^ rounds
    → (est : ℕ) × (grow rounds max_block ≡ some est) × (min_index_dist ≤ est)
unfolding grow
grow-reaches zero max_block h = elim (Bool-cases (ltb max_block min_index_dist)) [
  | inl a ↦ absurd (ground arith)
  | inr a ↦ (max_block, rw a refl, ground arith)
]
grow-reaches (suc k) max_block h = elim (Bool-cases (ltb max_block min_index_dist)) [
  | inl a ↦
      let double : max_block * 2 ^ suc k ≡ max_block * 2 * 2 ^ k = rw pow-suc (grind arith) in
      let (est, e, p) = grow-reaches k (max_block * 2) (omega (arith, h, double)) in
      (est, rw a e, p)
  | inr a ↦ (max_block, rw a refl, ground arith)
]

-- For every positive block size the loop of reset ends, within 20 rounds, and leaves a valid index
-- without entries, whose block estimate is 1 MiB or more.
pub reset-IsValid :
    (max_block : ℕ)
    → 1 ≤ max_block
    → (i : Index) × (reset max_block ≡ some i)
      × IsValid i
      × (i.offsets ≡ [])
      × (min_index_dist ≤ i.est_block_uncomp)
unfolding reset
reset-IsValid max_block h =
    let (est, e, p) = grow-reaches 20 max_block (omega arith) in
    let i : Index = record {
      total_uncompressed = none;
      total_compressed = none;
      offsets = [];
      est_block_uncomp = est;
    } in
    (
      i,
      rw (reset, e) refl,
      record { positive = omega (arith, p); spaced = tt; few = omega arith },
      refl,
      p,
    )
