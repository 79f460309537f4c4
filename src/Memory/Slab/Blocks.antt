-- ===== src/Memory/Slab/Blocks.antt =====
-- The block addresses that a slab has handed out.
use cfiber.Common.{
  ℕ, ◌+◌, ◌*◌, ◌≤◌, ◌<◌, ◌≡◌, ◌≢◌, ◌⊎◌, Bool, true, false, ◌&&◌, arith, ◌==◌, if◌then◌else◌, one_if,
  ℕ_discrete, eq→==, ne→==,
}
use cfiber.Memory.Slab.{Slab}
use cfiber.Memory.Slab.Invariant.{is_used, block_at, IsValid, SameShape}
use cfiber.Memory.Slab.Count.{
  count_below, count_below_ext, count_below_on, count_below_none, count_below_pos,
}
use cfiber.Memory.Slab.Release.{block_at-injective}

-- Block `i` is handed out and stands at `p`.
abbrev pub is_block : ℕ → Slab → ℕ → Bool
is_block p s i = is_used s i && block_at s i == p

-- How many blocks are handed out at address `p`.
abbrev pub slab_blocks : ℕ → Slab → ℕ
slab_blocks p s = count_below s.block_count (is_block p s)

pub block_inside :
    (s : Slab) (i : ℕ)
    → 0 < s.block_size
    → i < s.block_count
    → (s.memory ≤ block_at s i) × (block_at s i < s.memory + s.block_count * s.block_size)
block_inside s i h k = grind arith

pub slab_blocks_outside :
    (p : ℕ) (s : Slab)
    → IsValid s
    → (p < s.memory) ⊎ (s.memory + s.block_count * s.block_size ≤ p)
    → slab_blocks p s ≡ 0
slab_blocks_outside p s v out =
    count_below_none s.block_count (is_block p s)
      (λ j h. ground (arith, block_inside s j v.block_pos h))

-- No block that is handed out is at `p`.
pub slab_blocks_none :
    (p : ℕ) (s : Slab)
    → ((i : ℕ) → i < s.block_count → is_used s i ≡ true → p ≢ block_at s i)
    → slab_blocks p s ≡ 0
slab_blocks_none p s h =
    count_below_none s.block_count (is_block p s) (λ j q. ground (arith, h j q))

pub slab_blocks_pos :
    (s : Slab) (i : ℕ) → i < s.block_count → is_used s i ≡ true → 0 < slab_blocks (block_at s i) s
slab_blocks_pos s i h e =
    count_below_pos s.block_count i (is_block (block_at s i) s) h (ground arith)

pub slab_blocks_unused :
    (s : Slab) (i : ℕ)
    → IsValid s
    → i < s.block_count
    → is_used s i ≡ false
    → slab_blocks (block_at s i) s ≡ 0
slab_blocks_unused s i v h e =
    slab_blocks_none (block_at s i) s (λ j q u same. cc (e, u, block_at-injective v i j same))

-- Handing block `i` out adds its address, once.
pub slab_blocks_on :
    (q i : ℕ) (s t : Slab)
    → IsValid s
    → i < s.block_count
    → is_used s i ≡ false
    → SameShape s t
    → ((j : ℕ) → is_used t j ≡ (if i == j then true else is_used s j))
    → slab_blocks q t ≡ slab_blocks q s + one_if (q == block_at s i)
slab_blocks_on q i s t v h e shape on = elim (ℕ_discrete q (block_at s i)) [
  | yes same ↦
      rw (shape.2, eq→== _ _ same)
        (count_below_on s.block_count i (is_block q s) (is_block q t) h (ground arith)
          (λ j. ground (arith, on j)))
  | no other ↦
      rw (shape.2, ne→== _ _ other)
        (omega (
          arith,
          count_below_ext s.block_count (is_block q t) (is_block q s) (λ j p. ground (arith, on j)),
        ))
]
