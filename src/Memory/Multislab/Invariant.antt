-- ===== src/Memory/Multislab/Invariant.antt =====
-- When a multislab is well formed beside the memory that its backing allocator has given out.
mod Nodes
mod Owners
pub use Nodes.*
pub use Owners.*
use cfiber.Common.{
  ℕ, ◌+◌, ◌*◌, ◌%◌, ◌^◌, ◌≤◌, ◌<◌, ◌≡◌, ◌≢◌, ◌⊎◌, Bool, true, false, length, one_if,
}
use cfiber.Memory.Backing.{Backing, Laws}
use cfiber.Memory.Multislab.{Node, Multislab}
use cfiber.Memory.Multislab.Views.{All, empties, regions}

-- `base` are the regions that others hold from the same backing allocator.
pub record Inv {b : Backing} (laws : Laws b) (base : ℕ → ℕ → Bool) (ms : Multislab) (st : b.State)
    : Type 0 where
  pub block_pos : 64 ≤ ms.block_size
  pub per_slab_pos : 0 < ms.blocks_per_slab
  pub per_slab_le : ms.blocks_per_slab ≤ 512
  pub memory_size : ms.slab_memory_size ≡ ms.blocks_per_slab * ms.block_size
  pub line_multiple : ms.block_size % 64 ≡ 0
  pub active_ok : All (NodeOk ms.block_size ms.blocks_per_slab ms.slab_memory_size false) ms.active
  pub full_ok : All (NodeOk ms.block_size ms.blocks_per_slab ms.slab_memory_size true) ms.full
  pub counted : ms.slab_count ≡ length ms.active + length ms.full
  pub small : ms.slab_count < 2 ^ 32
  pub limited : (ms.max_slabs ≡ 0) ⊎ (ms.slab_count ≤ ms.max_slabs)
  pub empties_counted : ms.empty_count ≡ empties ms
  pub sound : laws.Sound st
  pub accounts : (q m : ℕ) → one_if (laws.held st q m) ≡ one_if (base q m) + regions ms q m

-- The reserve: no more empty slabs than asked for, unless there is a single slab.
abbrev pub KeepsReserve : Multislab → Type 0
KeepsReserve ms = (ms.empty_count ≤ ms.max_empty_reserve) ⊎ (ms.slab_count ≤ 1)
