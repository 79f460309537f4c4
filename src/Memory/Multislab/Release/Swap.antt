-- ===== src/Memory/Multislab/Release/Swap.antt =====
-- A multislab in which one node has taken a block back, and may have changed lists.
use cfiber.Common.{ℕ, ◌+◌, ◌≡◌, ap₂, Bool, true, false, List, arith, length, ◌==◌, one_if}
use cfiber.Memory.Backing.{Backing, Laws, same_region}
use cfiber.Memory.Multislab.{Node, Multislab, node_size}
use cfiber.Memory.Multislab.Views.{sum_by, All, node_blocks, handed_out, is_empty, node_regions}
use cfiber.Memory.Multislab.Invariant.{Inv, NodeOk, Gave}

-- The multislab `ms` with other lists, and the node `n'` counted if it is empty.
abbrev pub relisted : Multislab → List Node → List Node → Node → Multislab
relisted ms active full n' = record ms {
  active = active;
  full = full;
  empty_count = ms.empty_count + is_empty n';
}

module _ {b : Backing} (laws : Laws b) (base : ℕ → ℕ → Bool) (ms : Multislab) (st : b.State)
    (inv : Inv laws base ms st) (n n' : Node) (p : ℕ)
    (give : Gave ms.block_size ms.blocks_per_slab ms.slab_memory_size n n' p)
    (active full : List Node)
    (active_ok : All (NodeOk ms.block_size ms.blocks_per_slab ms.slab_memory_size false) active)
    (full_ok : All (NodeOk ms.block_size ms.blocks_per_slab ms.slab_memory_size true) full)
    (same_length : length active + length full ≡ length ms.active + length ms.full)
    (exchanged : (f : Node → ℕ)
      → sum_by f active + sum_by f full + f n ≡ sum_by f ms.active + sum_by f ms.full + f n') where
  regions_same :
      (q m : ℕ) → node_regions ms.slab_memory_size q m n' ≡ node_regions ms.slab_memory_size q m n
  regions_same q m =
      ap₂
        (λ (a r : ℕ).
          one_if (same_region q m a node_size) + one_if (same_region q m r ms.slab_memory_size))
        give.same_place.0 give.same_place.1

  pub relisted-Inv : Inv laws base (relisted ms active full n') st
  relisted-Inv = record {
    block_pos = inv.block_pos;
    per_slab_pos = inv.per_slab_pos;
    per_slab_le = inv.per_slab_le;
    memory_size = inv.memory_size;
    line_multiple = inv.line_multiple;
    active_ok = active_ok;
    full_ok = full_ok;
    counted = omega (arith, inv.counted);
    small = inv.small;
    limited = inv.limited;
    empties_counted = ground (arith, inv.empties_counted, exchanged is_empty, give.count_less);
    sound = inv.sound;
    accounts = λ q m. omega (
      arith,
      inv.accounts q m,
      exchanged (node_regions ms.slab_memory_size q m),
      regions_same q m,
    );
  }

  pub relisted_less :
      (q : ℕ) → handed_out ms q ≡ handed_out (relisted ms active full n') q + one_if (q == p)
  relisted_less q = omega (arith, exchanged (node_blocks q), give.one_less q)
