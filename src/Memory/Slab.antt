-- ===== src/Memory/Slab.antt =====
-- The slab of include/cfiber/memory/slab_alloc.h and src/cfiber/memory/slab_alloc.c: blocks of one
-- size in memory that the user supplies, and a bitmap with a set bit for each block handed out.
-- Pointers are addresses, `NULL` and the error code -1 are `none`, and a function that writes
-- through its slab pointer returns the slab. `ASSERT` is compiled out, as under NDEBUG.
pub mod Bitmap
pub mod Invariant
pub mod Alloc
pub mod Release
pub mod Count
pub mod Blocks
mod Examples
use cfiber.Common.{
  ℕ, ◌+◌, ◌*◌, ◌/◌, ◌%◌, ◌-◌, Bool, true, false, not, ◌&&◌, ◌||◌, List, Option, none, some, ltb,
  leb, ◌==◌, ◌!=◌, if◌then◌else◌, replicate,
}
use cfiber.Core.{
  cache_line_size, bitmap_word_bits, bitmap_size, slab_max_blocks, max_align, u32, u64, sub64,
}
use Bitmap.{bitmap_test, bitmap_set, bitmap_clear, bitmap_find_free}

-- `cfiber_slab_t`
pub record Slab : Type 0 where
  pub memory : ℕ
  pub block_size : ℕ
  pub block_count : ℕ
  pub bitmap : List ℕ
  pub bitmap_count : ℕ

unfoldable pub ptr_to_index : Slab → ℕ → ℕ
ptr_to_index slab ptr = u32 (sub64 ptr slab.memory / slab.block_size)

unfoldable pub index_to_ptr : Slab → ℕ → ℕ
index_to_ptr slab index = u64 (slab.memory + u64 (index * slab.block_size))

-- Every field of `*alloc` is written on success, and none on an error.
unfoldable pub slab_init : ℕ → ℕ → ℕ → Option Slab
slab_init block_size memory memory_size =
    if block_size == 0 || block_size % cache_line_size != 0 || ltb memory_size block_size
    then none
    else if memory % max_align != 0
    then none
    else let count = memory_size / block_size in
      if ltb slab_max_blocks count
      then none
      else some (record {
        memory = memory;
        block_size = block_size;
        block_count = u32 count;
        bitmap = replicate bitmap_size 0;
        bitmap_count = u32 (u32 count + bitmap_word_bits - 1) / bitmap_word_bits;
      })

unfoldable pub slab_alloc : Slab → Option ℕ × Slab
slab_alloc slab = elim (bitmap_find_free slab.bitmap slab.bitmap_count slab.block_count) [
  | none ↦ (none, slab)
  | some index ↦
      (some (index_to_ptr slab index), record slab { bitmap = bitmap_set slab.bitmap index })
]

-- The checks that `CFIBER_DEFENSIVE` compiles in, those before the bitmap is read.
in_slab : Slab → ℕ → Bool
in_slab slab block =
    not (
      ltb block slab.memory
      || leb (u64 (slab.memory + u64 (slab.block_size * slab.block_count))) block)
    && sub64 block slab.memory % slab.block_size == 0

-- The first argument is `CFIBER_DEFENSIVE`.
unfoldable pub slab_release : Bool → Slab → ℕ → Bool × Slab
unfolding in_slab
slab_release defensive slab block =
    if defensive && not (in_slab slab block)
    then (false, slab)
    else let index = ptr_to_index slab block in
      if defensive && not (bitmap_test slab.bitmap index)
      then (false, slab)
      else (true, record slab { bitmap = bitmap_clear slab.bitmap index })

unfoldable pub slab_reset : Slab → Slab
slab_reset slab = record slab { bitmap = replicate bitmap_size 0 }
