-- ===== src/Memory/Slab/Bitmap.antt =====
-- The bitmap of src/cfiber/memory/slab_alloc.c: an array of 64-bit words.
pub mod Laws
pub mod FindFree
use cfiber.Common.{
  ℕ, zero, suc, ◌+◌, ◌-◌, ◌*◌, ◌/◌, ◌^◌, Bool, List, Option, none, some, bit_and, bit_or, ltb, ◌==◌,
  ◌!=◌, if◌then◌else◌, get_or, set,
}
use cfiber.Common.Bits.{ctz}
use cfiber.Core.{bitmap_word_bits, u32, complement64}

-- `INDEX_BITMAP`
abbrev pub index_bitmap : ℕ → ℕ
index_bitmap x = x / bitmap_word_bits

-- `INDEX_TO_BIT`
abbrev pub index_to_bit : ℕ → ℕ
index_to_bit x = 2 ^ bit_and x (bitmap_word_bits - 1)

unfoldable pub bitmap_test : List ℕ → ℕ → Bool
bitmap_test bitmap index = bit_and (get_or bitmap (index_bitmap index) 0) (index_to_bit index) != 0

unfoldable pub bitmap_set : List ℕ → ℕ → List ℕ
bitmap_set bitmap index =
    set bitmap (index_bitmap index)
      (bit_or (get_or bitmap (index_bitmap index) 0) (index_to_bit index))

unfoldable pub bitmap_clear : List ℕ → ℕ → List ℕ
bitmap_clear bitmap index =
    set bitmap (index_bitmap index)
      (bit_and (get_or bitmap (index_bitmap index) 0) (complement64 (index_to_bit index)))

-- The loop over the words from `i` on, with the rounds that are left. A negative result, which is
-- also what the conversion of an index of 2^31 or more to `int` gives, is `none`.
unfoldable pub find_free_from : List ℕ → ℕ → ℕ → ℕ → Option ℕ
find_free_from bitmap capacity zero i = none
find_free_from bitmap capacity (suc left) i =
    let rest = find_free_from bitmap capacity left (i + 1) in
    let inv = complement64 (get_or bitmap i 0) in
    let index = u32 (i * bitmap_word_bits + ctz bitmap_word_bits inv) in
    if inv == 0
    then rest
    else if ltb index capacity
    then (if ltb index (2 ^ 31) then some index else none)
    else rest

unfoldable pub bitmap_find_free : List ℕ → ℕ → ℕ → Option ℕ
unfolding find_free_from
bitmap_find_free bitmap words capacity = find_free_from bitmap capacity words 0
