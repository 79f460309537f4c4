-- ===== src/Core.antt =====
-- The platform constants of include/cfiber/core/macros.h on a 64-bit host, the wrap-around of its
-- integer types, and `align_up` of src/cfiber/core/internal.h.
use cfiber.Common.{ℕ, ◌+◌, ◌-◌, ◌*◌, ◌%◌, ◌^◌, bit_and}

-- `CFIBER_CACHE_LINE_SIZE`
abbrev pub cache_line_size : ℕ
cache_line_size = 64

-- `CFIBER_BITMAP_WORD_BITS`
abbrev pub bitmap_word_bits : ℕ
bitmap_word_bits = 64

-- `CFIBER_BITMAP_SIZE`
abbrev pub bitmap_size : ℕ
bitmap_size = 8

-- `CFIBER_SLAB_MAX_BLOCKS`
abbrev pub slab_max_blocks : ℕ
slab_max_blocks = bitmap_word_bits * bitmap_size

-- `alignof(max_align_t)`
abbrev pub max_align : ℕ
max_align = 16

-- `(uint32_t)x`
abbrev pub u32 : ℕ → ℕ
u32 x = x % 2 ^ 32

-- `(uint64_t)x`, `(size_t)x` and `(uintptr_t)x`
abbrev pub u64 : ℕ → ℕ
u64 x = x % 2 ^ 64

-- `a - b` on `uint64_t`, for arguments in range
abbrev pub sub64 : ℕ → ℕ → ℕ
sub64 a b = u64 (a + 2 ^ 64 - b)

-- `~x` on `uint64_t`, for an argument in range
abbrev pub complement64 : ℕ → ℕ
complement64 x = 2 ^ 64 - 1 - x

-- `align_up`
unfoldable pub align_up : ℕ → ℕ → ℕ
align_up v align = bit_and (sub64 (u64 (v + align)) 1) (complement64 (sub64 align 1))
