-- ===== src/Memory/Slab/Invariant.antt =====
-- When a `cfiber_slab_t` is well formed, and what `cfiber_slab_init` makes.
use native.Mathlib.Nat.{div-mul-le_self, le-div_iff_mul-le}
use cfiber.Common.{
  ℕ, ◌+◌, ◌*◌, ◌/◌, ◌%◌, ◌^◌, ◌≤◌, ◌<◌, ◌≡◌, ◌≢◌, ◌⊎◌, inl, inr, refl, ap, Bool, false, none, some,
  arith, length, get_or, replicate, get_or-replicate, Option-cases,
}
use cfiber.Common.Bits.{bit-zero}
use cfiber.Memory.Slab.{Slab, slab_init, slab_reset}
use cfiber.Memory.Slab.Bitmap.{bitmap_test}
use cfiber.Memory.Slab.Bitmap.Laws.{AreWords, bitmap_test-digit}

-- Block `i` is handed out.
abbrev pub is_used : Slab → ℕ → Bool
is_used slab i = bitmap_test slab.bitmap i

-- Address of block `i`.
abbrev pub block_at : Slab → ℕ → ℕ
block_at slab i = slab.memory + i * slab.block_size

pub record IsValid (s : Slab) : Type 0 where
  pub block_pos : 0 < s.block_size
  pub count_pos : 0 < s.block_count
  pub count_le : s.block_count ≤ 512
  pub bitmap_length : length s.bitmap ≡ 8
  pub words : AreWords s.bitmap
  pub word_count : s.bitmap_count ≡ (s.block_count + 63) / 64
  pub fits : s.memory + s.block_count * s.block_size < 2 ^ 64

-- The operations move neither the memory nor the block sizes.
abbrev pub SameShape : Slab → Slab → Type 0
SameShape s t =
    (t.memory ≡ s.memory)
    × (t.block_size ≡ s.block_size)
    × (t.block_count ≡ s.block_count)
    × (t.bitmap_count ≡ s.bitmap_count)

-- A block lies inside the slab, so its address does not wrap.
pub block_fits :
    {s : Slab} → IsValid s → (i : ℕ) → i < s.block_count → block_at s i + s.block_size < 2 ^ 64
block_fits {s} v i h = grind arith

empty_test : (i : ℕ) → bitmap_test (replicate 8 0) i ≡ false
empty_test i = ground (
  arith,
  bitmap_test-digit (replicate 8 0) i,
  ap (λ (t : ℕ). t) (get_or-replicate 8 (i / 64) 0),
  bit-zero (i % 64),
)

-- The arguments that `cfiber_slab_init` documents.
pub record Accepts (block_size memory memory_size : ℕ) : Type 0 where
  pub size_pos : block_size ≢ 0
  pub line_multiple : block_size % 64 ≡ 0
  pub holds_block : block_size ≤ memory_size
  pub aligned : memory % 16 ≡ 0
  pub few_blocks : memory_size / block_size ≤ 512

fresh : ℕ → ℕ → ℕ → Slab
fresh block_size memory memory_size = record {
  memory = memory;
  block_size = block_size;
  block_count = memory_size / block_size;
  bitmap = replicate 8 0;
  bitmap_count = (memory_size / block_size + 63) / 64;
}

slab_init-Accepts : (b m n : ℕ) → Accepts b m n → slab_init b m n ≡ some (fresh b m n)
unfolding slab_init fresh
slab_init-Accepts b m n a = ground arith

words_zero : AreWords (replicate 8 0)
words_zero k =
    let zeros : get_or (replicate 8 0) k 0 ≡ 0 = get_or-replicate {A = ℕ} 8 k 0 in
    rw zeros (omega arith)

fresh-IsValid : (b m n : ℕ) → Accepts b m n → m + n < 2 ^ 64 → IsValid (fresh b m n)
unfolding fresh
fresh-IsValid b m n a h = record {
  block_pos = omega arith;
  count_pos = (le-div_iff_mul-le {k = b} {x = 1} {y = n} (omega arith)).1 (omega arith);
  count_le = a.few_blocks;
  bitmap_length = refl;
  words = words_zero;
  word_count = refl;
  fits = omega (arith, div-mul-le_self n b);
}

slab_init_only : (b m n : ℕ) (s : Slab) → slab_init b m n ≡ some s → Accepts b m n
unfolding slab_init
slab_init_only b m n s e = ground arith

-- With memory that ends below 2^64, `cfiber_slab_init` succeeds exactly on the documented
-- arguments. The slab that it makes is well formed, has as many blocks as fit into the memory, and
-- none of them is handed out.
pub slab_init_lem :
    (block_size memory memory_size : ℕ)
    → memory + memory_size < 2 ^ 64
    → ((slab_init block_size memory memory_size ≡ none) × ¬ Accepts block_size memory memory_size)
      ⊎ ((s : Slab) × (slab_init block_size memory memory_size ≡ some s)
          × Accepts block_size memory memory_size
          × IsValid s
          × (s.memory ≡ memory)
          × (s.block_size ≡ block_size)
          × (s.block_count ≡ memory_size / block_size)
          × ((i : ℕ) → is_used s i ≡ false))
slab_init_lem b m n h = elim (Option-cases (slab_init b m n)) [
  | inl e ↦ inl (e, λ a. cc (e, slab_init-Accepts b m n a))
  | inr (s, e) ↦
      let a = slab_init_only b m n s e in
      unfold fresh in
      inr (
        fresh b m n,
        slab_init-Accepts b m n a,
        a,
        fresh-IsValid b m n a h,
        refl,
        refl,
        refl,
        empty_test,
      )
]

-- `cfiber_slab_reset` keeps the slab well formed and hands every block back.
pub slab_reset_lem :
    {s : Slab}
    → IsValid s
    → IsValid (slab_reset s)
      × SameShape s (slab_reset s)
      × ((i : ℕ) → is_used (slab_reset s) i ≡ false)
unfolding slab_reset
slab_reset_lem v = (
  record {
    block_pos = v.block_pos;
    count_pos = v.count_pos;
    count_le = v.count_le;
    bitmap_length = refl;
    words = words_zero;
    word_count = v.word_count;
    fits = v.fits;
  },
  (refl, refl, refl, refl),
  empty_test,
)
