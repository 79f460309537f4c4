-- ===== src/Memory/Slab/Bitmap/Laws.antt =====
-- What the bitmap operations of src/cfiber/memory/slab_alloc.c do to each bit.
use cfiber.Common.{
  ℕ, zero, suc, ◌*◌, ◌/◌, ◌%◌, ◌^◌, ◌<◌, ◌≡◌, refl, ap, true, false, List, [], ◌∷◌, arith, bit_and,
  bit_or, ◌==◌, ◌!=◌, if◌then◌else◌, length, get_or, set, get_or-set_self, get_or-set_ne,
  length-set, set-set, set-get_or, ℕ_discrete, pow_pos, eq→==, ne→==, pow-lt-pow_right,
}
use cfiber.Common.Bits.{
  bit, bit_lt, bit-bit_and, bit-bit_or, bit-pow, bit-complement, bit_and-pow, bit_and-ones,
  bit_and_lt, bit_or_lt, bit_ext,
}
use cfiber.Core.{complement64}
use cfiber.Memory.Slab.Bitmap.{bitmap_test, bitmap_set, bitmap_clear, index_to_bit}

-- Bit `i` of the array, 0 or 1.
abbrev pub digit : List ℕ → ℕ → ℕ
digit bitmap i = bit (get_or bitmap (i / 64) 0) (i % 64)

-- Each word is in the range of its type.
abbrev pub AreWords : List ℕ → Type 0
AreWords bitmap = (k : ℕ) → get_or bitmap k 0 < 2 ^ 64

mask_lem : (i : ℕ) → index_to_bit i ≡ 2 ^ (i % 64)
mask_lem i = ap (λ (t : ℕ). 2 ^ t) (bit_and-ones 6 i)

pub bitmap_test-digit : (bitmap : List ℕ) (i : ℕ) → bitmap_test bitmap i ≡ (digit bitmap i == 1)
unfolding bitmap_test
bitmap_test-digit bitmap i =
    rw (mask_lem i, bit_and-pow (get_or bitmap (i / 64) 0) (i % 64))
      (nonzero (digit bitmap i) (2 ^ (i % 64)) (bit_lt _ (i % 64)) (pow_pos (i % 64)))
  where
    nonzero : (b p : ℕ) → b < 2 → 0 < p → (b * p != 0) ≡ (b == 1)
    nonzero zero p h k = ground arith
    nonzero (suc zero) p h k = ground arith
    nonzero (suc (suc b)) p h k = absurd (omega arith)

pow-lt : (i : ℕ) → 2 ^ (i % 64) < 2 ^ 64
pow-lt i = pow-lt-pow_right {j = 64} (omega arith)

same_digit :
    (bitmap : List ℕ) (i j : ℕ)
    → i / 64 ≡ j / 64
    → bit (get_or bitmap (i / 64) 0) (j % 64) ≡ digit bitmap j
same_digit bitmap i j e = rw e refl

-- A write to word `i / 64`, seen from bit `j`.
digit-set :
    (bitmap : List ℕ) (i j w : ℕ)
    → i / 64 < length bitmap
    → digit (set bitmap (i / 64) w) j
      ≡ (if i / 64 == j / 64 then bit w (j % 64) else digit bitmap j)
digit-set bitmap i j w h = elim (ℕ_discrete (i / 64) (j / 64)) [
  | yes e ↦ rw (eq→== _ _ e, ← e, get_or-set_self bitmap (i / 64) w 0 h)
  | no n ↦ rw (ne→== _ _ n, get_or-set_ne bitmap (i / 64) (j / 64) w 0 n)
]

-- Setting a bit sets it, and no other.
pub digit-bitmap_set :
    (bitmap : List ℕ) (i j : ℕ)
    → i / 64 < length bitmap
    → digit (bitmap_set bitmap i) j ≡ (if i == j then 1 else digit bitmap j)
unfolding bitmap_set
digit-bitmap_set bitmap i j h =
    let w = get_or bitmap (i / 64) 0 in
    rw mask_lem (
      ground (
        arith,
        digit-set bitmap i j (bit_or w (2 ^ (i % 64))) h,
        bit-bit_or w (2 ^ (i % 64)) (j % 64),
        bit-pow (i % 64) (j % 64),
        bit_lt w (j % 64),
        same_digit bitmap i j,
      ))

-- Clearing a bit clears it, and no other.
pub digit-bitmap_clear :
    (bitmap : List ℕ) (i j : ℕ)
    → i / 64 < length bitmap
    → digit (bitmap_clear bitmap i) j ≡ (if i == j then 0 else digit bitmap j)
unfolding bitmap_clear
digit-bitmap_clear bitmap i j h =
    let w = get_or bitmap (i / 64) 0 in
    rw mask_lem (
      ground (
        arith,
        digit-set bitmap i j (bit_and w (complement64 (2 ^ (i % 64)))) h,
        bit-bit_and w (complement64 (2 ^ (i % 64))) (j % 64),
        bit-complement 64 (2 ^ (i % 64)) (j % 64) (pow-lt i) (omega arith),
        bit-pow (i % 64) (j % 64),
        bit_lt w (j % 64),
        same_digit bitmap i j,
      ))

-- The written word, where a word of the array is looked up.
word-set :
    (bitmap : List ℕ) (i k w : ℕ)
    → get_or bitmap k 0 < 2 ^ 64
    → w < 2 ^ 64
    → get_or (set bitmap i w) k 0 < 2 ^ 64
word-set [] i k w h p = omega arith
word-set (x ∷ xs) zero zero w h p = p
word-set (x ∷ xs) zero (suc k) w h p = h
word-set (x ∷ xs) (suc i) zero w h p = h
word-set (x ∷ xs) (suc i) (suc k) w h p = word-set xs i k w h p

pub bitmap_set-AreWords :
    (bitmap : List ℕ) (i : ℕ) → AreWords bitmap → AreWords (bitmap_set bitmap i)
unfolding bitmap_set
bitmap_set-AreWords bitmap i h k =
    word-set bitmap (i / 64) k _ (h k) (
      bit_or_lt 64 (get_or bitmap (i / 64) 0) (index_to_bit i) (h (i / 64))
        (rw mask_lem (pow-lt i)))

pub bitmap_clear-AreWords :
    (bitmap : List ℕ) (i : ℕ) → AreWords bitmap → AreWords (bitmap_clear bitmap i)
unfolding bitmap_clear
bitmap_clear-AreWords bitmap i h k =
    word-set bitmap (i / 64) k _ (h k)
      (bit_and_lt 64 (get_or bitmap (i / 64) 0) (complement64 (index_to_bit i)) (h (i / 64)))

pub length-bitmap_set : (bitmap : List ℕ) (i : ℕ) → length (bitmap_set bitmap i) ≡ length bitmap
unfolding bitmap_set
length-bitmap_set bitmap i = length-set bitmap (i / 64) _

pub length-bitmap_clear : (bitmap : List ℕ) (i : ℕ) → length (bitmap_clear bitmap i) ≡ length bitmap
unfolding bitmap_clear
length-bitmap_clear bitmap i = length-set bitmap (i / 64) _

-- The same for the test that the code makes.
pub test-set :
    (bitmap : List ℕ) (i j : ℕ)
    → i / 64 < length bitmap
    → bitmap_test (bitmap_set bitmap i) j ≡ (if i == j then true else bitmap_test bitmap j)
test-set bitmap i j h = ground (
  arith,
  bitmap_test-digit (bitmap_set bitmap i) j,
  bitmap_test-digit bitmap j,
  digit-bitmap_set bitmap i j h,
)

pub test-clear :
    (bitmap : List ℕ) (i j : ℕ)
    → i / 64 < length bitmap
    → bitmap_test (bitmap_clear bitmap i) j ≡ (if i == j then false else bitmap_test bitmap j)
test-clear bitmap i j h = ground (
  arith,
  bitmap_test-digit (bitmap_clear bitmap i) j,
  bitmap_test-digit bitmap j,
  digit-bitmap_clear bitmap i j h,
)

-- Clearing a bit that was just set, and was clear before, restores the array.
pub clear-set :
    (bitmap : List ℕ) (i : ℕ)
    → AreWords bitmap
    → i / 64 < length bitmap
    → bitmap_test bitmap i ≡ false
    → bitmap_clear (bitmap_set bitmap i) i ≡ bitmap
unfolding bitmap_set bitmap_clear
clear-set bitmap i words h free =
    rw (get_or-set_self bitmap (i / 64) (bit_or w mask) 0 h, set-set bitmap (i / 64))
      (rw restored (set-get_or bitmap (i / 64) 0))
  where
    w : ℕ
    w = get_or bitmap (i / 64) 0

    mask : ℕ
    mask = index_to_bit i

    digit_free : digit bitmap i ≡ 0
    digit_free = ground (arith, bitmap_test-digit bitmap i, bit_lt w (i % 64))

    mask_lt : mask < 2 ^ 64
    mask_lt = rw mask_lem (pow-lt i)

    same : (j : ℕ) → j < 64 → bit (bit_and (bit_or w mask) (complement64 mask)) j ≡ bit w j
    same j p = ground (
      arith,
      bit-bit_and (bit_or w mask) (complement64 mask) j,
      bit-bit_or w mask j,
      bit-complement 64 mask j mask_lt p,
      ap (λ (t : ℕ). bit t j) (mask_lem i),
      bit-pow (i % 64) j,
      bit_lt w j,
      digit_free,
      λ (e : i % 64 ≡ j). ap (bit w) e,
    )

    restored : bit_and (bit_or w mask) (complement64 mask) ≡ w
    restored =
        bit_ext 64 _ w (bit_and_lt 64 _ _ (bit_or_lt 64 w mask (words (i / 64)) mask_lt))
          (words (i / 64)) same
