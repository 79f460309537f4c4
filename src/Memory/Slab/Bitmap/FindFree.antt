-- ===== src/Memory/Slab/Bitmap/FindFree.antt =====
-- `bitmap_find_free` of src/cfiber/memory/slab_alloc.c returns the lowest clear bit.
use cfiber.Common.{
  ℕ, zero, suc, ◌+◌, ◌-◌, ◌*◌, ◌/◌, ◌%◌, ◌^◌, ◌≤◌, ◌<◌, ◌≡◌, ap, inl, inr, ◌≢◌, true, false, List,
  Option, none, some, arith, ltb, ◌==◌, get_or, Bool-cases, dec_lt,
}
use cfiber.Common.Bits.{bit, bit_lt, bit-zero, bit-complement, ctz, ctz_lem}
use cfiber.Core.{u32, complement64}
use cfiber.Memory.Slab.Bitmap.{bitmap_test, find_free_from, bitmap_find_free}
use cfiber.Memory.Slab.Bitmap.Laws.{AreWords, digit, bitmap_test-digit}

-- What a search for the lowest clear bit below `capacity` returns.
abbrev pub IsLowestFree : List ℕ → ℕ → Option ℕ → Type 0
IsLowestFree bitmap capacity none = (j : ℕ) → j < capacity → bitmap_test bitmap j ≡ true
IsLowestFree bitmap capacity (some i) =
    (i < capacity)
    × (bitmap_test bitmap i ≡ false)
    × ((j : ℕ) → j < i → bitmap_test bitmap j ≡ true)

-- A word is full if nothing is left of its complement.
module _ (bitmap : List ℕ) (words : AreWords bitmap) (k : ℕ) where
  abbrev inv : ℕ
  inv = complement64 (get_or bitmap k 0)

  inv-digit : (j : ℕ) → j / 64 ≡ k → bit inv (j % 64) ≡ 1 - digit bitmap j
  inv-digit j e = ground (
    arith,
    bit-complement 64 (get_or bitmap k 0) (j % 64) (words k) (omega arith),
    ap (λ (t : ℕ). bit (get_or bitmap t 0) (j % 64)) e,
  )

  inv_lt : inv < 2 ^ 64
  inv_lt = omega arith

  -- a word without a clear bit
  full_word : inv ≡ 0 → (j : ℕ) → j / 64 ≡ k → bitmap_test bitmap j ≡ true
  full_word e j q = ground (
    arith,
    bitmap_test-digit bitmap j,
    inv-digit j q,
    ap (λ (t : ℕ). bit t (j % 64)) e,
    bit-zero (j % 64),
    bit_lt (get_or bitmap (j / 64) 0) (j % 64),
  )

  -- a word with one
  lowest_in_word :
      inv ≢ 0
      → (ctz 64 inv < 64)
        × (bitmap_test bitmap (k * 64 + ctz 64 inv) ≡ false)
        × ((j : ℕ) → j / 64 ≡ k → j < k * 64 + ctz 64 inv → bitmap_test bitmap j ≡ true)
  lowest_in_word ne = (
    found.0,
    ground (
      arith,
      bitmap_test-digit bitmap (k * 64 + ctz 64 inv),
      inv-digit (k * 64 + ctz 64 inv) (omega (arith, found.0)),
      ap (bit inv) here,
      found.1,
    ),
    λ j q p. ground (
      arith,
      bitmap_test-digit bitmap j,
      inv-digit j q,
      found.2 (j % 64) (omega arith),
      bit_lt (get_or bitmap (j / 64) 0) (j % 64),
    ),
  )
    where
      found :
          (ctz 64 inv < 64)
          × (bit inv (ctz 64 inv) ≡ 1)
          × ((i : ℕ) → i < ctz 64 inv → bit inv i ≡ 0)
      found = ctz_lem 64 inv (omega arith) inv_lt

      here : (k * 64 + ctz 64 inv) % 64 ≡ ctz 64 inv
      here = omega (arith, found.0)

after_round :
    (bitmap : List ℕ) (capacity i : ℕ)
    → ((j : ℕ) → j < i * 64 → j < capacity → bitmap_test bitmap j ≡ true)
    → ((j : ℕ) → j / 64 ≡ i → j < capacity → bitmap_test bitmap j ≡ true)
    → (j : ℕ) → j < (i + 1) * 64
    → j < capacity
    → bitmap_test bitmap j ≡ true
after_round bitmap capacity i before h j p q = elim (dec_lt j (i * 64)) [
  | yes earlier ↦ before j earlier q
  | no here ↦ h j (omega arith) q
]

below_index :
    (bitmap : List ℕ) (capacity i index : ℕ)
    → index < capacity
    → index < (i + 1) * 64
    → ((j : ℕ) → j < i * 64 → j < capacity → bitmap_test bitmap j ≡ true)
    → ((j : ℕ) → j / 64 ≡ i → j < index → bitmap_test bitmap j ≡ true)
    → (j : ℕ) → j < index
    → bitmap_test bitmap j ≡ true
below_index bitmap capacity i index c d before h j p = elim (dec_lt j (i * 64)) [
  | yes earlier ↦ before j earlier (omega arith)
  | no here ↦ h j (omega arith) p
]

lower_half : (index : ℕ) → index < 2 ^ 31 → ltb index (2 ^ 31) ≡ true
lower_half index p = ground arith

-- The loop, once every bit of the words before `i` is known to be set.
find_free_from-IsLowestFree :
    (bitmap : List ℕ) (capacity left i : ℕ)
    → AreWords bitmap
    → i + left ≤ 2 ^ 25
    → capacity ≤ (i + left) * 64
    → ((j : ℕ) → j < i * 64 → j < capacity → bitmap_test bitmap j ≡ true)
    → IsLowestFree bitmap capacity (find_free_from bitmap capacity left i)
unfolding find_free_from
find_free_from-IsLowestFree bitmap capacity zero i words small fits before =
    λ j p. before j (omega arith) p
find_free_from-IsLowestFree bitmap capacity (suc left) i words small fits before =
    let inv = complement64 (get_or bitmap i 0) in
    let index = u32 (i * 64 + ctz 64 inv) in
    let rest = λ (h : (j : ℕ) → j / 64 ≡ i → j < capacity → bitmap_test bitmap j ≡ true).
      find_free_from-IsLowestFree bitmap capacity left (i + 1) words (omega arith) (omega arith)
        (λ j p q. after_round bitmap capacity i before h j p q) in
    elim (Bool-cases (inv == 0)) [
      | inl full ↦ rw full (rest (λ j q _. full_word bitmap words i (ground arith) j q))
      | inr open_word ↦
          let low = lowest_in_word bitmap words i (ground arith) in
          let exact : index ≡ i * 64 + ctz 64 inv = omega (arith, low.0) in
          elim (Bool-cases (ltb index capacity)) [
            | inl in_range ↦
                rw (open_word, in_range, lower_half index (omega (arith, low.0)))
                  (
                    ground arith,
                    rw exact (low.1),
                    below_index bitmap capacity i index (ground arith) (omega (arith, low.0)) before
                        (λ j q p. low.2 j q (omega arith)),
                  )
            | inr past ↦ rw (open_word, past) (rest (λ j q p. low.2 j q (ground arith)))
          ]
    ]

-- `bitmap_find_free` returns the lowest clear bit below the capacity, and `none` only if there is
-- none.
pub bitmap_find_free-IsLowestFree :
    (bitmap : List ℕ) (words capacity : ℕ)
    → AreWords bitmap
    → words ≤ 2 ^ 25
    → capacity ≤ words * 64
    → IsLowestFree bitmap capacity (bitmap_find_free bitmap words capacity)
unfolding bitmap_find_free
bitmap_find_free-IsLowestFree bitmap words capacity h small fits =
    find_free_from-IsLowestFree bitmap capacity words 0 h (omega arith) (omega arith)
      (λ j p q. absurd (omega arith))
