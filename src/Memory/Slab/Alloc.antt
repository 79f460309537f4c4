-- ===== src/Memory/Slab/Alloc.antt =====
-- `cfiber_slab_alloc`: the lowest free block, or `NULL` when every block is handed out.
use native.Mathlib.Nat.{mod-eq_of_lt}
use cfiber.Common.{
  ℕ, ◌*◌, ◌/◌, ◌^◌, ◌<◌, ◌≡◌, refl, ap, ◌∙◌, length, inl, inr, true, false, Option, none, some,
  arith, ◌==◌, if◌then◌else◌, Option-cases,
}
use cfiber.Memory.Slab.{Slab, slab_alloc, index_to_ptr}
use cfiber.Memory.Slab.Bitmap.{bitmap_set, bitmap_find_free}
use cfiber.Memory.Slab.Bitmap.Laws.{test-set, bitmap_set-AreWords, length-bitmap_set}
use cfiber.Memory.Slab.Bitmap.FindFree.{IsLowestFree, bitmap_find_free-IsLowestFree}
use cfiber.Memory.Slab.Invariant.{is_used, block_at, IsValid, SameShape, block_fits}

-- What `cfiber_slab_alloc` may return for `s`.
pub data Allocs (s : Slab) (r : Option ℕ × Slab) : Type 0 where
  taken :
      (i : ℕ)
      → i < s.block_count
      → is_used s i ≡ false
      → ((j : ℕ) → j < i → is_used s j ≡ true)
      → r.0 ≡ some (block_at s i)
      → SameShape s r.1
      → ((j : ℕ) → is_used r.1 j ≡ (if i == j then true else is_used s j))
      → Allocs s r
  exhausted : ((j : ℕ) → j < s.block_count → is_used s j ≡ true) → r.0 ≡ none → r.1 ≡ s → Allocs s r

index_to_ptr-block_at :
    {s : Slab} → IsValid s → (i : ℕ) → i < s.block_count → index_to_ptr s i ≡ block_at s i
unfolding index_to_ptr
index_to_ptr-block_at {s} v i h =
    let end = block_fits v i h in
    let product = mod-eq_of_lt {n = i * s.block_size} {m = 2 ^ 64} (omega arith) in
    rw product (omega arith)

pub in_bitmap : {s : Slab} → IsValid s → (i : ℕ) → i < s.block_count → i / 64 < length s.bitmap
in_bitmap v i h = omega (arith, v.bitmap_length, v.count_le)

lowest :
    (s : Slab)
    → IsValid s
    → IsLowestFree s.bitmap s.block_count (bitmap_find_free s.bitmap s.bitmap_count s.block_count)
lowest s v =
    bitmap_find_free-IsLowestFree s.bitmap s.bitmap_count s.block_count v.words (omega arith)
      (omega arith)

taken-Allocs :
    {s : Slab}
    → IsValid s
    → (i : ℕ) → IsLowestFree s.bitmap s.block_count (some i)
    → Allocs s (some (index_to_ptr s i), record s { bitmap = bitmap_set s.bitmap i })
taken-Allocs {s} v i (lt, free, lower) =
    taken i lt free lower (ap some (index_to_ptr-block_at v i lt)) (refl, refl, refl, refl)
      (λ j. test-set s.bitmap i j (in_bitmap v i lt))

-- On a well-formed slab `cfiber_slab_alloc` returns the lowest free block and marks that one as
-- handed out; if there is no free block it returns `NULL` and leaves the slab as it is.
pub slab_alloc-Allocs : {s : Slab} → IsValid s → Allocs s (slab_alloc s)
unfolding slab_alloc
slab_alloc-Allocs {s} v =
    elim (Option-cases (bitmap_find_free s.bitmap s.bitmap_count s.block_count)) [
      | inl e ↦ rw (e, slab_alloc) (exhausted (rw e at (lowest s v)) refl refl)
      | inr (i, e) ↦ rw (e, slab_alloc) (taken-Allocs v i (rw e at (lowest s v)))
    ]

pub set-IsValid :
    {s : Slab} → IsValid s → (i : ℕ) → IsValid (record s { bitmap = bitmap_set s.bitmap i })
set-IsValid {s} v i = record {
  block_pos = v.block_pos;
  count_pos = v.count_pos;
  count_le = v.count_le;
  bitmap_length = length-bitmap_set s.bitmap i ∙ v.bitmap_length;
  words = bitmap_set-AreWords s.bitmap i v.words;
  word_count = v.word_count;
  fits = v.fits;
}

-- `cfiber_slab_alloc` keeps the slab well formed.
pub slab_alloc-IsValid : {s : Slab} → IsValid s → IsValid (slab_alloc s).1
unfolding slab_alloc
slab_alloc-IsValid {s} v =
    elim (Option-cases (bitmap_find_free s.bitmap s.bitmap_count s.block_count)) [
      | inl e ↦ rw (e, slab_alloc) v
      | inr (i, e) ↦ rw (e, slab_alloc) (set-IsValid v i)
    ]

-- The slab that a successful call leaves, in full.
pub slab_alloc-some :
    {s t : Slab}
    → IsValid s
    → (p : ℕ) → slab_alloc s ≡ (some p, t)
    → (i : ℕ) × (i < s.block_count)
      × (is_used s i ≡ false)
      × (p ≡ block_at s i)
      × (t ≡ record s { bitmap = bitmap_set s.bitmap i })
unfolding slab_alloc
slab_alloc-some {s} {t} v p e =
    elim (Option-cases (bitmap_find_free s.bitmap s.bitmap_count s.block_count)) [
      | inl f ↦ absurd (cc (rw (f, slab_alloc) at e))
      | inr (i, f) ↦
          let r = rw (f, slab_alloc) at e in
          let low = rw f at (lowest s v) in
          (i, low.0, low.1, ground (arith, index_to_ptr-block_at v i low.0), ground arith)
    ]
