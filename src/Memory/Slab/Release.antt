-- ===== src/Memory/Slab/Release.antt =====
-- `cfiber_slab_release`: which pointers it takes back, and that it undoes `cfiber_slab_alloc`.
use native.Mathlib.Nat.{
  eq_of_mul-eq-mul_right, mod-eq_of_lt, mul-div_cancel, mul-mod_left, mul_comm, div-lt_iff_lt-mul,
}
use cfiber.Common.{
  ℕ, ◌+◌, ◌-◌, ◌*◌, ◌/◌, ◌%◌, ◌^◌, ◌≤◌, ◌<◌, ◌≡◌, ◌≢◌, refl, sym, ap, ap₂, ◌∙◌, List, inl, inr,
  Bool, true, false, not, ◌&&◌, ◌||◌, some, arith, ltb, leb, ◌==◌, if◌then◌else◌, Bool-cases, eq→==,
  div-mul_of_mod-zero,
}
use cfiber.Core.{u64, sub64}
use cfiber.Memory.Slab.{Slab, slab_alloc, slab_release, in_slab, ptr_to_index}
use cfiber.Memory.Slab.Bitmap.{bitmap_clear, bitmap_set}
use cfiber.Memory.Slab.Bitmap.Laws.{
  test-set, test-clear, bitmap_clear-AreWords, length-bitmap_clear, clear-set,
}
use cfiber.Memory.Slab.Invariant.{is_used, block_at, IsValid, SameShape, block_fits}
use cfiber.Memory.Slab.Alloc.{in_bitmap, set-IsValid, slab_alloc-some}

passed :
    (low high p rest : ℕ)
    → (not (ltb p low || leb high p) && rest == 0) ≡ true
    → (low ≤ p) × (p < high) × (rest ≡ 0)
passed low high p rest e = ground arith

-- What `cfiber_slab_release` may do with the pointer `p`.
pub data Releases (s : Slab) (p : ℕ) (r : Bool × Slab) : Type 0 where
  freed :
      (i : ℕ)
      → i < s.block_count
      → p ≡ block_at s i
      → is_used s i ≡ true
      → r.0 ≡ true
      → SameShape s r.1
      → ((j : ℕ) → is_used r.1 j ≡ (if i == j then false else is_used s j))
      → Releases s p r
  rejected :
      ((i : ℕ) → i < s.block_count → is_used s i ≡ true → p ≢ block_at s i)
      → r.0 ≡ false
      → r.1 ≡ s
      → Releases s p r

module _ {s : Slab} (v : IsValid s) where
  offset_lem : (i : ℕ) → i < s.block_count → sub64 (block_at s i) s.memory ≡ i * s.block_size
  offset_lem i h = omega (arith, block_fits v i h)

  -- `ptr_to_index` finds the block that an address belongs to.
  pub ptr_to_index-block_at : (i : ℕ) → i < s.block_count → ptr_to_index s (block_at s i) ≡ i
  unfolding ptr_to_index
  ptr_to_index-block_at i h =
      rw (offset_lem i h, mul-div_cancel i v.block_pos) (omega (arith, v.count_le))

  end_lem :
      u64 (s.memory + u64 (s.block_size * s.block_count)) ≡ s.memory + s.block_count * s.block_size
  end_lem =
      rw
        (
          mul_comm s.block_size s.block_count,
          mod-eq_of_lt {n = s.block_count * s.block_size} {m = 2 ^ 64} (omega (arith, v.fits)),
        )
        (omega (arith, v.fits))

  in_slab-block_at : (i : ℕ) → i < s.block_count → in_slab s (block_at s i) ≡ true
  unfolding in_slab
  in_slab-block_at i h =
      rw (offset_lem i h, end_lem, mul-mod_left i s.block_size)
        (grind (arith, block_fits v i h, v.block_pos))

  in_slab_facts :
      (p : ℕ)
      → p < 2 ^ 64
      → in_slab s p ≡ true
      → (s.memory ≤ p)
        × (p < s.memory + s.block_count * s.block_size)
        × ((p - s.memory) % s.block_size ≡ 0)
  unfolding in_slab
  in_slab_facts p word e =
      let (above, below, even) = passed s.memory _ p _ e in
      let offset : sub64 p s.memory ≡ p - s.memory = omega arith in
      (above, rw end_lem at below, rw offset at even)

  -- An address that passes the checks is that of a block.
  in_slab_only :
      (p : ℕ) → p < 2 ^ 64 → in_slab s p ≡ true → (i : ℕ) × (i < s.block_count) × (p ≡ block_at s i)
  unfolding in_slab
  in_slab_only p word e =
      let facts : (s.memory ≤ p)
          × (p < s.memory + s.block_count * s.block_size)
          × ((p - s.memory) % s.block_size ≡ 0) =
        in_slab_facts p word e in
      let whole = div-mul_of_mod-zero (p - s.memory) s.block_size facts.2 in
      ((p - s.memory) / s.block_size, (div-lt_iff_lt-mul v.block_pos).1 (omega arith), omega arith)

-- A used block is released, whether or not the defensive checks are compiled in.
release_used :
    {s : Slab}
    → IsValid s
    → (defensive : Bool) → (i : ℕ) → i < s.block_count
    → is_used s i ≡ true
    → slab_release defensive s (block_at s i)
      ≡ (true, record s { bitmap = bitmap_clear s.bitmap i })
unfolding slab_release
release_used v true i h e = rw (in_slab-block_at v i h, ptr_to_index-block_at v i h, e)
release_used v false i h e = rw (ptr_to_index-block_at v i h)

release_unused :
    {s : Slab}
    → IsValid s
    → (i : ℕ) → i < s.block_count
    → is_used s i ≡ false
    → slab_release true s (block_at s i) ≡ (false, s)
unfolding slab_release
release_unused v i h e = rw (in_slab-block_at v i h, ptr_to_index-block_at v i h, e)

release_foreign : (s : Slab) (p : ℕ) → in_slab s p ≡ false → slab_release true s p ≡ (false, s)
unfolding slab_release
release_foreign s p e = rw e

-- Two blocks of a slab have two addresses.
pub block_at-injective : {s : Slab} → IsValid s → (i j : ℕ) → block_at s i ≡ block_at s j → i ≡ j
block_at-injective {s} v i j e = eq_of_mul-eq-mul_right s.block_size v.block_pos i j (omega arith)

freed_result :
    {s : Slab}
    → IsValid s
    → (i : ℕ) → i < s.block_count
    → is_used s i ≡ true
    → Releases s (block_at s i) (true, record s { bitmap = bitmap_clear s.bitmap i })
freed_result {s} v i h e =
    freed i h refl e refl (refl, refl, refl, refl) (λ j. test-clear s.bitmap i j (in_bitmap v i h))

-- On a well-formed slab, and with the defensive checks, `cfiber_slab_release` takes back exactly the
-- addresses of blocks that are handed out, and then frees that block alone. Any other pointer is
-- rejected, and the slab stays as it is.
pub slab_release-Releases :
    {s : Slab} → IsValid s → (p : ℕ) → p < 2 ^ 64 → Releases s p (slab_release true s p)
slab_release-Releases {s} v p word = elim (Bool-cases (in_slab s p)) [
  | inl inside ↦
      let (i, h, e) = in_slab_only v p word inside in
      elim (Bool-cases (is_used s i)) [
        | inl used ↦ rw (e, release_used v true i h used) (freed_result v i h used)
        | inr unused ↦
            rw (e, release_unused v i h unused)
              (rejected (λ j q u same. cc (u, unused, block_at-injective v i j same)) refl refl)
      ]
  | inr outside ↦
      rw (release_foreign s p outside)
        (rejected (λ j q u same. cc (outside, in_slab-block_at v j q, same)) refl refl)
]

-- The defensive checks change nothing for the address of a block that is handed out.
pub slab_release_defensive :
    {s : Slab}
    → IsValid s
    → (i : ℕ) → i < s.block_count
    → is_used s i ≡ true
    → slab_release false s (block_at s i) ≡ slab_release true s (block_at s i)
slab_release_defensive v i h e = release_used v false i h e ∙ sym (release_used v true i h e)

pub slab_release-IsValid :
    {s : Slab} → IsValid s → (defensive : Bool) (p : ℕ) → IsValid (slab_release defensive s p).1
unfolding slab_release
slab_release-IsValid {s} v defensive p = ground (arith, cleared-IsValid (ptr_to_index s p))
  where
    cleared-IsValid : (i : ℕ) → IsValid (record s { bitmap = bitmap_clear s.bitmap i })
    cleared-IsValid i = record {
      block_pos = v.block_pos;
      count_pos = v.count_pos;
      count_le = v.count_le;
      bitmap_length = length-bitmap_clear s.bitmap i ∙ v.bitmap_length;
      words = bitmap_clear-AreWords s.bitmap i v.words;
      word_count = v.word_count;
      fits = v.fits;
    }

-- A block that `cfiber_slab_alloc` has just handed out can be released, and this restores the slab
-- to what it was, bit for bit.
pub slab_release-alloc :
    {s t : Slab}
    → IsValid s
    → (defensive : Bool) → (p : ℕ) → slab_alloc s ≡ (some p, t)
    → slab_release defensive t p ≡ (true, s)
slab_release-alloc {s} {t} v defensive p e =
    let (i, lt, free, at_i, after) = slab_alloc-some v p e in
    let h = in_bitmap v i lt in
    let w : IsValid (record s { bitmap = bitmap_set s.bitmap i }) = set-IsValid v i in
    let used : is_used (record s { bitmap = bitmap_set s.bitmap i }) i ≡ true =
      rw (test-set s.bitmap i i h, eq→== i i refl) in
    let released = release_used w defensive i lt used in
    ap₂ (slab_release defensive) after at_i
    ∙ released
    ∙ ap (λ (w : List ℕ). (true, record s { bitmap = w })) (clear-set s.bitmap i v.words h free)
