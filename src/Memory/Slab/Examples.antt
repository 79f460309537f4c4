-- ===== src/Memory/Slab/Examples.antt =====
-- The slab on concrete memory: three blocks of 64 bytes at address 4096.
use cfiber.Common.{
  ℕ, zero, suc, ◌^◌, ◌<◌, ◌≡◌, ◌⊎◌, refl, true, false, List, [], ◌∷◌, none, some, arith,
}
use cfiber.Common.Bits.{ctz}
use cfiber.Memory.Slab.{Slab, slab_init, slab_alloc, slab_release, index_to_ptr, ptr_to_index}
use cfiber.Memory.Slab.Bitmap.{bitmap_find_free, bitmap_set, bitmap_test, bitmap_clear}
use cfiber.Memory.Slab.Bitmap.FindFree.{IsLowestFree, bitmap_find_free-IsLowestFree}
use cfiber.Memory.Slab.Bitmap.Laws.{AreWords}
use cfiber.Memory.Slab.Invariant.{is_used, IsValid, Accepts, slab_init_lem}
use cfiber.Memory.Slab.Alloc.{Allocs, slab_alloc-Allocs}
use cfiber.Memory.Slab.Release.{
  Releases, slab_release-Releases, slab_release_defensive, slab_release-alloc,
}

abbrev words_of : ℕ → List ℕ
words_of w = w ∷ 0 ∷ 0 ∷ 0 ∷ 0 ∷ 0 ∷ 0 ∷ 0 ∷ []

abbrev three : ℕ → Slab
three w = record {
  memory = 4096;
  block_size = 64;
  block_count = 3;
  bitmap = words_of w;
  bitmap_count = 1;
}

words_of-AreWords : (w : ℕ) → w < 2 ^ 64 → AreWords (words_of w)
words_of-AreWords w h zero = h
words_of-AreWords w h (suc zero) = omega arith
words_of-AreWords w h (suc (suc zero)) = omega arith
words_of-AreWords w h (suc (suc (suc zero))) = omega arith
words_of-AreWords w h (suc (suc (suc (suc zero)))) = omega arith
words_of-AreWords w h (suc (suc (suc (suc (suc zero))))) = omega arith
words_of-AreWords w h (suc (suc (suc (suc (suc (suc zero)))))) = omega arith
words_of-AreWords w h (suc (suc (suc (suc (suc (suc (suc zero))))))) = omega arith
words_of-AreWords w h (suc (suc (suc (suc (suc (suc (suc (suc k)))))))) = omega arith

three-IsValid : (w : ℕ) → w < 2 ^ 64 → IsValid (three w)
three-IsValid w h = record {
  block_pos = omega arith;
  count_pos = omega arith;
  count_le = omega arith;
  bitmap_length = refl;
  words = words_of-AreWords w h;
  word_count = refl;
  fits = omega arith;
}

init_three : slab_init 64 4096 200 ≡ some (three 0)
unfolding slab_init
init_three = refl

init_unaligned : slab_init 64 4100 200 ≡ none
unfolding slab_init
init_unaligned = refl

-- block 0 is in use, so block 1 is next
alloc_second : slab_alloc (three 1) ≡ (some 4160, three 3)
unfolding slab_alloc bitmap_find_free ctz index_to_ptr bitmap_set
alloc_second = refl

release_first : slab_release true (three 3) 4096 ≡ (true, three 2)
unfolding slab_release ptr_to_index bitmap_test bitmap_clear
release_first = refl

release_twice : slab_release true (three 2) 4096 ≡ (false, three 2)
unfolding slab_release ptr_to_index bitmap_test bitmap_clear
release_twice = refl

release_misaligned : slab_release true (three 3) 4097 ≡ (false, three 3)
unfolding slab_release ptr_to_index bitmap_test bitmap_clear
release_misaligned = refl

bitmap_find_free-IsLowestFree_example :
    IsLowestFree (words_of 5) 3 (bitmap_find_free (words_of 5) 1 3)
bitmap_find_free-IsLowestFree_example =
    bitmap_find_free-IsLowestFree (words_of 5) 1 3 (words_of-AreWords 5 (omega arith)) (omega arith)
      (omega arith)

slab_init_lem_example :
    ((slab_init 64 4096 200 ≡ none) × ¬ Accepts 64 4096 200)
    ⊎ ((s : Slab) × (slab_init 64 4096 200 ≡ some s)
        × Accepts 64 4096 200
        × IsValid s
        × (s.memory ≡ 4096)
        × (s.block_size ≡ 64)
        × (s.block_count ≡ 3)
        × ((i : ℕ) → is_used s i ≡ false))
slab_init_lem_example = slab_init_lem 64 4096 200 (omega arith)

slab_alloc-Allocs_example : Allocs (three 1) (slab_alloc (three 1))
slab_alloc-Allocs_example = slab_alloc-Allocs (three-IsValid 1 (omega arith))

slab_release-Releases_example : Releases (three 3) 4160 (slab_release true (three 3) 4160)
slab_release-Releases_example =
    slab_release-Releases (three-IsValid 3 (omega arith)) 4160 (omega arith)

slab_release_defensive_example :
    slab_release false (three 3) 4160 ≡ slab_release true (three 3) 4160
unfolding bitmap_test
slab_release_defensive_example =
    slab_release_defensive (three-IsValid 3 (omega arith)) 1 (omega arith) refl

slab_release-alloc_example : slab_release true (three 3) 4160 ≡ (true, three 1)
slab_release-alloc_example =
    slab_release-alloc (three-IsValid 1 (omega arith)) true 4160 alloc_second
