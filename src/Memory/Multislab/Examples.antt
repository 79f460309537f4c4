-- ===== src/Memory/Multislab/Examples.antt =====
-- A multislab of slabs of two blocks of 64 bytes, two slabs at most, over an empty arena.
use cfiber.Common.{ℕ, ◌≡◌, ◌⊎◌, inl, refl, Bool, true, false, [], ◌∷◌, Option, none, some, arith}
use cfiber.Common.Bits.{ctz}
use cfiber.Memory.Slab.{slab_init, slab_alloc, slab_release, index_to_ptr, ptr_to_index}
use cfiber.Memory.Slab.Bitmap.{bitmap_find_free, bitmap_test, bitmap_set, bitmap_clear}
use cfiber.Memory.Backing.Arena.{Arena, ArenaSound, arena, arena_laws}
use cfiber.Memory.Multislab.{
  Multislab, multislab_init_ext, multislab_alloc, multislab_release, multislab_destroy,
  find_owning_slab,
}
use cfiber.Memory.Multislab.Views.{handed_out}
use cfiber.Memory.Multislab.Invariant.{Inv, KeepsReserve}
use cfiber.Memory.Multislab.Alloc.Outcome.{Allocated, multislab_alloc-Allocated, Allocated-Inv}
use cfiber.Memory.Multislab.Release.Outcome.{Released, multislab_release-Released}
use cfiber.Memory.Multislab.Lifetime.{
  AsAsked, Configures, initial, initial-Inv, multislab_init_lem, multislab_destroy-held,
}

abbrev arena0 : Arena
arena0 = record { next = 4096; live = [] }

arena0-Sound : ArenaSound arena0
arena0-Sound = record { aligned = omega arith; in_space = omega arith; below = tt }

abbrev nobody : ℕ → ℕ → Bool
nobody q m = false

abbrev ms0 : Multislab
ms0 = initial 64 2 2 0

abbrev step1 : Option ℕ × Multislab × Arena
step1 = multislab_alloc arena ms0 arena0

abbrev step2 : Option ℕ × Multislab × Arena
step2 = multislab_alloc arena step1.1 step1.2

-- The node takes 128 bytes at 4096, the slab's two blocks follow at 4224.
first_block : step1.0 ≡ some 4224
unfolding multislab_alloc slab_init slab_alloc bitmap_find_free ctz index_to_ptr bitmap_set
first_block = refl

-- It can be released, and the slab stays, since it is the only one.
released_block : (multislab_release arena step1.1 4224 step1.2).0 ≡ record ms0 {
  active =
      record {
        addr = 4096;
        slab = record {
          memory = 4224;
          block_size = 64;
          block_count = 2;
          bitmap = 0 ∷ 0 ∷ 0 ∷ 0 ∷ 0 ∷ 0 ∷ 0 ∷ 0 ∷ [];
          bitmap_count = 1;
        };
        used_count = 0;
        is_full = false;
        raw_memory = 4224;
      }
      ∷ [];
  slab_count = 1;
  empty_count = 1;
}
unfolding multislab_release find_owning_slab multislab_alloc slab_init slab_alloc slab_release
    bitmap_find_free bitmap_test bitmap_clear ptr_to_index ctz index_to_ptr bitmap_set
released_block = refl

configures : Configures 64 2
configures = omega arith

inv0 : Inv arena_laws nobody ms0 arena0
inv0 = initial-Inv arena_laws arena0 64 2 2 0 arena0-Sound configures

multislab_init_lem_example :
    ((multislab_init_ext 64 2 2 0 true true ≡ none)
      × ¬ (Configures 64 2 × (true ≡ true) × (true ≡ true)))
    ⊎ ((ms : Multislab) × (multislab_init_ext 64 2 2 0 true true ≡ some ms)
        × (Configures 64 2 × (true ≡ true) × (true ≡ true))
        × AsAsked 64 2 2 0 ms
        × Inv arena_laws (arena_laws.held arena0) ms arena0
        × KeepsReserve ms
        × ((q : ℕ) → handed_out ms q ≡ 0))
multislab_init_lem_example = multislab_init_lem arena_laws arena0 64 2 2 0 true true arena0-Sound

multislab_alloc-Allocated_example : Allocated arena_laws nobody ms0 arena0 step1
multislab_alloc-Allocated_example =
    multislab_alloc-Allocated arena_laws nobody ms0 arena0 inv0 (inl (omega arith)) (omega arith)

after_step1 : Inv arena_laws nobody step1.1 step1.2 × KeepsReserve step1.1
after_step1 =
    Allocated-Inv (
      multislab_alloc-Allocated arena_laws nobody ms0 arena0 inv0 (inl (omega arith)) (omega arith))

multislab_release-Released_example :
    Released arena_laws nobody step1.1 step1.2 4224 (multislab_release arena step1.1 4224 step1.2)
multislab_release-Released_example =
    multislab_release-Released arena_laws nobody step1.1 step1.2 4224 after_step1.0 after_step1.1
      (omega arith)

multislab_destroy-held_example :
    ArenaSound (multislab_destroy arena step1.1 step1.2).1
    × ((q m : ℕ) → arena_laws.held (multislab_destroy arena step1.1 step1.2).1 q m ≡ false)
multislab_destroy-held_example =
    multislab_destroy-held arena_laws nobody step1.1 step1.2 after_step1.0
