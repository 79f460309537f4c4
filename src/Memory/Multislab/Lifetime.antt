-- ===== src/Memory/Multislab/Lifetime.antt =====
-- The beginning and the end of a multislab: `cfiber_multislab_init_ext` and
-- `cfiber_multislab_destroy`.
use native.Mathlib.Nat.{le-div_iff_mul-le, mul_comm}
use cfiber.Common.{
  ℕ, ◌+◌, ◌-◌, ◌*◌, ◌/◌, ◌%◌, ◌^◌, ◌≤◌, ◌<◌, ◌≡◌, ◌⊎◌, inl, inr, refl, Bool, true, false, ◌&&◌,
  List, [], ◌∷◌, none, some, arith, one_if, one_if-injective, Option-cases, ◌↔◌,
}
use cfiber.Memory.Backing.{Backing, Laws}
use cfiber.Memory.Multislab.{
  Node, Multislab, multislab_init_ext, multislab_destroy, free_node_list, multislab_free_node,
}
use cfiber.Memory.Multislab.Views.{sum_by, node_regions, handed_out}
use cfiber.Memory.Multislab.Invariant.{Inv, KeepsReserve}
use cfiber.Memory.Multislab.Release.Free.{free_node-Sound, free_node-held}

-- The configurations that `cfiber_multislab_init_ext` documents.
pub record Configures (block_size blocks_per_slab : ℕ) : Type 0 where
  pub block_pos : 64 ≤ block_size
  pub line_multiple : block_size % 64 ≡ 0
  pub per_slab_pos : 0 < blocks_per_slab
  pub per_slab_le : blocks_per_slab ≤ 512
  pub no_overflow : block_size * blocks_per_slab < 2 ^ 64

quotient_bound : (b n : ℕ) → 0 < b → (n ≤ (2 ^ 64 - 1) / b) ↔ (b * n < 2 ^ 64)
quotient_bound b n h = (
  λ e.
      let product = (le-div_iff_mul-le {k = b} {x = n} {y = 2 ^ 64 - 1} h).0 e in
      omega (arith, mul_comm b n),
  λ e. (le-div_iff_mul-le {k = b} {x = n} {y = 2 ^ 64 - 1} h).1 (omega (arith, mul_comm b n)),
)

abbrev pub initial : ℕ → ℕ → ℕ → ℕ → Multislab
initial block_size blocks_per_slab max_slabs hysteresis_threshold = record {
  active = [];
  full = [];
  block_size = block_size;
  blocks_per_slab = blocks_per_slab;
  slab_memory_size = block_size * blocks_per_slab;
  slab_count = 0;
  max_slabs = max_slabs;
  empty_count = 0;
  max_empty_reserve = hysteresis_threshold;
}

init-Configures :
    (bs n m h : ℕ)
    → Configures bs n
    → multislab_init_ext bs n m h true true ≡ some (initial bs n m h)
unfolding multislab_init_ext
init-Configures bs n m h c =
    let bound = (quotient_bound bs n (omega (arith, c.block_pos))).1 c.no_overflow in ground arith

init_only :
    (bs n m h : ℕ) (ms : Multislab)
    → multislab_init_ext bs n m h true true ≡ some ms
    → Configures bs n
unfolding multislab_init_ext
init_only bs n m h ms e =
    let pos : 64 ≤ bs = ground arith in
    let product = (quotient_bound bs n (omega arith)).0 (ground arith) in ground arith

pub initial-Inv :
    {b : Backing} (laws : Laws b) (st : b.State) (bs n m h : ℕ)
    → laws.Sound st
    → Configures bs n
    → Inv laws (laws.held st) (initial bs n m h) st
initial-Inv laws st bs n m h sound c = record {
  block_pos = c.block_pos;
  per_slab_pos = c.per_slab_pos;
  per_slab_le = c.per_slab_le;
  memory_size = mul_comm bs n;
  line_multiple = c.line_multiple;
  active_ok = tt;
  full_ok = tt;
  counted = omega arith;
  small = omega arith;
  limited = inr (omega arith);
  empties_counted = omega arith;
  sound = sound;
  accounts = λ q k. omega arith;
}

no_callback :
    (bs n m h : ℕ) (mem_alloc mem_free : Bool)
    → (mem_alloc && mem_free) ≡ false
    → multislab_init_ext bs n m h mem_alloc mem_free ≡ none
unfolding multislab_init_ext
no_callback bs n m h mem_alloc mem_free e = ground arith

-- A multislab with the given parameters, and without slabs.
pub record AsAsked (block_size blocks_per_slab max_slabs threshold : ℕ) (ms : Multislab)
    : Type 0 where
  pub block : ms.block_size ≡ block_size
  pub per_slab : ms.blocks_per_slab ≡ blocks_per_slab
  pub limit : ms.max_slabs ≡ max_slabs
  pub reserve : ms.max_empty_reserve ≡ threshold
  pub no_active : ms.active ≡ []
  pub no_full : ms.full ≡ []

-- `cfiber_multislab_init_ext` succeeds exactly on the documented configurations with both callbacks
-- there. What it makes has the parameters that it was given and no slab yet, is well formed, keeps
-- its reserve, and has no block handed out.
pub multislab_init_lem :
    {b : Backing} (laws : Laws b) (st : b.State)
    (block_size blocks_per_slab max_slabs threshold : ℕ) (mem_alloc mem_free : Bool)
    → laws.Sound st
    → let r =
        multislab_init_ext block_size blocks_per_slab max_slabs threshold mem_alloc mem_free in
      ((r ≡ none)
        × ¬ (Configures block_size blocks_per_slab × (mem_alloc ≡ true) × (mem_free ≡ true)))
      ⊎ ((ms : Multislab) × (r ≡ some ms)
          × (Configures block_size blocks_per_slab × (mem_alloc ≡ true) × (mem_free ≡ true))
          × AsAsked block_size blocks_per_slab max_slabs threshold ms
          × Inv laws (laws.held st) ms st
          × KeepsReserve ms
          × ((q : ℕ) → handed_out ms q ≡ 0))
multislab_init_lem laws st bs n m h false mem_free sound =
    inl (no_callback bs n m h false mem_free refl, λ c. absurd (cc (c.1)))
multislab_init_lem laws st bs n m h true false sound =
    inl (no_callback bs n m h true false refl, λ c. absurd (cc (c.2)))
multislab_init_lem laws st bs n m h true true sound =
    elim (Option-cases (multislab_init_ext bs n m h true true)) [
      | inl e ↦ inl (e, λ c. cc (e, init-Configures bs n m h c.0))
      | inr (ms, e) ↦
          let c = init_only bs n m h ms e in
          inr (
            initial bs n m h,
            init-Configures bs n m h c,
            (c, refl, refl),
            record {
              block = refl;
              per_slab = refl;
              limit = refl;
              reserve = refl;
              no_active = refl;
              no_full = refl;
            },
            initial-Inv laws st bs n m h sound c,
            inl (omega arith),
            λ q. omega arith,
          )
    ]

module _ {b : Backing} (laws : Laws b) (ms : Multislab) where
  -- Freeing a list of nodes leaves what does not belong to them.
  free_node_list_lem :
      (xs : List Node) (st : b.State) (rest : ℕ → ℕ → ℕ)
      → laws.Sound st
      → ((q m : ℕ)
          → one_if (laws.held st q m) ≡ rest q m + sum_by (node_regions ms.slab_memory_size q m) xs)
      → laws.Sound (free_node_list b ms xs st)
        × ((q m : ℕ) → one_if (laws.held (free_node_list b ms xs st) q m) ≡ rest q m)
  unfolding free_node_list
  free_node_list_lem [] st rest sound e = (sound, λ q m. omega (arith, e q m))
  free_node_list_lem (n ∷ xs) st rest sound e =
      let share = λ (q m : ℕ).
        let le : node_regions ms.slab_memory_size q m n ≤ one_if (laws.held st q m) =
          omega (arith, e q m) in
        le in
      free_node_list_lem xs (multislab_free_node b ms n st) rest
        (free_node-Sound laws ms n st sound share)
        (λ q m. omega (arith, e q m, free_node-held laws ms n st sound share q m))

-- `cfiber_multislab_destroy` gives every region of a well-formed multislab back to the backing
-- allocator: what is held afterwards is what others held.
pub multislab_destroy-held :
    {b : Backing} (laws : Laws b) (base : ℕ → ℕ → Bool) (ms : Multislab) (st : b.State)
    → Inv laws base ms st
    → laws.Sound (multislab_destroy b ms st).1
      × ((q m : ℕ) → laws.held (multislab_destroy b ms st).1 q m ≡ base q m)
unfolding multislab_destroy
multislab_destroy-held {b} laws base ms st inv =
    let (sound1, left1) =
      free_node_list_lem laws ms ms.active st
        (λ q m. one_if (base q m) + sum_by (node_regions ms.slab_memory_size q m) ms.full) inv.sound
        (λ q m. omega (arith, inv.accounts q m)) in
    let (sound2, left2) =
      free_node_list_lem laws ms ms.full (free_node_list b ms ms.active st)
        (λ q m. one_if (base q m)) sound1 left1 in
    (sound2, λ q m. one_if-injective _ _ (left2 q m))
