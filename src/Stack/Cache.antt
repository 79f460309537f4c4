-- ===== src/Stack/Cache.antt =====
-- The growable stack allocator of src/cfiber/stack/growable_stack_allocator.c: a cache of mapped
-- stacks, in the order in which they were put there, the last first.
use cfiber.Common.{
  ℕ, zero, suc, ◌+◌, ◌-◌, ◌^◌, ◌<◌, ◌≡◌, ap, arith, Bool, true, false, not, ◌||◌, List, [], ◌∷◌,
  Option, none, some, ltb, leb, ◌==◌, ◌!=◌, if◌then◌else◌, bit_and, length,
}
use cfiber.Core.{u64, sub64}
use cfiber.Stack.Fixed.{Stack}
use cfiber.Stack.Growable.{
  Mapper, growable_stack_create, growable_stack_destroy, growable_stack_recycle,
}

-- `struct cfiber_growable_stack_allocator`; `cache_count` is the length of the cache.
pub record Cache : Type 0 where
  pub max_stack_size : ℕ
  pub total_size : ℕ
  pub cache : List Stack
  pub cache_capacity : ℕ
  pub active_count : ℕ

-- `cfiber_growable_stack_allocator_args_t`
pub record Args : Type 0 where
  pub max_stack_size : ℕ
  pub cache_capacity : ℕ
  pub initial_cached : ℕ

module _ (m : Mapper) where
  open m use {State, page_size}

  -- The loop over the cache, from the stack that was put there first on.
  unfoldable pub destroy_all : List Stack → State → State
  destroy_all [] st = st
  destroy_all (stack ∷ rest) st = (growable_stack_destroy m stack (destroy_all rest st)).1

  unfoldable pub growable_allocator_cleanup : Cache → State → State
  unfolding destroy_all
  growable_allocator_cleanup alloc st = destroy_all alloc.cache st

  -- The loop that fills the cache, with the rounds left; -1 is `none`.
  unfoldable pub prefill : ℕ → Cache → State → Option Cache × State
  unfolding growable_allocator_cleanup
  prefill zero alloc st = (some alloc, st)
  prefill (suc left) alloc st =
      let made = growable_stack_create m alloc.max_stack_size st in
      elim (made.0.mem_base == 0) [
        | true ↦ (none, growable_allocator_cleanup alloc made.1)
        | false ↦ prefill left (record alloc { cache = made.0 ∷ alloc.cache }) made.1
      ]

  -- The first two arguments say whether the call of `calloc` for the struct, and that for the cache,
  -- succeeds.
  unfoldable pub growable_stack_allocator_create : Bool → Bool → Args → State → Option Cache × State
  unfolding prefill growable_allocator_cleanup
  growable_stack_allocator_create has_struct has_cells args st =
      let fresh : Cache = record {
        max_stack_size = args.max_stack_size;
        total_size = u64 (args.max_stack_size + page_size);
        cache = [];
        cache_capacity = args.cache_capacity;
        active_count = 0;
      } in
      let filled = prefill args.initial_cached fresh st in
      if page_size == 0
        || args.max_stack_size == 0
        || bit_and args.max_stack_size (page_size - 1) != 0
        || args.cache_capacity == 0
        || ltb args.cache_capacity args.initial_cached
      then (none, st)
      else if not has_struct
      then (none, st)
      else if has_cells
      then filled
      else (none, growable_allocator_cleanup fresh st)

  -- The answer is -1, `false`, when stacks are still outstanding.
  unfoldable pub growable_stack_allocator_destroy : Cache → State → Bool × State
  unfolding growable_allocator_cleanup
  growable_stack_allocator_destroy alloc st =
      (alloc.active_count == 0, growable_allocator_cleanup alloc st)

  -- With nothing cached: a new stack is counted if it exists.
  unfoldable pub count_made : Cache → Stack × State → Stack × Cache × State
  count_made alloc (stack, st) =
      if stack.mem_base == 0
      then (stack, alloc, st)
      else (stack, record alloc { active_count = u64 (alloc.active_count + 1) }, st)

  unfoldable pub take_cached : Cache → List Stack → State → Stack × Cache × State
  unfolding count_made
  take_cached alloc (stack ∷ rest) st =
      (stack, record alloc { active_count = u64 (alloc.active_count + 1); cache = rest }, st)
  take_cached alloc [] st = count_made alloc (growable_stack_create m alloc.max_stack_size st)

  unfoldable pub growable_stack_alloc : Cache → State → Stack × Cache × State
  unfolding take_cached
  growable_stack_alloc alloc st = take_cached alloc alloc.cache st

  -- The descriptor is cleared in each case.
  unfoldable pub growable_stack_release : Cache → Stack → State → Cache × State
  growable_stack_release alloc stack st =
      if stack.total_size != alloc.total_size
      then (alloc, (growable_stack_destroy m stack st).1)
      else let fewer = record alloc { active_count = sub64 alloc.active_count 1 } in
        if leb alloc.cache_capacity (length alloc.cache)
        then (fewer, (growable_stack_destroy m stack st).1)
        else (record fewer { cache = stack ∷ alloc.cache }, growable_stack_recycle m stack st)

  -- A stack of the allocator's size, released with room in the cache and after at least one was handed
  -- out, is the next one that is handed out, and then the allocator is as it was.
  pub growable_stack_release-alloc :
      (alloc : Cache) (stack : Stack) (st : State)
      → stack.total_size ≡ alloc.total_size
      → length alloc.cache < alloc.cache_capacity
      → 0 < alloc.active_count
      → alloc.active_count < 2 ^ 64
      → let r = growable_stack_release alloc stack st in
        growable_stack_alloc r.0 r.1 ≡ (stack, alloc, r.1)
  unfolding growable_stack_release growable_stack_alloc take_cached
  growable_stack_release-alloc alloc stack st same room some_out small =
      let ours : (stack.total_size != alloc.total_size) ≡ false = ground (arith, same) in
      let fits : leb alloc.cache_capacity (length alloc.cache) ≡ false = ground (arith, room) in
      let back : u64 (sub64 alloc.active_count 1 + 1) ≡ alloc.active_count =
        ground (arith, some_out, small) in
      rw (ours, fits)
        (ap
          (λ (n : ℕ). (stack, record alloc { active_count = n }, growable_stack_recycle m stack st))
          back)
