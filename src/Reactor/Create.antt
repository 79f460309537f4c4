-- ===== src/Reactor/Create.antt =====
-- `cfiber_reactor_create` of src/cfiber/reactor/reactor.c, with its clean-up path. What the calls of
-- the system give out, memory and descriptors, is a parameter.
mod Examples
use cfiber.Common.{
  ℕ, zero, suc, ◌+◌, ◌-◌, ◌^◌, ◌≤◌, ◌<◌, ◌≡◌, ◌≢◌, sym, Bool, true, false, ◌||◌, List, Option, none,
  some, ltb, ◌==◌, one_if, if◌then◌else◌, bit_and,
}
use cfiber.Core.{u64, complement64}
use cfiber.Memory.Multislab.{Multislab, multislab_init_ext}
use cfiber.Stack.Growable.{Mapper}
use cfiber.Stack.Cache.{Cache, Args, growable_stack_allocator_create}

-- What is asked for: the reactor's struct, the cells of its command ring, and two descriptors.
pub data Thing : Type 0 where
  the_struct ring_cells epoll_fd event_fd : Thing

-- `calloc` or `aligned_alloc`, `epoll_create1`, `eventfd`, the `epoll_ctl` for the control channel;
-- `free` and `close`. `true` is success.
pub record Sys : Type 1 where
  pub State : Type 0
  pub get_memory : Thing → State → Bool × State
  pub epoll_create : State → Bool × State
  pub eventfd : State → Bool × State
  pub control_add : State → Bool × State
  pub free : Thing → State → State
  pub close : Thing → State → State

-- `cfiber_reactor_config_t`
pub record ReactorConfig : Type 0 where
  pub stack_size : ℕ
  pub stack_cache : ℕ

-- What a new reactor has.
pub record Made : Type 0 where
  pub fibers : Multislab
  pub stacks : Cache
  pub stack_size : ℕ

abbrev pub is_made : Option Made → Bool
is_made none = false
is_made (some r) = true

-- `maxs`
abbrev pub rounded : ℕ → ℕ → ℕ
rounded page size =
    let maxs = bit_and (u64 (size + page - 1)) (complement64 (page - 1)) in
    if ltb maxs page then page else maxs

module _ (sys : Sys) (m : Mapper) where
  open sys use {State, get_memory, epoll_create, eventfd, control_add, free, close}

  -- One of thing `t`, if it is there, as counted for thing `u`.
  unfoldable pub share : Bool → Thing → Thing → ℕ
  share false t u = 0
  share true the_struct the_struct = 1
  share true ring_cells ring_cells = 1
  share true epoll_fd epoll_fd = 1
  share true event_fd event_fd = 1
  share true _ _ = 0

  -- What is there in the course of the creation.
  abbrev pub holding : Bool → Bool → Bool → Thing → ℕ
  holding evfd epfd cells u =
      share evfd event_fd u
      + share epfd epoll_fd u
      + share cells ring_cells u
      + share true the_struct u

  -- The label `fail`, with what is there: the event descriptor, the epoll descriptor, the ring's
  -- cells. The pool has no slab yet, so that its destruction gives nothing back.
  abbrev pub fail : Bool → Bool → Bool → State → State
  fail evfd epfd cells st =
      let st1 = if evfd then close event_fd st else st in
      let st2 = if epfd then close epoll_fd st1 else st1 in
      let st3 = if cells then free ring_cells st2 else st2 in free the_struct st3

  -- From the stack allocator on.
  unfoldable pub with_stacks :
      Multislab → ℕ → Option Cache × m.State → State → Option Made × State × m.State
  with_stacks fibers size (none, maps) st = (none, fail true true true st, maps)
  with_stacks fibers size (some stacks, maps) st =
      (some (record { fibers = fibers; stacks = stacks; stack_size = size }), st, maps)

  unfoldable pub with_control :
      Multislab → ℕ → Args → m.State → Bool × Bool → Bool × State → Option Made × State × m.State
  unfolding with_stacks
  with_control fibers size args maps memory (false, st) = (none, fail true true true st, maps)
  with_control fibers size args maps memory (true, st) =
      with_stacks fibers size (growable_stack_allocator_create m memory.0 memory.1 args maps) st

  unfoldable pub with_evfd :
      Multislab → ℕ → Args → m.State → Bool × Bool → Bool × State → Option Made × State × m.State
  unfolding with_control
  with_evfd fibers size args maps memory (false, st) = (none, fail false true true st, maps)
  with_evfd fibers size args maps memory (true, st) =
      with_control fibers size args maps memory (control_add st)

  unfoldable pub with_epfd :
      Multislab → ℕ → Args → m.State → Bool × Bool → Bool × State → Option Made × State × m.State
  unfolding with_evfd
  with_epfd fibers size args maps memory (false, st) = (none, fail false false true st, maps)
  with_epfd fibers size args maps memory (true, st) =
      with_evfd fibers size args maps memory (eventfd st)

  unfoldable pub with_cells :
      Multislab → ℕ → Args → m.State → Bool × Bool → Bool × State → Option Made × State × m.State
  unfolding with_epfd
  with_cells fibers size args maps memory (false, st) = (none, fail false false false st, maps)
  with_cells fibers size args maps memory (true, st) =
      with_epfd fibers size args maps memory (epoll_create st)

  unfoldable pub with_pool :
      ℕ → Args → m.State → Bool × Bool → Option Multislab → State → Option Made × State × m.State
  unfolding with_cells
  with_pool size args maps memory none st = (none, free the_struct st, maps)
  with_pool size args maps memory (some fibers) st =
      with_cells fibers size args maps memory (get_memory ring_cells st)

  unfoldable pub with_struct :
      ℕ → ℕ → Args → m.State → Bool × Bool → Bool × State → Option Made × State × m.State
  unfolding with_pool
  with_struct block size args maps memory (false, st) = (none, st, maps)
  with_struct block size args maps memory (true, st) =
      with_pool size args maps memory (multislab_init_ext block 32 0 (2 ^ 32 - 1) true true) st

  abbrev pub stack_args : ReactorConfig → Args
  stack_args config = record {
    max_stack_size = rounded m.page_size config.stack_size;
    cache_capacity = if config.stack_cache == 0 then 64 else config.stack_cache;
    initial_cached = 0;
  }

  -- `block` is the size of a fiber's struct, a multiple of the cache line; `memory` says whether the
  -- stack allocator gets its own struct and its own cache.
  unfoldable pub reactor_create :
      ℕ → Bool × Bool → ReactorConfig → State → m.State → Option Made × State × m.State
  unfolding with_struct
  reactor_create block memory config st maps =
      if m.page_size == 0 || config.stack_size == 0
      then (none, st, maps)
      else with_struct block (rounded m.page_size config.stack_size) (stack_args config) maps memory
          (get_memory the_struct st)

  -- How many of each thing are out, as the calls document it: each gives or takes one of its own.
  pub record Ledger : Type 0 where
    pub out : State → Thing → ℕ
    pub got_memory :
        (t u : Thing) (st : State)
        → out (get_memory t st).1 u ≡ out st u + share (get_memory t st).0 t u
    pub got_epfd :
        (u : Thing) (st : State)
        → out (epoll_create st).1 u ≡ out st u + share (epoll_create st).0 epoll_fd u
    pub got_evfd :
        (u : Thing) (st : State) → out (eventfd st).1 u ≡ out st u + share (eventfd st).0 event_fd u
    pub added : (u : Thing) (st : State) → out (control_add st).1 u ≡ out st u
    pub freed :
        (t u : Thing) (st : State) → 0 < out st t → out (free t st) u + share true t u ≡ out st u
    pub closed :
        (t u : Thing) (st : State) → 0 < out st t → out (close t st) u + share true t u ≡ out st u

  -- No call of the system fails.
  pub record Grants : Type 0 where
    pub memory : (t : Thing) (st : State) → (get_memory t st).0 ≡ true
    pub polls : (st : State) → (epoll_create st).0 ≡ true
    pub events : (st : State) → (eventfd st).0 ≡ true
    pub adds : (st : State) → (control_add st).0 ≡ true

  module _ (l : Ledger) where
    open l use {out}

    -- What a call that began with `before` of each thing out comes to.
    pub data Created (before : Thing → ℕ) : Option Made × State × m.State → Type 0 where
      -- the struct, the ring's cells and two descriptors
      made :
          (r : Made) (st : State) (maps : m.State)
          → ((u : Thing) → out st u ≡ before u + 1)
          → Created before (some r, st, maps)
      failed :
          (st : State) (maps : m.State)
          → ((u : Thing) → out st u ≡ before u)
          → Created before (none, st, maps)
