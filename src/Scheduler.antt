-- ===== src/Scheduler.antt =====
-- The scheduler of include/cfiber/scheduler/scheduler.h and src/cfiber/scheduler/scheduler.c: fibers
-- that take turns, first come, first served.
-- What a fiber's entry function does is the user's code. Here it is a tree of the calls by which it
-- reaches the scheduler; a switch to the scheduler's context ends `resume`, which is the time from
-- `cfiber_asan_switch` in the loop to the switch back. The ready queue is the list of its tasks in
-- the order of the `next` links, from `ready_head` on.
-- One scheduler on its thread, so `s_current_sched` and the return hook are those of its own run.
pub mod Work
pub mod Spawn
pub mod Made
pub mod Rounds
pub mod Fair
pub mod Finish
mod Examples
use cfiber.Common.{
  ℕ, zero, suc, ◌+◌, ◌-◌, ◌*◌, ◌^◌, Bool, true, false, ◌||◌, List, [], ◌∷◌, ◌++◌, Option, none,
  some, ltb, ◌==◌, if◌then◌else◌,
}
use cfiber.Core.{cache_line_size, align_up}
use cfiber.Memory.Backing.{Backing}
use cfiber.Memory.Multislab.{
  Multislab, inc32, dec32, multislab_init_ext, multislab_alloc, multislab_release,
  multislab_destroy, zeroed,
}
use cfiber.Stack.Fixed.{Stack, fixed_stack_alloc, fixed_stack_release}

-- What an entry function has still to do: return, yield, or spawn another and go on with the
-- answer.
pub data Fiber : Type 0 where
  returns : Fiber
  yields : Fiber → Fiber
  spawns : Fiber → (Bool → Fiber) → Fiber

-- `cfiber_task_t`, with its own address; `fiber` is what is left of its entry function.
pub record Task : Type 0 where
  pub addr : ℕ
  pub fiber : Fiber
  pub stack : Stack

-- `cfiber_scheduler_t`
pub record Scheduler : Type 0 where
  pub task_alloc : Multislab
  pub stack_alloc : Multislab
  pub current : Option Task
  pub zombie : Option Task
  pub ready : List Task
  pub stack_size : ℕ
  pub stack_peak : ℕ
  pub active_count : ℕ

-- `cfiber_scheduler_config_t`
pub record Config : Type 0 where
  pub stack_size : ℕ
  pub fibers_per_slab : ℕ
  pub max_slabs : ℕ

abbrev pub default_per_slab : ℕ
default_per_slab = 16

unfoldable pub enqueue_ready : Scheduler → Task → Scheduler
enqueue_ready s t = record s { ready = s.ready ++ (t ∷ []) }

-- The ready queue in two, `ready_head` and what is behind it.
unfoldable pub take_ready : Scheduler → List Task → Option Task × Scheduler
take_ready s [] = (none, s)
take_ready s (t ∷ rest) = (some t, record s { ready = rest })

unfoldable pub dequeue_ready : Scheduler → Option Task × Scheduler
unfolding take_ready
dequeue_ready s = take_ready s s.ready

-- `builtin_return_hook`, up to its switch.
unfoldable pub return_hook : Scheduler → Scheduler
return_hook s = record s { zombie = s.current; current = none; active_count = dec32 s.active_count }

-- `cfiber_yield`, with what the fiber does after it: the scheduler at the switch, or `none` when
-- the call returns at once.
unfoldable pub switch_away : Scheduler → Fiber → Option Task → List Task → Option Scheduler
unfolding enqueue_ready
switch_away s k none queue = none
switch_away s k (some cur) [] = none
switch_away s k (some cur) (t ∷ queue) =
    some (record (enqueue_ready s (record cur { fiber = k })) { current = none })

unfoldable pub yield_to : Scheduler → Fiber → Option Scheduler
unfolding switch_away
yield_to s k = switch_away s k s.current s.ready

module _ (b : Backing) where
  open b use {State}

  -- The stack sanitizer is off, so the peak stays and no overflow is found.
  unfoldable pub task_free : Scheduler → Task → State → Scheduler × State
  task_free s t st =
      let (ok, stack_alloc, st1) = fixed_stack_release b t.stack s.stack_alloc st in
      let (task_alloc, st2) = multislab_release b s.task_alloc t.addr st1 in
      (record s { stack_alloc = stack_alloc; task_alloc = task_alloc }, st2)

  -- `if (sched->zombie) { task_free(sched, sched->zombie); sched->zombie = nullptr; }`
  unfoldable pub free_task : Scheduler → Option Task → State → Scheduler × State
  unfolding task_free
  free_task s none st = (s, st)
  free_task s (some t) st = let (s1, st1) = task_free s t st in (record s1 { zombie = none }, st1)

  unfoldable pub free_zombie : Scheduler → State → Scheduler × State
  unfolding free_task
  free_zombie s st = free_task s s.zombie st

  -- The task's block is there: from the result of `cfiber_fixed_stack_alloc` on.
  unfoldable pub spawn_on :
      Scheduler → Fiber → ℕ → Option Stack × Multislab × State → Bool × Scheduler × State
  unfolding enqueue_ready
  spawn_on s func task (none, stack_alloc, st) =
      let (task_alloc, st1) = multislab_release b s.task_alloc task st in
      (false, record s { stack_alloc = stack_alloc; task_alloc = task_alloc }, st1)
  spawn_on s func task (some stack, stack_alloc, st) =
      let s1 = record s { stack_alloc = stack_alloc } in
      let fresh : Task = record { addr = task; fiber = func; stack = stack } in
      (true, record (enqueue_ready s1 fresh) { active_count = inc32 s.active_count }, st)

  -- From the result of `cfiber_multislab_alloc` on.
  unfoldable pub spawn_task :
      Scheduler → Fiber → Option ℕ × Multislab × State → Bool × Scheduler × State
  unfolding spawn_on
  spawn_task s func (none, task_alloc, st) = (false, record s { task_alloc = task_alloc }, st)
  spawn_task s func (some task, task_alloc, st) =
      spawn_on (record s { task_alloc = task_alloc }) func task
        (fixed_stack_alloc b s.stack_alloc st)

  unfoldable pub scheduler_spawn : Scheduler → Fiber → State → Bool × Scheduler × State
  unfolding spawn_task
  scheduler_spawn s func st = spawn_task s func (multislab_alloc b s.task_alloc st)

  -- A yield ends the slice if it has switched away; else the fiber goes on.
  abbrev pub after_yield : Scheduler × State → State → Option Scheduler → Scheduler × State
  after_yield on st none = on
  after_yield on st (some away) = (away, st)

  -- The current fiber runs, until it switches to the scheduler.
  unfoldable pub resume : Fiber → Scheduler → State → Scheduler × State
  unfolding return_hook yield_to scheduler_spawn
  resume returns s st = (return_hook s, st)
  resume (yields k) s st = after_yield (resume k s st) st (yield_to s k)
  resume (spawns func k) s st = let r = scheduler_spawn s func st in resume (k r.0) r.1 r.2

  -- The loop's body after the zombie is gone; `none` is `__builtin_trap`.
  unfoldable pub run_next : Option Task × Scheduler → State → Option (Scheduler × State)
  unfolding resume
  run_next (none, s) st = none
  run_next (some next, s) st = some (resume next.fiber (record s { current = some next }) st)

  -- One round of the loop of `cfiber_scheduler_run`.
  unfoldable pub dispatch : Scheduler → State → Option (Scheduler × State)
  unfolding free_zombie dequeue_ready run_next
  dispatch s st = let (s1, st1) = free_zombie s st in run_next (dequeue_ready s1) st1

  pub data Outcome : Type 0 where
    finished : Scheduler → State → Outcome
    trapped out_of_fuel : Outcome

  unfoldable pub scheduler_run : ℕ → Scheduler → State → Outcome
  unfolding dispatch
  scheduler_run zero s st = out_of_fuel
  scheduler_run (suc fuel) s st =
      if s.active_count == 0
      then finished (free_zombie s st).0 (free_zombie s st).1
      else elim (dispatch s st) [ none ↦ trapped | some r ↦ scheduler_run fuel r.0 r.1 ]

  -- `cfiber_scheduler_init_ext` with both callbacks; `task_size` is `sizeof(cfiber_task_t)`.
  unfoldable pub init_stacks :
      Config → Multislab → Option Multislab → State → Option Scheduler × State
  init_stacks config task_alloc none st = (none, (multislab_destroy b task_alloc st).1)
  init_stacks config task_alloc (some stack_alloc) st = (
    some (record {
      task_alloc = task_alloc;
      stack_alloc = stack_alloc;
      current = none;
      zombie = none;
      ready = [];
      stack_size = config.stack_size;
      stack_peak = 0;
      active_count = 0;
    }),
    st,
  )

  unfoldable pub scheduler_init_ext : ℕ → Config → State → Option Scheduler × State
  unfolding init_stacks
  scheduler_init_ext task_size config st =
      let per_slab =
        if config.fibers_per_slab == 0 then default_per_slab else config.fibers_per_slab in
      let task_block = align_up task_size cache_line_size in
      let stack_block = align_up config.stack_size cache_line_size in
      let stack_alloc = multislab_init_ext stack_block per_slab config.max_slabs 1 true true in
      if config.stack_size == 0 || ltb config.stack_size 256
      then (none, st)
      else elim (multislab_init_ext task_block per_slab config.max_slabs 1 true true) [
        | none ↦ (none, st)
        | some task_alloc ↦ init_stacks config task_alloc stack_alloc st
      ]

  -- With no live fiber, as the caller has to see to.
  unfoldable pub scheduler_destroy : Scheduler → State → Scheduler × State
  scheduler_destroy s st =
      let (task_alloc, st1) = multislab_destroy b s.task_alloc st in
      let (stack_alloc, st2) = multislab_destroy b s.stack_alloc st1 in
      (
        record {
          task_alloc = task_alloc;
          stack_alloc = stack_alloc;
          current = none;
          zombie = none;
          ready = [];
          stack_size = 0;
          stack_peak = 0;
          active_count = 0;
        },
        st2,
      )
