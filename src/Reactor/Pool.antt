-- ===== src/Reactor/Pool.antt =====
-- The fibers' structs and stacks in src/cfiber/reactor/reactor.c: spawning, and what becomes of a
-- fiber that has returned.
use cfiber.Common.{ℕ, ◌+◌, false, List, [], ◌∷◌, Option, none, some, ◌==◌, if◌then◌else◌}
use cfiber.Core.{u32, u64}
use cfiber.Memory.Multislab.{Multislab, multislab_alloc, multislab_release}
use cfiber.Stack.Fixed.{Stack}
use cfiber.Stack.Growable.{no_stack}
use cfiber.Stack.Cache.{Cache, growable_stack_alloc, growable_stack_release}
use cfiber.Reactor.Timers.{write}
use cfiber.Reactor.State.{fb_free, park_fd, ev_ready, Os, Reactor, enqueue}
use cfiber.Reactor.Owner.{detach_fd}
use cfiber.Reactor.Command.{Handle}

-- `memset`, but for the generation. In `reg_fd`, `wait_fd` and `timer_i` it leaves a zero, which
-- nothing reads: the spawn writes -1 and `NO_TIMER` there before the fiber is queued, or gives the
-- struct back to the pool, which wipes it when it is next obtained. The model has `none` at once.
unfoldable pub wipe : {os : Os} → Reactor os → ℕ → Reactor os
wipe s f = record s {
  state = write s.state f fb_free;
  park = write s.park f park_fd;
  wake_pending = write s.wake_pending f false;
  reg_fd = write s.reg_fd f none;
  wait_fd = write s.wait_fd f none;
  wait_status = write s.wait_status f ev_ready;
  stack = write s.stack f no_stack;
  timers = record s.timers {
    timer_i = write s.timers.timer_i f none;
    deadline_ns = write s.timers.deadline_ns f 0;
  };
}

unfoldable pub obtained :
    {os : Os} → Reactor os → Option ℕ × Multislab × os.backing.State → Option ℕ × Reactor os
unfolding wipe
obtained s (none, fibers, st) = (none, record s { fibers = fibers; memory = st })
obtained s (some f, fibers, st) = (some f, wipe (record s { fibers = fibers; memory = st }) f)

unfoldable pub fiber_obtain : {os : Os} → Reactor os → Option ℕ × Reactor os
unfolding obtained
fiber_obtain {os} s = obtained s (multislab_alloc os.backing s.fibers s.memory)

unfoldable pub live_link : {os : Os} → Reactor os → ℕ → Reactor os
live_link s f = record s { live = f ∷ s.live }

-- One element out of a list.
abbrev pub unlinked : ℕ → List ℕ → List ℕ
unlinked f [] = []
unlinked f (g ∷ rest) = if g == f then rest else g ∷ unlinked f rest

unfoldable pub live_unlink : {os : Os} → Reactor os → ℕ → Reactor os
live_unlink s f = record s { live = unlinked f s.live }

unfoldable pub fiber_repool : {os : Os} → Reactor os → ℕ → Reactor os
fiber_repool {os} s f =
    let (fibers, st) = multislab_release os.backing s.fibers f s.memory in
    record s {
      generation = write s.generation f (u64 (s.generation f + 1));
      state = write s.state f fb_free;
      fibers = fibers;
      memory = st;
    }

unfoldable pub release_stack : {os : Os} → Reactor os → ℕ → Reactor os
release_stack {os} s f =
    let (stacks, maps) = growable_stack_release os.mapper s.stacks (s.stack f) s.maps in
    record s { stacks = stacks; maps = maps; stack = write s.stack f no_stack }

unfoldable pub fiber_recycle : {os : Os} → Reactor os → ℕ → Reactor os
unfolding live_unlink release_stack fiber_repool
fiber_recycle s f = fiber_repool (release_stack (live_unlink (detach_fd s f) f) f) f

-- The fiber has a stack: the fields that are not zero, and the two lists. `active` is an `int`; the
-- model wraps it, and what is proved of a spawn has a bound below 2^31 for it.
unfoldable pub start_fiber : {os : Os} → Reactor os → ℕ → Reactor os
unfolding live_link
start_fiber s f =
    let s1 = record s {
      reg_fd = write s.reg_fd f none;
      wait_fd = write s.wait_fd f none;
      timers = record s.timers { timer_i = write s.timers.timer_i f none };
    } in
    let s2 = enqueue (live_link s1 f) f in record s2 { active = u32 (s.active + 1) }

unfoldable pub spawn_stacked :
    {os : Os} → Reactor os → ℕ → Stack × Cache × os.mapper.State → Option Handle × Reactor os
unfolding start_fiber fiber_repool
spawn_stacked s f (stack, stacks, maps) =
    let s1 = record s { stacks = stacks; maps = maps; stack = write s.stack f stack } in
    if stack.mem_base == 0
    then (none, fiber_repool s1 f)
    else (some (record { fiber = some f; gen = s.generation f }), start_fiber s1 f)

unfoldable pub spawn_obtained : {os : Os} → Option ℕ × Reactor os → Option Handle × Reactor os
unfolding spawn_stacked
spawn_obtained (none, s) = (none, s)
spawn_obtained {os} (some f, s) = spawn_stacked s f (growable_stack_alloc os.mapper s.stacks s.maps)

-- `spawn_locked`, which `cfiber_reactor_spawn` and `cfiber_ev_spawn` are; a failure is `none`.
unfoldable pub spawn_locked : {os : Os} → Reactor os → Option Handle × Reactor os
unfolding fiber_obtain spawn_obtained
spawn_locked s = spawn_obtained (fiber_obtain s)
