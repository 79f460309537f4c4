-- ===== src/Scheduler/Spawn.antt =====
-- `cfiber_scheduler_spawn` of src/cfiber/scheduler/scheduler.c: one more task, or none.
use cfiber.Common.{
  ℕ, ◌+◌, ◌%◌, ◌^◌, ◌≤◌, ◌<◌, ◌≡◌, refl, sym, arith, Bool, true, false, List, [], ◌∷◌, ◌++◌, Option,
  none, some, length,
}
use cfiber.Memory.Backing.{Backing}
use cfiber.Memory.Multislab.{Multislab, multislab_alloc}
use cfiber.Stack.Fixed.{Stack, fixed_stack_alloc}
use cfiber.Scheduler.{Fiber, Task, Scheduler, enqueue_ready, spawn_on, spawn_task, scheduler_spawn}
use cfiber.Scheduler.Work.{size, work, append_nil}

-- What `cfiber_scheduler_spawn` does to the queue.
pub record Spawned (s : Scheduler) (f : Fiber) (ok : Bool) (s' : Scheduler) : Type 0 where
  pub same_current : s'.current ≡ s.current
  pub same_zombie : s'.zombie ≡ s.zombie
  pub queue : List Task
  pub order : s'.ready ≡ s.ready ++ queue
  pub on_success : ok ≡ true → (t : Task) × (queue ≡ t ∷ []) × (t.fiber ≡ f)
  pub on_failure : ok ≡ false → queue ≡ []
  pub amount : work queue ≤ size f
  pub count : s'.active_count ≡ (s.active_count + length queue) % 2 ^ 32

module _ (b : Backing) where
  spawn_on-Spawned :
      (s : Scheduler) (f : Fiber) (p : ℕ) (r : Option Stack × Multislab × b.State)
      → s.active_count < 2 ^ 32
      → Spawned s f (spawn_on b s f p r).0 (spawn_on b s f p r).1
  unfolding spawn_on enqueue_ready
  spawn_on-Spawned s f p (none, stacks, st) h = record {
    same_current = refl;
    same_zombie = refl;
    queue = [];
    order = sym (append_nil s.ready);
    on_success = λ e. absurd (cc (e));
    on_failure = λ e. refl;
    amount = omega arith;
    count = omega arith;
  }
  spawn_on-Spawned s f p (some stack, stacks, st) h = record {
    same_current = refl;
    same_zombie = refl;
    queue = record { addr = p; fiber = f; stack = stack } ∷ [];
    order = refl;
    on_success = λ e. (_, refl, refl);
    on_failure = λ e. absurd (cc (e));
    amount = omega arith;
    count = omega arith;
  }

  spawn_task-Spawned :
      (s : Scheduler) (f : Fiber) (r : Option ℕ × Multislab × b.State)
      → s.active_count < 2 ^ 32
      → Spawned s f (spawn_task b s f r).0 (spawn_task b s f r).1
  unfolding spawn_task
  spawn_task-Spawned s f (none, tasks, st) h = record {
    same_current = refl;
    same_zombie = refl;
    queue = [];
    order = sym (append_nil s.ready);
    on_success = λ e. absurd (cc (e));
    on_failure = λ e. refl;
    amount = omega arith;
    count = omega arith;
  }
  spawn_task-Spawned s f (some p, tasks, st) h =
      let inner =
        spawn_on-Spawned (record s { task_alloc = tasks }) f p
          (fixed_stack_alloc b s.stack_alloc st) h in
      record {
        same_current = inner.same_current;
        same_zombie = inner.same_zombie;
        queue = inner.queue;
        order = inner.order;
        on_success = inner.on_success;
        on_failure = inner.on_failure;
        amount = inner.amount;
        count = inner.count;
      }

  -- With a live count below 2^32, `cfiber_scheduler_spawn` puts one task with the given entry function
  -- behind the ready queue and counts it, on 32 bits, or fails and leaves the queue and the count as
  -- they are. The running task and the one
  -- to be freed stay in either case.
  pub scheduler_spawn-Spawned :
      (s : Scheduler) (f : Fiber) (st : b.State)
      → s.active_count < 2 ^ 32
      → Spawned s f (scheduler_spawn b s f st).0 (scheduler_spawn b s f st).1
  unfolding scheduler_spawn
  scheduler_spawn-Spawned s f st h = spawn_task-Spawned s f (multislab_alloc b s.task_alloc st) h
