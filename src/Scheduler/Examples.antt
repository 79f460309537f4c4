-- ===== src/Scheduler/Examples.antt =====
-- A scheduler with two fibers, the first of which spawns a third.
use cfiber.Common.{refl, arith, [], ◌∷◌, none, some}
use cfiber.Memory.Backing.Arena.{arena}
use cfiber.Memory.Multislab.{Multislab}
use cfiber.Stack.Fixed.{Stack}
use cfiber.Scheduler.{
  Fiber, returns, yields, spawns, Task, Scheduler, scheduler_spawn, resume, scheduler_run,
}
use cfiber.Scheduler.Spawn.{Spawned, scheduler_spawn-Spawned}
use cfiber.Scheduler.Rounds.{Idle, Running, Sliced, resume-Sliced}
use cfiber.Scheduler.Fair.{Reached, rounds-Reached}
use cfiber.Scheduler.Finish.{Ended, scheduler_run-Ended}

abbrev blocks : Multislab
blocks = record {
  active = [];
  full = [];
  block_size = 1024;
  blocks_per_slab = 4;
  slab_memory_size = 4096;
  slab_count = 0;
  max_slabs = 2;
  empty_count = 0;
  max_empty_reserve = 1;
}

abbrev a_stack : Stack
a_stack = record { mem_base = 4096; usable_base = 4096; stack_top = 5120; total_size = 1024 }

abbrev parent : Fiber
parent = spawns (yields returns) (λ ok. yields returns)

abbrev first_task : Task
first_task = record { addr = 64; fiber = parent; stack = a_stack }

abbrev second_task : Task
second_task = record { addr = 128; fiber = yields (yields returns); stack = a_stack }

abbrev two_ready : Scheduler
two_ready = record {
  task_alloc = blocks;
  stack_alloc = blocks;
  current = none;
  zombie = none;
  ready = first_task ∷ second_task ∷ [];
  stack_size = 1024;
  stack_peak = 0;
  active_count = 2;
}

abbrev one_running : Scheduler
one_running = record two_ready { current = some first_task; ready = second_task ∷ [] }

two_ready-Idle : Idle two_ready
two_ready-Idle = record { stopped = refl; counted = refl; bounded = omega arith }

abbrev memory : arena.State
memory = record { next = 4096; live = [] }

scheduler_spawn-Spawned_example :
    Spawned two_ready parent
      (scheduler_spawn arena two_ready parent memory).0
      (scheduler_spawn arena two_ready parent memory).1
scheduler_spawn-Spawned_example =
    scheduler_spawn-Spawned arena two_ready parent memory (omega arith)

one_running-Running : Running first_task parent one_running
one_running-Running = record { is_current = refl; counted = refl; bounded = omega arith }

resume-Sliced_example :
    Sliced first_task none (second_task ∷ []) parent (resume arena parent one_running memory).0
resume-Sliced_example = resume-Sliced arena first_task parent one_running memory one_running-Running

rounds-Reached_example : Reached arena 1 (two_ready, memory) second_task []
rounds-Reached_example =
    rounds-Reached arena (first_task ∷ []) second_task [] (two_ready, memory) two_ready-Idle refl

scheduler_run-Ended_example :
    Ended arena (two_ready, memory) (scheduler_run arena 20 two_ready memory)
scheduler_run-Ended_example =
    scheduler_run-Ended arena 20 two_ready memory two_ready-Idle (omega arith)
