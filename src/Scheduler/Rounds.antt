-- ===== src/Scheduler/Rounds.antt =====
-- One round of the run loop: what it does to the ready queue and to the count of live fibers.
use cfiber.Common.{
  ◌+◌, ◌^◌, ◌≤◌, ◌<◌, ◌≡◌, ◌∙◌, refl, sym, ap, subst, arith, Bool, true, false, List, [], ◌∷◌, ◌++◌,
  Option, none, some, length,
}
use cfiber.Memory.Backing.{Backing}
use cfiber.Scheduler.{
  Fiber, returns, yields, spawns, Task, Scheduler, enqueue_ready, return_hook, switch_away,
  yield_to, take_ready, dequeue_ready, task_free, free_task, free_zombie, scheduler_spawn,
  after_yield, resume, run_next, dispatch,
}
use cfiber.Scheduler.Work.{
  size, work, size_pos, work-append, length-append, length-work, append_assoc, append_nil,
}
use cfiber.Scheduler.Made.{Made, came_back, queued_again, went_on, Spawned-Made}
use cfiber.Scheduler.Spawn.{Spawned, scheduler_spawn-Spawned}

-- Between rounds: no fiber runs, and the live fibers are those in the queue.
pub record Idle (s : Scheduler) : Type 0 where
  pub stopped : s.current ≡ none
  pub counted : s.active_count ≡ length s.ready
  pub bounded : work s.ready < 2 ^ 32

-- What a time slice of `cur` with code `f` leaves of a scheduler that had `dead` to free: the queue is
-- as it was, with the tasks behind it that the code makes, and there is less to do.
pub record Sliced (cur : Task) (dead : Option Task) (queue : List Task) (f : Fiber) (s : Scheduler)
    : Type 0 where
  pub new : List Task
  pub made : Made cur dead queue f new s.zombie
  pub order : s.ready ≡ queue ++ new
  pub stopped : s.current ≡ none
  pub counted : s.active_count ≡ length s.ready
  pub less : work s.ready < work queue + size f

-- A running fiber: it is counted beside the queue, and what it can still do is bounded with it.
pub record Running (task : Task) (f : Fiber) (s : Scheduler) : Type 0 where
  pub is_current : s.current ≡ some task
  pub counted : s.active_count ≡ length s.ready + 1
  pub bounded : work s.ready + size f < 2 ^ 32

module _ (b : Backing) where
  live_small :
      {task : Task} (f : Fiber) (s : Scheduler) → Running task f s → s.active_count < 2 ^ 32
  live_small f s run = omega (arith, run.counted, run.bounded, length-work s.ready, size_pos f)

  returned :
      (task : Task) (s : Scheduler)
      → Running task returns s
      → Sliced task s.zombie s.ready returns (return_hook s)
  unfolding return_hook
  returned task s run = record {
    new = [];
    made =
        subst (λ (z : Option Task). Made task s.zombie s.ready returns [] z) (sym run.is_current)
          came_back;
    order = sym (append_nil s.ready);
    stopped = refl;
    counted = omega (arith, run.counted, live_small returns s run);
    less = omega arith;
  }

  -- `cfiber_yield` with another task ready.
  gave_way :
      (k : Fiber) (s : Scheduler) (t : Task) (queue : List Task) (cur : Task)
      → s.ready ≡ t ∷ queue
      → Running cur (yields k) s
      → Sliced cur s.zombie s.ready
          (yields k)
          (record (enqueue_ready s (record cur { fiber = k })) { current = none })
  unfolding enqueue_ready
  gave_way k s t queue cur e run = record {
    new = record cur { fiber = k } ∷ [];
    made =
        subst
          (λ (q : List Task).
            Made cur s.zombie q (yields k) (record cur { fiber = k } ∷ []) s.zombie)
          (sym e) (queued_again k t queue);
    order = refl;
    stopped = refl;
    counted = omega (arith, run.counted, length-append s.ready (record cur { fiber = k } ∷ []));
    less = omega (arith, work-append s.ready (record cur { fiber = k } ∷ []));
  }

  some_task : (t u : Task) → some t ≡ some u → t ≡ u
  some_task t u e = cc (e)

  yielded :
      (task : Task) (k : Fiber) (s : Scheduler) (st : b.State) (current : Option Task)
      (queue : List Task)
      → s.current ≡ current
      → s.ready ≡ queue
      → Running task (yields k) s
      → Sliced task s.zombie s.ready k (resume b k s st).0
      → Sliced task s.zombie s.ready
          (yields k)
          (after_yield b (resume b k s st) st (switch_away s k current queue)).0
  unfolding switch_away
  yielded task k s st none queue e q run on = absurd (cc (e, run.is_current))
  yielded task k s st (some cur) [] e q run on = record {
    new = on.new;
    made =
        subst (λ (r : List Task). Made task s.zombie r (yields k) on.new (resume b k s st).0.zombie)
          (sym q)
          (went_on (
            subst (λ (r : List Task). Made task s.zombie r k on.new (resume b k s st).0.zombie) q
              on.made));
    order = on.order;
    stopped = on.stopped;
    counted = on.counted;
    less = omega (arith, on.less);
  }
  yielded task k s st (some cur) (t ∷ queue) e q run on =
      let same : cur ≡ task = some_task cur task (sym e ∙ run.is_current) in
      subst
        (λ (c : Task).
          Sliced c s.zombie s.ready (yields k)
            (record (enqueue_ready s (record cur { fiber = k })) { current = none }))
        same
        (gave_way k s t queue cur q (subst (λ (c : Task). Running c (yields k) s) (sym same) run))

  Spawned-Running :
      {task : Task} (func : Fiber) (k : Bool → Fiber) (s s' : Scheduler) (ok : Bool)
      → Running task (spawns func k) s
      → Spawned s func ok s'
      → Running task (k ok) s'
  Spawned-Running func k s s' ok run sp = record {
    is_current = sp.same_current ∙ run.is_current;
    counted =
        let enough = length-work sp.queue in
        omega (
          arith,
          sp.count,
          run.counted,
          run.bounded,
          length-work s.ready,
          ap length sp.order,
          length-append s.ready sp.queue,
          enough,
          sp.amount,
        );
    bounded = omega (
      arith,
      run.bounded,
      ap work sp.order,
      work-append s.ready sp.queue,
      sp.amount,
      size_pos (k true),
      size_pos (k false),
      choice ok,
    );
  }
    where
      choice : (x : Bool) → size (k x) ≤ size (k true) + size (k false)
      choice true = omega arith
      choice false = omega arith

  after_spawn :
      (cur : Task) (func : Fiber) (k : Bool → Fiber) (s s' s'' : Scheduler) (ok : Bool)
      → Spawned s func ok s'
      → Sliced cur s'.zombie s'.ready (k ok) s''
      → Sliced cur s.zombie s.ready (spawns func k) s''
  after_spawn cur func k s s' s'' ok sp on = record {
    new = sp.queue ++ on.new;
    made = Spawned-Made cur func k s s' ok on.new s''.zombie sp on.made;
    order =
        on.order
        ∙ ap (λ (r : List Task). r ++ on.new) sp.order
        ∙ append_assoc s.ready sp.queue on.new;
    stopped = on.stopped;
    counted = on.counted;
    less =
        omega
          (arith, on.less, ap work sp.order, work-append s.ready sp.queue, sp.amount, choice ok);
  }
    where
      choice : (x : Bool) → size (k x) ≤ size (k true) + size (k false)
      choice true = omega arith
      choice false = omega arith

  -- A current fiber that is counted as live beside the ready queue, where the fibers can still make
  -- fewer than 2^32 calls, comes back to the scheduler by a yield or by its return. Then no fiber is
  -- current, the live count is the length of the queue, and fewer calls are left to make. The queue is
  -- what it was with those tasks behind it that the fiber's code makes: each task that it spawns with
  -- its entry function, in their order, and the fiber itself with the rest of its code if it has
  -- yielded to a ready task. It is the task to be freed exactly if its code has come to its return;
  -- else that is still who it was.
  pub resume-Sliced :
      (task : Task) (f : Fiber) (s : Scheduler) (st : b.State)
      → Running task f s
      → Sliced task s.zombie s.ready f (resume b f s st).0
  unfolding resume yield_to
  resume-Sliced task returns s st run = returned task s run
  resume-Sliced task (yields k) s st run =
      let on = resume-Sliced task k s st (record {
        is_current = run.is_current;
        counted = run.counted;
        bounded = omega (arith, run.bounded);
      }) in
      yielded task k s st s.current s.ready refl refl run on
  resume-Sliced task (spawns func k) s st run =
      let r = scheduler_spawn b s func st in
      let sp = scheduler_spawn-Spawned b s func st (live_small (spawns func k) s run) in
      let run' = Spawned-Running func k s r.1 r.0 run sp in
      after_spawn task func k s r.1 (resume b (k r.0) r.1 r.2).0 r.0 sp
        (resume-Sliced task (k r.0) r.1 r.2 run')

  free_task_lem :
      (s : Scheduler) (zombie : Option Task) (st : b.State)
      → (((free_task b s zombie st).0).ready ≡ s.ready)
        × (((free_task b s zombie st).0).active_count ≡ s.active_count)
        × (((free_task b s zombie st).0).current ≡ s.current)
  unfolding free_task task_free
  free_task_lem s none st = (refl, refl, refl)
  free_task_lem s (some t) st = (refl, refl, refl)

  pub free_zombie_lem :
      (s : Scheduler) (st : b.State)
      → (((free_zombie b s st).0).ready ≡ s.ready)
        × (((free_zombie b s st).0).active_count ≡ s.active_count)
        × (((free_zombie b s st).0).current ≡ s.current)
  unfolding free_zombie
  free_zombie_lem s st = free_task_lem s s.zombie st

  no_zombie :
      (s : Scheduler) (zombie : Option Task) (st : b.State)
      → s.zombie ≡ zombie
      → ((free_task b s zombie st).0).zombie ≡ none
  unfolding free_task
  no_zombie s none st e = e
  no_zombie s (some t) st e = refl

  pub free_zombie-zombie : (s : Scheduler) (st : b.State) → ((free_zombie b s st).0).zombie ≡ none
  unfolding free_zombie
  free_zombie-zombie s st = no_zombie s s.zombie st refl

  -- One round on a scheduler whose queue starts with `t`.
  pub record Round (s : Scheduler) (st : b.State) (t : Task) (rest : List Task) : Type 0 where
    pub after : Scheduler × b.State
    pub runs : dispatch b s st ≡ some after
    pub slice : Sliced t none rest t.fiber after.0
    pub idle : Idle after.0

  -- Between rounds, while a task is ready, the loop takes the first one, never reaches the trap, and
  -- comes back with the rest of the queue in its order and the tasks of that slice behind it.
  pub dispatch-Round :
      (s : Scheduler) (st : b.State) (t : Task) (rest : List Task)
      → Idle s
      → s.ready ≡ t ∷ rest
      → Round s st t rest
  unfolding dispatch dequeue_ready take_ready run_next
  dispatch-Round s st t rest idle e =
      let r1 = free_zombie b s st in
      let s1 = r1.0 in
      let (same_ready, same_count, same_current) = free_zombie_lem s st in
      let next = record s1 { ready = rest; current = some t } in
      let all = ap work e in
      let run : Running t t.fiber next = record {
        is_current = refl;
        counted = omega (arith, same_count, idle.counted, ap length e);
        bounded = omega (arith, idle.bounded, all);
      } in
      let slice =
        subst (λ (d : Option Task). Sliced t d rest t.fiber (resume b t.fiber next r1.1).0)
          (free_zombie-zombie s st) (resume-Sliced t t.fiber next r1.1 run) in
      record {
        after = resume b t.fiber next r1.1;
        runs = ap (λ (q : List Task). run_next b (take_ready s1 q) r1.1) (same_ready ∙ e);
        slice = slice;
        idle = record {
          stopped = slice.stopped;
          counted = slice.counted;
          bounded = omega (arith, slice.less, all, idle.bounded);
        };
      }
