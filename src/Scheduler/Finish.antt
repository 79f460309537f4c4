-- ===== src/Scheduler/Finish.antt =====
-- The run loop ends, and nothing is left to run.
use cfiber.Common.{
  ℕ, zero, suc, ◌<◌, ◌≡◌, ◌∙◌, refl, ap, true, false, arith, List, [], ◌∷◌, none, length, ◌==◌,
}
use cfiber.Memory.Backing.{Backing}
use cfiber.Scheduler.{Task, Scheduler, Outcome, finished, free_zombie, scheduler_run}
use cfiber.Scheduler.Work.{work}
use cfiber.Scheduler.Rounds.{Idle, Round, dispatch-Round, free_zombie_lem, free_zombie-zombie}

-- The rounds of a run, up to an empty queue: in each the first task of the queue runs its code, up to
-- its next yield to another or its end, and the queue has behind it what that code makes.
pub data History (b : Backing) : Scheduler × b.State → Scheduler × b.State → Type 0 where
  is_over : {r : Scheduler × b.State} → r.0.ready ≡ [] → History b r r
  turn :
      {r last : Scheduler × b.State} (t : Task) (rest : List Task)
      → r.0.ready ≡ t ∷ rest
      → (round : Round b r.0 r.1 t rest) → History b round.after last
      → History b r last

-- A run that has come to its end; before that it was at `before`, after the given rounds.
pub record Ended (b : Backing) (from : Scheduler × b.State) (o : Outcome b) : Type 0 where
  pub before : Scheduler × b.State
  pub history : History b from before
  pub last : Scheduler
  pub state : b.State
  pub is_finished : o ≡ finished last state
  pub freed : (last, state) ≡ free_zombie b before.0 before.1
  pub nothing_ready : last.ready ≡ []
  pub nobody_live : last.active_count ≡ 0
  pub nobody_current : last.current ≡ none
  pub nobody_dead : last.zombie ≡ none

last_round :
    (b : Backing) (fuel : ℕ) (s : Scheduler) (st : b.State)
    → Idle s
    → s.ready ≡ []
    → Ended b (s, st) (scheduler_run b (suc fuel) s st)
unfolding scheduler_run
last_round b fuel s st idle e =
    let nobody : s.active_count ≡ 0 = omega (arith, idle.counted, ap length e) in
    let (same_ready, same_count, same_current) = free_zombie_lem b s st in
    let flag : (s.active_count == 0) ≡ true = ground (arith, nobody) in
    rw flag (record {
      before = (s, st);
      history = is_over e;
      freed = refl;
      last = (free_zombie b s st).0;
      state = (free_zombie b s st).1;
      is_finished = refl;
      nothing_ready = same_ready ∙ e;
      nobody_live = same_count ∙ nobody;
      nobody_current = same_current ∙ idle.stopped;
      nobody_dead = free_zombie-zombie b s st;
    })

next-Round :
    (b : Backing) (fuel : ℕ) (s : Scheduler) (st : b.State) (t : Task) (rest : List Task)
    → (s.active_count == 0) ≡ false
    → s.ready ≡ t ∷ rest
    → (round : Round b s st t rest)
    → Ended b round.after (scheduler_run b fuel round.after.0 round.after.1)
    → Ended b (s, st) (scheduler_run b (suc fuel) s st)
unfolding scheduler_run
next-Round b fuel s st t rest live e round next = rw live (
    rw (round.runs) (record {
      before = next.before;
      history = turn t rest e round next.history;
      last = next.last;
      state = next.state;
      is_finished = next.is_finished;
      freed = next.freed;
      nothing_ready = next.nothing_ready;
      nobody_live = next.nobody_live;
      nobody_current = next.nobody_current;
      nobody_dead = next.nobody_dead;
    }))

run_from :
    (b : Backing) (fuel : ℕ) (s : Scheduler) (st : b.State) (queue : List Task)
    → s.ready ≡ queue
    → Idle s
    → work queue < fuel
    → Ended b (s, st) (scheduler_run b fuel s st)
run_from b zero s st queue e idle h = absurd (omega arith)
run_from b (suc fuel) s st [] e idle h = last_round b fuel s st idle e
run_from b (suc fuel) s st (t ∷ rest) e idle h =
    let round = dispatch-Round b s st t rest idle e in
    let live : (s.active_count == 0) ≡ false = ground (arith, idle.counted, ap length e) in
    let next =
      run_from b fuel round.after.0 round.after.1 round.after.0.ready refl round.idle
        (omega (arith, round.slice.less)) in
    next-Round b fuel s st t rest live e round next

-- When no fiber is current, the live count is the length of the queue, and the fibers can make a
-- bounded number of calls below 2^32, the run loop ends without a trap: fuel for one more round than
-- that number is enough. The run is a history of rounds up to an empty queue, in each of which the
-- first task runs its own code, and what the code makes goes behind the queue. Then `free_zombie` has
-- taken place once more, none is counted as live, and no fiber is current or left to be freed.
pub scheduler_run-Ended :
    (b : Backing) (fuel : ℕ) (s : Scheduler) (st : b.State)
    → Idle s
    → work s.ready < fuel
    → Ended b (s, st) (scheduler_run b fuel s st)
scheduler_run-Ended b fuel s st idle enough = run_from b fuel s st s.ready refl idle enough
