-- ===== src/Scheduler/Fair.antt =====
-- Who is next: the ready queue is first come, first served.
use cfiber.Common.{
  ℕ, zero, suc, ◌≡◌, ◌∙◌, refl, sym, List, [], ◌∷◌, ◌++◌, Option, none, some, length,
}
use cfiber.Memory.Backing.{Backing}
use cfiber.Scheduler.{Task, Scheduler, dispatch}
use cfiber.Scheduler.Work.{append_assoc, append_nil}
use cfiber.Scheduler.Rounds.{Idle, Round, dispatch-Round}

-- So many rounds of the run loop.
unfoldable pub rounds : (b : Backing) → ℕ → Scheduler × b.State → Option (Scheduler × b.State)
rounds b zero r = some r
rounds b (suc n) r = elim (dispatch b r.0 r.1) [ none ↦ none | some next ↦ rounds b n next ]

rounds_step :
    (b : Backing) (n : ℕ) (r next : Scheduler × b.State)
    → dispatch b r.0 r.1 ≡ some next
    → rounds b (suc n) r ≡ rounds b n next
unfolding rounds
rounds_step b n r next e = rw (rounds, e) refl

-- The state that so many rounds lead to, where the given task is at the front of the queue, and the
-- round after them, which is that task's.
pub record Reached (b : Backing) (n : ℕ) (r : Scheduler × b.State) (t : Task) (behind : List Task)
    : Type 0 where
  pub after : Scheduler × b.State
  pub arrives : rounds b n r ≡ some after
  pub idle : Idle after.0
  pub later : List Task
  pub queue : after.0.ready ≡ t ∷ (behind ++ later)
  pub turn : Round b after.0 after.1 t (behind ++ later)

-- Between rounds, with the live count right and fewer than 2^32 calls left to make, a ready task
-- comes to the front of the queue after exactly as many rounds as there are tasks before it, whatever
-- these do: the rounds all take place, and the tasks that were behind it still are, in their order.
-- The next round runs its code to its next yield or its end, with the queue behind it.
pub rounds-Reached :
    (b : Backing) (before : List Task) (t : Task) (behind : List Task) (r : Scheduler × b.State)
    → Idle r.0
    → r.0.ready ≡ before ++ (t ∷ behind)
    → Reached b (length before) r t behind
unfolding rounds
rounds-Reached b [] t behind r idle e = record {
  after = r;
  arrives = refl;
  idle = idle;
  later = [];
  queue = e ∙ sym (append_nil (t ∷ behind));
  turn = dispatch-Round b r.0 r.1 t (behind ++ []) idle (e ∙ sym (append_nil (t ∷ behind)));
}
rounds-Reached b (u ∷ before) t behind r idle e =
    let round = dispatch-Round b r.0 r.1 u (before ++ (t ∷ behind)) idle e in
    let moved = round.slice.order ∙ append_assoc before (t ∷ behind) round.slice.new in
    let rest = rounds-Reached b before t (behind ++ round.slice.new) round.after round.idle moved in
    let queue = rest.queue ∙ append_assoc (t ∷ behind) round.slice.new rest.later in
    record {
      after = rest.after;
      arrives = rounds_step b (length before) r round.after round.runs ∙ rest.arrives;
      idle = rest.idle;
      later = round.slice.new ++ rest.later;
      queue = queue;
      turn =
          dispatch-Round b rest.after.0 rest.after.1 t (behind ++ (round.slice.new ++ rest.later))
            rest.idle queue;
    }
