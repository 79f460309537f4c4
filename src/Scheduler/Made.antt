-- ===== src/Scheduler/Made.antt =====
-- What one time slice of a fiber puts behind the ready queue, and whom it leaves to be freed, read off
-- the fiber's code: the relation that the loop of src/cfiber/scheduler/scheduler.c is compared with.
use cfiber.Common.{
  ◌≡◌, ◌∙◌, refl, sym, ap, subst, Bool, true, false, List, [], ◌∷◌, ◌++◌, Option, some,
}
use cfiber.Scheduler.{Fiber, returns, yields, spawns, Task, Scheduler}
use cfiber.Scheduler.Work.{append_nil}
use cfiber.Scheduler.Spawn.{Spawned}

-- From a queue, the code of task `cur` comes to the tasks that it puts behind it, and to the task that
-- is then to be freed: it returns and is that task itself; it yields to a task that is ready and is
-- behind them all with the rest of its code; it yields to nobody and goes on; or it spawns a task
-- with the given entry function, or fails to, and goes on as told.
pub data Made (cur : Task) (dead : Option Task)
    : List Task → Fiber → List Task → Option Task → Type 0 where
  came_back : {queue : List Task} → Made cur dead queue returns [] (some cur)
  queued_again :
      (k : Fiber) (t : Task) (queue : List Task)
      → Made cur dead (t ∷ queue) (yields k) (record cur { fiber = k } ∷ []) dead
  went_on :
      {k : Fiber} {new : List Task} {z : Option Task}
      → Made cur dead [] k new z
      → Made cur dead [] (yields k) new z
  had_spawned :
      {func : Fiber} {k : Bool → Fiber} {queue new : List Task} {z : Option Task} (t : Task)
      → t.fiber ≡ func
      → Made cur dead (queue ++ (t ∷ [])) (k true) new z
      → Made cur dead queue (spawns func k) (t ∷ new) z
  not_spawned :
      {func : Fiber} {k : Bool → Fiber} {queue new : List Task} {z : Option Task}
      → Made cur dead queue (k false) new z
      → Made cur dead queue (spawns func k) new z

-- A spawn comes before what the fiber does next.
pub Spawned-Made :
    (cur : Task) (func : Fiber) (k : Bool → Fiber) (s s' : Scheduler) (ok : Bool) (new : List Task)
    (z : Option Task)
    → (sp : Spawned s func ok s') → Made cur s'.zombie s'.ready (k ok) new z
    → Made cur s.zombie s.ready (spawns func k) (sp.queue ++ new) z
Spawned-Made cur func k s s' true new z sp on =
    let (t, e, entry) = sp.on_success refl in
    let order = sp.order ∙ ap (λ (q : List Task). s.ready ++ q) e in
    let here = subst (λ (q : List Task). Made cur s'.zombie q (k true) new z) order on in
    let clean =
      subst (λ (d : Option Task). Made cur d (s.ready ++ (t ∷ [])) (k true) new z) sp.same_zombie
        here in
    subst (λ (q : List Task). Made cur s.zombie s.ready (spawns func k) (q ++ new) z) (sym e)
      (had_spawned t entry clean)
Spawned-Made cur func k s s' false new z sp on =
    let e = sp.on_failure refl in
    let order = sp.order ∙ ap (λ (q : List Task). s.ready ++ q) e ∙ append_nil s.ready in
    let here = subst (λ (q : List Task). Made cur s'.zombie q (k false) new z) order on in
    let clean =
      subst (λ (d : Option Task). Made cur d s.ready (k false) new z) sp.same_zombie here in
    subst (λ (q : List Task). Made cur s.zombie s.ready (spawns func k) (q ++ new) z) (sym e)
      (not_spawned clean)
