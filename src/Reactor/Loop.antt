-- ===== src/Reactor/Loop.antt =====
-- The run loop of src/cfiber/reactor/reactor.c: `cfiber_reactor_run` and what it calls.
-- The code of the fibers is a parameter, `turn f s`: what becomes of the reactor from the moment
-- that `enter_fiber` switches to fiber `f` until control is back on the loop, by a park, a yield or
-- the return. `epoll_wait` is one too.
pub mod Round
pub mod Waitable
pub mod Runs
pub mod Result
use cfiber.Common.{
  ℕ, zero, suc, ◌+◌, ◌-◌, ◌≡◌, Bool, true, false, List, [], ◌∷◌, ◌++◌, Option, none, some, ◌==◌,
  if◌then◌else◌, length,
}
use cfiber.Reactor.Timers.{Timers, timer_remove}
use cfiber.Reactor.Time.{next_timeout_ms}
use cfiber.Reactor.State.{
  FiberState, is_parked, Status, ev_ready, Os, Reactor, dequeue, enter_fiber, resume,
}
use cfiber.Reactor.Command.{Cmd, apply_cmd}
use cfiber.Reactor.Pool.{fiber_recycle}
use cfiber.Reactor.Expire.{fire_expired_timers}

-- An event that `epoll_wait` reports. The control channel's comes with the commands that the ring
-- gives out then.
pub data Event : Type 0 where
  control : List Cmd → Event
  on_fiber : ℕ → Event

-- What `epoll_wait` answers: events, or an `errno`.
pub data Polled : Type 0 where
  events : List Event → Polled
  interrupted poll_failed : Polled

-- The loop over the ring in `drain_cmds`.
unfoldable pub drain_cmds : {os : Os} → Reactor os → List Cmd → Reactor os
drain_cmds s [] = s
drain_cmds s (c ∷ rest) = drain_cmds (apply_cmd s c) rest

-- The body of the loop over the events.
unfoldable pub handle_event : {os : Os} → Reactor os → Event → Reactor os
unfolding drain_cmds
handle_event s (control cmds) = drain_cmds s cmds
handle_event s (on_fiber w) =
    if is_parked (s.state w)
    then resume (record s { timers = timer_remove s.timers w }) w ev_ready
    else s

unfoldable pub handle_events : {os : Os} → Reactor os → List Event → Reactor os
unfolding handle_event
handle_events s [] = s
handle_events s (e ∷ rest) = handle_events (handle_event s e) rest

-- `if (s->zombie) { fiber_recycle(s, s->zombie); s->zombie = nullptr; }`
unfoldable pub recycle_zombie : {os : Os} → Reactor os → Option ℕ → Reactor os
recycle_zombie s none = s
recycle_zombie s (some f) = record (fiber_recycle s f) { zombie = none }

-- `ready_tail`
abbrev pub tail_of : List ℕ → Option ℕ
tail_of [] = none
tail_of (f ∷ []) = some f
tail_of (f ∷ g ∷ rest) = tail_of (g ∷ rest)

-- The time that the poll may take, with the clock read if it is needed; -1 is `none`.
unfoldable pub poll_timeout : {os : Os} → Reactor os → List ℕ → Option ℕ × Reactor os
poll_timeout {os} s [] =
    let (now, k) = os.now_ns s.kernel in
    if s.timers.heap_len == 0
    then (none, s)
    else (next_timeout_ms now s.timers, record s { kernel = k })
poll_timeout s (f ∷ rest) = (some 0, s)

module _ {os : Os} (turn : ℕ → Reactor os → Reactor os) where
  -- One fiber that has been taken off the queue.
  unfoldable pub run_fiber : Reactor os → ℕ → Reactor os
  unfolding recycle_zombie
  run_fiber s f = let s1 = turn f (enter_fiber s f) in recycle_zombie s1 s1.zombie

  -- The inner loop, on fuel. It ends when the fiber that was last in the queue at its start has run.
  unfoldable pub round_from : ℕ → ℕ → Reactor os → Reactor os
  unfolding run_fiber
  round_from zero round_end s = s
  round_from (suc left) round_end s = elim (dequeue s).0 [
    | none ↦ s
    | some f ↦
        let s1 = run_fiber (dequeue s).1 f in
        elim (f == round_end) [ true ↦ s1 | false ↦ round_from left round_end s1 ]
  ]

  unfoldable pub round_to : ℕ → Option ℕ → Reactor os → Reactor os
  unfolding round_from
  round_to fuel none s = s
  round_to fuel (some round_end) s = round_from fuel round_end s

  -- One round: the fibers that are ready now.
  unfoldable pub round : ℕ → Reactor os → Reactor os
  unfolding round_to
  round fuel s = round_to fuel (tail_of s.ready) s

  module _ (epoll_wait : Option ℕ → os.Kernel → Polled × os.Kernel) where
    unfoldable pub poll : Reactor os → Polled × Reactor os
    unfolding poll_timeout
    poll s =
        let (timeout, s1) = poll_timeout s s.ready in
        let (polled, k) = epoll_wait timeout s1.kernel in (polled, record s1 { kernel = k })

    -- 0, -1 with what is left of the reactor, or the loop has not ended with the fuel given.
    pub data Outcome : Type 0 where
      ended broken busy unfinished : Reactor os → Outcome

    -- The loop of `cfiber_reactor_run`, on fuel; its rounds have more than they need.
    unfoldable pub run_loop : ℕ → Reactor os → Outcome
    unfolding round poll handle_events
    run_loop zero s = unfinished s
    run_loop (suc fuel) s =
        let s1 = round (length s.ready + fuel) s in
        elim (s.active == 0) [
          | true ↦ ended s
          | false ↦ elim (s1.active == 0) [
            | true ↦ ended s1
            | false ↦ elim (poll s1).0 [
              | events es ↦ run_loop fuel (fire_expired_timers (handle_events (poll s1).1 es))
              | interrupted ↦ run_loop fuel (poll s1).1
              | poll_failed ↦ broken (poll s1).1
            ]
          ]
        ]

    -- `is_running` is `g_reactor == s`: the call comes from one of the reactor's own fibers. Then it
    -- is `busy`, which is -1 with `EBUSY`.
    unfoldable pub reactor_run : Bool → ℕ → Reactor os → Outcome
    unfolding run_loop
    reactor_run is_running fuel s = if is_running then busy s else run_loop fuel s
