-- ===== src/Reactor/Examples.antt =====
-- The calls of the reactor, and its times, at `sample`.
mod Spawning
use cfiber.Common.{
  ℕ, zero, suc, ◌+◌, ◌*◌, ◌^◌, ◌-◌, ◌≤◌, ◌<◌, ◌≡◌, ◌∙◌, sym, refl, ap, arith, Bool, true, not, ◌&&◌,
  ◌||◌, List, [], ◌∷◌, Option, none, some, ◌==◌, ◌!=◌, if◌then◌else◌, Bool-cases, inl, inr,
}
use cfiber.Reactor.Timers.{Timers, key}
use cfiber.Reactor.State.{
  FiberState, fb_ready, fb_parked, is_parked, ctl_ok, Status, ev_ready, ev_cancelled, ev_timeout,
  Reactor, dequeue, dequeue_from, enter_fiber, return_hook_of, ev_yield,
}
use cfiber.Reactor.Owner.{is_this, detach_from, detach_fd, arm_fd}
use cfiber.Reactor.Wait.{ev_sleep, ev_wait_async}
use cfiber.Reactor.Command.{Cmd, cmd_wake, cmd_cancel}
use cfiber.Reactor.Time.{
  no_deadline, int32_max, deadline_after, deadline_after-saturates, deadline_after_opt,
  remaining_ns, remaining_ns-deadline, next_timeout_ms, next_timeout_ms-covers,
}
use cfiber.Reactor.Inv.Wake.{Woken}
use cfiber.Reactor.Inv.Arm.{ArmResult, arm_fd-ArmResult}
use cfiber.Reactor.Inv.Grants.{is_parking, Grants, NobodyWaits}
use cfiber.Reactor.Inv.Calls.{ev_sleep-CallResult, ev_wait_async-CallResult}
use cfiber.Reactor.Expire.{fire_expired_timers, is_due, Expired, fire_expired_timers-Expired}
use cfiber.Stack.Cache.{growable_stack_release}
use cfiber.Reactor.Inv.{Inv}
use cfiber.Reactor.Inv.Turns.{return_hook-Inv}
use cfiber.Reactor.Inv.Recycle.{Recycled, fiber_recycle-Recycled}
use cfiber.Reactor.Pool.{live_unlink, release_stack, fiber_repool, fiber_recycle}
use cfiber.Reactor.Loop.{Polled, events, on_fiber, recycle_zombie, run_fiber, round_from, round_to}
use cfiber.Reactor.Loop.Waitable.{Counted-waitable}
use cfiber.Reactor.Sample.{kind_os, sample, sample-Inv}

abbrev room : sample.timers.heap_len + 1 < 2 ^ 60
room = omega arith

kind : Grants kind_os
kind = record { memory = λ k n. refl; registers = λ op fd events f k. refl }

alone : NobodyWaits sample 20 9
alone g = elim (Bool-cases (g == 21)) [
  | inl waits ↦ let e : 21 ≡ g = ground (arith, waits) in rw (sym e) refl
  | inr other ↦
      let none_there : sample.wait_fd g ≡ none = rw other refl in
      ap (λ (r : Option ℕ). g != 20 && is_parked (sample.state g) && is_this r 9) none_there
      ∙ ground arith
]

ev_sleep-CallResult_example : is_parking (ev_sleep sample 20 100) ≡ true
ev_sleep-CallResult_example = (ev_sleep-CallResult sample 20 100 sample-Inv refl room).1 kind

ev_wait_async-CallResult_example : is_parking (ev_wait_async sample 20 none) ≡ true
ev_wait_async-CallResult_example =
    (ev_wait_async-CallResult sample 20 none sample-Inv refl room).3 kind refl

abbrev cancel21 : Cmd
cancel21 = record { kind = cmd_cancel; target = some 21; gen = 7 }

arm_fd-ArmResult_example : (arm_fd sample 20 (some 9) 1).0 ≡ none
arm_fd-ArmResult_example =
    (arm_fd-ArmResult sample sample-Inv.owned 20 (some 9) 1 refl (omega arith)).1 kind 9 refl alone

fire_expired_timers-Expired_example : Expired 500 sample (fire_expired_timers sample)
fire_expired_timers-Expired_example = fire_expired_timers-Expired sample sample-Inv

deadline_after-saturates_example : deadline_after 500 (2 ^ 64 - 1) ≡ no_deadline
deadline_after-saturates_example =
    (deadline_after-saturates 500 (2 ^ 64 - 1) (omega arith) (omega arith)).2 (omega arith)

remaining_ns-deadline_example : deadline_after_opt 500 (remaining_ns 500 700) ≡ 700
remaining_ns-deadline_example =
    (remaining_ns-deadline 500 700 (omega arith) (omega arith)).0 (omega arith) (omega arith)
      (omega arith)

next_timeout_ms-covers_example :
    (t : ℕ) × (next_timeout_ms 500 sample.timers ≡ some t)
    × (t ≤ int32_max)
    × ((t < int32_max) → key sample.timers 0 ≤ 500 + t * 1000000)
    × ((0 < t) → 500 + t * 1000000 < key sample.timers 0 + 1000000)
next_timeout_ms-covers_example =
    next_timeout_ms-covers 500 sample.timers (omega arith) (omega arith) (omega arith)

-- Fiber 20 yields: the queue is 22, 20.
abbrev waiting_two : Reactor kind_os
waiting_two = ev_yield sample 20

-- Every fiber returns at once.
abbrev returns : ℕ → Reactor kind_os → Reactor kind_os
returns f s = return_hook_of s f

-- Fiber 21's descriptor is ready at each poll.
abbrev one_event : Option ℕ → ℕ → Polled × ℕ
one_event timeout k = (events (on_fiber 21 ∷ []), k)

returned20 : Inv (return_hook_of sample 20)
returned20 = return_hook-Inv sample 20 sample-Inv refl refl

fiber_recycle-Recycled_example :
    Recycled
      (return_hook_of sample 20)
      20
      (record (fiber_recycle (return_hook_of sample 20) 20) { zombie = none })
unfolding return_hook_of
fiber_recycle-Recycled_example =
    fiber_recycle-Recycled (return_hook_of sample 20) 20 returned20 refl
