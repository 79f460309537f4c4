-- ===== src/Reactor/Loop/Runs.antt =====
-- The steps of the run loop of src/cfiber/reactor/reactor.c outside the fibers: commands, events and
-- timers.
use cfiber.Common.{
  ℕ, zero, suc, ◌≡◌, ◌∙◌, refl, true, ◌&&◌, ◌||◌, List, [], ◌∷◌, Option, none, some, ltb, leb, ◌==◌,
  ◌!=◌, Bool-cases, inl, inr,
}
use cfiber.Reactor.Timers.{write, key, timer_remove}
use cfiber.Reactor.State.{
  FiberState, fb_free, fb_ready, fb_running, fb_parked, fb_zombie, is_parked, is_async, Status,
  ev_ready, ev_timeout, ev_cancelled, Os, Reactor, enqueue, resume, resume_as,
}
use cfiber.Reactor.Owner.{is_this, fd_owner_get, detach_from, detach_fd, unpark}
use cfiber.Reactor.Command.{
  CmdKind, cmd_wake, cmd_cancel, Cmd, is_gone, apply_to, apply_target, apply_cmd,
}
use cfiber.Reactor.Inv.{Inv}
use cfiber.Reactor.Inv.Same.{Inv-kernel, Inv-same, SameBooks}
use cfiber.Reactor.Inv.Detach.{resume-Inv, timer_off-Inv, unpark-Inv}
use cfiber.Reactor.Expire.{fire_timer, fire_from, fire_expired_timers, fire_expired_timers-Expired}
use cfiber.Reactor.Loop.{
  Event, control, on_fiber, drain_cmds, handle_event, handle_events, poll_timeout,
}
use cfiber.Reactor.Loop.Round.{Idle}

-- Who runs, and who has returned, is as it was.
abbrev pub SameHands : {os : Os} → Reactor os → Reactor os → Type 0
SameHands s t = (t.current ≡ s.current) × (t.zombie ≡ s.zombie)

SameHands-trans : {os : Os} (s t u : Reactor os) → SameHands s t → SameHands t u → SameHands s u
SameHands-trans s t u (a, b) (c, d) = (c ∙ a, d ∙ b)

resume_hands :
    {os : Os} (s : Reactor os) (f : ℕ) (status : Status) → SameHands s (resume s f status)
unfolding resume resume_as enqueue
resume_hands s f status = go (s.state f)
  where
    go : (v : FiberState) → SameHands s (resume_as s f status v)
    go fb_parked = (refl, refl)
    go fb_free = (refl, refl)
    go fb_ready = (refl, refl)
    go fb_running = (refl, refl)
    go fb_zombie = (refl, refl)

detach_fd_hands : {os : Os} (s : Reactor os) (f : ℕ) → SameHands s (detach_fd s f)
unfolding detach_fd detach_from
detach_fd_hands s f = go (s.reg_fd f)
  where
    go : (r : Option ℕ) → SameHands s (detach_from s f r)
    go none = (refl, refl)
    go (some fd) = elim (Bool-cases (is_this (fd_owner_get s fd) f)) [
      | inl mine ↦ rw mine (refl, refl)
      | inr other ↦ rw other (refl, refl)
    ]

unpark_hands :
    {os : Os} (s : Reactor os) (f : ℕ) (status : Status) → SameHands s (unpark s f status)
unfolding unpark
unpark_hands s f status =
    let d = detach_fd s f in
    let t = record d { timers = timer_remove d.timers f } in
    let (a, b) = detach_fd_hands s f in let (c, e) = resume_hands t f status in (c ∙ a, e ∙ b)

-- A step of the loop while no fiber runs.
module _ {os : Os} where
  still-Idle : (s t : Reactor os) → Idle s → Inv t → SameHands s t → Idle t
  still-Idle s t idle inv (a, b) = record {
    inv = inv;
    nobody = a ∙ idle.nobody;
    clean = b ∙ idle.clean;
  }

  unpark-Idle : (s : Reactor os) (f : ℕ) (status : Status) → Idle s → Idle (unpark s f status)
  unpark-Idle s f status idle =
      still-Idle s (unpark s f status) idle (unpark-Inv s f status idle.inv)
        (unpark_hands s f status)

  permitted :
      (s : Reactor os) (f : ℕ)
      → Idle s
      → Idle (record s { wake_pending = write s.wake_pending f true })
  permitted s f idle =
      let t = record s { wake_pending = write s.wake_pending f true } in
      let same : SameBooks s t = record {
        same_ready = refl;
        same_live = refl;
        same_blocked = refl;
        same_active = refl;
        same_state = refl;
        same_current = refl;
        same_zombie = refl;
      } in
      still-Idle s t idle (Inv-same s t same refl refl refl refl idle.inv) (refl, refl)

  apply_to-Idle : (s : Reactor os) (kind : CmdKind) (f : ℕ) → Idle s → Idle (apply_to s kind f)
  unfolding apply_to
  apply_to-Idle s cmd_cancel f idle = elim (Bool-cases (is_parked (s.state f))) [
    | inl parked ↦ rw parked (unpark-Idle s f ev_cancelled idle)
    | inr busy ↦ rw busy idle
  ]
  apply_to-Idle s cmd_wake f idle =
      elim (Bool-cases (is_parked (s.state f) && is_async (s.park f))) [
        | inl waits ↦ rw waits (unpark-Idle s f ev_ready idle)
        | inr busy ↦ rw busy (permitted s f idle)
      ]

  apply_target-Idle :
      (s : Reactor os) (kind : CmdKind) (gen : ℕ) (target : Option ℕ)
      → Idle s
      → Idle (apply_target s kind gen target)
  unfolding apply_target
  apply_target-Idle s kind gen none idle = idle
  apply_target-Idle s kind gen (some f) idle =
      elim (Bool-cases (s.generation f != gen || is_gone (s.state f))) [
        | inl gone ↦ rw gone idle
        | inr fits ↦ rw fits (apply_to-Idle s kind f idle)
      ]

  apply_cmd-Idle : (s : Reactor os) (c : Cmd) → Idle s → Idle (apply_cmd s c)
  unfolding apply_cmd
  apply_cmd-Idle s c idle = apply_target-Idle s c.kind c.gen c.target idle

  drain_cmds-Idle : (s : Reactor os) (cmds : List Cmd) → Idle s → Idle (drain_cmds s cmds)
  unfolding drain_cmds
  drain_cmds-Idle s [] idle = idle
  drain_cmds-Idle s (c ∷ rest) idle = drain_cmds-Idle (apply_cmd s c) rest (apply_cmd-Idle s c idle)

  handle_event-Idle : (s : Reactor os) (e : Event) → Idle s → Idle (handle_event s e)
  unfolding handle_event
  handle_event-Idle s (control cmds) idle = drain_cmds-Idle s cmds idle
  handle_event-Idle s (on_fiber w) idle = elim (Bool-cases (is_parked (s.state w))) [
    | inl parked ↦
        let t = record s { timers = timer_remove s.timers w } in
        let (inv, off) = timer_off-Inv s w idle.inv in
        let (a, b) = resume_hands t w ev_ready in
        rw parked (still-Idle s (resume t w ev_ready) idle (resume-Inv t w ev_ready inv off) (a, b))
    | inr busy ↦ rw busy idle
  ]

  pub handle_events-Idle : (s : Reactor os) (es : List Event) → Idle s → Idle (handle_events s es)
  unfolding handle_events
  handle_events-Idle s [] idle = idle
  handle_events-Idle s (e ∷ rest) idle =
      handle_events-Idle (handle_event s e) rest (handle_event-Idle s e idle)

  fire_timer_hands : (s : Reactor os) (f : ℕ) → SameHands s (fire_timer s f)
  unfolding fire_timer
  fire_timer_hands s f =
      let t = record s { timers = timer_remove s.timers f } in
      let (a, b) = detach_fd_hands t f in
      let (c, d) = resume_hands (detach_fd t f) f ev_timeout in (c ∙ a, d ∙ b)

  fire_from_hands : (fuel now : ℕ) (s : Reactor os) → SameHands s (fire_from fuel now s)
  unfolding fire_from
  fire_from_hands zero now s = (refl, refl)
  fire_from_hands (suc fuel) now s =
      elim (Bool-cases (ltb 0 s.timers.heap_len && leb (key s.timers 0) now)) [
        | inr stop ↦ rw (stop, fire_from) (refl, refl)
        | inl more ↦
            let s1 = fire_timer s (s.timers.heap 0) in
            rw (more, fire_from)
              (SameHands-trans s s1 (fire_from fuel now s1) (fire_timer_hands s (s.timers.heap 0))
                (fire_from_hands fuel now s1))
      ]

  pub fire_expired_timers-Idle : (s : Reactor os) → Idle s → Idle (fire_expired_timers s)
  unfolding fire_expired_timers
  fire_expired_timers-Idle s idle =
      let (now, k) = os.now_ns s.kernel in
      let (a, b) = fire_from_hands s.timers.heap_len now (record s { kernel = k }) in
      still-Idle s (fire_expired_timers s) idle (fire_expired_timers-Expired s idle.inv).inv (a, b)

  pub kernel-Idle : (s : Reactor os) (k : os.Kernel) → Idle s → Idle (record s { kernel = k })
  kernel-Idle s k idle =
      still-Idle s (record s { kernel = k }) idle (Inv-kernel s k idle.inv) (refl, refl)

  pub poll_timeout-Idle : (s : Reactor os) (l : List ℕ) → Idle s → Idle (poll_timeout s l).1
  unfolding poll_timeout
  poll_timeout-Idle s [] idle = elim (Bool-cases (s.timers.heap_len == 0)) [
    | inl no_timer ↦ rw no_timer idle
    | inr some_timer ↦ rw some_timer (kernel-Idle s (os.now_ns s.kernel).1 idle)
  ]
  poll_timeout-Idle s (f ∷ rest) idle = idle
