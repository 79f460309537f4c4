-- ===== src/Reactor/Inv/Grants.antt =====
-- When the system grants what it is asked for, the calls that park do park.
use cfiber.Common.{
  ℕ, ◌+◌, ◌≡◌, ◌∙◌, refl, ap, Bool, true, false, ◌&&◌, Option, none, some, leb, ◌==◌, ◌!=◌,
  if◌then◌else◌, Bool-cases, inl, inr, bit_or,
}
use cfiber.Core.{u64}
use cfiber.Reactor.Timers.{Timers, write, heap_reserve, place_timer, timer_add}
use cfiber.Reactor.State.{
  FiberState, is_parked, CtlOp, ctl_add, ctl_mod, CtlResult, ctl_ok, ctl_enoent, ctl_eexist,
  ctl_failed, ParkKind, park_timer, park_async, Errno, Os, Reactor,
}
use cfiber.Reactor.Owner.{
  is_this, fd_owner_get, fd_owner_reserve, detach_from, detach_fd, arm_first, arm_held,
  arm_reserved, epoll_oneshot, arm_fd,
}
use cfiber.Reactor.Wait.{
  Call, answers, parks, deadline_from, set_timer, set_timeout, wait_timed, wait_armed, park_timed,
  bad_direction, events_of, ev_wait, ev_sleep, ev_wait_async,
}

-- Whether the fiber has parked.
abbrev pub is_parking : {os : Os} → Call os → Bool
is_parking (parks s) = true
is_parking (answers st e s) = false

-- There is always memory, and the kernel registers every descriptor.
pub record Grants (os : Os) : Type 0 where
  pub memory : (k : os.Kernel) (n : ℕ) → os.realloc k n ≡ true
  pub registers :
      (op : CtlOp) (fd events f : ℕ) (k : os.Kernel) → (os.epoll_ctl op fd events f k).0 ≡ ctl_ok

-- No other fiber waits for the descriptor.
abbrev pub NobodyWaits : {os : Os} → Reactor os → ℕ → ℕ → Type 0
NobodyWaits s f fd = (g : ℕ) → (g != f && is_parked (s.state g) && is_this (s.wait_fd g) fd) ≡ false

timer_add_granted :
    (realloc : ℕ → Bool) (s : Timers) (f deadline : ℕ)
    → ((n : ℕ) → realloc n ≡ true)
    → (timer_add realloc s f deadline).0 ≡ true
unfolding timer_add heap_reserve
timer_add_granted realloc s f deadline grant =
    answer (heap_reserve realloc (s.heap_len + 1) s) has_room
  where
    has_room : (heap_reserve realloc (s.heap_len + 1) s).0 ≡ true
    has_room = elim (Bool-cases (leb (s.heap_len + 1) s.heap_cap)) [
      | inl short ↦ rw short refl
      | inr long ↦ rw (long, grant _) refl
    ]

    tried : Bool × Timers → Bool × Timers
    tried (ok, s1) = if ok then (true, place_timer s1 f deadline) else (false, s1)

    answer : (r : Bool × Timers) → r.0 ≡ true → (tried r).0 ≡ true
    answer (true, s1) e = refl
    answer (false, s1) e = absurd (cc (e))

module _ {os : Os} (grants : Grants os) where
  set_timer_granted : (s : Reactor os) (f ns : ℕ) → (set_timer s f ns).0 ≡ true
  unfolding set_timer deadline_from
  set_timer_granted s f ns =
      timer_add_granted (os.realloc (os.now_ns s.kernel).1) s.timers f _
        (λ n. grants.memory (os.now_ns s.kernel).1 n)

  set_timeout_granted :
      (s : Reactor os) (f : ℕ) (timeout : Option ℕ) → (set_timeout s f timeout).0 ≡ true
  unfolding set_timeout
  set_timeout_granted s f none = refl
  set_timeout_granted s f (some ns) = set_timer_granted s f ns

  park_timed_granted :
      (f : ℕ) (kind : ParkKind) (r : Bool × Reactor os)
      → r.0 ≡ true
      → is_parking (park_timed f kind r) ≡ true
  unfolding park_timed
  park_timed_granted f kind (true, s) e = refl
  park_timed_granted f kind (false, s) e = absurd (cc (e))

  arm_first_granted :
      (s : Reactor os) (f fd events : ℕ) (r : CtlResult × os.Kernel)
      → r.0 ≡ ctl_ok
      → (arm_first s f fd events r).0 ≡ none
  unfolding arm_first
  arm_first_granted s f fd events (ctl_ok, k) e = refl
  arm_first_granted s f fd events (ctl_enoent, k) e = absurd (cc (e))
  arm_first_granted s f fd events (ctl_eexist, k) e = absurd (cc (e))
  arm_first_granted s f fd events (ctl_failed, k) e = absurd (cc (e))

  arm_held_granted :
      (s : Reactor os) (f fd events : ℕ) (holder : Option ℕ)
      → NobodyWaits s f fd
      → (arm_held s f fd events holder).0 ≡ none
  unfolding arm_held
  arm_held_granted s f fd events none free =
      arm_first_granted s f fd events (os.epoll_ctl ctl_add fd events f s.kernel)
        (grants.registers ctl_add fd events f s.kernel)
  arm_held_granted s f fd events (some holder) free = rw (free holder) (
      arm_first_granted
        (if holder == f then s else record s { reg_fd = write s.reg_fd holder none }) f fd events
        (os.epoll_ctl ctl_mod fd events f s.kernel) (grants.registers ctl_mod fd events f s.kernel))

  detach_from_same :
      (s : Reactor os) (f : ℕ) (r : Option ℕ)
      → ((detach_from s f r).state ≡ s.state) × ((detach_from s f r).wait_fd ≡ s.wait_fd)
  unfolding detach_from
  detach_from_same s f none = (refl, refl)
  detach_from_same s f (some fd) = elim (Bool-cases (is_this (fd_owner_get s fd) f)) [
    | inl mine ↦ rw mine (refl, refl)
    | inr other ↦ rw other (refl, refl)
  ]

  still_free :
      (s t : Reactor os) (f fd : ℕ)
      → (t.state ≡ s.state) × (t.wait_fd ≡ s.wait_fd)
      → NobodyWaits s f fd
      → NobodyWaits t f fd
  still_free s t f fd (states, fds) free g =
      ap (λ (m : ℕ → FiberState). g != f && is_parked (m g) && is_this (t.wait_fd g) fd) states
      ∙ ap (λ (m : ℕ → Option ℕ). g != f && is_parked (s.state g) && is_this (m g) fd) fds
      ∙ free g

  arm_reserved_granted :
      (s : Reactor os) (f fd events : ℕ)
      → NobodyWaits s f fd
      → (arm_reserved s f fd events).0 ≡ none
  unfolding arm_reserved detach_fd
  arm_reserved_granted s f fd events free = elim (Bool-cases (is_this (s.reg_fd f) fd)) [
    | inl here ↦
        rw here (arm_held_granted s f fd (bit_or events epoll_oneshot) (s.fd_owner fd) free)
    | inr elsewhere ↦
        let t = detach_from s f (s.reg_fd f) in
        let free' = still_free s t f fd (detach_from_same s f (s.reg_fd f)) free in
        rw elsewhere (arm_held_granted t f fd (bit_or events epoll_oneshot) (t.fd_owner fd) free')
  ]

  reserve_granted :
      (s : Reactor os) (fd : ℕ)
      → let r = fd_owner_reserve s fd in
        (r.0 ≡ true) × (r.1.state ≡ s.state) × (r.1.wait_fd ≡ s.wait_fd)
  unfolding fd_owner_reserve
  reserve_granted s fd = elim (Bool-cases (leb (u64 (fd + 1)) s.fd_owner_cap)) [
    | inl short ↦ rw short (refl, refl, refl)
    | inr long ↦ rw (long, grants.memory s.kernel _) (refl, refl, refl)
  ]

  pub arm_fd_granted :
      (s : Reactor os) (f fd events : ℕ)
      → NobodyWaits s f fd
      → (arm_fd s f (some fd) events).0 ≡ none
  unfolding arm_fd
  arm_fd_granted s f fd events free =
      let (ok, states, fds) = reserve_granted s fd in
      let t = (fd_owner_reserve s fd).1 in
      rw ok (arm_reserved_granted t f fd events (still_free s t f fd (states, fds) free))

  armed_granted :
      (f fd : ℕ) (timeout : Option ℕ) (r : Option Errno × Reactor os)
      → r.0 ≡ none
      → is_parking (wait_armed f (some fd) timeout r) ≡ true
  unfolding wait_armed wait_timed
  armed_granted f fd timeout (some e, s) h = absurd (cc (h))
  armed_granted f fd timeout (none, s) h =
      timed_granted (set_timeout s f timeout) (set_timeout_granted s f timeout)
    where
      timed_granted : (r : Bool × Reactor os) → r.0 ≡ true → is_parking (wait_timed f fd r) ≡ true
      timed_granted (true, t) e = refl
      timed_granted (false, t) e = absurd (cc (e))

  pub ev_sleep_granted : (s : Reactor os) (f ns : ℕ) → is_parking (ev_sleep s f ns) ≡ true
  unfolding ev_sleep
  ev_sleep_granted s f ns =
      park_timed_granted f park_timer (set_timer s f ns) (set_timer_granted s f ns)

  pub ev_wait_async_granted :
      (s : Reactor os) (f : ℕ) (timeout : Option ℕ)
      → s.wake_pending f ≡ false
      → is_parking (ev_wait_async s f timeout) ≡ true
  unfolding ev_wait_async
  ev_wait_async_granted s f timeout no_permit =
      rw no_permit (
        park_timed_granted f park_async (set_timeout s f timeout) (set_timeout_granted s f timeout))

  pub ev_wait_granted :
      (s : Reactor os) (f fd direction : ℕ) (timeout : Option ℕ)
      → bad_direction direction ≡ false
      → NobodyWaits s f fd
      → is_parking (ev_wait s f (some fd) direction timeout) ≡ true
  unfolding ev_wait
  ev_wait_granted s f fd direction timeout valid free = rw valid (
      armed_granted f fd timeout (arm_fd s f (some fd) (events_of direction))
        (arm_fd_granted s f fd (events_of direction) free))
