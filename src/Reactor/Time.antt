-- ===== src/Reactor/Time.antt =====
-- Deadlines and timeouts of src/cfiber/reactor/reactor.c, on the time that the clock has given.
use cfiber.Common.{
  ℕ, ◌+◌, ◌-◌, ◌*◌, ◌/◌, ◌^◌, ◌≤◌, ◌<◌, ◌≡◌, arith, refl, true, false, Bool-cases, inl, inr, Option,
  none, some, ltb, leb, ◌==◌, if◌then◌else◌,
}
use cfiber.Core.{u64, sub64}
use cfiber.Reactor.Timers.{Timers, key}

-- `NO_DEADLINE`
abbrev pub no_deadline : ℕ
no_deadline = 2 ^ 64 - 1

abbrev pub int64_max : ℕ
int64_max = 2 ^ 63 - 1

abbrev pub int32_max : ℕ
int32_max = 2 ^ 31 - 1

unfoldable pub deadline_after : ℕ → ℕ → ℕ
deadline_after now ns = if ltb (sub64 no_deadline now) ns then no_deadline else u64 (now + ns)

-- A negative timeout is `none`.
unfoldable pub deadline_after_opt : ℕ → Option ℕ → ℕ
unfolding deadline_after
deadline_after_opt now none = no_deadline
deadline_after_opt now (some timeout) = deadline_after now timeout

-- -1 is `none`.
unfoldable pub remaining_ns : ℕ → ℕ → Option ℕ
remaining_ns now deadline =
    if deadline == no_deadline
    then none
    else if leb deadline now
    then some 0
    else if ltb int64_max (sub64 deadline now)
    then some int64_max
    else some (sub64 deadline now)

-- The time to the earliest deadline, in milliseconds.
unfoldable pub timeout_to : ℕ → ℕ → ℕ
timeout_to now deadline =
    let left = sub64 deadline now in
    if leb deadline now
    then 0
    else if leb (int32_max * 1000000) left
    then int32_max
    else u64 (left + 999999) / 1000000

unfoldable pub next_timeout_ms : ℕ → Timers → Option ℕ
unfolding timeout_to
next_timeout_ms now s = if s.heap_len == 0 then none else some (timeout_to now (key s 0))

-- For a clock and a timeout below 2^64, `deadline_after` is their sum, or `NO_DEADLINE` when that is
-- not smaller: it never wraps.
pub deadline_after-saturates :
    (now ns : ℕ)
    → now < 2 ^ 64
    → ns < 2 ^ 64
    → (deadline_after now ns ≤ no_deadline)
      × ((now + ns ≤ no_deadline) → deadline_after now ns ≡ now + ns)
      × ((no_deadline ≤ now + ns) → deadline_after now ns ≡ no_deadline)
unfolding deadline_after
deadline_after-saturates now ns a b = (ground arith, λ h. ground (arith, h), λ h. ground (arith, h))

-- A wait for what `remaining_ns` says is left of a deadline, taken from the same time, ends at that
-- deadline, when it is less than 2^63 ns away; at once, when it has passed; after 2^63 - 1 ns, when it
-- is further away; and never, exactly when the deadline is `NO_DEADLINE`.
pub remaining_ns-deadline :
    (now deadline : ℕ)
    → now < 2 ^ 64
    → deadline < 2 ^ 64
    → let again = deadline_after_opt now (remaining_ns now deadline) in
      ((now ≤ deadline) → (deadline < now + 2 ^ 63) → (deadline < no_deadline) → again ≡ deadline)
      × ((deadline ≤ now) → (deadline < no_deadline) → again ≡ now)
      × ((now + 2 ^ 63 ≤ deadline) → (deadline < no_deadline) → again ≡ now + int64_max)
      × ((deadline ≡ no_deadline) → (remaining_ns now deadline ≡ none) × (again ≡ no_deadline))
      × ((deadline < no_deadline)
          → (t : ℕ) × (remaining_ns now deadline ≡ some t) × (t ≤ int64_max))
unfolding remaining_ns deadline_after_opt deadline_after
remaining_ns-deadline now deadline a b = (
  λ h k l. ground (arith, h, k, l),
  λ h k. ground (arith, h, k),
  λ h k. ground (arith, h, k),
  λ h. rw (some_test h) (refl, refl),
  λ h. left h,
)
  where
    some_test : deadline ≡ no_deadline → (deadline == no_deadline) ≡ true
    some_test h = ground (arith, h)

    left : deadline < no_deadline → (t : ℕ) × (remaining_ns now deadline ≡ some t) × (t ≤ int64_max)
    left h = elim (Bool-cases (leb deadline now)) [
      | inl past ↦
          let timed : (deadline == no_deadline) ≡ false = ground (arith, h) in
          rw (timed, past) (0, refl, omega arith)
      | inr ahead ↦ elim (Bool-cases (ltb int64_max (sub64 deadline now))) [
        | inl far ↦
            let timed : (deadline == no_deadline) ≡ false = ground (arith, h) in
            rw (timed, ahead, far) (int64_max, refl, omega arith)
        | inr near ↦
            let timed : (deadline == no_deadline) ≡ false = ground (arith, h) in
            rw (timed, ahead, near) (sub64 deadline now, refl, ground arith)
      ]
    ]

-- The poll never ends long after the earliest deadline, and never before it unless the wait is as
-- long as `epoll_wait` can take: the timeout is an `int` that is not negative, it covers the time
-- left, and by less than a millisecond more.
pub next_timeout_ms-covers :
    (now : ℕ) (s : Timers)
    → now < 2 ^ 64
    → key s 0 < 2 ^ 64
    → 0 < s.heap_len
    → (t : ℕ) × (next_timeout_ms now s ≡ some t)
      × (t ≤ int32_max)
      × ((t < int32_max) → key s 0 ≤ now + t * 1000000)
      × ((0 < t) → now + t * 1000000 < key s 0 + 1000000)
unfolding next_timeout_ms timeout_to
next_timeout_ms-covers now s a b some_timer = (
  timeout_to now (key s 0),
  ground (arith, some_timer),
  ground arith,
  λ h. ground (arith, h),
  λ h. ground (arith, h),
)
