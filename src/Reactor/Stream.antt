-- ===== src/Reactor/Stream.antt =====
-- The stream helpers of src/cfiber/reactor/reactor.c, over `cfiber_ev_wait`: reading, writing,
-- accepting and connecting, for one descriptor.
pub mod Write
mod Examples
use cfiber.Common.{
  ℕ, zero, suc, ◌+◌, ◌-◌, Bool, true, false, List, [], ◌∷◌, Option, none, some, ◌==◌, if◌then◌else◌,
}
use cfiber.Reactor.Time.{deadline_after_opt, remaining_ns, no_deadline}
use cfiber.Reactor.State.{
  Status, ev_ready, ev_timeout, ev_cancelled, ev_error, Errno, eio, ecanceled, etimedout,
  from_kernel,
}
use cfiber.Reactor.Wait.{ev_in, ev_out}

-- What a system call on a descriptor answers: a count or a new descriptor, or an `errno`.
pub data Answer : Type 0 where
  answered : ℕ → Answer
  was_interrupted would_block in_progress call_failed : Answer

-- The calls for one descriptor, as the fiber sees them: between the call of `cfiber_ev_wait` and its
-- return other fibers run. `sockerr` is `SO_ERROR`, `none` if `getsockopt` fails.
pub record Io : Type 1 where
  pub World : Type 0
  pub sys_read : ℕ → World → Answer × World
  pub sys_write : List ℕ → World → Answer × World
  pub sys_accept : World → Answer × World
  pub sys_connect : World → Answer × World
  pub sockerr : World → Option ℕ × World
  pub await : ℕ → Option ℕ → World → Status × World
  pub now_ns : World → ℕ

-- What a helper returns: a count, 0 or a descriptor; or -1 and the `errno`. `spins` is no answer: the
-- fuel was not enough.
pub data Returned : Type 0 where
  returns : ℕ → Returned
  fails : Errno → Returned
  spins : Returned

-- `wait_failed`: with `CFIBER_EV_ERROR` the `errno` is that of the registration.
abbrev pub wait_failed : Status → Returned
wait_failed ev_cancelled = fails ecanceled
wait_failed ev_timeout = fails etimedout
wait_failed _ = fails from_kernel

-- `buf + k`
abbrev pub drop : ℕ → List ℕ → List ℕ
drop zero l = l
drop (suc k) [] = []
drop (suc k) (x ∷ l) = drop k l

module _ (io : Io) where
  open io use {World, sys_read, sys_write, sys_accept, sys_connect, sockerr, await, now_ns}

  -- What follows a wait: `again` when the descriptor is ready.
  abbrev pub after_await : (World → Returned × World) → Status × World → Returned × World
  after_await again (ev_ready, w) = again w
  after_await again (ev_timeout, w) = (wait_failed ev_timeout, w)
  after_await again (ev_cancelled, w) = (wait_failed ev_cancelled, w)
  after_await again (ev_error, w) = (wait_failed ev_error, w)

  -- A wait for the rest of the time; -1, no timeout, is what is left of `NO_DEADLINE`.
  unfoldable pub wait_then : ℕ → ℕ → (World → Returned × World) → World → Returned × World
  wait_then direction deadline again w =
      after_await again (await direction (remaining_ns (now_ns w) deadline) w)

  -- One turn of a loop that reads or accepts: from the answer of the system on.
  unfoldable pub received : ℕ → (World → Returned × World) → Answer × World → Returned × World
  unfolding wait_then
  received deadline again (answered r, w) = (returns r, w)
  received deadline again (was_interrupted, w) = again w
  received deadline again (would_block, w) = wait_then ev_in deadline again w
  received deadline again (_, w) = (fails from_kernel, w)

  -- The loop of `read_impl`.
  unfoldable pub read_from : ℕ → ℕ → ℕ → World → Returned × World
  unfolding received
  read_from zero deadline n w = (spins, w)
  read_from (suc fuel) deadline n w = received deadline (read_from fuel deadline n) (sys_read n w)

  -- `read_impl`, which `cfiber_ev_read` and `cfiber_ev_read_timed` are.
  unfoldable pub read_impl : ℕ → ℕ → Option ℕ → World → Returned × World
  unfolding read_from
  read_impl fuel n timeout w = read_from fuel (deadline_after_opt (now_ns w) timeout) n w

  -- One turn of the loop of `write_impl`, from the answer of `write` on: `again` has what is left of
  -- the buffer and `off`.
  unfoldable pub sent :
      ℕ → (List ℕ → ℕ → World → Returned × World) → List ℕ → ℕ → Answer × World → Returned × World
  unfolding wait_then
  sent deadline again buf off (answered zero, w) = (fails eio, w)
  sent deadline again buf off (answered (suc k), w) = again (drop (suc k) buf) (off + suc k) w
  sent deadline again buf off (was_interrupted, w) = again buf off w
  sent deadline again buf off (would_block, w) = wait_then ev_out deadline (again buf off) w
  sent deadline again buf off (_, w) = (fails from_kernel, w)

  -- The loop.
  unfoldable pub write_from : ℕ → ℕ → List ℕ → ℕ → World → Returned × World
  unfolding sent
  write_from fuel deadline [] off w = (returns off, w)
  write_from zero deadline (x ∷ rest) off w = (spins, w)
  write_from (suc fuel) deadline (x ∷ rest) off w =
      sent deadline (write_from fuel deadline) (x ∷ rest) off (sys_write (x ∷ rest) w)

  -- `write_impl`, which `cfiber_ev_write` and `cfiber_ev_write_timed` are.
  unfoldable pub write_impl : ℕ → List ℕ → Option ℕ → World → Returned × World
  unfolding write_from
  write_impl fuel buf timeout w = write_from fuel (deadline_after_opt (now_ns w) timeout) buf 0 w

  -- `cfiber_ev_accept`
  unfoldable pub ev_accept : ℕ → World → Returned × World
  unfolding received
  ev_accept zero w = (spins, w)
  ev_accept (suc fuel) w = received no_deadline (ev_accept fuel) (sys_accept w)

  -- After the wait of `cfiber_ev_connect`: the socket's own `errno` counts.
  unfoldable pub connected : Option ℕ × World → Returned × World
  connected (none, w) = (fails from_kernel, w)
  connected (some zero, w) = (returns 0, w)
  connected (some (suc err), w) = (fails from_kernel, w)

  -- From the answer of `connect` on.
  unfoldable pub connecting : Answer × World → Returned × World
  unfolding wait_then connected
  connecting (answered r, w) = (returns 0, w)
  connecting (in_progress, w) = wait_then ev_out no_deadline (λ w'. connected (sockerr w')) w
  connecting (_, w) = (fails from_kernel, w)

  -- `cfiber_ev_connect`
  unfoldable pub ev_connect : World → Returned × World
  unfolding connecting
  ev_connect w = connecting (sys_connect w)
