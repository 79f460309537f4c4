-- ===== src/Reactor/Stream/Write.antt =====
-- What `cfiber_ev_write` writes: the loop of `write_impl` in src/cfiber/reactor/reactor.c.
use cfiber.Common.{
  ℕ, zero, suc, ◌+◌, ◌≤◌, ◌<◌, ◌≡◌, ◌∙◌, sym, refl, ap, arith, Bool, true, false, List, [], ◌∷◌,
  ◌++◌, Option, length,
}
use mathlib.Core.List.{append-nil, append_assoc}
use cfiber.Reactor.Time.{deadline_after_opt, remaining_ns}
use cfiber.Reactor.State.{
  Status, ev_ready, ev_timeout, ev_cancelled, ev_error, Errno, eio, ecanceled, etimedout,
  from_kernel,
}
use cfiber.Reactor.Wait.{ev_out}
use cfiber.Reactor.Stream.{
  Answer, answered, was_interrupted, would_block, in_progress, call_failed, Io, Returned, returns,
  fails, spins, drop, after_await, wait_then, sent, write_from, write_impl,
}

abbrev pub take : ℕ → List ℕ → List ℕ
take zero l = []
take (suc k) [] = []
take (suc k) (x ∷ l) = x ∷ take k l

take-drop : (k : ℕ) (l : List ℕ) → take k l ++ drop k l ≡ l
take-drop zero l = refl
take-drop (suc k) [] = refl
take-drop (suc k) (x ∷ l) = ap (λ (m : List ℕ). x ∷ m) (take-drop k l)

length-drop : (k : ℕ) (l : List ℕ) → k ≤ length l → k + length (drop k l) ≡ length l
length-drop zero l le = omega arith
length-drop (suc k) [] le = absurd (omega (arith, le))
length-drop (suc k) (x ∷ l) le = omega (arith, length-drop k l (omega (arith, le)))

abbrev pub is_stall : Answer → Bool
is_stall (answered k) = false
is_stall _ = true

-- What POSIX says of `write`: it takes a first part of the bytes that it is given, or none. A wait
-- takes none.
pub record Delivers (io : Io) : Type 0 where
  pub taken : io.World → List ℕ
  pub takes :
      (bytes : List ℕ) (w w' : io.World) (k : ℕ)
      → io.sys_write bytes w ≡ (answered k, w')
      → (k ≤ length bytes) × (taken w' ≡ taken w ++ take k bytes)
  pub refuses :
      (bytes : List ℕ) (w w' : io.World) (a : Answer)
      → io.sys_write bytes w ≡ (a, w')
      → is_stall a ≡ true
      → taken w' ≡ taken w
  pub waits : (d : ℕ) (t : Option ℕ) (w : io.World) → taken (io.await d t w).1 ≡ taken w
  -- how often the descriptor may still be interrupted, or be full again after a wait
  pub stalls : io.World → ℕ
  pub stalls_taken :
      (bytes : List ℕ) (w w' : io.World) (k : ℕ)
      → io.sys_write bytes w ≡ (answered k, w')
      → stalls w' ≤ stalls w
  pub stalls_interrupted :
      (bytes : List ℕ) (w w' : io.World)
      → io.sys_write bytes w ≡ (was_interrupted, w')
      → stalls w' < stalls w
  pub stalls_full :
      (bytes : List ℕ) (w w' : io.World)
      → io.sys_write bytes w ≡ (would_block, w')
      → stalls w' < stalls w
  pub stalls_waited : (d : ℕ) (t : Option ℕ) (w : io.World) → stalls (io.await d t w).1 ≤ stalls w

module _ (io : Io) (d : Delivers io) where
  open io use {World, sys_write, await, now_ns}

  -- What a write of `bytes` with `off` written before comes to, with this much fuel.
  pub data Written (fuel : ℕ) (bytes : List ℕ) (off : ℕ) (w : World)
      : Returned × World → Type 0 where
    whole :
        (n : ℕ) (w' : World)
        → n ≡ off + length bytes
        → d.taken w' ≡ d.taken w ++ bytes
        → Written fuel bytes off w (returns n, w')
    broken_off :
        (e : Errno) (w' : World) (part rest : List ℕ)
        → part ++ rest ≡ bytes
        → d.taken w' ≡ d.taken w ++ part
        → Written fuel bytes off w (fails e, w')
    no_fuel : (w' : World) → fuel < length bytes + d.stalls w → Written fuel bytes off w (spins, w')

  -- A part has been taken before.
  more-Written :
      (fuel k : ℕ) (bytes : List ℕ) (off : ℕ) (w w' : World) (r : Returned × World)
      → (suc k ≤ length bytes)
      → d.taken w' ≡ d.taken w ++ take (suc k) bytes
      → d.stalls w' ≤ d.stalls w
      → Written fuel (drop (suc k) bytes) (off + suc k) w' r
      → Written (suc fuel) bytes off w r
  more-Written fuel k bytes off w w' _ le e fewer (whole n w'' count e') =
      whole n w'' (omega (arith, count, length-drop (suc k) bytes le)) (
        e'
        ∙ ap (λ (l : List ℕ). l ++ drop (suc k) bytes) e
        ∙ append_assoc (d.taken w) (take (suc k) bytes) (drop (suc k) bytes)
        ∙ ap (λ (l : List ℕ). d.taken w ++ l) (take-drop (suc k) bytes))
  more-Written fuel k bytes off w w' _ le e fewer (broken_off er w'' part rest split e') =
      broken_off er w'' (take (suc k) bytes ++ part) rest
        (append_assoc (take (suc k) bytes) part rest
          ∙ ap (λ (l : List ℕ). take (suc k) bytes ++ l) split
          ∙ take-drop (suc k) bytes)
        (e' ∙ ap (λ (l : List ℕ). l ++ part) e ∙ append_assoc (d.taken w) (take (suc k) bytes) part)
  more-Written fuel k bytes off w w' _ le e fewer (no_fuel w'' lt) =
      no_fuel w'' (omega (arith, lt, length-drop (suc k) bytes le, fewer, le))

  -- Nothing has been taken, and the descriptor has stalled.
  same-Written :
      (fuel : ℕ) (bytes : List ℕ) (off : ℕ) (w w' : World) (r : Returned × World)
      → d.taken w' ≡ d.taken w
      → d.stalls w' < d.stalls w
      → Written fuel bytes off w' r
      → Written (suc fuel) bytes off w r
  same-Written fuel bytes off w w' _ e fewer (whole n w'' count e') =
      whole n w'' count (e' ∙ ap (λ (l : List ℕ). l ++ bytes) e)
  same-Written fuel bytes off w w' _ e fewer (broken_off er w'' part rest split e') =
      broken_off er w'' part rest split (e' ∙ ap (λ (l : List ℕ). l ++ part) e)
  same-Written fuel bytes off w w' _ e fewer (no_fuel w'' lt) =
      no_fuel w'' (omega (arith, lt, fewer))

  -- Nothing has been taken, and the call fails.
  failed-Written :
      (fuel : ℕ) (bytes : List ℕ) (off : ℕ) (e : Errno) (w w' : World)
      → d.taken w' ≡ d.taken w
      → Written fuel bytes off w (fails e, w')
  failed-Written fuel bytes off e w w' same =
      broken_off e w' [] bytes refl (same ∙ sym (append-nil (d.taken w)))

  module _ (fuel deadline : ℕ)
      (ih : (bytes : List ℕ) (off : ℕ) (w : World)
        → Written fuel bytes off w (write_from io fuel deadline bytes off w)) where
    waited-Written :
        (bytes : List ℕ) (off : ℕ) (w w' : World)
        → d.taken w' ≡ d.taken w
        → d.stalls w' < d.stalls w
        → (r : Status × World) → d.taken r.1 ≡ d.taken w'
        → d.stalls r.1 ≤ d.stalls w'
        → Written (suc fuel) bytes off w (after_await io (write_from io fuel deadline bytes off) r)
    waited-Written bytes off w w' e fewer (ev_ready, w'') same less =
        same-Written fuel bytes off w w'' (write_from io fuel deadline bytes off w'') (same ∙ e)
          (omega (arith, fewer, less)) (ih bytes off w'')
    waited-Written bytes off w w' e fewer (ev_timeout, w'') same less =
        failed-Written (suc fuel) bytes off etimedout w w'' (same ∙ e)
    waited-Written bytes off w w' e fewer (ev_cancelled, w'') same less =
        failed-Written (suc fuel) bytes off ecanceled w w'' (same ∙ e)
    waited-Written bytes off w w' e fewer (ev_error, w'') same less =
        failed-Written (suc fuel) bytes off from_kernel w w'' (same ∙ e)

    sent-Written :
        (bytes : List ℕ) (off : ℕ) (w : World) (r : Answer × World)
        → sys_write bytes w ≡ r
        → Written
            (suc fuel)
            bytes
            off
            w
            (sent io deadline (write_from io fuel deadline) bytes off r)
    unfolding sent wait_then
    sent-Written bytes off w (answered zero, w') e =
        failed-Written (suc fuel) bytes off eio w w'
          ((d.takes bytes w w' zero e).1 ∙ append-nil (d.taken w))
    sent-Written bytes off w (answered (suc k), w') e =
        let (le, same) = d.takes bytes w w' (suc k) e in
        more-Written fuel k bytes off w w'
          (write_from io fuel deadline (drop (suc k) bytes) (off + suc k) w') le same
          (d.stalls_taken bytes w w' (suc k) e) (ih (drop (suc k) bytes) (off + suc k) w')
    sent-Written bytes off w (was_interrupted, w') e =
        same-Written fuel bytes off w w' (write_from io fuel deadline bytes off w')
          (d.refuses bytes w w' was_interrupted e refl) (d.stalls_interrupted bytes w w' e)
          (ih bytes off w')
    sent-Written bytes off w (would_block, w') e =
        let timeout = remaining_ns (now_ns w') deadline in
        waited-Written bytes off w w' (d.refuses bytes w w' would_block e refl)
          (d.stalls_full bytes w w' e) (await ev_out timeout w') (d.waits ev_out timeout w')
          (d.stalls_waited ev_out timeout w')
    sent-Written bytes off w (in_progress, w') e =
        failed-Written (suc fuel) bytes off from_kernel w w'
          (d.refuses bytes w w' in_progress e refl)
    sent-Written bytes off w (call_failed, w') e =
        failed-Written (suc fuel) bytes off from_kernel w w'
          (d.refuses bytes w w' call_failed e refl)

  write_from-Written :
      (fuel deadline : ℕ) (bytes : List ℕ) (off : ℕ) (w : World)
      → Written fuel bytes off w (write_from io fuel deadline bytes off w)
  unfolding write_from
  write_from-Written zero deadline [] off w =
      whole off w (omega arith) (sym (append-nil (d.taken w)))
  write_from-Written (suc fuel) deadline [] off w =
      whole off w (omega arith) (sym (append-nil (d.taken w)))
  write_from-Written zero deadline (x ∷ rest) off w = no_fuel w (omega arith)
  write_from-Written (suc fuel) deadline (x ∷ rest) off w =
      sent-Written fuel deadline (λ bytes off' w'. write_from-Written fuel deadline bytes off' w')
        (x ∷ rest) off w (sys_write (x ∷ rest) w) refl

  -- For a descriptor whose `write` takes a first part of what it is given, `cfiber_ev_write` returns
  -- the length of the buffer when all of it is written, in order and once, and otherwise fails with a
  -- first part written. With as much fuel as there are bytes, interruptions and full buffers it
  -- returns.
  pub write_impl-Written :
      (fuel : ℕ) (buf : List ℕ) (timeout : Option ℕ) (w : World)
      → Written fuel buf 0 w (write_impl io fuel buf timeout w)
  unfolding write_impl
  write_impl-Written fuel buf timeout w =
      write_from-Written fuel (deadline_after_opt (now_ns w) timeout) buf 0 w
