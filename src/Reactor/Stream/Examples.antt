-- ===== src/Reactor/Stream/Examples.antt =====
-- A descriptor that takes one byte at a time, and is full at first.
use cfiber.Common.{
  ℕ, zero, suc, ◌≤◌, ◌<◌, ◌≡◌, ◌∙◌, sym, refl, ap, arith, Bool, true, false, List, [], ◌∷◌, ◌++◌,
  none, length,
}
use mathlib.Core.List.{append-nil}
use cfiber.Reactor.State.{ev_ready}
use cfiber.Reactor.Stream.{
  Answer, answered, was_interrupted, would_block, call_failed, Io, returns, wait_then, sent,
  write_from, write_impl,
}
use cfiber.Reactor.Stream.Write.{take, is_stall, Delivers, Written, write_impl-Written}

-- The bytes that are out, and how often it is still full.
record Pipe : Type 0 where
  out : List ℕ
  full : ℕ

abbrev push : List ℕ → List ℕ → ℕ → Answer × Pipe
push bytes out (suc n) = (would_block, record { out = out; full = n })
push [] out zero = (answered 0, record { out = out; full = 0 })
push (x ∷ rest) out zero = (answered 1, record { out = out ++ (x ∷ []); full = 0 })

abbrev pipe : Io
pipe = record {
  World = Pipe;
  sys_read = λ n w. (call_failed, w);
  sys_write = λ bytes w. push bytes w.out w.full;
  sys_accept = λ w. (call_failed, w);
  sys_connect = λ w. (call_failed, w);
  sockerr = λ w. (none, w);
  await = λ d t w. (ev_ready, w);
  now_ns = λ w. 0;
}

count_of : Answer → ℕ
count_of (answered k) = k
count_of _ = 0

is_answered : Answer → Bool
is_answered (answered k) = true
is_answered _ = false

abbrev Outcome : Type 0
Outcome = Answer × Pipe

takes :
    (bytes : List ℕ) (w w' : Pipe) (k : ℕ)
    → push bytes w.out w.full ≡ (answered k, w')
    → (k ≤ length bytes) × (w'.out ≡ w.out ++ take k bytes)
unfolding count_of is_answered
takes bytes w w' k e = go bytes w.full e
  where
    go :
        (bytes : List ℕ) (full : ℕ)
        → push bytes w.out full ≡ (answered k, w')
        → (k ≤ length bytes) × (w'.out ≡ w.out ++ take k bytes)
    go bytes (suc n) e =
        let bad : false ≡ true = ap (λ (r : Outcome). is_answered r.0) e in absurd (cc (bad))
    go [] zero e =
        let q : 0 ≡ k = ap (λ (r : Outcome). count_of r.0) e in
        let o : w.out ≡ w'.out = ap (λ (r : Outcome). r.1.out) e in
        (omega (arith, q), sym o ∙ sym (append-nil w.out) ∙ ap (λ (j : ℕ). w.out ++ take j []) q)
    go (x ∷ rest) zero e =
        let q : 1 ≡ k = ap (λ (r : Outcome). count_of r.0) e in
        let o : w.out ++ (x ∷ []) ≡ w'.out = ap (λ (r : Outcome). r.1.out) e in
        (omega (arith, q), sym o ∙ ap (λ (j : ℕ). w.out ++ take j (x ∷ rest)) q)

stalled :
    (bytes : List ℕ) (w w' : Pipe) (a : Answer)
    → push bytes w.out w.full ≡ (a, w')
    → is_stall a ≡ true
    → (w'.out ≡ w.out) × (w'.full < w.full)
stalled bytes w w' a e on = go bytes w.full e
  where
    go :
        (bytes : List ℕ) (full : ℕ)
        → push bytes w.out full ≡ (a, w')
        → (w'.out ≡ w.out) × (w'.full < full)
    go bytes (suc n) e =
        let o : w.out ≡ w'.out = ap (λ (r : Outcome). r.1.out) e in
        let f : n ≡ w'.full = ap (λ (r : Outcome). r.1.full) e in (sym o, omega (arith, f))
    go [] zero e =
        let bad : false ≡ true = ap (λ (r : Outcome). is_stall r.0) e ∙ on in absurd (cc (bad))
    go (x ∷ rest) zero e =
        let bad : false ≡ true = ap (λ (r : Outcome). is_stall r.0) e ∙ on in absurd (cc (bad))

no_fuller : (bytes : List ℕ) (out : List ℕ) (full : ℕ) → (push bytes out full).1.full ≤ full
no_fuller bytes out (suc n) = omega arith
no_fuller [] out zero = omega arith
no_fuller (x ∷ rest) out zero = omega arith

delivers : Delivers pipe
delivers = record {
  taken = λ w. w.out;
  takes = takes;
  refuses = λ bytes w w' a e on. (stalled bytes w w' a e on).0;
  waits = λ d t w. refl;
  stalls = λ w. w.full;
  stalls_taken = λ bytes w w' k e.
      let f : (push bytes w.out w.full).1.full ≡ w'.full = ap (λ (r : Outcome). r.1.full) e in
      omega (arith, no_fuller bytes w.out w.full, f);
  stalls_interrupted = λ bytes w w' e. (stalled bytes w w' was_interrupted e refl).1;
  stalls_full = λ bytes w w' e. (stalled bytes w w' would_block e refl).1;
  stalls_waited = λ d t w. omega arith;
}

-- Full once: the three bytes go out one by one.
abbrev start : Pipe
start = record { out = []; full = 1 }

three_out :
    write_impl pipe 9 (7 ∷ 8 ∷ 9 ∷ []) none start
    ≡ (returns 3, record { out = 7 ∷ 8 ∷ 9 ∷ []; full = 0 })
unfolding write_impl write_from sent wait_then
three_out = refl

write_impl-Written_example :
    Written pipe delivers 9 (7 ∷ 8 ∷ 9 ∷ []) 0 start (write_impl pipe 9 (7 ∷ 8 ∷ 9 ∷ []) none start)
write_impl-Written_example = write_impl-Written pipe delivers 9 (7 ∷ 8 ∷ 9 ∷ []) none start
