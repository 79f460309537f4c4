-- ===== src/Reactor/Timers/Examples.antt =====
-- Three timers, one of them taken out.
use cfiber.Common.{
  ℕ, zero, suc, ◌<◌, ◌≡◌, refl, arith, Bool, Option, none, some, ◌==◌, ltb, if◌then◌else◌,
  Bool-cases, inl, inr,
}
use cfiber.Reactor.Timers.{Timers, heap_reserve, timer_add, timer_remove}
use cfiber.Reactor.Timers.Sift.{IsOrdered}
use cfiber.Reactor.Timers.Outcome.{
  IsHeap, AddResult, timer_add-AddResult, Reserved, heap_reserve-Reserved,
}
use cfiber.Reactor.Timers.Remove.{Removed, timer_remove-Removed}

abbrev place_of : ℕ → Option ℕ
place_of f =
    if f == 20 then some 0 else if f == 21 then some 1 else if f == 22 then some 2 else none

abbrev fiber_at : ℕ → ℕ
fiber_at k = if k == 0 then 20 else if k == 1 then 21 else 22

-- Fibers 20, 21 and 22, due at 5, 9 and 7.
abbrev three : Timers
three = record {
  heap = fiber_at;
  heap_len = 3;
  heap_cap = 16;
  deadline_ns = λ f. if f == 20 then 5 else if f == 21 then 9 else 7;
  timer_i = place_of;
}

three-places : (k : ℕ) → k < 3 → place_of (fiber_at k) ≡ some k
three-places zero lt = refl
three-places (suc zero) lt = refl
three-places (suc (suc zero)) lt = refl
three-places (suc (suc (suc k))) lt = absurd (omega arith)

three-inside : (f k : ℕ) → place_of f ≡ some k → (k < 3) × (fiber_at k ≡ f)
three-inside f k e = elim (Bool-cases (f == 20)) [
  | inl first ↦
      let q : some 0 ≡ some k = rw first at e in
      let q' : 0 ≡ k = cc (q) in (omega (arith, q'), ground (arith, q'))
  | inr not_first ↦ elim (Bool-cases (f == 21)) [
    | inl second ↦
        let q : some 1 ≡ some k = rw (not_first, second) at e in
        let q' : 1 ≡ k = cc (q) in (omega (arith, q'), ground (arith, q'))
    | inr not_second ↦ elim (Bool-cases (f == 22)) [
      | inl third ↦
          let q : some 2 ≡ some k = rw (not_first, not_second, third) at e in
          let q' : 2 ≡ k = cc (q) in (omega (arith, q'), ground (arith, q'))
      | inr other ↦
          let bad : none ≡ some k = rw (not_first, not_second, other) at e in absurd (cc (bad))
    ]
  ]
]

three-IsOrdered : IsOrdered three
three-IsOrdered zero pos lt = absurd (omega arith)
three-IsOrdered (suc zero) pos lt = omega arith
three-IsOrdered (suc (suc zero)) pos lt = omega arith
three-IsOrdered (suc (suc (suc k))) pos lt = absurd (omega arith)

three-IsHeap : IsHeap three
three-IsHeap = record {
  indexed = record { places = three-places; inside = three-inside };
  order = three-IsOrdered;
}

abbrev has_memory : ℕ → Bool
has_memory cap = ltb cap 1000

timer_add-AddResult_example : AddResult three 23 6 has_memory (timer_add has_memory three 23 6)
timer_add-AddResult_example =
    timer_add-AddResult has_memory three 23 6 three-IsHeap refl (omega arith)

timer_remove-Removed_example : Removed three 20 (timer_remove three 20)
timer_remove-Removed_example = timer_remove-Removed three three-IsHeap 20

heap_reserve-Reserved_example : Reserved has_memory 17 three (heap_reserve has_memory 17 three)
heap_reserve-Reserved_example = heap_reserve-Reserved has_memory 17 three (omega arith)
