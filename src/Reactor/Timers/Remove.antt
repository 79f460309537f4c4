-- ===== src/Reactor/Timers/Remove.antt =====
-- What `timer_remove` does.
use cfiber.Common.{
  ℕ, ◌-◌, ◌/◌, ◌≤◌, ◌<◌, ◌≡◌, ◌≢◌, ◌∙◌, sym, refl, ap, arith, true, false, ◌+◌, Option, none, some,
  ◌==◌, if◌then◌else◌, Bool-cases, inl, inr,
}
use cfiber.Reactor.Timers.{
  Timers, write, key, heap_sift_up, heap_sift_down, fill_hole, remove_at, timer_remove,
}
use cfiber.Reactor.Timers.Keys.{DownFrom}
use cfiber.Reactor.Timers.Heap.{Indexed, armed, places_apart}
use cfiber.Reactor.Timers.Sift.{sift_both-Sifted}
use cfiber.Reactor.Timers.Outcome.{IsHeap}

-- What taking a fiber's timer out leaves: the other timers, as they were.
pub record Removed (s : Timers) (f : ℕ) (s' : Timers) : Type 0 where
  pub heap : IsHeap s'
  pub shorter : armed (s.timer_i f) ≡ true → s'.heap_len + 1 ≡ s.heap_len
  pub deadlines : (g : ℕ) → s'.deadline_ns g ≡ s.deadline_ns g
  pub timers : (g : ℕ) → armed (s'.timer_i g) ≡ (if g == f then false else armed (s.timer_i g))

module _ (s : Timers) (h : IsHeap s) (f i : ℕ) (on : s.timer_i f ≡ some i) where
  lt : i < s.heap_len
  lt = (h.indexed.inside f i on).0

  here : s.heap i ≡ f
  here = (h.indexed.inside f i on).1

  last : ℕ
  last = s.heap_len - 1

  off : (k : ℕ) → k < s.heap_len → k ≢ i → s.heap k ≢ f
  off k kl ne e = places_apart s h.indexed k i kl lt ne (e ∙ sym here)

  taken : Timers
  taken = record s { timer_i = write s.timer_i f none; heap_len = s.heap_len - 1 }

  without :
      (g : ℕ) → armed (write s.timer_i f none g) ≡ (if g == f then false else armed (s.timer_i g))
  without g = elim (Bool-cases (g == f)) [ inl e ↦ rw e refl | inr e ↦ rw e refl ]

  -- The timer was the last of the array.
  pop_last : i ≡ s.heap_len - 1 → Removed s f taken
  unfolding taken
  pop_last e = record {
    heap = record {
      indexed = record { places = places; inside = inside };
      order = λ k pos kl. h.order k pos (omega arith);
    };
    shorter = λ a. omega (arith, lt);
    deadlines = λ g. refl;
    timers = without;
  }
    where
      places : (k : ℕ) → k < s.heap_len - 1 → write s.timer_i f none (s.heap k) ≡ some k
      places k kl =
          let kl' : k < s.heap_len = omega arith in
          let ne : k ≢ i = λ q. omega (arith, q, e) in
          ground (arith, off k kl' ne, h.indexed.places k kl')

      inside : (g k : ℕ) → write s.timer_i f none g ≡ some k → (k < s.heap_len - 1) × (s.heap k ≡ g)
      inside g k q = elim (Bool-cases (g == f)) [
        | inl same ↦ let bad : none ≡ some k = rw same at q in absurd (cc (bad))
        | inr other ↦
            let (kl, there) = h.indexed.inside g k (rw other at q) in
            let ne : k ≢ i = λ r. ground (arith, here, there, ap s.heap r) in
            (omega (arith, kl, ne, e), there)
      ]

  -- Another takes its place.
  module _ (ne : i ≢ s.heap_len - 1) where
    filled : Timers
    unfolding taken
    filled = fill_hole taken i (s.heap_len - 1)

    mover : s.heap (s.heap_len - 1) ≢ f
    mover = off (s.heap_len - 1) (omega (arith, lt)) (λ q. omega (arith, q, ne))

    filled_timer :
        (g : ℕ)
        → filled.timer_i g
          ≡ (if g == s.heap (s.heap_len - 1) then some i else if g == f then none else s.timer_i g)
    unfolding filled taken
    filled_timer g = refl

    filled_heap : (k : ℕ) → filled.heap k ≡ (if k == i then s.heap (s.heap_len - 1) else s.heap k)
    unfolding filled taken
    filled_heap k = refl

    filled-places : (k : ℕ) → k < s.heap_len - 1 → filled.timer_i (filled.heap k) ≡ some k
    unfolding filled taken
    filled-places k kl = elim (Bool-cases (k == i)) [
      | inl hole ↦ let e : i ≡ k = ground arith in ground (arith, ap some e)
      | inr old ↦
          let kl' : k < s.heap_len = omega arith in
          let not_f = off k kl' (λ q. ground (arith, q)) in
          let not_g =
            places_apart s h.indexed k (s.heap_len - 1) kl' (omega (arith, lt))
              (λ q. omega (arith, q, kl)) in
          ground (arith, not_f, not_g, h.indexed.places k kl')
    ]

    filled-inside :
        (g k : ℕ) → filled.timer_i g ≡ some k → (k < s.heap_len - 1) × (filled.heap k ≡ g)
    unfolding filled taken
    filled-inside g k q = elim (Bool-cases (g == s.heap (s.heap_len - 1))) [
      | inl moved ↦
          let e : some i ≡ some k = rw moved at q in
          let e' : i ≡ k = cc (e) in (omega (arith, e', ne, lt), ground (arith, e'))
      | inr still ↦ elim (Bool-cases (g == f)) [
        | inl same ↦ let bad : none ≡ some k = rw (still, same) at q in absurd (cc (bad))
        | inr other ↦
            let (kl, there) = h.indexed.inside g k (rw (still, other) at q) in
            let not_i : k ≢ i = λ r. ground (arith, here, there, ap s.heap r) in
            let not_last : k ≢ s.heap_len - 1 = λ r. ground (arith, there, ap s.heap r) in
            (omega (arith, kl, not_last), ground (arith, there, not_i))
      ]
    ]

    filled-key : (k : ℕ) → k ≢ i → key filled k ≡ key s k
    unfolding filled taken
    filled-key k off_i = ground (arith, off_i)

    filled-across :
        (k : ℕ)
        → 0 < i
        → 0 < k
        → k < s.heap_len - 1
        → (k - 1) / 2 ≡ i
        → key filled ((i - 1) / 2) ≤ key filled k
    filled-across k ipos pos kl e = omega (
      arith,
      h.order i ipos lt,
      h.order k pos (omega arith),
      ap (key s) e,
      filled-key ((i - 1) / 2) (λ q. omega (arith, q, ipos)),
      filled-key k (λ q. omega (arith, q, e, pos)),
    )

    filled-DownFrom : DownFrom (key filled) filled.heap_len i i
    unfolding filled taken
    filled-DownFrom = record {
      order = λ k pos kl off_i far.
          omega
            (arith, h.order k pos (omega arith), filled-key k off_i, filled-key ((k - 1) / 2) far);
      across = filled-across;
      above = λ bad ipos. absurd (bad refl);
      across_hole = filled-across;
    }

    filled_armed :
        (g : ℕ) → armed (filled.timer_i g) ≡ (if g == f then false else armed (s.timer_i g))
    unfolding filled taken
    filled_armed g = elim (Bool-cases (g == s.heap (s.heap_len - 1))) [
      | inl moved ↦
          let e : g ≡ s.heap (s.heap_len - 1) = ground arith in
          let there =
            ap armed (ap s.timer_i e ∙ h.indexed.places (s.heap_len - 1) (omega (arith, lt))) in
          ground (arith, mover, there)
      | inr still ↦ rw still (without g)
    ]

    move_last : Removed s f (heap_sift_up (heap_sift_down filled i) i)
    unfolding filled taken
    move_last =
        let ix : Indexed filled = record { places = filled-places; inside = filled-inside } in
        let done = sift_both-Sifted filled i ix (omega (arith, lt, ne)) filled-DownFrom in
        record {
          heap = record { indexed = done.indexed; order = done.order };
          shorter = λ a. omega (arith, done.same.same_len, lt);
          deadlines = λ g. done.same.same_deadlines g;
          timers = λ g. done.same.same_armed g ∙ filled_armed g;
        }

  remove_at-Removed : Removed s f (remove_at s f (some i))
  unfolding remove_at taken filled
  remove_at-Removed = elim (Bool-cases (i == s.heap_len - 1)) [
    | inl end ↦ rw end (pop_last (ground arith))
    | inr inner ↦ rw inner (move_last (λ q. ground (arith, q)))
  ]

not_armed :
    (s : Timers) → IsHeap s → (f : ℕ) → s.timer_i f ≡ none → Removed s f (remove_at s f none)
unfolding remove_at
not_armed s h f e = record {
  heap = h;
  shorter = λ a. absurd (cc (a, ap armed e));
  deadlines = λ g. refl;
  timers = timers;
}
  where
    timers : (g : ℕ) → armed (s.timer_i g) ≡ (if g == f then false else armed (s.timer_i g))
    timers g = elim (Bool-cases (g == f)) [
      | inl same ↦ let q : g ≡ f = ground arith in rw same (ap armed (ap s.timer_i q ∙ e))
      | inr other ↦ rw other refl
    ]

Removed-as :
    (s : Timers)
    → IsHeap s
    → (f : ℕ) (place : Option ℕ) → s.timer_i f ≡ place
    → Removed s f (remove_at s f place)
Removed-as s h f none e = not_armed s h f e
Removed-as s h f (some i) e = remove_at-Removed s h f i e

-- On a timer heap in order, in which the fibers know their places, `timer_remove` leaves the fiber
-- without a timer. The heap is in order again, the fibers know their new places, and every other
-- fiber keeps its timer, if it had one, and its deadline.
pub timer_remove-Removed : (s : Timers) → IsHeap s → (f : ℕ) → Removed s f (timer_remove s f)
unfolding timer_remove
timer_remove-Removed s h f = Removed-as s h f (s.timer_i f) refl
