-- ===== src/Reactor/Timers/Outcome.antt =====
-- What `timer_add` and `timer_remove` do.
use cfiber.Common.{
  ℕ, zero, suc, ◌+◌, ◌-◌, ◌*◌, ◌/◌, ◌^◌, ◌≤◌, ◌<◌, ◌≡◌, ◌⊎◌, ◌≢◌, ◌∙◌, sym, refl, ap, arith, Bool,
  true, false, none, some, ◌==◌, ltb, leb, if◌then◌else◌, Bool-cases, inl, inr,
}
use cfiber.Core.{u64}
use cfiber.Reactor.Timers.{
  Timers, write, key, heap_sift_up, place_timer, grow_cap, heap_reserve, timer_add,
}
use cfiber.Reactor.Timers.Keys.{UpTo}
use cfiber.Reactor.Timers.Heap.{Indexed, armed}
use cfiber.Reactor.Timers.Sift.{IsOrdered, sift_up_from-Sifted}

-- The heap is in order, and the fibers know their places.
pub record IsHeap (s : Timers) : Type 0 where
  pub indexed : Indexed s
  pub order : IsOrdered s

-- In a timer heap in order no timer is due before the one at the root, which is the one that the run
-- loop looks at.
pub IsHeap-root : (s : Timers) → IsHeap s → (k : ℕ) → k < s.heap_len → key s 0 ≤ key s k
IsHeap-root s h k lt = least s.heap_len k lt (omega arith)
  where
    least : (bound k : ℕ) → k < s.heap_len → k < bound → key s 0 ≤ key s k
    least zero k lt below = absurd (omega arith)
    least (suc bound) zero lt below = omega arith
    least (suc bound) (suc k) lt below = omega (
      arith,
      h.order (suc k) (omega arith) lt,
      least bound ((suc k - 1) / 2) (omega arith) (omega arith),
    )

-- What a timer that is set leaves.
pub record Added (s : Timers) (f deadline : ℕ) (s' : Timers) : Type 0 where
  pub heap : IsHeap s'
  pub longer : s'.heap_len ≡ s.heap_len + 1
  pub deadlines : (g : ℕ) → s'.deadline_ns g ≡ (if g == f then deadline else s.deadline_ns g)
  pub timers : (g : ℕ) → armed (s'.timer_i g) ≡ (if g == f then true else armed (s.timer_i g))

module _ (s : Timers) (h : IsHeap s) (f deadline : ℕ) (off : s.timer_i f ≡ none)
    (room : s.heap_len + 1 < 2 ^ 64) where
  appended : Timers
  appended = record s {
    deadline_ns = write s.deadline_ns f deadline;
    timer_i = write s.timer_i f (some s.heap_len);
    heap = write s.heap s.heap_len f;
    heap_len = u64 (s.heap_len + 1);
  }

  not_there : (k : ℕ) → k < s.heap_len → s.heap k ≢ f
  not_there k lt e =
      let bad : none ≡ some k = sym off ∙ ap s.timer_i (sym e) ∙ h.indexed.places k lt in
      absurd (cc (bad))

  appended-Indexed : Indexed appended
  unfolding appended
  appended-Indexed = record { places = places; inside = inside }
    where
      places :
          (k : ℕ)
          → k < u64 (s.heap_len + 1)
          → write s.timer_i f (some s.heap_len) (write s.heap s.heap_len f k) ≡ some k
      places k lt = elim (Bool-cases (k == s.heap_len)) [
        | inl last ↦ let e : s.heap_len ≡ k = ground arith in ground (arith, ap some e)
        | inr old ↦
            let lt' : k < s.heap_len = ground arith in
            ground (arith, not_there k lt', h.indexed.places k lt')
      ]

      inside :
          (g k : ℕ)
          → write s.timer_i f (some s.heap_len) g ≡ some k
          → (k < u64 (s.heap_len + 1)) × (write s.heap s.heap_len f k ≡ g)
      inside g k e = elim (Bool-cases (g == f)) [
        | inl new ↦
            let q : some s.heap_len ≡ some k = rw new at e in
            let q' : s.heap_len ≡ k = cc (q) in (omega (arith, q'), ground (arith, q'))
        | inr old ↦
            let (lt, here) = h.indexed.inside g k (rw old at e) in
            (omega (arith, lt), ground (arith, lt, here))
      ]

  old_key : (k : ℕ) → k < s.heap_len → key appended k ≡ key s k
  unfolding appended
  old_key k lt = ground (arith, not_there k lt)

  appended-UpTo : UpTo (key appended) appended.heap_len s.heap_len
  unfolding appended
  appended-UpTo = record {
    order = λ k pos lt ne.
        let lt' : k < s.heap_len = omega (arith, lt, ne) in
        omega (arith, h.order k pos lt', old_key k lt', old_key ((k - 1) / 2) (omega arith));
    across = λ k ipos pos lt e. absurd (omega (arith, lt, e));
  }

  place_timer-Added : Added s f deadline (place_timer s f deadline)
  unfolding place_timer heap_sift_up appended
  place_timer-Added =
      let done =
        sift_up_from-Sifted s.heap_len appended s.heap_len (omega arith) appended-Indexed
          (omega arith) appended-UpTo in
      record {
        heap = record { indexed = done.indexed; order = done.order };
        longer = omega (arith, done.same.same_len);
        deadlines = λ g. done.same.same_deadlines g;
        timers = λ g. done.same.same_armed g ∙ now g;
      }
    where
      now :
          (g : ℕ)
          → armed (write s.timer_i f (some s.heap_len) g)
            ≡ (if g == f then true else armed (s.timer_i g))
      now g = elim (Bool-cases (g == f)) [ inl e ↦ rw e refl | inr e ↦ rw e refl ]

pub grow_cap-enough :
    (fuel need cap : ℕ)
    → 0 < cap
    → need ≤ cap + fuel
    → need < 2 ^ 62
    → need ≤ grow_cap fuel need cap
unfolding grow_cap
grow_cap-enough zero need cap pos enough small = omega arith
grow_cap-enough (suc fuel) need cap pos enough small = elim (Bool-cases (ltb cap need)) [
  | inl short ↦
      let less : cap < need = ground arith in
      let twice : u64 (cap * 2) ≡ cap * 2 = omega arith in
      rw short (
        grow_cap-enough fuel need (u64 (cap * 2)) (omega (arith, twice)) (omega (arith, twice))
          small)
  | inr fits ↦ rw fits (ground arith)
]

pub grow_cap-grows : (fuel need cap : ℕ) → need < 2 ^ 62 → cap ≤ grow_cap fuel need cap
unfolding grow_cap
grow_cap-grows zero need cap small = omega arith
grow_cap-grows (suc fuel) need cap small = elim (Bool-cases (ltb cap need)) [
  | inl short ↦
      let less : cap < need = ground arith in
      let twice : u64 (cap * 2) ≡ cap * 2 = omega arith in
      rw short (omega (arith, grow_cap-grows fuel need (u64 (cap * 2)) small, twice))
  | inr fits ↦ rw fits (omega arith)
]

grow_cap_bounded :
    (fuel need cap : ℕ) → need ≤ 2 ^ 60 → cap < 2 ^ 61 → grow_cap fuel need cap < 2 ^ 61
unfolding grow_cap
grow_cap_bounded zero need cap small fits = fits
grow_cap_bounded (suc fuel) need cap small fits = elim (Bool-cases (ltb cap need)) [
  | inl short ↦
      let less : cap < need = ground arith in
      let twice : u64 (cap * 2) ≡ cap * 2 = omega arith in
      rw short (grow_cap_bounded fuel need (u64 (cap * 2)) small (omega (arith, twice)))
  | inr enough ↦ rw enough fits
]

-- A capacity is as it was, or `realloc` has granted the bytes that it takes.
abbrev pub Granted : (ℕ → Bool) → ℕ → ℕ → Type 0
Granted realloc before cap = (cap ≡ before) ⊎ ((cap * 8 < 2 ^ 64) × (realloc (cap * 8) ≡ true))

-- What a reservation comes to.
pub data Reserved (realloc : ℕ → Bool) (need : ℕ) (s : Timers) : Bool × Timers → Type 0 where
  has_room :
      (cap : ℕ)
      → need ≤ cap
      → Granted realloc s.heap_cap cap
      → Reserved realloc need s (true, record s { heap_cap = cap })
  no_memory :
      (cap : ℕ)
      → s.heap_cap < need
      → need ≤ cap
      → realloc (cap * 8) ≡ false
      → Reserved realloc need s (false, s)

-- `heap_reserve` for fewer than 2^60 entries either has room for them, the capacity being the old one
-- or one whose bytes `realloc` has granted, and nothing but the capacity is new; or there was no room
-- and `realloc` has refused the bytes of a capacity that is enough, and nothing is new.
pub heap_reserve-Reserved :
    (realloc : ℕ → Bool) (need : ℕ) (s : Timers)
    → need < 2 ^ 60
    → Reserved realloc need s (heap_reserve realloc need s)
unfolding heap_reserve
heap_reserve-Reserved realloc need s small = elim (Bool-cases (leb need s.heap_cap)) [
  | inl fits ↦ rw fits (has_room s.heap_cap (ground arith) (inl refl))
  | inr short ↦
      let less : s.heap_cap < need = ground arith in
      let bytes : u64 (cap * 8) ≡ cap * 8 = omega (arith, bounded less) in
      elim (Bool-cases (realloc (u64 (cap * 8)))) [
        | inl got ↦
            rw (short, got)
              (has_room cap (enough less)
                (inr (omega (arith, bounded less), ap realloc (sym bytes) ∙ got)))
        | inr refused ↦
            rw (short, refused)
              (no_memory cap less (enough less) (ap realloc (sym bytes) ∙ refused))
      ]
]
  where
    start : ℕ
    start = if s.heap_cap == 0 then 16 else u64 (s.heap_cap * 2)

    positive : s.heap_cap < need → (0 < start) × (start < 2 ^ 61)
    positive less = ground (arith, less)

    cap : ℕ
    cap = grow_cap need need start

    bounded : s.heap_cap < need → cap < 2 ^ 61
    bounded less = grow_cap_bounded need need start (omega arith) (positive less).1

    enough : s.heap_cap < need → need ≤ cap
    enough less = grow_cap-enough need need start (positive less).0 (omega arith) (omega arith)

-- What a call of `timer_add` comes to.
pub data AddResult (s : Timers) (f deadline : ℕ) (realloc : ℕ → Bool) : Bool × Timers → Type 0 where
  was_set :
      (s' : Timers) (cap : ℕ)
      → s.heap_len + 1 ≤ cap
      → Granted realloc s.heap_cap cap
      → Added s f deadline s'
      → AddResult s f deadline realloc (true, s')
  was_refused :
      (cap : ℕ)
      → s.heap_cap < s.heap_len + 1
      → s.heap_len + 1 ≤ cap
      → realloc (cap * 8) ≡ false
      → AddResult s f deadline realloc (false, s)

with_cap-IsHeap : (s : Timers) (cap : ℕ) → IsHeap s → IsHeap (record s { heap_cap = cap })
with_cap-IsHeap s cap h = record {
  indexed = record { places = h.indexed.places; inside = h.indexed.inside };
  order = h.order;
}

Reserved-as :
    (realloc : ℕ → Bool) (s : Timers) (f deadline : ℕ) (r : Bool × Timers)
    → IsHeap s
    → s.timer_i f ≡ none
    → s.heap_len + 1 < 2 ^ 60
    → Reserved realloc (s.heap_len + 1) s r
    → AddResult s f deadline realloc
        (if r.0 then (true, place_timer r.1 f deadline) else (false, r.1))
Reserved-as realloc s f deadline _ h off small (has_room cap fits granted) =
    let added =
      place_timer-Added (record s { heap_cap = cap }) (with_cap-IsHeap s cap h) f deadline off
        (omega (arith, small)) in
    was_set (place_timer (record s { heap_cap = cap }) f deadline) cap fits granted (record {
      heap = added.heap;
      longer = added.longer;
      deadlines = added.deadlines;
      timers = added.timers;
    })
Reserved-as realloc s f deadline _ h off small (no_memory cap short fits refused) =
    was_refused cap short fits refused

-- On a timer heap in order, with fewer than 2^60 - 1 entries, in which the fibers know their places
-- and the given one has none, `timer_add` either sets that fiber's timer, for which there was room or
-- `realloc` has granted the bytes of a capacity that is enough, and the heap is in order with one more
-- entry, the fibers know their places, and all other timers and deadlines are as they were; or there
-- was no room, `realloc` has refused such a capacity, and the timers are as they were.
pub timer_add-AddResult :
    (realloc : ℕ → Bool) (s : Timers) (f deadline : ℕ)
    → IsHeap s
    → s.timer_i f ≡ none
    → s.heap_len + 1 < 2 ^ 60
    → AddResult s f deadline realloc (timer_add realloc s f deadline)
unfolding timer_add
timer_add-AddResult realloc s f deadline h off small =
    Reserved-as realloc s f deadline (heap_reserve realloc (s.heap_len + 1) s) h off small
      (heap_reserve-Reserved realloc (s.heap_len + 1) s (omega (arith, small)))
