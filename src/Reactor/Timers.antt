-- ===== src/Reactor/Timers.antt =====
-- The timer heap of src/cfiber/reactor/reactor.c: a binary min-heap of fibers, by deadline, in which
-- every fiber knows its place.
-- The heap's array is a function from places to fibers, and a field of the fibers a function from
-- fibers to its value. `NO_TIMER` is `none`. Each loop of the heap has as fuel the number of places
-- it can still pass.
pub mod Keys
pub mod Heap
pub mod Sift
pub mod Outcome
pub mod Remove
mod Examples
use cfiber.Common.{
  ℕ, zero, suc, ◌+◌, ◌-◌, ◌*◌, ◌/◌, ◌^◌, Bool, true, false, ◌&&◌, Option, none, some, ltb, leb,
  ◌==◌, if◌then◌else◌,
}
use cfiber.Core.{u64}

-- The part of `cfiber_reactor_t` and of its fibers that the timers use.
pub record Timers : Type 0 where
  pub heap : ℕ → ℕ
  pub heap_len : ℕ
  pub heap_cap : ℕ
  pub deadline_ns : ℕ → ℕ
  pub timer_i : ℕ → Option ℕ

-- A write to one element or field.
abbrev pub write : {A : Type 0} → (ℕ → A) → ℕ → A → ℕ → A
write f k v = λ j. if j == k then v else f j

abbrev pub timer_heap_init_cap : ℕ
timer_heap_init_cap = 16

abbrev pub timer_heap_growth : ℕ
timer_heap_growth = 2

-- `while (cap < need) cap *= TIMER_HEAP_GROWTH`, with fuel.
unfoldable pub grow_cap : ℕ → ℕ → ℕ → ℕ
grow_cap zero need cap = cap
grow_cap (suc fuel) need cap =
    let more = grow_cap fuel need (u64 (cap * timer_heap_growth)) in
    if ltb cap need then more else cap

-- `realloc` answers whether there is memory for so many bytes; the entries, which are pointers, are
-- kept.
unfoldable pub heap_reserve : (ℕ → Bool) → ℕ → Timers → Bool × Timers
unfolding grow_cap
heap_reserve realloc need s =
    let start =
      if s.heap_cap == 0 then timer_heap_init_cap else u64 (s.heap_cap * timer_heap_growth) in
    let cap = grow_cap need need start in
    if leb need s.heap_cap
    then (true, s)
    else if realloc (u64 (cap * 8))
    then (true, record s { heap_cap = cap })
    else (false, s)

unfoldable pub heap_swap : Timers → ℕ → ℕ → Timers
heap_swap s a b =
    let heap = write (write s.heap a (s.heap b)) b (s.heap a) in
    record s { heap = heap; timer_i = write (write s.timer_i (heap a) (some a)) (heap b) (some b) }

-- `s->heap[k]->deadline_ns`
abbrev pub key : Timers → ℕ → ℕ
key s k = s.deadline_ns (s.heap k)

abbrev pub parent_of : ℕ → ℕ
parent_of i = (i - 1) / 2

unfoldable pub sift_up_from : ℕ → Timers → ℕ → Timers
unfolding heap_swap
sift_up_from zero s i = s
sift_up_from (suc fuel) s i =
    let parent = parent_of i in
    let on = sift_up_from fuel (heap_swap s i parent) parent in
    if i == 0 then s else if leb (key s parent) (key s i) then s else on

unfoldable pub heap_sift_up : Timers → ℕ → Timers
unfolding sift_up_from
heap_sift_up s i = sift_up_from i s i

-- The smallest of a place and its two children.
unfoldable pub smallest_at : Timers → ℕ → ℕ
smallest_at s i =
    let l = 2 * i + 1 in
    let r = 2 * i + 2 in
    let smaller = if ltb l s.heap_len && ltb (key s l) (key s i) then l else i in
    if ltb r s.heap_len && ltb (key s r) (key s smaller) then r else smaller

unfoldable pub sift_down_from : ℕ → Timers → ℕ → Timers
unfolding heap_swap smallest_at
sift_down_from zero s i = s
sift_down_from (suc fuel) s i =
    let smallest = smallest_at s i in
    let on = sift_down_from fuel (heap_swap s i smallest) smallest in
    if smallest == i then s else on

unfoldable pub heap_sift_down : Timers → ℕ → Timers
unfolding sift_down_from
heap_sift_down s i = sift_down_from s.heap_len s i

-- After the room is there.
unfoldable pub place_timer : Timers → ℕ → ℕ → Timers
unfolding heap_sift_up
place_timer s f deadline =
    heap_sift_up
      (record s {
        deadline_ns = write s.deadline_ns f deadline;
        timer_i = write s.timer_i f (some s.heap_len);
        heap = write s.heap s.heap_len f;
        heap_len = u64 (s.heap_len + 1);
      })
      s.heap_len

unfoldable pub timer_add : (ℕ → Bool) → Timers → ℕ → ℕ → Bool × Timers
unfolding heap_reserve place_timer
timer_add realloc s f deadline =
    let (ok, s1) = heap_reserve realloc (s.heap_len + 1) s in
    if ok then (true, place_timer s1 f deadline) else (false, s1)

-- The last fiber takes the place that is free.
abbrev pub fill_hole : Timers → ℕ → ℕ → Timers
fill_hole s i last =
    let f = s.heap last in
    record s { heap = write s.heap i f; timer_i = write s.timer_i f (some i) }

-- From the fiber's place on.
unfoldable pub remove_at : Timers → ℕ → Option ℕ → Timers
unfolding heap_sift_up heap_sift_down
remove_at s f none = s
remove_at s f (some i) =
    let last = s.heap_len - 1 in
    let s1 = record s { timer_i = write s.timer_i f none; heap_len = last } in
    if i == last then s1 else heap_sift_up (heap_sift_down (fill_hole s1 i last) i) i

unfoldable pub timer_remove : Timers → ℕ → Timers
unfolding remove_at
timer_remove s f = remove_at s f (s.timer_i f)
