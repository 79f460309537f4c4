-- ===== src/Reactor/Timers/Sift.antt =====
-- `heap_sift_up` and `heap_sift_down` restore the order of the heap.
use cfiber.Common.{
  ℕ, zero, suc, ◌+◌, ◌-◌, ◌*◌, ◌/◌, ◌≤◌, ◌<◌, ◌≡◌, ◌≢◌, ◌⊎◌, sym, subst, refl, ap, arith, true,
  false, ltb, leb, ◌==◌, ◌&&◌, if◌then◌else◌, Bool-cases, inl, inr,
}
use cfiber.Reactor.Timers.{
  Timers, key, parent_of, heap_swap, sift_up_from, heap_sift_up, smallest_at, sift_down_from,
  heap_sift_down,
}
use cfiber.Reactor.Timers.Keys.{
  swapped, HeapOrder, UpTo, DownFrom, UpTo-root, UpTo-fits, UpTo-swap, UpTo-cong, DownFrom-cong,
  SmallestChild, DownFrom-settled, DownFrom-swap,
}
use cfiber.Reactor.Timers.Heap.{
  Indexed, SameTimers, SameTimers-trans, heap_swap-keys, heap_swap-Indexed, heap_swap-SameTimers,
}

-- A heap with the same timers as `s`, but for the order of places that `P` speaks of.
pub record Sifted (P : Timers → Type 0) (s s' : Timers) : Type 0 where
  pub indexed : Indexed s'
  pub order : P s'
  pub same : SameTimers s s'

abbrev pub IsOrdered : Timers → Type 0
IsOrdered s = HeapOrder (key s) s.heap_len

unmoved : (P : Timers → Type 0) (s : Timers) → Indexed s → P s → Sifted P s s
unmoved P s ix order = record {
  indexed = ix;
  order = order;
  same = record { same_len = refl; same_deadlines = λ f. refl; same_armed = λ f. refl };
}

after_swap :
    (P : Timers → Type 0) (s s' s'' : Timers) → SameTimers s s' → Sifted P s' s'' → Sifted P s s''
after_swap P s s' s'' same on = record {
  indexed = on.indexed;
  order = on.order;
  same = SameTimers-trans s s' s'' same on.same;
}

pub sift_up_from-Sifted :
    (fuel : ℕ) (s : Timers) (i : ℕ)
    → i ≤ fuel
    → Indexed s
    → i < s.heap_len
    → UpTo (key s) s.heap_len i
    → Sifted IsOrdered s (sift_up_from fuel s i)
unfolding sift_up_from
sift_up_from-Sifted zero s i h ix lt up =
    let e : i ≡ 0 = omega arith in
    unmoved IsOrdered s ix (UpTo-root (key s) s.heap_len (rw e at up))
sift_up_from-Sifted (suc fuel) s i h ix lt up = elim (Bool-cases (i == 0)) [
  | inl root ↦
      let e : i ≡ 0 = ground arith in
      rw root (unmoved IsOrdered s ix (UpTo-root (key s) s.heap_len (rw e at up)))
  | inr below ↦ elim (Bool-cases (leb (key s (parent_of i)) (key s i))) [
    | inl fits ↦
        rw (below, fits) (unmoved IsOrdered s ix (UpTo-fits (key s) s.heap_len i up (ground arith)))
    | inr more ↦
        let pos : 0 < i = ground arith in
        let pl : parent_of i < s.heap_len = omega arith in
        let ne : i ≢ parent_of i = λ q. omega (arith, q) in
        let next = heap_swap s i (parent_of i) in
        let same = heap_swap-SameTimers s ix i (parent_of i) lt pl ne in
        let up1 =
          UpTo-cong (swapped (key s) i (parent_of i)) (key next) s.heap_len (parent_of i)
            (heap_swap-keys s ix i (parent_of i) lt pl ne)
            (UpTo-swap (key s) s.heap_len i up pos lt (ground arith)) in
        rw (below, more)
          (after_swap IsOrdered s next (sift_up_from fuel next (parent_of i)) same (
            sift_up_from-Sifted fuel next (parent_of i) (omega arith)
              (heap_swap-Indexed s ix i (parent_of i) lt pl ne) (omega (arith, same.same_len))
              (rw (sym same.same_len) at up1)))
  ]
]

-- The place that `heap_sift_down` picks.
data Pick (K : ℕ → ℕ) (n j : ℕ) : ℕ → Type 0 where
  stays :
      ((2 * j + 1 < n) → K j ≤ K (2 * j + 1))
      → ((2 * j + 2 < n) → K j ≤ K (2 * j + 2))
      → Pick K n j j
  goes_left :
      2 * j + 1 < n
      → K (2 * j + 1) < K j
      → ((2 * j + 2 < n) → K (2 * j + 1) ≤ K (2 * j + 2))
      → Pick K n j (2 * j + 1)
  goes_right :
      2 * j + 2 < n → K (2 * j + 2) < K j → K (2 * j + 2) ≤ K (2 * j + 1) → Pick K n j (2 * j + 2)

smallest_at-Pick : (s : Timers) (j : ℕ) → Pick (key s) s.heap_len j (smallest_at s j)
unfolding smallest_at
smallest_at-Pick s j =
    elim (Bool-cases (ltb (2 * j + 1) s.heap_len && ltb (key s (2 * j + 1)) (key s j))) [
      | inl left ↦
          elim (Bool-cases
            (ltb (2 * j + 2) s.heap_len && ltb (key s (2 * j + 2)) (key s (2 * j + 1)))) [
              | inl right ↦
                  rw (left, right) (goes_right (ground arith) (ground arith) (ground arith))
              | inr stop ↦
                  rw (left, stop) (goes_left (ground arith) (ground arith) (λ h. ground (arith, h)))
            ]
      | inr not_left ↦
          elim (Bool-cases (ltb (2 * j + 2) s.heap_len && ltb (key s (2 * j + 2)) (key s j))) [
            | inl right ↦
                rw (not_left, right) (goes_right (ground arith) (ground arith) (ground arith))
            | inr stop ↦
                rw (not_left, stop) (stays (λ h. ground (arith, h)) (λ h. ground (arith, h)))
          ]
    ]

child_cases : (k j : ℕ) → 0 < k → (k - 1) / 2 ≡ j → (k ≡ 2 * j + 1) ⊎ (k ≡ 2 * j + 2)
child_cases k j pos e = elim (Bool-cases (k == 2 * j + 1)) [
  | inl left ↦ inl (ground arith)
  | inr right ↦ inr (ground (arith, e))
]

-- What holds of both children holds of any child.
each_child :
    (K : ℕ → ℕ) (n j v : ℕ)
    → ((2 * j + 1 < n) → v ≤ K (2 * j + 1))
    → ((2 * j + 2 < n) → v ≤ K (2 * j + 2))
    → (k : ℕ) → 0 < k
    → k < n
    → (k - 1) / 2 ≡ j
    → v ≤ K k
each_child K n j v left right k pos lt e = elim (child_cases k j pos e) [
  | inl l ↦ omega (arith, left (omega (arith, l)), ap K l)
  | inr r ↦ omega (arith, right (omega (arith, r)), ap K r)
]

-- What a sift down from `j` with so much fuel comes to.
Settles : ℕ → ℕ → Type 0
Settles fuel i =
    (s : Timers) (j : ℕ)
    → i ≤ j
    → s.heap_len ≤ j + fuel
    → j < s.heap_len
    → Indexed s
    → DownFrom (key s) s.heap_len i j
    → Sifted (λ t. UpTo (key t) t.heap_len i) s (sift_down_from fuel s j)

-- A step to the child that was picked.
step_down :
    (fuel : ℕ) (s : Timers) (i j c : ℕ)
    → Settles fuel i
    → i ≤ j
    → s.heap_len ≤ j + suc fuel
    → j < s.heap_len
    → Indexed s
    → DownFrom (key s) s.heap_len i j
    → SmallestChild (key s) s.heap_len j c
    → Sifted (λ t. UpTo (key t) t.heap_len i) s (sift_down_from fuel (heap_swap s j c) c)
unfolding Settles
step_down fuel s i j c on below enough lt ix down least =
    let ne : j ≢ c = λ q. omega (arith, q, least.child, least.positive) in
    let same = heap_swap-SameTimers s ix j c lt least.inside ne in
    let next = heap_swap s j c in
    let down1 =
      DownFrom-cong (swapped (key s) j c) (key next) s.heap_len i c
        (heap_swap-keys s ix j c lt least.inside ne)
        (DownFrom-swap (key s) s.heap_len i j c below down least) in
    after_swap (λ t. UpTo (key t) t.heap_len i) s next (sift_down_from fuel next c) same
      (on next c (omega (arith, below, least.child))
        (omega (arith, enough, same.same_len, least.child, least.positive))
        (omega (arith, same.same_len, least.inside)) (heap_swap-Indexed s ix j c lt least.inside ne)
        (subst (λ (n : ℕ). DownFrom (key next) n i c) (sym same.same_len) down1))

picked :
    (fuel : ℕ) (s : Timers) (i j m : ℕ)
    → Settles fuel i
    → i ≤ j
    → s.heap_len ≤ j + suc fuel
    → j < s.heap_len
    → Indexed s
    → DownFrom (key s) s.heap_len i j
    → Pick (key s) s.heap_len j m
    → Sifted
        (λ t. UpTo (key t) t.heap_len i)
        s
        (if m == j then s else sift_down_from fuel (heap_swap s j m) m)
picked fuel s i j _ on below enough lt ix down (stays left right) =
    let flag : (j == j) ≡ true = ground arith in
    rw flag (
      unmoved (λ t. UpTo (key t) t.heap_len i) s ix
        (DownFrom-settled (key s) s.heap_len i j down
          (each_child (key s) s.heap_len j (key s j) left right)))
picked fuel s i j _ on below enough lt ix down (goes_left inside less right) =
    let flag : (2 * j + 1 == j) ≡ false = ground arith in
    rw flag (
      step_down fuel s i j (2 * j + 1) on below enough lt ix down (record {
        child = omega arith;
        positive = omega arith;
        inside = inside;
        less = less;
        least = each_child (key s) s.heap_len j (key s (2 * j + 1)) (λ h. omega arith) right;
      }))
picked fuel s i j _ on below enough lt ix down (goes_right inside less left) =
    let flag : (2 * j + 2 == j) ≡ false = ground arith in
    rw flag (
      step_down fuel s i j (2 * j + 2) on below enough lt ix down (record {
        child = omega arith;
        positive = omega arith;
        inside = inside;
        less = less;
        least = each_child (key s) s.heap_len j (key s (2 * j + 2)) (λ h. left) (λ h. omega arith);
      }))

settles : (fuel i : ℕ) → Settles fuel i
unfolding Settles sift_down_from
settles zero i s j below enough lt ix down = absurd (omega arith)
settles (suc fuel) i s j below enough lt ix down =
    picked fuel s i j (smallest_at s j) (settles fuel i) below enough lt ix down
      (smallest_at-Pick s j)

-- A heap that is in order but for place `i` is in order after `heap_sift_down` and `heap_sift_up`
-- from there, which is how `timer_remove` fills a hole.
pub sift_both-Sifted :
    (s : Timers) (i : ℕ)
    → Indexed s
    → i < s.heap_len
    → DownFrom (key s) s.heap_len i i
    → Sifted IsOrdered s (heap_sift_up (heap_sift_down s i) i)
unfolding heap_sift_up heap_sift_down Settles
sift_both-Sifted s i ix lt down =
    let first = settles s.heap_len i s i (omega arith) (omega arith) lt ix down in
    let mid = sift_down_from s.heap_len s i in
    after_swap IsOrdered s mid (sift_up_from i mid i) first.same (
      sift_up_from-Sifted i mid i (omega arith) first.indexed
        (omega (arith, lt, first.same.same_len)) first.order)
