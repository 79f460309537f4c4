-- ===== src/Reactor/Timers/Heap.antt =====
-- The heap's array and the fibers' places in it agree, and a swap keeps that.
use cfiber.Common.{
  ℕ, ◌<◌, ◌≡◌, ◌≢◌, ◌∙◌, sym, refl, ap, arith, Bool, true, false, Option, none, some, ◌==◌,
  if◌then◌else◌, Bool-cases, inl, inr,
}
use cfiber.Reactor.Timers.{Timers, key, heap_swap}
use cfiber.Reactor.Timers.Keys.{swapped}

-- The fiber at each place knows it, and a fiber that has a place is there.
pub record Indexed (s : Timers) : Type 0 where
  pub places : (k : ℕ) → k < s.heap_len → s.timer_i (s.heap k) ≡ some k
  pub inside : (f k : ℕ) → s.timer_i f ≡ some k → (k < s.heap_len) × (s.heap k ≡ f)

-- Whether a fiber has a timer.
abbrev pub armed : Option ℕ → Bool
armed none = false
armed (some i) = true

-- The same timers, perhaps in other places.
pub record SameTimers (s s' : Timers) : Type 0 where
  pub same_len : s'.heap_len ≡ s.heap_len
  pub same_deadlines : (f : ℕ) → s'.deadline_ns f ≡ s.deadline_ns f
  pub same_armed : (f : ℕ) → armed (s'.timer_i f) ≡ armed (s.timer_i f)

pub SameTimers-trans : (s s' s'' : Timers) → SameTimers s s' → SameTimers s' s'' → SameTimers s s''
SameTimers-trans s s' s'' a c = record {
  same_len = c.same_len ∙ a.same_len;
  same_deadlines = λ f. c.same_deadlines f ∙ a.same_deadlines f;
  same_armed = λ f. c.same_armed f ∙ a.same_armed f;
}

some_inj : (k m : ℕ) → some k ≡ some m → k ≡ m
some_inj k m e = cc (e)

pub places_apart :
    (s : Timers)
    → Indexed s
    → (k m : ℕ) → k < s.heap_len
    → m < s.heap_len
    → k ≢ m
    → s.heap k ≢ s.heap m
places_apart s ix k m kl ml ne e =
    ne (some_inj k m (sym (ix.places k kl) ∙ ap s.timer_i e ∙ ix.places m ml))

module _ (s : Timers) (ix : Indexed s) (a b : ℕ) (al : a < s.heap_len) (bl : b < s.heap_len)
    (ne : a ≢ b) where
  apart : s.heap a ≢ s.heap b
  apart = places_apart s ix a b al bl ne

  swap_heap :
      (k : ℕ)
      → (heap_swap s a b).heap k
        ≡ (if k == b then s.heap a else if k == a then s.heap b else s.heap k)
  unfolding heap_swap
  swap_heap k = refl

  swap_timer :
      (f : ℕ)
      → (heap_swap s a b).timer_i f
        ≡ (if f == s.heap a then some b else if f == s.heap b then some a else s.timer_i f)
  unfolding heap_swap
  swap_timer f = ground (arith, ne)

  pub heap_swap-keys : (k : ℕ) → key (heap_swap s a b) k ≡ swapped (key s) a b k
  unfolding heap_swap
  heap_swap-keys k = ground arith

  new_heap : ℕ → ℕ
  new_heap k = if k == b then s.heap a else if k == a then s.heap b else s.heap k

  new_timer : ℕ → Option ℕ
  new_timer f = if f == s.heap a then some b else if f == s.heap b then some a else s.timer_i f

  new_places : (k : ℕ) → k < s.heap_len → new_timer (new_heap k) ≡ some k
  unfolding new_heap new_timer
  new_places k kl = elim (Bool-cases (k == b)) [
    | inl at_b ↦ let e : b ≡ k = ground arith in ground (arith, ap some e)
    | inr not_b ↦ elim (Bool-cases (k == a)) [
      | inl at_a ↦ let e : a ≡ k = ground arith in ground (arith, ap some e, apart)
      | inr not_a ↦
          let off_a = places_apart s ix k a kl al (λ e. ground (arith, e)) in
          let off_b = places_apart s ix k b kl bl (λ e. ground (arith, e)) in
          ground (arith, off_a, off_b, ix.places k kl)
    ]
  ]

  new_inside : (f k : ℕ) → new_timer f ≡ some k → (k < s.heap_len) × (new_heap k ≡ f)
  unfolding new_heap new_timer
  new_inside f k e = elim (Bool-cases (f == s.heap a)) [
    | inl first ↦
        let q : b ≡ k = some_inj b k (rw first at e) in (omega (arith, q), ground (arith, q))
    | inr not_first ↦ elim (Bool-cases (f == s.heap b)) [
      | inl second ↦
          let q : a ≡ k = some_inj a k (rw (not_first, second) at e) in
          (omega (arith, q), ground (arith, q, ne))
      | inr other ↦
          let (lt, here) = ix.inside f k (rw (not_first, other) at e) in
          let not_a : k ≢ a = λ q. ground (arith, here, ap s.heap q) in
          let not_b : k ≢ b = λ q. ground (arith, here, ap s.heap q) in
          (lt, ground (arith, here, not_a, not_b))
    ]
  ]

  new_armed : (f : ℕ) → armed (new_timer f) ≡ armed (s.timer_i f)
  unfolding new_timer
  new_armed f = elim (Bool-cases (f == s.heap a)) [
    | inl first ↦
        let q : f ≡ s.heap a = ground arith in
        rw first (sym (ap armed (ap s.timer_i q ∙ ix.places a al)))
    | inr not_first ↦ elim (Bool-cases (f == s.heap b)) [
      | inl second ↦
          let q : f ≡ s.heap b = ground arith in
          rw (not_first, second) (sym (ap armed (ap s.timer_i q ∙ ix.places b bl)))
      | inr other ↦ rw (not_first, other) refl
    ]
  ]

  -- Swapping two places keeps the agreement, and keeps the timers.
  swap_len : (heap_swap s a b).heap_len ≡ s.heap_len
  unfolding heap_swap
  swap_len = refl

  swap_deadline : (f : ℕ) → (heap_swap s a b).deadline_ns f ≡ s.deadline_ns f
  unfolding heap_swap
  swap_deadline f = refl

  swap_new_timer : (f : ℕ) → (heap_swap s a b).timer_i f ≡ new_timer f
  unfolding new_timer
  swap_new_timer f = swap_timer f

  swap_new_heap : (k : ℕ) → (heap_swap s a b).heap k ≡ new_heap k
  unfolding new_heap
  swap_new_heap k = swap_heap k

  pub heap_swap-Indexed : Indexed (heap_swap s a b)
  heap_swap-Indexed = record {
    places = λ k lt.
        swap_new_timer ((heap_swap s a b).heap k)
        ∙ ap new_timer (swap_new_heap k)
        ∙ new_places k (omega (arith, lt, swap_len));
    inside = λ f k e.
        let (lt, here) = new_inside f k (sym (swap_new_timer f) ∙ e) in
        (omega (arith, lt, swap_len), swap_new_heap k ∙ here);
  }

  pub heap_swap-SameTimers : SameTimers s (heap_swap s a b)
  heap_swap-SameTimers = record {
    same_len = swap_len;
    same_deadlines = swap_deadline;
    same_armed = λ f. ap armed (swap_new_timer f) ∙ new_armed f;
  }
