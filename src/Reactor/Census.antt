-- ===== src/Reactor/Census.antt =====
-- Counting fibers in a list, by their state.
use cfiber.Common.{
  ℕ, ◌+◌, ◌≡◌, refl, ap, arith, Bool, true, false, List, [], ◌∷◌, ◌++◌, ◌==◌, one_if, Bool-cases,
  inl, inr,
}
use cfiber.Reactor.Timers.{write}
use cfiber.Reactor.State.{FiberState, fb_free, fb_ready, fb_running, fb_parked}
use cfiber.Reactor.Pool.{unlinked}

-- How often a fiber stands in a list.
abbrev pub count : ℕ → List ℕ → ℕ
count f [] = 0
count f (g ∷ rest) = one_if (g == f) + count f rest

-- How many fibers of a list are in a state that passes a test.
abbrev pub census : (FiberState → Bool) → (ℕ → FiberState) → List ℕ → ℕ
census test state [] = 0
census test state (g ∷ rest) = one_if (test (state g)) + census test state rest

-- Fibers that are not done: ready, running or parked.
abbrev pub is_active : FiberState → Bool
is_active fb_ready = true
is_active fb_running = true
is_active fb_parked = true
is_active _ = false

-- Fibers whose struct is in use.
abbrev pub is_used : FiberState → Bool
is_used fb_free = false
is_used _ = true

pub count-append : (f : ℕ) (l m : List ℕ) → count f (l ++ m) ≡ count f l + count f m
count-append f [] m = omega arith
count-append f (g ∷ l) m = omega (arith, count-append f l m)

pub census_absent :
    (test : FiberState → Bool) (state : ℕ → FiberState) (f : ℕ) (v : FiberState) (l : List ℕ)
    → count f l ≡ 0
    → census test (write state f v) l ≡ census test state l
census_absent test state f v [] h = refl
census_absent test state f v (g ∷ l) h =
    let other : (g == f) ≡ false = ground (arith, h) in
    let rest = census_absent test state f v l (omega (arith, h)) in rw other (omega (arith, rest))

-- A fiber that stands once in the list changes its state.
pub census-write :
    (test : FiberState → Bool) (state : ℕ → FiberState) (f : ℕ) (v : FiberState) (l : List ℕ)
    → count f l ≡ 1
    → census test (write state f v) l + one_if (test (state f))
      ≡ census test state l + one_if (test v)
census-write test state f v [] h = absurd (omega (arith, h))
census-write test state f v (g ∷ l) h = elim (Bool-cases (g == f)) [
  | inl same ↦
      let e : g ≡ f = ground arith in
      let rest = census_absent test state f v l (ground (arith, h, same)) in
      let here = ap (λ (x : ℕ). one_if (test (state x))) e in rw same (omega (arith, rest, here))
  | inr other ↦
      let rest = census-write test state f v l (ground (arith, h, other)) in
      rw other (omega (arith, rest))
]

-- A fiber that stands once in the list is taken out.
pub count-unlinked :
    (f g : ℕ) (l : List ℕ) → count f l ≡ 1 → count g (unlinked f l) + one_if (f == g) ≡ count g l
count-unlinked f g [] h = absurd (omega (arith, h))
count-unlinked f g (x ∷ l) h = elim (Bool-cases (x == f)) [
  | inl same ↦
      let e : x ≡ f = ground arith in
      let flag = ap (λ (y : ℕ). one_if (y == g)) e in rw same (omega (arith, flag))
  | inr other ↦
      let rest = count-unlinked f g l (ground (arith, h, other)) in rw other (omega (arith, rest))
]

pub census-unlinked :
    (test : FiberState → Bool) (state : ℕ → FiberState) (f : ℕ) (l : List ℕ)
    → count f l ≡ 1
    → census test state (unlinked f l) + one_if (test (state f)) ≡ census test state l
census-unlinked test state f [] h = absurd (omega (arith, h))
census-unlinked test state f (x ∷ l) h = elim (Bool-cases (x == f)) [
  | inl same ↦
      let e : x ≡ f = ground arith in
      let flag = ap (λ (y : ℕ). one_if (test (state y))) e in rw same (omega (arith, flag))
  | inr other ↦
      let rest = census-unlinked test state f l (ground (arith, h, other)) in
      rw other (omega (arith, rest))
]
