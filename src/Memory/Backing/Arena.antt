-- ===== src/Memory/Backing/Arena.antt =====
-- A backing allocator that meets the laws: memory is taken from the low end of what is left, on
-- cache-line boundaries. It shows that the laws can hold, and runs in the examples.
use cfiber.Common.{
  ℕ, ◌+◌, ◌*◌, ◌/◌, ◌%◌, ◌^◌, ◌≤◌, ◌<◌, ◌≡◌, ap₂, ◌⊎◌, inl, inr, Bool, true, false, ◌||◌, List, [],
  ◌∷◌, Option, none, some, arith, ltb, if◌then◌else◌, Bool-cases,
}
use cfiber.Memory.Backing.{Backing, Laws, same_region}

pub record Arena : Type 0 where
  pub next : ℕ
  pub live : List (ℕ × ℕ)

abbrev pub round_up : ℕ → ℕ
round_up n = (n + 63) / 64 * 64

abbrev pub arena_alloc : ℕ → Arena → Option ℕ × Arena
arena_alloc n st =
    if ltb (st.next + round_up n) (2 ^ 64)
    then (some st.next, record { next = st.next + round_up n; live = (st.next, n) ∷ st.live })
    else (none, st)

abbrev pub remove : ℕ → ℕ → List (ℕ × ℕ) → List (ℕ × ℕ)
remove p n [] = []
remove p n ((q, m) ∷ rest) = if same_region q m p n then rest else (q, m) ∷ remove p n rest

abbrev pub arena : Backing
arena = record {
  State = Arena;
  mem_alloc = arena_alloc;
  mem_free = λ p n st. record st { live = remove p n st.live };
}

abbrev pub held_in : ℕ → ℕ → List (ℕ × ℕ) → Bool
held_in q m [] = false
held_in q m ((p, n) ∷ rest) = same_region q m p n || held_in q m rest

-- The regions lie one below the other, under a bound.
abbrev pub Below : ℕ → List (ℕ × ℕ) → Type 0
Below bound [] = Unit
Below bound ((p, n) ∷ rest) = (p + n ≤ bound) × (0 < n) × Below p rest

Below-mono : (a c : ℕ) (l : List (ℕ × ℕ)) → a ≤ c → Below a l → Below c l
Below-mono a c [] h k = tt
Below-mono a c ((p, n) ∷ rest) h k = (omega arith, k.1, k.2)

pub Below-remove : (bound p n : ℕ) (l : List (ℕ × ℕ)) → Below bound l → Below bound (remove p n l)
Below-remove bound p n [] k = tt
Below-remove bound p n ((q, m) ∷ rest) k =
    ground (arith, Below-remove q p n rest k.2, Below-mono q bound rest (omega arith) k.2)

held-Below :
    (bound q m : ℕ) (l : List (ℕ × ℕ))
    → Below bound l
    → held_in q m l ≡ true
    → (q + m ≤ bound) × (0 < m)
held-Below bound q m [] k e = absurd (cc)
held-Below bound q m ((p, n) ∷ rest) k e = elim (Bool-cases (same_region q m p n)) [
  | inl here ↦ ground arith
  | inr there ↦ let deeper = held-Below p q m rest k.2 (rw there at e) in omega arith
]

pub held-apart :
    (bound p n q m : ℕ) (l : List (ℕ × ℕ))
    → Below bound l
    → held_in p n l ≡ true
    → held_in q m l ≡ true
    → same_region q m p n ≡ false
    → (p + n ≤ q) ⊎ (q + m ≤ p)
held-apart bound p n q m [] k e f d = absurd (cc)
held-apart bound p n q m ((a, s) ∷ rest) k e f d = elim (Bool-cases (same_region p n a s)) [
  | inl p_here ↦ elim (Bool-cases (same_region q m a s)) [
    | inl q_here ↦ absurd (ground arith)
    | inr q_there ↦ let low = held-Below a q m rest k.2 (rw q_there at f) in inr (ground arith)
  ]
  | inr p_there ↦ elim (Bool-cases (same_region q m a s)) [
    | inl q_here ↦ let low = held-Below a p n rest k.2 (rw p_there at e) in inl (ground arith)
    | inr q_there ↦ held-apart a p n q m rest k.2 (rw p_there at e) (rw q_there at f) d
  ]
]

pub held-remove :
    (bound p n q m : ℕ) (l : List (ℕ × ℕ))
    → Below bound l
    → held_in q m (remove p n l) ≡ (if same_region q m p n then false else held_in q m l)
held-remove bound p n q m [] k = ground arith
held-remove bound p n q m ((a, s) ∷ rest) k = elim (Bool-cases (held_in a s rest)) [
  | inl twice ↦ absurd (omega (arith, held-Below a a s rest k.2 twice))
  | inr once ↦ ground (
    arith,
    held-remove a p n q m rest k.2,
    λ (e : q ≡ a) (f : m ≡ s). ap₂ (λ (x y : ℕ). held_in x y rest) e f,
  )
]

pub record ArenaSound (st : Arena) : Type 0 where
  pub aligned : st.next % 64 ≡ 0
  pub in_space : st.next < 2 ^ 64
  pub below : Below st.next st.live

arena_alloc_cases :
    (n : ℕ) (st st' : Arena) (r : Option ℕ)
    → arena_alloc n st ≡ (r, st')
    → ((r ≡ none) × (st' ≡ st))
      ⊎ ((r ≡ some st.next)
          × (st.next + round_up n < 2 ^ 64)
          × (st' ≡ record { next = st.next + round_up n; live = (st.next, n) ∷ st.live }))
arena_alloc_cases n st st' r e = ground arith

pub arena_alloc-Sound :
    (n : ℕ) (st st' : Arena) (r : Option ℕ)
    → 0 < n
    → ArenaSound st
    → arena_alloc n st ≡ (r, st')
    → ArenaSound st'
arena_alloc-Sound n st st' r pos s e = elim (arena_alloc_cases n st st' r e) [
  | inl (_, same) ↦ rw same s
  | inr (_, fits, same) ↦ rw same (record {
    aligned = omega (arith, s.aligned);
    in_space = fits;
    below = (omega arith, pos, s.below);
  })
]

pub arena_alloc_new :
    (n : ℕ) (st st' : Arena) (p : ℕ)
    → 0 < n
    → ArenaSound st
    → arena_alloc n st ≡ (some p, st')
    → (held_in p n st.live ≡ false) × (p % 16 ≡ 0) × (p + n < 2 ^ 64)
arena_alloc_new n st st' p pos s e = elim (arena_alloc_cases n st st' (some p) e) [
  | inl (nothing, _) ↦ absurd (cc)
  | inr (at, fits, _) ↦
      let here : p ≡ st.next = ground arith in
      rw here (
        elim (Bool-cases (held_in st.next n st.live)) [
          | inl old ↦ absurd (omega (arith, held-Below st.next st.next n st.live s.below old))
          | inr new ↦ new
        ],
        omega (arith, s.aligned),
        omega arith,
      )
]

pub arena_alloc_held :
    (n : ℕ) (st st' : Arena) (p q m : ℕ)
    → 0 < n
    → ArenaSound st
    → arena_alloc n st ≡ (some p, st')
    → held_in q m st'.live ≡ (if same_region q m p n then true else held_in q m st.live)
arena_alloc_held n st st' p q m pos s e = elim (arena_alloc_cases n st st' (some p) e) [
  | inl (nothing, _) ↦ absurd (cc)
  | inr (at, fits, same) ↦ let here : p ≡ st.next = ground arith in rw (same, here) (ground arith)
]

pub arena_alloc-none :
    (n : ℕ) (st st' : Arena) (q m : ℕ)
    → arena_alloc n st ≡ (none, st')
    → held_in q m st'.live ≡ held_in q m st.live
arena_alloc-none n st st' q m e = elim (arena_alloc_cases n st st' none e) [
  | inl (_, same) ↦ rw same
  | inr (at, _, _) ↦ absurd (cc)
]

abbrev pub arena_laws : Laws arena
arena_laws = record {
  Sound = ArenaSound;
  held = λ st q m. held_in q m st.live;
  alloc-Sound = arena_alloc-Sound;
  free-Sound = λ p n st held s. record {
    aligned = s.aligned;
    in_space = s.in_space;
    below = Below-remove st.next p n st.live s.below;
  };
  alloc_new = arena_alloc_new;
  alloc_held = arena_alloc_held;
  alloc_none = arena_alloc-none;
  free_held = λ p n st q m s held. held-remove st.next p n q m st.live s.below;
  apart = λ st p n q m s e f d. held-apart st.next p n q m st.live s.below e f d;
}
