-- ===== src/Memory/Slab/Count.antt =====
-- The number of blocks that a slab has handed out.
use cfiber.Common.{
  ℕ, zero, suc, ◌+◌, ◌≤◌, ◌<◌, ◌≡◌, refl, Bool, true, false, arith, ◌==◌, if◌then◌else◌, ℕ_discrete,
}

-- How many of the first `n` indices pass a test.
unfoldable pub count_below : ℕ → (ℕ → Bool) → ℕ
count_below zero f = 0
count_below (suc n) f = count_below n f + (if f n then 1 else 0)

pub count_below-le : (n : ℕ) (f : ℕ → Bool) → count_below n f ≤ n
unfolding count_below
count_below-le zero f = omega arith
count_below-le (suc n) f = ground (arith, count_below-le n f)

pub count_below_ext :
    (n : ℕ) (f g : ℕ → Bool) → ((j : ℕ) → j < n → f j ≡ g j) → count_below n f ≡ count_below n g
unfolding count_below
count_below_ext zero f g h = refl
count_below_ext (suc n) f g h =
    ground (arith, h n (omega arith), count_below_ext n f g (λ j p. h j (omega arith)))

-- Turning one index on counts one more.
pub count_below_on :
    (n i : ℕ) (f g : ℕ → Bool)
    → i < n
    → f i ≡ false
    → ((j : ℕ) → g j ≡ (if i == j then true else f j))
    → count_below n g ≡ count_below n f + 1
unfolding count_below
count_below_on zero i f g p e h = absurd (omega arith)
count_below_on (suc n) i f g p e h = elim (ℕ_discrete i n) [
  | yes here ↦ ground (arith, h n, count_below_ext n g f (λ j q. ground (arith, h j)))
  | no there ↦ ground (arith, h n, count_below_on n i f g (omega arith) e h)
]

pub count_below_all : (n : ℕ) (f : ℕ → Bool) → ((j : ℕ) → j < n → f j ≡ true) → count_below n f ≡ n
unfolding count_below
count_below_all zero f h = refl
count_below_all (suc n) f h =
    ground (arith, h n (omega arith), count_below_all n f (λ j p. h j (omega arith)))

pub count_below_none :
    (n : ℕ) (f : ℕ → Bool) → ((j : ℕ) → j < n → f j ≡ false) → count_below n f ≡ 0
unfolding count_below
count_below_none zero f h = refl
count_below_none (suc n) f h =
    ground (arith, h n (omega arith), count_below_none n f (λ j p. h j (omega arith)))

pub count_below_pos : (n i : ℕ) (f : ℕ → Bool) → i < n → f i ≡ true → 0 < count_below n f
unfolding count_below
count_below_pos zero i f p e = absurd (omega arith)
count_below_pos (suc n) i f p e = elim (ℕ_discrete i n) [
  | yes here ↦ ground arith
  | no there ↦ ground (arith, count_below_pos n i f (omega arith) e)
]
