-- ===== src/Common/Numbers.antt =====
-- Multiples, quotients and remainders.
use Prim.Native.Nat.{ℕ, suc, ◌+◌, ◌*◌, ◌/◌, ◌%◌, ◌^◌, ◌<◌}
use mathlib.Core.Path.{◌≡◌}
use native.Mathlib.Nat.{div-add-mod', mod-lt, one-le-pow, pow-suc, pow-le-pow_right}
use native.Mathlib.Omega.{arith}

-- A number is a multiple of what it leaves no remainder by.
pub div-mul_of_mod-zero : (n m : ℕ) → n % m ≡ 0 → n / m * m ≡ n
div-mul_of_mod-zero n m h = omega (arith, div-add-mod' n m)

-- Quotient and remainder are determined by the division equation.
pub mod_unique : (n d q r : ℕ) → r < d → n ≡ q * d + r → n % d ≡ r
mod_unique n d q r h e = grind arith

pub pow_pos : (k : ℕ) → 0 < 2 ^ k
pow_pos k = let two : ◌<◌ 0 2 = omega arith in one-le-pow k 2 two

-- Dividing by twice as much keeps one more binary digit.
pub mod_double : (a t : ℕ) → 0 < t → a % (2 * t) ≡ a / 2 % t * 2 + a % 2
mod_double a t h =
    mod_unique a (2 * t) (a / 2 / t) (a / 2 % t * 2 + a % 2) (omega (arith, mod-lt (a / 2) h))
      (omega (arith, div-add-mod' (a / 2) t))

pub pow-lt-pow_right : {i j : ℕ} → i < j → 2 ^ i < 2 ^ j
pow-lt-pow_right {i} {j} h =
    omega
      (arith, pow-suc 2 i, pow_pos i, pow-le-pow_right {n = 2} (omega arith) {i = suc i} {j = j} h)
