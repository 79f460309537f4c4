-- ===== src/Common/Bits.antt =====
-- Binary digits of a machine word, and what `|`, `&`, `~` and `<<` do to them.
use Prim.Native.Nat.{min, max, digits, bit_and-bitwise, bit_or-bitwise}
use native.Mathlib.Nat.{pow-suc, pow-succ'}
use cfiber.Common.Tests.{◌==◌, if◌then◌else◌, Bool-cases}
use cfiber.Common.Numbers.{pow_pos, mod_double}
use mathlib.Core.Logic.{inl, inr}
use mathlib.Core.Bool.{false}
use Prim.Native.Nat.{ℕ, zero, suc, ◌+◌, ◌-◌, ◌*◌, ◌/◌, ◌%◌, ◌^◌, ◌≤◌, ◌<◌, bit_and, bit_or}
use mathlib.Core.Path.{◌≡◌, refl, ap}
use native.Mathlib.Omega.{arith}

-- Digit `i` of `w`, 0 or 1.
abbrev pub bit : ℕ → ℕ → ℕ
bit w zero = w % 2
bit w (suc i) = bit (w / 2) i

pub bit_lt : (w i : ℕ) → bit w i < 2
bit_lt w zero = omega arith
bit_lt w (suc i) = bit_lt (w / 2) i

pub bit-zero : (i : ℕ) → bit 0 i ≡ 0
bit-zero zero = refl
bit-zero (suc i) = bit-zero i

-- `digits` is what `&` and `|` stand for: a recursion on fuel, of which the first word is enough. So
-- its law for the lowest digit holds with no fuel in it.
module _ (rest : ℕ → ℕ) (join : ℕ → ℕ → ℕ) where
  digits_surplus :
      (x low high y : ℕ)
      → x ≤ low
      → low ≤ high
      → digits rest join high x y ≡ digits rest join low x y
  digits_surplus zero zero zero y le more = refl
  digits_surplus zero zero (suc high) y le more = refl
  digits_surplus zero (suc low) zero y le more = refl
  digits_surplus zero (suc low) (suc high) y le more = refl
  digits_surplus (suc x) zero high y le more = absurd (omega arith)
  digits_surplus (suc x) (suc low) zero y le more = absurd (omega arith)
  digits_surplus (suc x) (suc low) (suc high) y le more =
      let le' : suc x / 2 ≤ low = omega arith in
      omega (arith, digits_surplus (suc x / 2) low high (y / 2) le' (omega arith))

  digits_low :
      (x y : ℕ)
      → digits rest join (suc x) (suc x) y
        ≡ digits rest join (suc x / 2) (suc x / 2) (y / 2) * 2 + join (suc x % 2) (y % 2)
  digits_low x y =
      let enough : suc x / 2 ≤ suc x / 2 = omega arith in
      omega (arith, digits_surplus (suc x / 2) (suc x / 2) x (y / 2) enough (omega arith))

and_nothing_left : (y : ℕ) → bit_and 0 y ≡ 0
and_nothing_left = bit_and-bitwise 0

or_nothing_left : (y : ℕ) → bit_or 0 y ≡ y
or_nothing_left = bit_or-bitwise 0

and_low : (x y : ℕ) → bit_and x y ≡ min (x % 2) (y % 2) + 2 * bit_and (x / 2) (y / 2)
and_low zero y = omega (and_nothing_left (y / 2), and_nothing_left y, arith)
and_low (suc x) y =
    let low = digits_low (λ _. 0) min x y in
    omega (low, bit_and-bitwise (suc x / 2) (y / 2), bit_and-bitwise (suc x) y, arith)

or_low : (x y : ℕ) → bit_or x y ≡ max (x % 2) (y % 2) + 2 * bit_or (x / 2) (y / 2)
or_low zero y = omega (or_nothing_left (y / 2), or_nothing_left y, arith)
or_low (suc x) y =
    let low = digits_low (λ t. t) max x y in
    omega (low, bit_or-bitwise (suc x / 2) (y / 2), bit_or-bitwise (suc x) y, arith)

half-bit_and : (a b : ℕ) → bit_and a b / 2 ≡ bit_and (a / 2) (b / 2)
half-bit_and a b = omega (arith, and_low a b)

half-bit_or : (a b : ℕ) → bit_or a b / 2 ≡ bit_or (a / 2) (b / 2)
half-bit_or a b = omega (arith, or_low a b)

-- `&` and `|` work digit by digit.
pub bit-bit_and : (a b i : ℕ) → bit (bit_and a b) i ≡ min (bit a i) (bit b i)
bit-bit_and a b zero = omega (arith, and_low a b)
bit-bit_and a b (suc i) = rw half-bit_and (bit-bit_and (a / 2) (b / 2) i)

pub bit-bit_or : (a b i : ℕ) → bit (bit_or a b) i ≡ max (bit a i) (bit b i)
bit-bit_or a b zero = omega (arith, or_low a b)
bit-bit_or a b (suc i) = rw half-bit_or (bit-bit_or (a / 2) (b / 2) i)

-- The only digit of `1 << j`.
pub bit-pow : (j i : ℕ) → bit (2 ^ j) i ≡ (if i == j then 1 else 0)
bit-pow zero zero = refl
bit-pow zero (suc i) = ground (arith, bit-zero i)
bit-pow (suc j) zero = ground (arith, pow-suc 2 j)
bit-pow (suc j) (suc i) =
    let half : 2 ^ suc j / 2 ≡ 2 ^ j = omega (arith, pow-suc 2 j) in
    rw half (ground (arith, bit-pow j i))

-- `~` turns each digit of a word over.
pub bit-complement : (n v i : ℕ) → v < 2 ^ n → i < n → bit (2 ^ n - 1 - v) i ≡ 1 - bit v i
bit-complement zero v i h p = absurd (omega arith)
bit-complement (suc n) v zero h p = omega (arith, pow-suc 2 n)
bit-complement (suc n) v (suc i) h p =
    let half : (2 ^ suc n - 1 - v) / 2 ≡ 2 ^ n - 1 - v / 2 = omega (arith, pow-suc 2 n) in
    rw half (bit-complement n (v / 2) i (omega (arith, pow-suc 2 n)) (omega arith))

pub bit_and_lt : (n a b : ℕ) → a < 2 ^ n → bit_and a b < 2 ^ n
bit_and_lt zero zero b h = omega (arith, and_nothing_left b)
bit_and_lt zero (suc a) b h = absurd (omega arith)
bit_and_lt (suc n) a b h =
    omega
      (arith, pow-suc 2 n, and_low a b, bit_and_lt n (a / 2) (b / 2) (omega (arith, pow-suc 2 n)))

pub bit_or_lt : (n a b : ℕ) → a < 2 ^ n → b < 2 ^ n → bit_or a b < 2 ^ n
bit_or_lt zero zero b h k = omega (arith, or_nothing_left b)
bit_or_lt zero (suc a) b h k = absurd (omega arith)
bit_or_lt (suc n) a b h k = omega (
  arith,
  pow-suc 2 n,
  or_low a b,
  bit_or_lt n (a / 2) (b / 2) (omega (arith, pow-suc 2 n)) (omega (arith, pow-suc 2 n)),
)

-- Words with the same digits are the same word.
pub bit_ext : (n a b : ℕ) → a < 2 ^ n → b < 2 ^ n → ((i : ℕ) → i < n → bit a i ≡ bit b i) → a ≡ b
bit_ext zero a b h k e = omega arith
bit_ext (suc n) a b h k e = omega (
  arith,
  pow-suc 2 n,
  e 0 (omega arith),
  bit_ext n (a / 2) (b / 2) (omega (arith, pow-suc 2 n)) (omega (arith, pow-suc 2 n))
      (λ i p. e (suc i) (omega arith)),
)

and_no_mask_below : (bound x : ℕ) → x < bound → bit_and x 0 ≡ 0
and_no_mask_below zero x lt = absurd (omega arith)
and_no_mask_below (suc bound) zero lt = refl
and_no_mask_below (suc bound) (suc x) lt =
    let half = and_no_mask_below bound (suc x / 2) (omega arith) in
    omega (half, and_low (suc x) 0, arith)

and_no_mask : (x : ℕ) → bit_and x 0 ≡ 0
and_no_mask x = and_no_mask_below (suc x) x (omega arith)

and_lowest : (x : ℕ) → bit_and x 1 ≡ x % 2
and_lowest x = omega (and_no_mask (x / 2), and_low x 1, arith)

-- A mask of one digit: what is left is that digit, in its place.
pub bit_and-pow : (w j : ℕ) → bit_and w (2 ^ j) ≡ bit w j * 2 ^ j
bit_and-pow w zero = omega (arith, and_lowest w)
bit_and-pow w (suc j) = omega (
  arith,
  pow-suc 2 j,
  and_low w (2 ^ suc j),
  ap (bit_and (w / 2)) half,
  bit_and-pow (w / 2) j,
  ap (λ (t : ℕ). bit (w / 2) j * t) (pow-suc 2 j),
)
  where
    half : 2 ^ suc j / 2 ≡ 2 ^ j
    half = omega (arith, pow-suc 2 j)

-- `__builtin_ctz`: the place of the lowest digit that is set, in a word of `n` digits.
unfoldable pub ctz : ℕ → ℕ → ℕ
ctz zero v = 0
ctz (suc n) v = if v % 2 == 1 then 0 else suc (ctz n (v / 2))

-- On a word that is not zero it is the place of a set digit, and no digit below it is set.
pub ctz_lem :
    (n v : ℕ)
    → 0 < v
    → v < 2 ^ n
    → (ctz n v < n) × (bit v (ctz n v) ≡ 1) × ((i : ℕ) → i < ctz n v → bit v i ≡ 0)
unfolding ctz
ctz_lem zero v h k = absurd (omega arith)
ctz_lem (suc n) v h k = elim (Bool-cases (v % 2 == 1)) [
  | inl odd ↦ rw odd (omega arith, ground arith, λ i p. absurd (omega arith))
  | inr even ↦
      let (a, b, c) = ctz_lem n (v / 2) (ground arith) (omega (arith, pow-suc 2 n)) in
      rw even (omega arith, b, below even c)
]
  where
    below :
        (v % 2 == 1) ≡ false
        → ((i : ℕ) → i < ctz n (v / 2) → bit (v / 2) i ≡ 0)
        → (i : ℕ) → i < suc (ctz n (v / 2))
        → bit v i ≡ 0
    below e c zero p = ground arith
    below e c (suc i) p = c i (omega arith)

-- A mask of `k` ones takes a remainder.
pub bit_and-ones : (k a : ℕ) → bit_and a (2 ^ k - 1) ≡ a % 2 ^ k
bit_and-ones zero a = omega (arith, and_no_mask a)
bit_and-ones (suc k) a = omega (
  arith,
  pow-suc 2 k,
  pow_pos k,
  and_low a (2 ^ suc k - 1),
  ap (bit_and (a / 2)) half,
  bit_and-ones k (a / 2),
  mod_double a (2 ^ k) (pow_pos k),
  ap (λ (t : ℕ). a % t) (pow-succ' 2 k),
)
  where
    half : (2 ^ suc k - 1) / 2 ≡ 2 ^ k - 1
    half = omega (arith, pow-suc 2 k)
