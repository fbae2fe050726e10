-- ===== src/Prelude/Bits.antt =====
-- The bits of a word. The native bit operations are described by their effect on each bit.
use Prim.Native.Nat.{digits, bit_and-bitwise, bit_or-bitwise}
use Prim.Native.Nat.{ℕ, zero, suc, ◌+◌, ◌-◌, ◌*◌, ◌/◌, ◌%◌, ◌^◌, ◌≤◌, ◌<◌, min, max}
use Prim.Native.Nat.{bit_and, bit_or}
use mathlib.Core.Path.{◌≡◌, refl, sym, ◌∙◌, ap}
use native.Mathlib.Omega.{arith}
use native.Mathlib.Nat.{pow-suc, pow-succ', div-div-eq-div-mul}
use pglite4j.Prelude.Tests.{◌==◌, if◌then◌else◌}

-- Bit `k` of `x`, as 0 or 1.
abbrev pub bit : ℕ → ℕ → ℕ
bit x zero = x % 2
bit x (suc k) = bit (x / 2) k

-- The digit recursion that the native operations stand for does not depend on its fuel.
module _ (z : ℕ → ℕ) (f : ℕ → ℕ → ℕ) where
  enough_fuel : (n m a b : ℕ) → a ≤ n → a ≤ m → digits z f n a b ≡ digits z f m a b
  enough_fuel zero zero a b p q = refl
  enough_fuel zero (suc m) (suc a) b p q = absurd (omega arith)
  enough_fuel zero (suc m) zero b p q = refl
  enough_fuel (suc n) m zero b p q = zero_digits m b
    where
      zero_digits : (m b : ℕ) → z b ≡ digits z f m 0 b
      zero_digits zero b = refl
      zero_digits (suc m) b = refl
  enough_fuel (suc n) zero (suc a) b p q = absurd (omega arith)
  enough_fuel (suc n) (suc m) (suc a) b p q =
      ap (λ (d : ℕ). d * 2 + f (suc a % 2) (b % 2))
        (enough_fuel n m (suc a / 2) (b / 2) (omega arith) (omega arith))

-- The recursion on the lowest digit.
or_digit : (a b : ℕ) → bit_or a b ≡ bit_or (a / 2) (b / 2) * 2 + max (a % 2) (b % 2)
or_digit zero b = simp bit_or-bitwise (omega arith)
or_digit (suc a) b = omega (
  arith,
  bit_or-bitwise (suc a) b,
  bit_or-bitwise (suc a / 2) (b / 2),
  enough_fuel (λ y. y) max a (suc a / 2) (suc a / 2) (b / 2) (omega arith) (omega arith),
)

and_digit : (a b : ℕ) → bit_and a b ≡ bit_and (a / 2) (b / 2) * 2 + min (a % 2) (b % 2)
and_digit zero b = simp bit_and-bitwise (omega arith)
and_digit (suc a) b = omega (
  arith,
  bit_and-bitwise (suc a) b,
  bit_and-bitwise (suc a / 2) (b / 2),
  enough_fuel (λ y. 0) min a (suc a / 2) (suc a / 2) (b / 2) (omega arith) (omega arith),
)

pub bit-le-one : (x k : ℕ) → bit x k ≤ 1
bit-le-one x zero = omega arith
bit-le-one x (suc k) = bit-le-one (x / 2) k

pub bit-bit_or : (a b k : ℕ) → bit (bit_or a b) k ≡ max (bit a k) (bit b k)
bit-bit_or a b zero = omega (arith, or_digit a b)
bit-bit_or a b (suc k) =
    let half : bit_or a b / 2 ≡ bit_or (a / 2) (b / 2) = omega (arith, or_digit a b) in
    rw half (bit-bit_or (a / 2) (b / 2) k)

pub bit-bit_and : (a b k : ℕ) → bit (bit_and a b) k ≡ min (bit a k) (bit b k)
bit-bit_and a b zero = omega (arith, and_digit a b)
bit-bit_and a b (suc k) =
    let half : bit_and a b / 2 ≡ bit_and (a / 2) (b / 2) = omega (arith, and_digit a b) in
    rw half (bit-bit_and (a / 2) (b / 2) k)

pub bit-zero : (k : ℕ) → bit 0 k ≡ 0
bit-zero zero = refl
bit-zero (suc k) = bit-zero k

pub bit-pow : (s k : ℕ) → bit (2 ^ s) k ≡ (if k == s then 1 else 0)
bit-pow zero zero = refl
bit-pow zero (suc k) = bit-zero k ∙ ground arith
bit-pow (suc s) zero = ground (arith, pow-suc 2 s)
bit-pow (suc s) (suc k) =
    let half : 2 ^ suc s / 2 ≡ 2 ^ s = omega (arith, pow-suc 2 s) in
    rw half (bit-pow s k ∙ ground arith)

-- A byte has no bit from 8 on, and a conversion to a byte keeps the others.
pub bit-byte : (x k : ℕ) → k < 8 → bit (x % 256) k ≡ bit x k
bit-byte x zero h = omega arith
bit-byte x (suc zero) h = omega arith
bit-byte x (suc (suc zero)) h = omega arith
bit-byte x (suc (suc (suc zero))) h = omega arith
bit-byte x (suc (suc (suc (suc zero)))) h = omega arith
bit-byte x (suc (suc (suc (suc (suc zero))))) h = omega arith
bit-byte x (suc (suc (suc (suc (suc (suc zero)))))) h = omega arith
bit-byte x (suc (suc (suc (suc (suc (suc (suc zero))))))) h = omega arith
bit-byte x (suc (suc (suc (suc (suc (suc (suc (suc k)))))))) h = absurd (omega arith)

pub bit-byte_high : (x k : ℕ) → x < 256 → 8 ≤ k → bit x k ≡ 0
bit-byte_high x (suc (suc (suc (suc (suc (suc (suc (suc k)))))))) lt h =
    let gone : x / 2 / 2 / 2 / 2 / 2 / 2 / 2 / 2 ≡ 0 = omega arith in rw gone (bit-zero k)
bit-byte_high x _ lt h = absurd (omega arith)

-- The complement of a byte, in a 32-bit word.
pub bit-complement : (x k : ℕ) → x < 2 ^ 32 → k < 8 → bit (2 ^ 32 - 1 - x) k ≡ 1 - bit x k
bit-complement x zero lt h = omega arith
bit-complement x (suc zero) lt h = omega arith
bit-complement x (suc (suc zero)) lt h = omega arith
bit-complement x (suc (suc (suc zero))) lt h = omega arith
bit-complement x (suc (suc (suc (suc zero)))) lt h = omega arith
bit-complement x (suc (suc (suc (suc (suc zero))))) lt h = omega arith
bit-complement x (suc (suc (suc (suc (suc (suc zero)))))) lt h = omega arith
bit-complement x (suc (suc (suc (suc (suc (suc (suc zero))))))) lt h = omega arith
bit-complement x (suc (suc (suc (suc (suc (suc (suc (suc k)))))))) lt h = absurd (omega arith)

-- Bytes with the same bits are equal.
pub byte_ext : (a b : ℕ) → a < 256 → b < 256 → ((k : ℕ) → k < 8 → bit a k ≡ bit b k) → a ≡ b
byte_ext a b la lb h = omega (
  arith,
  h 0 (omega arith),
  h 1 (omega arith),
  h 2 (omega arith),
  h 3 (omega arith),
  h 4 (omega arith),
  h 5 (omega arith),
  h 6 (omega arith),
  h 7 (omega arith),
)

bit_and-zero : (y : ℕ) → bit_and y 0 ≡ 0
bit_and-zero y = below y y (omega arith)
  where
    below : (n y : ℕ) → y ≤ n → bit_and y 0 ≡ 0
    below n zero h = refl
    below zero (suc y) h = absurd (omega arith)
    below (suc n) (suc y) h = omega (arith, and_digit (suc y) 0, below n (suc y / 2) (omega arith))

-- `(x >> k) & 1`
pub low_bit-shift : (x k : ℕ) → bit_and (x / 2 ^ k) 1 ≡ bit x k
low_bit-shift x zero =
    let whole : x / 2 ^ 0 ≡ x = omega arith in
    rw whole (omega (arith, and_digit x 1, bit_and-zero (x / 2)))
low_bit-shift x (suc k) =
    let steps : x / 2 ^ suc k ≡ x / 2 / 2 ^ k =
      rw pow-succ' (sym (div-div-eq-div-mul x 2 (2 ^ k))) in
    rw steps (low_bit-shift (x / 2) k)

-- Masks of some low bits, and of one bit.
bit_and-one : (y : ℕ) → bit_and y 1 ≡ y % 2
bit_and-one y = omega (arith, and_digit y 1, bit_and-zero (y / 2))

bit_and_three : (y : ℕ) → bit_and y 3 ≡ y % 4
bit_and_three y = omega (arith, and_digit y 3, bit_and-one (y / 2))

bit_and_seven : (y : ℕ) → bit_and y 7 ≡ y % 8
bit_and_seven y = omega (arith, and_digit y 7, bit_and_three (y / 2))

pub bit_and_fifteen : (y : ℕ) → bit_and y 15 ≡ y % 16
bit_and_fifteen y = omega (arith, and_digit y 15, bit_and_seven (y / 2))

bit_and_two : (y : ℕ) → bit_and y 2 ≡ y / 2 % 2 * 2
bit_and_two y = omega (arith, and_digit y 2, bit_and-one (y / 2))

bit_and_four : (y : ℕ) → bit_and y 4 ≡ y / 4 % 2 * 4
bit_and_four y = omega (arith, and_digit y 4, bit_and_two (y / 2))

bit_and_eight : (y : ℕ) → bit_and y 8 ≡ y / 8 % 2 * 8
bit_and_eight y = omega (arith, and_digit y 8, bit_and_four (y / 2))

pub bit_and_sixteen : (y : ℕ) → bit_and y 16 ≡ y / 16 % 2 * 16
bit_and_sixteen y = omega (arith, and_digit y 16, bit_and_eight (y / 2))
