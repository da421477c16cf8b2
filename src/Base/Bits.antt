-- ===== src/Base/Bits.antt =====
-- `bit_or` of two numbers that share no bit is their sum.
use Prim.Native.Nat.{
  ℕ, zero, suc, ◌+◌, ◌*◌, ◌/◌, ◌%◌, ◌^◌, ◌≤◌, ◌<◌, max, bit_or, digits, bit_or-bitwise,
}
use mathlib.Core.Path.{◌≡◌, refl, ap}
use native.Mathlib.Nat.{pow-suc}
use native.Mathlib.Omega.{arith}

abbrev or_digits : ℕ → ℕ → ℕ → ℕ
or_digits n a b = digits (λ b. b) max n a b

or_digits_fuel : (n m a b : ℕ) → a ≤ n → a ≤ m → or_digits n a b ≡ or_digits m a b
or_digits_fuel zero zero a b p q = refl
or_digits_fuel zero (suc m) zero b p q = refl
or_digits_fuel zero (suc m) (suc a) b p q = absurd (omega arith)
or_digits_fuel (suc n) zero zero b p q = refl
or_digits_fuel (suc n) zero (suc a) b p q = absurd (omega arith)
or_digits_fuel (suc n) (suc m) zero b p q = refl
or_digits_fuel (suc n) (suc m) (suc a) b p q =
    omega (arith, or_digits_fuel n m (suc a / 2) (b / 2) (omega arith) (omega arith))

pub zero-bit_or : (b : ℕ) → bit_or 0 b ≡ b
zero-bit_or b = bit_or-bitwise 0 b

pub bit_or_step : (a b : ℕ) → bit_or a b ≡ bit_or (a / 2) (b / 2) * 2 + max (a % 2) (b % 2)
bit_or_step zero b = omega (arith, zero-bit_or b, zero-bit_or (b / 2))
bit_or_step (suc a) b = omega (
  arith,
  bit_or-bitwise (suc a) b,
  bit_or-bitwise (suc a / 2) (b / 2),
  or_digits_fuel a (suc a / 2) (suc a / 2) (b / 2) (omega arith) (omega arith),
)

pub bit_or-zero : (a : ℕ) → bit_or a 0 ≡ a
bit_or-zero a = below a a (omega arith)
  where
    below : (n a : ℕ) → a ≤ n → bit_or a 0 ≡ a
    below n zero h = zero-bit_or 0
    below zero (suc a) h = absurd (omega arith)
    below (suc n) (suc a) h =
        omega (arith, bit_or_step (suc a) 0, below n (suc a / 2) (omega arith))

-- The low bits of one operand stand below the shifted bits of the other.
pub bit_or-low : (k a c : ℕ) → a < 2 ^ k → bit_or a (c * 2 ^ k) ≡ a + c * 2 ^ k
bit_or-low zero zero c h = omega (arith, zero-bit_or (c * 2 ^ 0))
bit_or-low zero (suc a) c h = absurd (omega arith)
bit_or-low (suc k) a c h =
    let e : c * 2 ^ suc k ≡ c * 2 ^ k * 2 = omega (arith, ap (λ (t : ℕ). c * t) (pow-suc 2 k)) in
    let half : c * 2 ^ suc k / 2 ≡ c * 2 ^ k = omega arith in
    let ih : bit_or (a / 2) (c * 2 ^ k) ≡ a / 2 + c * 2 ^ k =
      bit_or-low k (a / 2) c (omega (arith, pow-suc 2 k)) in
    let ih' : bit_or (a / 2) (c * 2 ^ suc k / 2) ≡ a / 2 + c * 2 ^ k = rw half ih in
    omega (arith, bit_or_step a (c * 2 ^ suc k))

pub bit_or-high : (k a c : ℕ) → a < 2 ^ k → bit_or (c * 2 ^ k) a ≡ c * 2 ^ k + a
bit_or-high zero zero c h = omega (arith, bit_or-zero (c * 2 ^ 0))
bit_or-high zero (suc a) c h = absurd (omega arith)
bit_or-high (suc k) a c h =
    let e : c * 2 ^ suc k ≡ c * 2 ^ k * 2 = omega (arith, ap (λ (t : ℕ). c * t) (pow-suc 2 k)) in
    let half : c * 2 ^ suc k / 2 ≡ c * 2 ^ k = omega arith in
    let ih : bit_or (c * 2 ^ k) (a / 2) ≡ c * 2 ^ k + a / 2 =
      bit_or-high k (a / 2) c (omega (arith, pow-suc 2 k)) in
    let ih' : bit_or (c * 2 ^ suc k / 2) (a / 2) ≡ c * 2 ^ k + a / 2 = rw half ih in
    omega (arith, bit_or_step (c * 2 ^ suc k) a)
