-- ===== src/Base/Masks.antt =====
-- What a mask of the upper bits keeps of a number.
use Prim.Native.Nat.{
  ℕ, zero, suc, ◌+◌, ◌-◌, ◌*◌, ◌/◌, ◌%◌, ◌^◌, ◌≤◌, ◌<◌, min, bit_and, digits, bit_and-bitwise,
}
use mathlib.Core.Path.{◌≡◌, sym, ap, ◌∙◌, subst}
use native.Mathlib.Nat.{
  pow-suc, div-add-mod', div-div-eq-div-mul, mul_assoc, mul_comm, mod-lt, mul-mod_left,
}
use native.Mathlib.Omega.{arith}

abbrev and_digits : ℕ → ℕ → ℕ → ℕ
and_digits n a b = digits (λ b. 0) min n a b

-- The last digit of a remainder by an even number.
mod-double : (a m : ℕ) → 0 < m → a % (m * 2) ≡ a / 2 % m * 2 + a % 2
mod-double a m h = omega (
  arith,
  div-add-mod' a (m * 2),
  div-add-mod' (a / 2) m,
  div-div-eq-div-mul a 2 m,
  ap (λ x. a / x) (mul_comm m 2),
  ap (λ x. x * (m * 2)) (div-div-eq-div-mul a 2 m ∙ ap (λ x. a / x) (mul_comm 2 m)),
  sym (mul_assoc (a / 2 / m) m 2),
)

pub pow-pos : (k : ℕ) → 0 < 2 ^ k
pow-pos zero = omega arith
pow-pos (suc k) = omega (arith, pow-pos k, pow-suc 2 k)

pow-next : (w v : ℕ) → w ≡ suc v → 2 ^ w ≡ 2 ^ v * 2
pow-next w v e = ap (λ (x : ℕ). 2 ^ x) e ∙ pow-suc 2 v

low_part :
    (n k d a : ℕ) → a ≤ n → a < 2 ^ (k + d) → and_digits n a (2 ^ (k + d) - 2 ^ k) + a % 2 ^ k ≡ a
low_part zero k d zero p q = omega (arith, div-add-mod' 0 (2 ^ k))
low_part zero k d (suc a) p q = absurd (omega arith)
low_part (suc n) k d zero p q = omega (arith, div-add-mod' 0 (2 ^ k))
low_part (suc n) zero zero (suc a) p q = absurd (omega arith)
low_part (suc n) zero (suc d) (suc a) p q =
    let e : 2 ^ (0 + suc d) ≡ 2 ^ (0 + d) * 2 = pow-next (0 + suc d) (0 + d) (omega arith) in
    let half : (2 ^ (0 + suc d) - 2 ^ 0) / 2 ≡ 2 ^ (0 + d) - 2 ^ 0 = omega (arith, e) in
    omega (
      arith,
      ap (and_digits n (suc a / 2)) half,
      low_part n 0 d (suc a / 2) (omega arith) (omega arith),
      pow-pos (0 + d),
    )
low_part (suc n) (suc k) d (suc a) p q =
    let e : 2 ^ (suc k + d) ≡ 2 ^ (k + d) * 2 = pow-next (suc k + d) (k + d) (omega arith) in
    let e' : 2 ^ suc k ≡ 2 ^ k * 2 = pow-suc 2 k in
    let half : (2 ^ (suc k + d) - 2 ^ suc k) / 2 ≡ 2 ^ (k + d) - 2 ^ k = omega arith in
    omega (
      arith,
      ap (and_digits n (suc a / 2)) half,
      low_part n k d (suc a / 2) (omega arith) (omega arith),
      ap (λ x. suc a % x) e',
      mod-double (suc a) (2 ^ k) (pow-pos k),
    )

-- The bits above the first `k`, and those.
pub bit_and-high : (k d a : ℕ) → a < 2 ^ (k + d) → bit_and a (2 ^ (k + d) - 2 ^ k) + a % 2 ^ k ≡ a
bit_and-high k d a h =
    omega (arith, bit_and-bitwise a (2 ^ (k + d) - 2 ^ k), low_part a k d a (omega arith) h)

-- Rounding down to a power of two.
mask_low : (k a : ℕ) → k ≤ 64 → a < 2 ^ 64 → bit_and a (2 ^ 64 - 2 ^ k) + a % 2 ^ k ≡ a
mask_low k a h lt =
    let whole : k + (64 - k) ≡ 64 = omega arith in
    subst (λ (w : ℕ). a < 2 ^ w → bit_and a (2 ^ w - 2 ^ k) + a % 2 ^ k ≡ a) whole
      (bit_and-high k (64 - k) a) lt

-- The next multiple of a power of two, as the code takes it.
abbrev pub round_up : ℕ → ℕ → ℕ
round_up align start = bit_and (start + align - 1) (2 ^ 64 - align)

pub round_up-bounds :
    (k start : ℕ)
    → k ≤ 64
    → start + 2 ^ k ≤ 2 ^ 64
    → (round_up (2 ^ k) start % 2 ^ k ≡ 0)
      × (start ≤ round_up (2 ^ k) start)
      × (round_up (2 ^ k) start < start + 2 ^ k)
round_up-bounds k start h fits =
    let align = 2 ^ k in
    let x = start + align - 1 in
    let masked = mask_low k x h (omega (arith, fits, pow-pos k)) in
    let below = mod-lt x (pow-pos k) in
    let whole : round_up align start ≡ x / align * align =
      omega (arith, masked, div-add-mod' x align) in
    (
      rw whole (mul-mod_left (x / align) align),
      omega (arith, masked, below),
      omega (arith, masked, below),
    )
