-- ===== src/Buffer/Doubling.antt =====
-- The doubling loop ends, and what it ends with.
use arrow_abi_doctor.Base.{
  false, Bool-cases, inl, inr, ap, ◌⊎◌, ℕ, zero, suc, ◌+◌, ◌*◌, ◌/◌, ◌^◌, ◌≤◌, ◌<◌, ◌≡◌, ◌≢◌, arith,
  ltb,
}
use arrow_abi_doctor.Buffer.{grown, out_of_fuel, size_max, grow_loop}
use native.Mathlib.Nat.{pow-suc}

-- `fuel` rounds are enough for a capacity that `2 ^ fuel` carries past `SIZE_MAX`.
grow_loop-ends :
    (fuel room need : ℕ)
    → size_max < room * 2 ^ fuel
    → need ≤ size_max
    → grow_loop (suc fuel) room need ≢ out_of_fuel
unfolding grow_loop
grow_loop-ends zero room need h hn = ground arith
grow_loop-ends (suc fuel) room need h hn = ground (
  arith,
  grow_loop-ends fuel (room * 2) need (omega (arith, ap (λ (t : ℕ). room * t) (pow-suc 2 fuel))),
)

-- What the loop ends with holds `need`, and is either the capacity it began with or below twice `need`.
pub grow_loop_fits :
    (fuel room need n : ℕ)
    → grow_loop fuel room need ≡ grown n
    → (need ≤ n) × ((n ≡ room) ⊎ (n < need + need))
unfolding grow_loop
grow_loop_fits zero room need n h = cc
grow_loop_fits (suc fuel) room need n h = ground (arith, grow_loop_fits fuel (room * 2) need n)

grow_loop_reaches :
    (fuel room need : ℕ)
    → need ≤ room * 2 ^ fuel
    → need ≤ 2 ^ 63
    → (n : ℕ) × (grow_loop (suc fuel) room need ≡ grown n)
unfolding grow_loop
grow_loop_reaches zero room need hf hn = (room, ground arith)
grow_loop_reaches (suc fuel) room need hf hn = elim (Bool-cases (ltb room need)) [
  | inl low ↦
      let small : ltb (size_max / 2) room ≡ false = ground arith in
      let (n, e) =
        grow_loop_reaches fuel (room * 2) need
          (omega (arith, ap (λ (t : ℕ). room * t) (pow-suc 2 fuel))) hn in
      (n, rw (low, small) e)
  | inr high ↦ (room, rw high)
]

-- The capacity loop ends, in `fuel + 1` rounds, when the need is at most 2 ^ 63 and `fuel` doublings of
-- the capacity reach it. What it ends with holds the need, and is the capacity it began with or below
-- twice the need.
pub grow_loop_meets :
    (fuel room need : ℕ)
    → need ≤ room * 2 ^ fuel
    → need ≤ 2 ^ 63
    → (n : ℕ) × (grow_loop (suc fuel) room need ≡ grown n)
      × (need ≤ n)
      × ((n ≡ room) ⊎ (n < need + need))
grow_loop_meets fuel room need hf hn =
    let (n, e) = grow_loop_reaches fuel room need hf hn in
    let (holds, tight) = grow_loop_fits (suc fuel) room need n e in (n, e, holds, tight)
