-- ===== src/Fill/Periods.antt =====
-- The PATTERN fill of libabi/src/fill.c: what tiling a pattern over an allocation gives.
use arrow_abi_doctor.Base.{
  ℕ, zero, suc, ◌+◌, ◌*◌, ◌/◌, ◌%◌, ◌<◌, ◌≤◌, ◌≡◌, ◌∙◌, arith, List, true, false, length,
  length-append, take, take-append, ltb,
}
use arrow_abi_doctor.Fill.{tile}
use native.Mathlib.Nat.{div-add-mod}

-- `k` copies of a non-empty pattern fill `k` times its length.
length-tile :
    (fuel k off size : ℕ) (pat : List ℕ)
    → 0 < length pat
    → k ≤ fuel
    → size ≡ off + k * length pat
    → length (tile fuel off size pat) ≡ k * length pat
unfolding tile
length-tile zero zero off size pat hp hk e = omega arith
length-tile zero (suc k) off size pat hp hk e = absurd (omega arith)
length-tile (suc fuel) zero off size pat hp hk e =
    let over : ltb off size ≡ false = ground arith in rw over (omega arith)
length-tile (suc fuel) (suc k) off size pat hp hk e =
    let under : ltb off size ≡ true = ground arith in
    let ih = length-tile fuel k (off + length pat) size pat hp (omega arith) (omega arith) in
    rw under (omega (arith, ih, length-append pat (tile fuel (off + length pat) size pat)))

take-tile :
    (fuel size : ℕ) (pat : List ℕ) → 0 < size → take (length pat) (tile (suc fuel) 0 size pat) ≡ pat
unfolding tile
take-tile fuel size pat h =
    let under : ltb 0 size ≡ true = ground arith in rw under (take-append pat _)

-- The bytes of a valid PATTERN payload: they have the size, and begin with the pattern.
pub tile_lem :
    (size : ℕ) (pat : List ℕ)
    → 0 < length pat
    → length pat ≤ size
    → size % length pat ≡ 0
    → (length (tile size 0 size pat) ≡ size) × (take (length pat) (tile size 0 size pat) ≡ pat)
tile_lem zero pat hp hs e = absurd (omega arith)
tile_lem (suc n) pat hp hs e =
    let k = suc n / length pat in
    let whole : k * length pat ≡ suc n = grind (arith, div-add-mod (suc n) (length pat)) in
    (
      length-tile (suc n) k 0 (suc n) pat hp (grind arith) (omega arith) ∙ whole,
      take-tile n (suc n) pat (omega arith),
    )
