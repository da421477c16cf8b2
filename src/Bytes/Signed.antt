-- ===== src/Bytes/Signed.antt =====
-- The conversions between int64_t and uint64_t are inverse to one another.
use arrow_abi_doctor.Base.{ℕ, ◌-◌, ◌^◌, ◌<◌, ◌≡◌, ℤ, pos, negsuc, arith, Bool-cases, leb, inl, inr}
use arrow_abi_doctor.Bytes.{i64_to_u64, u64_to_i64}

-- The values of an int64_t.
abbrev pub FitsInt64 : ℤ → Type 0
FitsInt64 (pos n) = n < 2 ^ 63
FitsInt64 (negsuc n) = n < 2 ^ 63

pub i64_to_u64-lt : (v : ℤ) → FitsInt64 v → i64_to_u64 v < 2 ^ 64
unfolding i64_to_u64
i64_to_u64-lt (pos n) h = omega arith
i64_to_u64-lt (negsuc n) h = omega arith

pub u64_to_i64-FitsInt64 : (u : ℕ) → u < 2 ^ 64 → FitsInt64 (u64_to_i64 u)
unfolding u64_to_i64
u64_to_i64-FitsInt64 u h = elim (Bool-cases (leb u (2 ^ 63 - 1))) [
  | inl e ↦ rw e (ground arith)
  | inr e ↦ rw e (ground arith)
]

-- A value of an int64_t survives the way through a uint64_t.
pub u64_to_i64-i64_to_u64 : (v : ℤ) → FitsInt64 v → u64_to_i64 (i64_to_u64 v) ≡ v
unfolding u64_to_i64 i64_to_u64
u64_to_i64-i64_to_u64 (pos n) h = ground arith
u64_to_i64-i64_to_u64 (negsuc n) h = ground arith

pub i64_to_u64-u64_to_i64 : (u : ℕ) → u < 2 ^ 64 → i64_to_u64 (u64_to_i64 u) ≡ u
unfolding u64_to_i64 i64_to_u64
i64_to_u64-u64_to_i64 u h = ground arith
