-- ===== src/Bytes/LittleEndian.antt =====
-- Storing and loading are inverse to one another.
use arrow_abi_doctor.Base.{
  ℕ, ◌+◌, ◌*◌, ◌/◌, ◌%◌, ◌^◌, ◌<◌, bit_or, List, [], ◌∷◌, ◌++◌, ◌≡◌, refl, arith, length,
}
use arrow_abi_doctor.Base.Bits.{bit_or-low, bit_or-high}
use arrow_abi_doctor.Bytes.{
  IsByte, AreBytes, store_u16, store_u32, store_u64, load_u16, load_u32, load_u64,
}

pub length-store_u16 : (v : ℕ) → length (store_u16 v) ≡ 2
unfolding store_u16
length-store_u16 v = refl

pub length-store_u32 : (v : ℕ) → length (store_u32 v) ≡ 4
unfolding store_u32
length-store_u32 v = refl

pub length-store_u64 : (v : ℕ) → length (store_u64 v) ≡ 8
unfolding store_u64
length-store_u64 v = refl

pub store_u16-AreBytes : (v : ℕ) → AreBytes (store_u16 v)
unfolding store_u16
store_u16-AreBytes v = omega arith

pub store_u32-AreBytes : (v : ℕ) → AreBytes (store_u32 v)
unfolding store_u32
store_u32-AreBytes v = omega arith

pub store_u64-AreBytes : (v : ℕ) → AreBytes (store_u64 v)
unfolding store_u64
store_u64-AreBytes v = omega arith

or8 : (a c : ℕ) → a < 2 ^ 8 → bit_or a (c * 2 ^ 8) ≡ a + c * 2 ^ 8
or8 = bit_or-low 8

or16 : (a c : ℕ) → a < 2 ^ 16 → bit_or a (c * 2 ^ 16) ≡ a + c * 2 ^ 16
or16 = bit_or-low 16

or24 : (a c : ℕ) → a < 2 ^ 24 → bit_or a (c * 2 ^ 24) ≡ a + c * 2 ^ 24
or24 = bit_or-low 24

-- What the loads compute, as sums.
load_u16_sum : (a b : ℕ) (r : List ℕ) → IsByte a → IsByte b → load_u16 (a ∷ b ∷ r) ≡ a + b * 2 ^ 8
unfolding load_u16
load_u16_sum a b r ha hb = rw (or8 a b (omega arith)) (omega arith)

load_u32_sum :
    (a b c d : ℕ) (r : List ℕ)
    → IsByte a
    → IsByte b
    → IsByte c
    → load_u32 (a ∷ b ∷ c ∷ d ∷ r) ≡ a + b * 2 ^ 8 + c * 2 ^ 16 + d * 2 ^ 24
unfolding load_u32
load_u32_sum a b c d r ha hb hc =
    rw (or8 a b (omega arith)) (
      rw (or16 (a + b * 2 ^ 8) c (omega arith)) (or24 (a + b * 2 ^ 8 + c * 2 ^ 16) d (omega arith)))

pub load-store_u16 : (v : ℕ) (r : List ℕ) → v < 2 ^ 16 → load_u16 (store_u16 v ++ r) ≡ v
unfolding store_u16
load-store_u16 v r h =
    omega (arith, load_u16_sum (v % 256) (v / 2 ^ 8 % 256) r (omega arith) (omega arith))

pub load-store_u32 : (v : ℕ) (r : List ℕ) → v < 2 ^ 32 → load_u32 (store_u32 v ++ r) ≡ v
unfolding store_u32
load-store_u32 v r h = omega (
  arith,
  load_u32_sum (v % 256) (v / 2 ^ 8 % 256) (v / 2 ^ 16 % 256) (v / 2 ^ 24 % 256) r (omega arith)
      (omega arith) (omega arith),
)

pub store-load_u16 :
    (a b : ℕ) (r : List ℕ)
    → IsByte a
    → IsByte b
    → (store_u16 (load_u16 (a ∷ b ∷ r)) ≡ a ∷ b ∷ []) × (load_u16 (a ∷ b ∷ r) < 2 ^ 16)
unfolding store_u16
store-load_u16 a b r ha hb = rw (load_u16_sum a b r ha hb) (ground arith, omega arith)

pub store-load_u32 :
    (a b c d : ℕ) (r : List ℕ)
    → IsByte a
    → IsByte b
    → IsByte c
    → IsByte d
    → (store_u32 (load_u32 (a ∷ b ∷ c ∷ d ∷ r)) ≡ a ∷ b ∷ c ∷ d ∷ [])
      × (load_u32 (a ∷ b ∷ c ∷ d ∷ r) < 2 ^ 32)
unfolding store_u32
store-load_u32 a b c d r ha hb hc hd =
    rw (load_u32_sum a b c d r ha hb hc) (ground arith, omega arith)

-- One round of the 64-bit load, while the value is still below `2 ^ 56`.
shift_in : (v b : ℕ) → v < 2 ^ 56 → IsByte b → bit_or (v * 2 ^ 8 % 2 ^ 64) b ≡ v * 2 ^ 8 + b
shift_in v b hv hb =
    let small : v * 2 ^ 8 % 2 ^ 64 ≡ v * 2 ^ 8 = omega arith in rw small (bit_or-high 8 b v hb)

load_u64_sum :
    (a b c d e f g h : ℕ) (r : List ℕ)
    → AreBytes (a ∷ b ∷ c ∷ d ∷ e ∷ f ∷ g ∷ h ∷ [])
    → load_u64 (a ∷ b ∷ c ∷ d ∷ e ∷ f ∷ g ∷ h ∷ r)
      ≡ a + b * 2 ^ 8 + c * 2 ^ 16 + d * 2 ^ 24 + e * 2 ^ 32 + f * 2 ^ 40 + g * 2 ^ 48 + h * 2 ^ 56
unfolding load_u64
load_u64_sum a b c d e f g h r p =
    let v7 = 0 * 2 ^ 8 + h in
    let v6 = v7 * 2 ^ 8 + g in
    let v5 = v6 * 2 ^ 8 + f in
    let v4 = v5 * 2 ^ 8 + e in
    let v3 = v4 * 2 ^ 8 + d in
    let v2 = v3 * 2 ^ 8 + c in
    let v1 = v2 * 2 ^ 8 + b in
    rw
      (
        shift_in 0 h (omega arith) (omega arith),
        shift_in v7 g (omega arith) (omega arith),
        shift_in v6 f (omega arith) (omega arith),
        shift_in v5 e (omega arith) (omega arith),
        shift_in v4 d (omega arith) (omega arith),
        shift_in v3 c (omega arith) (omega arith),
        shift_in v2 b (omega arith) (omega arith),
        shift_in v1 a (omega arith) (omega arith),
      )
      (omega arith)

-- A value below 2 ^ 64 that was stored is loaded again, whatever bytes follow it.
pub load-store_u64 : (v : ℕ) (r : List ℕ) → v < 2 ^ 64 → load_u64 (store_u64 v ++ r) ≡ v
unfolding store_u64
load-store_u64 v r h =
    let byte = λ (i : ℕ). v / 2 ^ i % 256 in
    rw
      (load_u64_sum (byte 0) (byte 8) (byte 16) (byte 24) (byte 32) (byte 40) (byte 48) (byte 56) r
        (omega arith))
      (omega arith)

pub store-load_u64 :
    (a b c d e f g h : ℕ) (r : List ℕ)
    → AreBytes (a ∷ b ∷ c ∷ d ∷ e ∷ f ∷ g ∷ h ∷ [])
    → (store_u64 (load_u64 (a ∷ b ∷ c ∷ d ∷ e ∷ f ∷ g ∷ h ∷ r))
        ≡ a ∷ b ∷ c ∷ d ∷ e ∷ f ∷ g ∷ h ∷ [])
      × (load_u64 (a ∷ b ∷ c ∷ d ∷ e ∷ f ∷ g ∷ h ∷ r) < 2 ^ 64)
unfolding store_u64
store-load_u64 a b c d e f g h r p =
    rw (load_u64_sum a b c d e f g h r p) (ground arith, omega arith)
