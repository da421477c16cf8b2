-- ===== src/Bytes.antt =====
-- The endian-explicit primitives of libabi/src/abi_internal.h: integers as bytes, lowest first, and
-- the two's-complement conversions. A byte string is a list of numbers below 256.
pub mod LittleEndian
pub mod Signed
use arrow_abi_doctor.Base.{
  ℕ, zero, suc, ◌+◌, ◌-◌, ◌*◌, ◌/◌, ◌%◌, ◌^◌, ◌<◌, bit_or, List, [], ◌∷◌, ℤ, pos, negsuc, leb,
  if◌then◌else◌, get_or, All,
}

abbrev pub IsByte : ℕ → Type 0
IsByte b = b < 256

abbrev pub AreBytes : List ℕ → Type 0
AreBytes bs = All IsByte bs

-- `(uint8_t)((v >> (8 * i)) & 0xFFu)`
abbrev pub byte_of : ℕ → ℕ → ℕ
byte_of v i = v / 2 ^ (8 * i) % 256

unfoldable pub store_u16 : ℕ → List ℕ
store_u16 v = v % 256 ∷ v / 2 ^ 8 % 256 ∷ []

unfoldable pub store_u32 : ℕ → List ℕ
store_u32 v = v % 256 ∷ v / 2 ^ 8 % 256 ∷ v / 2 ^ 16 % 256 ∷ v / 2 ^ 24 % 256 ∷ []

-- The loop of `abi_store_u64`: `n` bytes are left, and the next is byte `i`.
unfoldable pub store_loop : ℕ → ℕ → ℕ → List ℕ
store_loop zero i v = []
store_loop (suc n) i v = byte_of v i ∷ store_loop n (suc i) v

unfoldable pub store_u64 : ℕ → List ℕ
unfolding store_loop
store_u64 v = store_loop 8 0 v

-- `p` is the memory from the pointer on; the callers have checked that the bytes are there.
unfoldable pub load_u16 : List ℕ → ℕ
load_u16 p = bit_or (get_or p 0 0) (get_or p 1 0 * 2 ^ 8) % 2 ^ 16

unfoldable pub load_u32 : List ℕ → ℕ
load_u32 p =
    bit_or (bit_or (bit_or (get_or p 0 0) (get_or p 1 0 * 2 ^ 8)) (get_or p 2 0 * 2 ^ 16))
      (get_or p 3 0 * 2 ^ 24)

-- The loop of `abi_load_u64`: bytes `i - 1` down to 0 are still to be shifted in.
unfoldable pub load_loop : ℕ → List ℕ → ℕ → ℕ
load_loop zero p v = v
load_loop (suc i) p v = load_loop i p (bit_or (v * 2 ^ 8 % 2 ^ 64) (get_or p i 0))

unfoldable pub load_u64 : List ℕ → ℕ
unfolding load_loop
load_u64 p = load_loop 8 p 0

-- `~x` on 64 bits is `UINT64_MAX - x`. A negative `v` is `negsuc n`, for which `-(v + 1)` is `n`.
unfoldable pub i64_to_u64 : ℤ → ℕ
i64_to_u64 (negsuc n) = 2 ^ 64 - 1 - n
i64_to_u64 (pos n) = n

-- `-(int64_t)(UINT64_MAX - u) - 1` is `negsuc (UINT64_MAX - u)`.
unfoldable pub u64_to_i64 : ℕ → ℤ
u64_to_i64 u = if leb u (2 ^ 63 - 1) then pos u else negsuc (2 ^ 64 - 1 - u)
