-- ===== src/Buffer.antt =====
-- The growable output buffer of libabi/src/bytes.c (AbiBuf, declared in libabi/src/abi_internal.h).
-- A buffer is the `size` bytes written so far, its capacity and its sticky failure flag; `realloc`
-- says whether the C library grants a block of the size asked for.
pub mod Doubling
pub mod Writes
use arrow_abi_doctor.Base.{
  ℕ, zero, suc, ◌+◌, ◌-◌, ◌*◌, ◌/◌, ◌^◌, List, [], ◌∷◌, ◌++◌, ℤ, Bool, true, false, ltb, leb, ◌==◌,
  if◌then◌else◌, length, replicate,
}
use arrow_abi_doctor.Bytes.{store_u16, store_u32, store_u64, i64_to_u64}

pub record AbiBuf : Type 0 where
  pub content : List ℕ
  pub capacity : ℕ
  pub failed : Bool

abbrev pub size_max : ℕ
size_max = 2 ^ 64 - 1

unfoldable pub buf_init : AbiBuf
buf_init = record { content = []; capacity = 0; failed = false }

-- How the doubling loop ends. `out_of_fuel` has no counterpart in the source.
pub data Grown : Type 0 where
  grown : ℕ → Grown
  too_big out_of_fuel : Grown

-- `while (cap < need) { if (cap > SIZE_MAX / 2) fail; cap *= 2; }`
unfoldable pub grow_loop : ℕ → ℕ → ℕ → Grown
grow_loop zero room need = out_of_fuel
grow_loop (suc fuel) room need =
    let again = if ltb (size_max / 2) room then too_big else grow_loop fuel (room * 2) need in
    if ltb room need then again else grown room

-- Whether there is room now, and the buffer as it then is.
abbrev pub Writer : Type 0
Writer = AbiBuf → Bool × AbiBuf

abbrev pub buf_fail : Writer
buf_fail b = (false, record b { failed = true })

-- Behind a successful reserve the bytes are copied in.
abbrev pub copy_in : List ℕ → Bool × AbiBuf → Bool × AbiBuf
copy_in src (false, b) = (false, b)
copy_in src (true, b) = (true, record b { content = b.content ++ src })

module _ (realloc : ℕ → Bool) where
  unfoldable pub take_block : Grown → Writer
  take_block (grown room) b =
      if realloc room then (true, record b { capacity = room }) else buf_fail b
  take_block too_big b = buf_fail b
  take_block out_of_fuel b = buf_fail b

  -- A capacity of at least 1 doubles past `SIZE_MAX / 2` within 64 rounds.
  unfoldable pub buf_reserve : ℕ → Writer
  unfolding take_block
  buf_reserve extra b =
      if b.failed
      then (false, b)
      else if ltb (size_max - length b.content) extra
      then buf_fail b
      else let need = length b.content + extra in
        if leb need b.capacity
        then (true, b)
        else let room = if b.capacity == 0 then 256 else b.capacity in
          take_block (grow_loop 65 room need) b

  unfoldable pub buf_put : List ℕ → Writer
  buf_put src b = copy_in src (buf_reserve (length src) b)

  unfoldable pub buf_u8 : ℕ → Writer
  buf_u8 v b = copy_in (v ∷ []) (buf_reserve 1 b)

  unfoldable pub buf_u16 : ℕ → Writer
  buf_u16 v b = copy_in (store_u16 v) (buf_reserve 2 b)

  unfoldable pub buf_u32 : ℕ → Writer
  buf_u32 v b = copy_in (store_u32 v) (buf_reserve 4 b)

  unfoldable pub buf_u64 : ℕ → Writer
  buf_u64 v b = copy_in (store_u64 v) (buf_reserve 8 b)

  unfoldable pub buf_i64 : ℤ → Writer
  buf_i64 v = buf_u64 (i64_to_u64 v)

  unfoldable pub buf_zeros : ℕ → Writer
  buf_zeros n b = copy_in (replicate n 0) (buf_reserve n b)

-- `if (!first) return 0;` and `first && second`: the second runs only if the first succeeded.
infixr 30 ◌then_write◌
abbrev pub run_second : Bool × AbiBuf → Writer → Bool × AbiBuf
run_second (true, b) w = w b
run_second (false, b) w = (false, b)

abbrev pub ◌then_write◌ : Writer → Writer → Writer
◌then_write◌ v w b = run_second (v b) w

abbrev pub done : Writer
done b = (true, b)

-- The length is stored in 32 bits, as `size` of an AbiBytes is.
unfoldable pub buf_bytes : (ℕ → Bool) → List ℕ → Writer
buf_bytes realloc s = buf_u32 realloc (length s) then_write buf_put realloc s
