-- ===== src/Cursor.antt =====
-- The parse cursor of libabi/src/bytes.c (AbiCur, declared in libabi/src/abi_internal.h).
-- A cursor is its position and the bytes from there up to `size`; `failed` and `err` are one field,
-- since `abi_cur_fail` alone sets them, together.
pub mod Monad
pub mod Sound
pub mod Loads
pub mod Reads
use arrow_abi_doctor.Base.{
  ℕ, zero, suc, ◌+◌, List, [], ◌∷◌, ℤ, Bool, true, false, not, Option, none, some, ltb, ◌==◌,
  if◌then◌else◌, get_or, take, drop, length, is_some,
}
use arrow_abi_doctor.Bytes.{load_u16, load_u32, load_u64, u64_to_i64}
use arrow_abi_doctor.Status.{
  AbiStatus, AbiError, truncated, limit_exceeded, no_memory, not_canonical, limit_bytes_len,
}
use Monad.{M, ◌>>=◌, ◌>>◌, value, pure}

pub record AbiCur : Type 0 where
  pub pos : ℕ
  pub rest : List ℕ
  pub err : Option AbiError

unfoldable pub cur_init : List ℕ → AbiCur
cur_init bs = record { pos = 0; rest = bs; err = none }

-- The first failure is kept.
unfoldable pub cur_fail : AbiStatus → ℕ → AbiCur → AbiCur
cur_fail st off c =
    if is_some c.err then c else record c { err = some (record { status = st; offset = off }) }

-- `return abi_cur_fail(...)`
unfoldable pub fail : {A : Type 0} → AbiStatus → ℕ → M AbiCur A
unfolding cur_fail
fail st off c = (none, cur_fail st off c)

unfoldable pub position : AbiCur → ℕ × AbiCur
position c = (c.pos, c)

-- `if (c->failed) return 0;`
unfoldable pub check : M AbiCur (Unit {0})
check c = if is_some c.err then (none, c) else (some tt, c)

unfoldable pub need : ℕ → M AbiCur (Unit {0})
unfolding fail
need n c =
    if is_some c.err
    then (none, c)
    else if ltb (length c.rest) n
    then fail truncated c.pos c
    else (some tt, c)

-- The cursor behind the next `n` bytes.
abbrev pub advance : ℕ → AbiCur → AbiCur
advance n c = record c { pos = c.pos + n; rest = drop n c.rest }

-- `if (!abi_cur_need(c, n)) return 0;`, then a load and a step forward.
abbrev pub load_or_zero : ℕ → (List ℕ → ℕ) → Option (Unit {0}) × AbiCur → ℕ × AbiCur
load_or_zero n load (none, c) = (0, c)
load_or_zero n load (some _, c) = (load c.rest, advance n c)

unfoldable pub cur_u8 : AbiCur → ℕ × AbiCur
unfolding need
cur_u8 c = load_or_zero 1 (λ p. get_or p 0 0) (need 1 c)

unfoldable pub cur_u16 : AbiCur → ℕ × AbiCur
unfolding need
cur_u16 c = load_or_zero 2 load_u16 (need 2 c)

unfoldable pub cur_u32 : AbiCur → ℕ × AbiCur
unfolding need
cur_u32 c = load_or_zero 4 load_u32 (need 4 c)

unfoldable pub cur_u64 : AbiCur → ℕ × AbiCur
unfolding need
cur_u64 c = load_or_zero 8 load_u64 (need 8 c)

unfoldable pub cur_i64 : AbiCur → ℤ × AbiCur
cur_i64 c = let (u, c') = cur_u64 c in (u64_to_i64 u, c')

unfoldable pub cur_raw : ℕ → M AbiCur (List ℕ)
unfolding need
cur_raw n = do need n; λ c. (some (take n c.rest), advance n c)

-- The loop of `abi_cur_zeros`: `raw` is what is left to look at, and `off` its position.
unfoldable pub zeros_loop : List ℕ → ℕ → M AbiCur (Unit {0})
unfolding fail
zeros_loop [] off = pure tt
zeros_loop (b ∷ raw) off =
    let more = zeros_loop raw (off + 1) in if b == 0 then more else fail not_canonical off

unfoldable pub cur_zeros : ℕ → M AbiCur (Unit {0})
unfolding cur_raw zeros_loop position
cur_zeros n = do at ← value position; raw ← cur_raw n; zeros_loop raw at

unfoldable pub cur_bool : M AbiCur ℕ
unfolding cur_u8 check position fail
cur_bool = do
  at ← value position
  v ← value cur_u8
  check
  if ltb 1 v then fail not_canonical at else pure v

-- `arena at n`: whether the case's arena gives `n` bytes to the request made at position `at`. The
-- copy of an empty string takes one byte.
unfoldable pub arena_bytes : (ℕ → ℕ → Bool) → ℕ → List ℕ → Option (List ℕ)
arena_bytes arena at src =
    let size = if length src == 0 then 1 else length src in if arena at size then some src else none

-- `if (!copied) return abi_cur_fail(..., ABI_ERR_NO_MEMORY, ...)`
unfoldable pub or_no_memory : {A : Type 0} → Option A → ℕ → M AbiCur A
unfolding fail
or_no_memory none at = fail no_memory at
or_no_memory (some a) at = pure a

unfoldable pub cur_bytes : (ℕ → ℕ → Bool) → M AbiCur (List ℕ)
unfolding cur_u32 check position fail cur_raw arena_bytes or_no_memory
cur_bytes arena = do
  at ← value position
  len ← value cur_u32
  check
  if ltb limit_bytes_len len
      then fail limit_exceeded at
      else do raw ← cur_raw len; or_no_memory (arena_bytes arena at raw) at
