-- ===== src/Fill.antt =====
-- The canonical payload encoding of an allocation: libabi/src/fill.c (docs/abicase-format.md 5.2).
-- A pointer and a size are the list of the bytes there.
pub mod Runs
pub mod Scan
pub mod Periods
pub mod Payload
pub mod Canonical
use arrow_abi_doctor.Base.{
  ℕ, zero, suc, ◌+◌, ◌-◌, ◌*◌, ◌/◌, ◌%◌, ◌^◌, List, [], ◌∷◌, ◌++◌, Bool, true, false, not, ◌&&◌,
  ◌||◌, Option, none, some, ltb, leb, ◌==◌, if◌then◌else◌, length, take, drop, replicate,
}
use arrow_abi_doctor.Status.{bad_enum, no_memory, not_canonical}
use arrow_abi_doctor.Buffer.{AbiBuf, Writer, buf_put, buf_u32, buf_u8, ◌then_write◌, done}
use arrow_abi_doctor.Cursor.{AbiCur, cur_u8, cur_u32, cur_raw, fail, position, check}
use arrow_abi_doctor.Cursor.Monad.{M, ◌>>=◌, ◌>>◌, value, pure}

-- The codes of `AbiFill`.
abbrev pub fill_raw : ℕ
fill_raw = 0

abbrev pub fill_zero : ℕ
fill_zero = 1

abbrev pub fill_rle : ℕ
fill_rle = 2

abbrev pub fill_pattern : ℕ
fill_pattern = 3

-- ABI_LIMIT_PATTERN_PERIOD
abbrev pub limit_period : ℕ
limit_period = 256

-- `memcmp(a, b, n) == 0` on blocks of one size.
unfoldable pub mem_eq : List ℕ → List ℕ → Bool
mem_eq [] ys = true
mem_eq (x ∷ xs) [] = false
mem_eq (x ∷ xs) (y ∷ ys) = x == y && mem_eq xs ys

unfoldable pub is_periodic : List ℕ → ℕ → Bool
unfolding mem_eq
is_periodic b p = mem_eq (take (length b - p) b) (drop p b)

-- The inner loop of the run scans: how many more bytes equal `v`.
unfoldable pub scan_run : ℕ → List ℕ → ℕ
scan_run v [] = 0
scan_run v (b ∷ bs) = if b == v then suc (scan_run v bs) else 0

-- The list is what `i` has not reached. Each round takes a byte at least, so `size` rounds do.
unfoldable pub run_count_loop : ℕ → List ℕ → ℕ → ℕ
unfolding scan_run
run_count_loop fuel [] runs = runs
run_count_loop zero (b ∷ bs) runs = runs
run_count_loop (suc fuel) (b ∷ bs) runs = run_count_loop fuel (drop (scan_run b bs) bs) (runs + 1)

unfoldable pub rle_run_count : List ℕ → ℕ
unfolding run_count_loop
rle_run_count b = run_count_loop (length b) b 0

abbrev pub max_period : ℕ → ℕ
max_period size = if ltb limit_period (size / 2) then limit_period else size / 2

-- `for (p = 1; p <= max_p; p++)`, with `left` rounds to go.
unfoldable pub period_loop : ℕ → ℕ → List ℕ → ℕ
unfolding is_periodic
period_loop zero p b = 0
period_loop (suc left) p b =
    let next = period_loop left (p + 1) b in
    if not (length b % p == 0) then next else if is_periodic b p then p else next

unfoldable pub smallest_period : List ℕ → ℕ
unfolding period_loop
smallest_period b = period_loop (max_period (length b)) 1 b

unfoldable pub all_zero : List ℕ → Bool
all_zero [] = true
all_zero (b ∷ bs) = if not (b == 0) then false else all_zero bs

-- What `abi_fill_choose` returns and its three out-parameters.
pub record Choice : Type 0 where
  pub fill : ℕ
  pub payload_size : ℕ
  pub period : ℕ
  pub run_count : ℕ

-- The two contests behind the ZERO test: RLE against RAW, then PATTERN against the better one.
unfoldable pub choose_between : ℕ → ℕ → ℕ → Choice
choose_between size runs period =
    let rle_wins = ltb (4 + runs * 5) size in
    let best = if rle_wins then fill_rle else fill_raw in
    let best_size = if rle_wins then 4 + runs * 5 else size in
    let pattern_wins = not (period == 0) && ltb (4 + period) best_size in
    let fill = if pattern_wins then fill_pattern else best in
    record {
      fill = fill;
      payload_size = if pattern_wins then 4 + period else best_size;
      period = if fill == fill_pattern then period else 0;
      run_count = if fill == fill_rle then runs % 2 ^ 32 else 0;
    }

unfoldable pub fill_choose : List ℕ → Choice
unfolding choose_between
fill_choose bytes =
    if all_zero bytes
    then record { fill = fill_zero; payload_size = 0; period = 0; run_count = 0 }
    else choose_between (length bytes) (rle_run_count bytes) (smallest_period bytes)

module _ (realloc : ℕ → Bool) where
  -- The loop of the RLE case.
  unfoldable pub write_runs : ℕ → List ℕ → Writer
  unfolding scan_run
  write_runs fuel [] = done
  write_runs zero (b ∷ bs) = done
  write_runs (suc fuel) (b ∷ bs) =
      let more = scan_run b bs in
      buf_u32 realloc ((more + 1) % 2 ^ 32)
      then_write buf_u8 realloc b
      then_write write_runs fuel (drop more bs)

  unfoldable pub fill_write : List ℕ → ℕ → ℕ → ℕ → Writer
  unfolding write_runs
  fill_write bytes fill period run_count =
      if fill == fill_zero
      then done
      else if fill == fill_raw
      then buf_put realloc bytes
      else if fill == fill_pattern
      then (buf_u32 realloc period then_write buf_put realloc (take period bytes))
      else if fill == fill_rle
      then (buf_u32 realloc run_count then_write write_runs (length bytes) bytes)
      else (λ b. (false, b))

-- `for (off = 0; off < size; off += period) memcpy(dst + off, pat, period);` A period of 1 or more
-- ends within `size` rounds.
unfoldable pub tile : ℕ → ℕ → ℕ → List ℕ → List ℕ
tile zero off size pat = []
tile (suc fuel) off size pat =
    let more = pat ++ tile fuel (off + length pat) size pat in if ltb off size then more else []

-- `period == 0 || period > max_p || size % period != 0`
abbrev pub bad_period : ℕ → ℕ → Bool
bad_period size period = period == 0 || (ltb (max_period size) period || not (size % period == 0))

-- The PATTERN case, with the declared period.
unfoldable pub read_pattern : ℕ → M AbiCur (List ℕ × ℕ)
read_pattern size = do
  pat_at ← value position
  period ← value cur_u32
  check
  if bad_period size period
      then fail not_canonical pat_at
      else do pat ← cur_raw period; pure (tile size 0 size pat, period)

-- `have_prev && value == prev`
unfoldable pub same_as_prev : Option ℕ → ℕ → Bool
same_as_prev none v = false
same_as_prev (some prev) v = v == prev

-- The loop of the RLE case: `left` runs to read, and `dst` holds the bytes written so far.
unfoldable pub read_runs : ℕ → ℕ → Option ℕ → List ℕ → M AbiCur (List ℕ)
unfolding same_as_prev
read_runs zero size prev dst = pure dst
read_runs (suc left) size prev dst = do
  run_at ← value position
  run_len ← value cur_u32
  v ← value cur_u8
  check
  if run_len == 0
      then fail not_canonical run_at
      else if ltb (size - length dst) run_len
      then fail not_canonical run_at
      else if same_as_prev prev v
      then fail not_canonical run_at
      else read_runs left size (some v) (dst ++ replicate run_len v)

unfoldable pub read_rle : ℕ → ℕ → M AbiCur (List ℕ × ℕ)
unfolding read_runs
read_rle at size = do
  rc_at ← value position
  run_count ← value cur_u32
  check
  if ltb size run_count then fail not_canonical rc_at else do
    dst ← read_runs run_count size none []
    if not (length dst == size) then fail not_canonical at else pure (dst, run_count)

-- The materialized bytes, with the period and the run count that the payload declares.
unfoldable pub read_payload : ℕ → ℕ → ℕ → M AbiCur (List ℕ × ℕ × ℕ)
unfolding read_pattern read_rle
read_payload at size fill =
    if fill == fill_zero
    then pure (replicate size 0, 0, 0)
    else if fill == fill_raw
    then (do dst ← cur_raw size; pure (dst, 0, 0))
    else if fill == fill_pattern
    then (do (dst, period) ← read_pattern size; pure (dst, period, 0))
    else if fill == fill_rle
    then (do (dst, runs) ← read_rle at size; pure (dst, 0, runs))
    else fail bad_enum at

-- Canonicality: the encoding that was read is the one that `fill_choose` takes.
unfoldable pub check_canonical : ℕ → ℕ → List ℕ → ℕ → ℕ → M AbiCur (Unit {0})
check_canonical at fill dst declared_period declared_runs =
    let canon = fill_choose dst in
    if not (canon.fill == fill)
    then fail not_canonical at
    else if not (canon.period == declared_period)
    then fail not_canonical at
    else if not (canon.run_count == declared_runs)
    then fail not_canonical at
    else pure tt

-- An empty allocation has no bytes: `*out_bytes = size ? dst : NULL`.
unfoldable pub out_bytes : ℕ → List ℕ → Option (List ℕ)
out_bytes size dst = if size == 0 then none else some dst

unfoldable pub fill_read : (ℕ → ℕ → Bool) → ℕ → ℕ → M AbiCur (Option (List ℕ))
unfolding read_payload check_canonical out_bytes
fill_read arena size fill = do
  at ← value position
  if ltb fill_pattern fill
      then fail bad_enum at
      else if not (arena at size)
      then fail no_memory at
      else do
        (dst, declared_period, declared_runs) ← read_payload at size fill
        check_canonical at fill dst declared_period declared_runs
        pure (out_bytes size dst)
