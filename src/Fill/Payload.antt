-- ===== src/Fill/Payload.antt =====
-- The payload that the format assigns to a byte string (docs/abicase-format.md 5.2), and that
-- `abi_fill_write` of libabi/src/fill.c writes it.
use arrow_abi_doctor.Base.{
  ℕ, ◌^◌, ◌<◌, ◌≡◌, ◌⊎◌, inl, inr, arith, List, [], ◌++◌, Bool, length, take, ◌==◌, if◌then◌else◌,
}
use arrow_abi_doctor.Bytes.{store_u32}
use arrow_abi_doctor.Buffer.Writes.{Writes, done-Writes, then-Writes, put-Writes, u32-Writes}
use arrow_abi_doctor.Fill.{fill_raw, fill_zero, fill_rle, fill_pattern, fill_choose, fill_write}
use arrow_abi_doctor.Fill.Runs.{runs}
use arrow_abi_doctor.Fill.Scan.{run_bytes, write_runs-Writes}

unfoldable pub payload : List ℕ → List ℕ
payload bs =
    let c = fill_choose bs in
    if c.fill == fill_zero
    then []
    else if c.fill == fill_raw
    then bs
    else if c.fill == fill_pattern
    then store_u32 c.period ++ take c.period bs
    else store_u32 c.run_count ++ run_bytes (runs bs)

module _ (bs : List ℕ) where
  pub payload_zero : (fill_choose bs).fill ≡ fill_zero → payload bs ≡ []
  unfolding payload
  payload_zero e = simp e

  pub payload_raw : (fill_choose bs).fill ≡ fill_raw → payload bs ≡ bs
  unfolding payload
  payload_raw e = simp e

  pub payload_pattern :
      (fill_choose bs).fill ≡ fill_pattern
      → payload bs ≡ store_u32 (fill_choose bs).period ++ take (fill_choose bs).period bs
  unfolding payload
  payload_pattern e = simp e

  pub payload_rle :
      (fill_choose bs).fill ≡ fill_rle
      → payload bs ≡ store_u32 (fill_choose bs).run_count ++ run_bytes (runs bs)
  unfolding payload
  payload_rle e = simp e

-- The choice is one of the four codes.
pub fill_choose_cases :
    (bs : List ℕ)
    → let c = fill_choose bs in
      (c.fill ≡ fill_zero) ⊎ (c.fill ≡ fill_raw) ⊎ (c.fill ≡ fill_pattern) ⊎ (c.fill ≡ fill_rle)
unfolding fill_choose
fill_choose_cases bs = ground arith

-- The writer, given the choice, writes the payload.
pub fill_write-Writes :
    (realloc : ℕ → Bool) (bs : List ℕ)
    → length bs < 2 ^ 32
    → let c = fill_choose bs in
      Writes realloc (fill_write realloc bs c.fill c.period c.run_count) (payload bs)
unfolding fill_write
fill_write-Writes realloc bs small = elim (fill_choose_cases bs) [
  | inl e ↦ rw (payload_zero bs e) (simp e (done-Writes realloc))
  | inr (inl e) ↦ rw (payload_raw bs e) (simp e (put-Writes realloc bs))
  | inr (inr (inl e)) ↦
      rw (payload_pattern bs e)
        (simp e (then-Writes realloc (u32-Writes realloc _) (put-Writes realloc _)))
  | inr (inr (inr e)) ↦ rw (payload_rle bs e) (
      simp e (
        then-Writes realloc (u32-Writes realloc _)
          (write_runs-Writes realloc (length bs) bs (omega arith) small)))
]
