-- ===== src/Fill/Scan.antt =====
-- The loops of libabi/src/fill.c over the runs of a byte string.
use arrow_abi_doctor.Base.{
  ℕ, zero, suc, ◌+◌, ◌%◌, ◌^◌, ◌<◌, ◌≤◌, ◌≡◌, ◌∙◌, arith, List, [], ◌∷◌, ◌++◌, Bool, length,
  length-drop, drop,
}
use arrow_abi_doctor.Bytes.{store_u32}
use arrow_abi_doctor.Buffer.Writes.{Writes, done-Writes, then-Writes, u8-Writes, u32-Writes}
use arrow_abi_doctor.Fill.{scan_run, run_count_loop, rle_run_count, write_runs}
use arrow_abi_doctor.Fill.Runs.{Run, runs, runs_scan, scan_run-le}

-- A run is stored as its length and its value.
abbrev pub run_bytes : List Run → List ℕ
run_bytes [] = []
run_bytes ((n, v) ∷ rs) = store_u32 n ++ ((v ∷ []) ++ run_bytes rs)

run_count_loop-runs :
    (fuel : ℕ) (bs : List ℕ) (n : ℕ)
    → length bs ≤ fuel
    → run_count_loop fuel bs n ≡ n + length (runs bs)
unfolding run_count_loop
run_count_loop-runs fuel [] n h = unfold runs in omega arith
run_count_loop-runs zero (b ∷ bs) n h = absurd (omega arith)
run_count_loop-runs (suc fuel) (b ∷ bs) n h =
    let k = scan_run b bs in
    let fits : length (drop k bs) ≤ fuel = omega (arith, length-drop k bs) in
    run_count_loop-runs fuel (drop k bs) (n + 1) fits ∙ rw (runs_scan b bs) (omega arith)

-- The scan of `abi_rle_run_count` counts the maximal runs of the bytes.
pub rle_run_count-runs : (bs : List ℕ) → rle_run_count bs ≡ length (runs bs)
unfolding rle_run_count
rle_run_count-runs bs = run_count_loop-runs (length bs) bs 0 (omega arith) ∙ omega arith

-- The writer stores them one by one.
pub write_runs-Writes :
    (realloc : ℕ → Bool) (fuel : ℕ) (bs : List ℕ)
    → length bs ≤ fuel
    → length bs < 2 ^ 32
    → Writes realloc (write_runs realloc fuel bs) (run_bytes (runs bs))
unfolding write_runs
write_runs-Writes realloc fuel [] h small = unfold runs in done-Writes realloc
write_runs-Writes realloc zero (b ∷ bs) h small = absurd (omega arith)
write_runs-Writes realloc (suc fuel) (b ∷ bs) h small =
    let k = scan_run b bs in
    let fits : length (drop k bs) ≤ fuel = omega (arith, length-drop k bs) in
    let size : (k + 1) % 2 ^ 32 ≡ suc k = omega (arith, scan_run-le b bs) in
    rw (runs_scan b bs, size)
      (then-Writes realloc (u32-Writes realloc (suc k)) (
        then-Writes realloc (u8-Writes realloc b)
          (write_runs-Writes realloc fuel (drop k bs) fits (omega (arith, length-drop k bs)))))
