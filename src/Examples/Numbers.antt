-- ===== src/Examples/Numbers.antt =====
-- The properties of libabi/src/abi_internal.h, bytes.c and of the run scan of fill.c at small inputs.
use arrow_abi_doctor.Base.{◌≤◌, ◌<◌, ◌+◌, ◌⊎◌, ℕ, ◌≡◌, arith, [], ◌∷◌, ◌++◌, length, negsuc}
use arrow_abi_doctor.Bytes.LittleEndian.{load-store_u64}
use arrow_abi_doctor.Bytes.Signed.{u64_to_i64-i64_to_u64}
use arrow_abi_doctor.Buffer.{grow_loop, grown}
use arrow_abi_doctor.Buffer.Doubling.{grow_loop_meets}
use arrow_abi_doctor.Fill.Runs.{runs}
use arrow_abi_doctor.Fill.Scan.{rle_run_count-runs}
use arrow_abi_doctor.Bytes.{store_u64, i64_to_u64}
use arrow_abi_doctor.Bytes.{load_u64, u64_to_i64}
use arrow_abi_doctor.Fill.{rle_run_count}

grow_loop_meets_example :
    (n : ℕ) × (grow_loop 4 256 2000 ≡ grown n) × (2000 ≤ n) × ((n ≡ 256) ⊎ (n < 2000 + 2000))
grow_loop_meets_example = grow_loop_meets 3 256 2000 (omega arith) (omega arith)

rle_run_count-runs_example : rle_run_count (5 ∷ 5 ∷ 9 ∷ []) ≡ length (runs (5 ∷ 5 ∷ 9 ∷ []))
rle_run_count-runs_example = rle_run_count-runs (5 ∷ 5 ∷ 9 ∷ [])

load-store_u64_example : load_u64 (store_u64 1311768467463790320 ++ (7 ∷ [])) ≡ 1311768467463790320
load-store_u64_example = load-store_u64 1311768467463790320 (7 ∷ []) (omega arith)

u64_to_i64-i64_to_u64_example : u64_to_i64 (i64_to_u64 (negsuc 4)) ≡ negsuc 4
u64_to_i64-i64_to_u64_example = u64_to_i64-i64_to_u64 (negsuc 4) (omega arith)
