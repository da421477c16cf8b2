-- ===== src/Fill/Canonical.antt =====
-- `abi_fill_read` of libabi/src/fill.c takes nothing but canonical payloads.
use arrow_abi_doctor.Base.{
  ℕ, zero, suc, ◌-◌, ◌%◌, ◌<◌, ◌≤◌, ◌≡◌, refl, sym, ap, ◌∙◌, arith, List, [], ◌∷◌, ◌++◌,
  append_assoc, append-nil, Bool, Option, none, some, false, length, length-replicate, take,
  replicate, ◌==◌, ==_iff, ltb, not,
}
use arrow_abi_doctor.Bytes.{store_u32}
use arrow_abi_doctor.Status.{bad_enum, no_memory, not_canonical}
use arrow_abi_doctor.Cursor.Sound.{Step, Step-pure, Step-bind, Step-if, Step-weaken}
use arrow_abi_doctor.Cursor.Loads.{own, u8-Step, u32-Step}
use arrow_abi_doctor.Cursor.Reads.{fail-Step, position-Step, check-Step, raw-Step}
use arrow_abi_doctor.Fill.{
  fill_raw, fill_zero, fill_rle, fill_pattern, fill_choose, bad_period, tile, read_pattern,
  same_as_prev, read_runs, read_rle, read_payload, check_canonical, out_bytes, fill_read,
}
use arrow_abi_doctor.Fill.Runs.{Run, runs, expand, AreMaximal, runs-expand}
use arrow_abi_doctor.Fill.Periods.{tile_lem}
use arrow_abi_doctor.Fill.Scan.{run_bytes}
use arrow_abi_doctor.Fill.Payload.{payload, payload_zero, payload_raw, payload_pattern, payload_rle}

good_period :
    (size period : ℕ)
    → bad_period size period ≡ false
    → (0 < period) × (period ≤ size) × (size % period ≡ 0)
good_period size period h = ground arith

-- The PATTERN payload: the period and the first `period` bytes.
read_pattern-Step :
    (size : ℕ)
    → Step own
        (read_pattern size)
        (λ (dst, period) bs. (length dst ≡ size) × (bs ≡ store_u32 period ++ take period dst))
unfolding read_pattern
read_pattern-Step size = Step-bind own position-Step λ at. Step-bind own u32-Step λ period.
    Step-bind own check-Step λ _.
      Step-if own (bad_period size period) (fail-Step not_canonical at _) (
        Step-bind own (raw-Step period) λ pat.
          Step-pure own (tile size 0 size pat, period) _
            λ ws (same, len) valid zs no_zs ys (stored, _) xs no_xs.
              let (pos, le, divides) = good_period size period valid in
              let (size_ok, prefix) = tile_lem size pat (rw len pos) (rw len le) (rw len divides) in
              (
                size_ok,
                rw (no_xs, no_zs, stored, same, append-nil)
                    (ap (λ r. store_u32 period ++ r) (rw (← len) (sym prefix))),
              ))

-- The runs that are read extend what was written, and stay maximal.
read_runs-Step :
    (left size : ℕ) (prev : Option ℕ) (dst : List ℕ)
    → Step own (read_runs left size prev dst) (λ dst' bs.
      (rs : List Run) × (bs ≡ run_bytes rs)
      × (dst' ≡ dst ++ expand rs)
      × (length rs ≡ left)
      × AreMaximal prev rs)
unfolding read_runs
read_runs-Step zero size prev dst = Step-pure own dst _ ([], refl, sym (append-nil dst), refl, tt)
read_runs-Step (suc left) size prev dst = Step-bind own position-Step λ at.
    Step-bind own u32-Step λ run_len. Step-bind own u8-Step λ v. Step-bind own check-Step λ _.
      Step-if own (run_len == 0) (fail-Step not_canonical at _) (
        Step-if own (ltb (size - length dst) run_len) (fail-Step not_canonical at _) (
          Step-if own (same_as_prev prev v) (fail-Step not_canonical at _) (
            Step-weaken own (read_runs-Step left size (some v) (dst ++ replicate run_len v))
              λ dst' bs (rs, stored, filled, count, maximal) fresh fits nonzero us no_us zs
                  (byte, _) ys (len_bytes, _) xs no_xs.
                (
                  (run_len, v) ∷ rs,
                  rw (no_xs, len_bytes, byte, no_us, stored),
                  filled ∙ append_assoc dst (replicate run_len v) (expand rs),
                  ap suc count,
                  (ground arith, fresh, maximal),
                ))))

read_rle-Step :
    (at size : ℕ)
    → Step own (read_rle at size) (λ (dst, n) bs.
      (length dst ≡ size)
      × ((rs : List Run) × (bs ≡ store_u32 n ++ run_bytes rs)
          × (dst ≡ expand rs)
          × (length rs ≡ n)
          × AreMaximal none rs))
unfolding read_rle
read_rle-Step at size = Step-bind own position-Step λ rc_at. Step-bind own u32-Step λ n.
    Step-bind own check-Step λ _. Step-if own (ltb size n) (fail-Step not_canonical rc_at _) (
      Step-bind own (read_runs-Step n size none []) λ dst.
        Step-if own (not (length dst == size)) (fail-Step not_canonical at _) (
          Step-pure own (dst, n) _
            λ covered ws (rs, stored, filled, count, maximal) few zs no_zs ys (head, _) xs no_xs. (
              ground arith,
              (rs, rw (no_xs, head, no_zs, stored, append-nil), filled, count, maximal),
            )))

-- What the checks of the parameters leave to hold.
abbrev pub IsChosen : ℕ → List ℕ → ℕ → ℕ → Type 0
IsChosen fill dst period n =
    ((fill_choose dst).fill ≡ fill)
    × ((fill_choose dst).period ≡ period)
    × ((fill_choose dst).run_count ≡ n)

-- A payload that passes the later checks is the one that the format assigns to its bytes.
abbrev ReadsPayload : ℕ → ℕ → List ℕ × ℕ × ℕ → List ℕ → Type 0
ReadsPayload size fill (dst, period, n) bs =
    (length dst ≡ size) × (IsChosen fill dst period n → bs ≡ payload dst)

chosen_pattern :
    (dst : List ℕ) (period : ℕ)
    → IsChosen fill_pattern dst period 0
    → store_u32 period ++ take period dst ≡ payload dst
chosen_pattern dst period (f, p, n) = rw (← p) (sym (payload_pattern dst f))

chosen_rle :
    (dst : List ℕ) (rs : List Run)
    → dst ≡ expand rs
    → AreMaximal none rs
    → IsChosen fill_rle dst 0 (length rs)
    → store_u32 (length rs) ++ run_bytes rs ≡ payload dst
chosen_rle dst rs e maximal (f, p, n) =
    let same : runs dst ≡ rs = ap runs e ∙ runs-expand none rs maximal in
    rw (← n, ← same) (sym (payload_rle dst f))

read_payload-Step :
    (at size fill : ℕ) → Step own (read_payload at size fill) (ReadsPayload size fill)
unfolding read_payload
read_payload-Step at size fill =
    Step-if own (fill == fill_zero)
      (Step-pure own (replicate size 0, 0, 0) _
        λ e. (length-replicate size 0, λ (f, _, _). sym (payload_zero _ (f ∙ (==_iff fill _).0 e))))
      (Step-if own (fill == fill_raw)
        (Step-bind own (raw-Step size) λ dst.
          Step-pure own (dst, 0, 0) _
            λ ws (same, len) e _. (
              len,
              λ (f, _, _). rw (same, append-nil) (sym (payload_raw dst (f ∙ (==_iff fill _).0 e))),
            ))
        (Step-if own (fill == fill_pattern)
          (Step-bind own (read_pattern-Step size) λ (dst, period).
            Step-pure own (dst, period, 0) _
              λ ws (len, stored) e _ _. (
                len,
                λ (f, p, n).
                    rw (stored, append-nil)
                      (chosen_pattern dst period (f ∙ (==_iff fill _).0 e, p, n)),
              ))
          (Step-if own (fill == fill_rle)
            (Step-bind own (read_rle-Step at size) λ (dst, count).
              Step-pure own (dst, 0, count) _
                λ ws (len, (rs, stored, filled, size_ok, maximal)) e _ _ _. (
                  len,
                  λ (f, p, n).
                      rw (stored, append-nil, ← size_ok)
                        (chosen_rle dst rs filled maximal
                          (f ∙ (==_iff fill _).0 e, p, rw size_ok n)),
                ))
            (fail-Step bad_enum at _))))

check_canonical-Step :
    (at fill : ℕ) (dst : List ℕ) (period n : ℕ)
    → Step own
        (check_canonical at fill dst period n)
        (λ _ bs. (bs ≡ []) × IsChosen fill dst period n)
unfolding check_canonical
check_canonical-Step at fill dst period n =
    let c = fill_choose dst in
    Step-if own (not (c.fill == fill)) (fail-Step not_canonical at _) (
      Step-if own (not (c.period == period)) (fail-Step not_canonical at _) (
        Step-if own (not (c.run_count == n)) (fail-Step not_canonical at _)
          (Step-pure own tt _ λ h₃ h₂ h₁. (refl, (ground arith, ground arith, ground arith)))))

-- What `fill_read` accepts for `size` bytes under the code `fill` is the canonical payload of the
-- bytes that it gives, and `fill` is their canonical code.
abbrev pub ReadsFill : ℕ → ℕ → Option (List ℕ) → List ℕ → Type 0
ReadsFill size fill o bs =
    (dst : List ℕ) × (o ≡ out_bytes size dst)
    × (length dst ≡ size)
    × ((fill_choose dst).fill ≡ fill)
    × (bs ≡ payload dst)

pub fill_read-Step :
    (arena : ℕ → ℕ → Bool) (size fill : ℕ)
    → Step own (fill_read arena size fill) (ReadsFill size fill)
unfolding fill_read
fill_read-Step arena size fill = Step-bind own position-Step λ at.
    Step-if own (ltb fill_pattern fill) (fail-Step bad_enum at _) (
      Step-if own (not (arena at size)) (fail-Step no_memory at _) (
        Step-bind own (read_payload-Step at size fill) λ (dst, period, n).
          Step-bind own (check_canonical-Step at fill dst period n) λ _.
            Step-pure own (out_bytes size dst) _ λ zs (no_zs, chosen) ys (len, stored) _ _ xs no_xs.
              (dst, refl, len, chosen.0, rw (no_xs, no_zs, stored chosen, append-nil))))
