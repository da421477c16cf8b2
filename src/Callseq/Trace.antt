-- ===== src/Callseq/Trace.antt =====
-- What the result of libabi/src/callseq.c says of the operations that ran.
use arrow_abi_doctor.Base.{
  ℕ, suc, ◌+◌, ◌≤◌, ◌≡◌, ◌↔◌, refl, sym, ap, ◌∙◌, arith, List, [], ◌∷◌, ◌++◌, map, append_assoc,
  append-nil, Bool, Option, length, length-append, take, take-snoc, take-append, ◌≢◌,
}
use mathlib.Core.Path.{subst}
use arrow_abi_doctor.Model.{AbiOp, AbiCase}
use arrow_abi_doctor.Reconstruct.State.{AbiReconstruction}
use arrow_abi_doctor.Callseq.{
  AbiCallseqOutcome, accepted, rejected, unsupported, invalid, outcome_cases, AbiConsumer, Exec,
}
use arrow_abi_doctor.Callseq.Run.{
  AbiCallseqResult, ops_of, run_op, run_ops, begun_result, begun_ctx, start, let_go, clean_up,
  traced, trace_max, abi_callseq_run,
}

-- The codes of the first `n` operations.
abbrev codes : ℕ → List AbiOp → List ℕ
codes n ops = map (λ (op : AbiOp). op.code) (take n ops)

-- What `out` says of the sequence `ops`.
record Ran (ops : List AbiOp) (out : AbiCallseqResult) : Type 0 where
  fits : out.executed ≤ length ops
  trace : out.trace ≡ take trace_max (codes out.executed ops)
  all : (out.outcome ≡ accepted) ↔ (out.executed ≡ length ops)

-- `out` behind the operations `done`, all accepted.
record Running (done : List AbiOp) (out : AbiCallseqResult) : Type 0 where
  outcome : out.outcome ≡ accepted
  executed : out.executed ≡ length done
  trace : out.trace ≡ take trace_max (map (λ (op : AbiOp). op.code) done)

length-codes : (ops : List AbiOp) → length (map (λ (op : AbiOp). op.code) ops) ≡ length ops
length-codes [] = refl
length-codes (op ∷ ops) = ap suc (length-codes ops)

map-snoc :
    (ops : List AbiOp) (op : AbiOp)
    → map (λ (o : AbiOp). o.code) (ops ++ (op ∷ []))
      ≡ map (λ (o : AbiOp). o.code) ops ++ (op.code ∷ [])
map-snoc [] op = refl
map-snoc (o ∷ ops) op = ap (λ t. o.code ∷ t) (map-snoc ops op)

traced-Running :
    (done : List AbiOp) (op : AbiOp) (out : AbiCallseqResult)
    → Running done out
    → Running (done ++ (op ∷ [])) (traced op out)
traced-Running done op out r = record {
  outcome = r.outcome;
  executed = omega (arith, r.executed, length-append done (op ∷ []));
  trace =
      let cs = map (λ (o : AbiOp). o.code) done in
      simp (map-snoc done op, r.executed, r.trace)
        (sym (take-snoc trace_max cs op.code ∙ simp (length-codes done) refl));
}

take-length : (ops : List AbiOp) → take (length ops) ops ≡ ops
take-length [] = refl
take-length (op ∷ ops) = ap (λ t. op ∷ t) (take-length ops)

-- A sequence that stops at an operation that is not accepted.
stopped-Ran :
    (done left : List AbiOp) (op : AbiOp) (out : AbiCallseqResult) (o : AbiCallseqOutcome)
    → o ≢ accepted
    → Running done out
    → Ran (done ++ op ∷ left) (record out { outcome = o })
stopped-Ran done left op out o ne r = record {
  fits = omega (arith, r.executed, length-append done (op ∷ left));
  trace = simp (r.executed, take-append done (op ∷ left)) r.trace;
  all = (
    λ e. absurd (ne e),
    λ e. absurd (omega (arith, r.executed, length-append done (op ∷ left), e)),
  );
}

module _ {Ctx : Type 0} (consumer : AbiConsumer Ctx) (calloc : ℕ → Option ℕ) (enabled : Bool) where
  -- How a sequence goes: it ends accepted where nothing is left, at the first operation that is not
  -- accepted with the outcome of that one, and otherwise goes on from what the operation left. The
  -- number is that of the operations accepted, and the last is what the executor is left with.
  pub data Course : Exec Ctx → List AbiOp → AbiCallseqOutcome → ℕ → Exec Ctx → Type 0 where
    finished : {x : Exec Ctx} → Course x [] accepted 0 x
    stopped :
        {op : AbiOp} {ops : List AbiOp} {o : AbiCallseqOutcome} {x y : Exec Ctx}
        → run_op consumer calloc enabled op x ≡ (o, y)
        → o ≢ accepted
        → Course x (op ∷ ops) o 0 y
    performed :
        {op : AbiOp} {ops : List AbiOp} {o : AbiCallseqOutcome} {n : ℕ} {x y z : Exec Ctx}
        → run_op consumer calloc enabled op x ≡ (accepted, y)
        → Course y ops o n z
        → Course x (op ∷ ops) o (suc n) z

  run_ops-Ran :
      (done left : List AbiOp) (out : AbiCallseqResult) (x : Exec Ctx)
      → Running done out
      → Ran (done ++ left) (run_ops consumer calloc enabled left (out, x)).0
  unfolding run_ops
  run_ops-Ran done [] out x r =
      let e = append-nil done in
      record {
        fits = rw e (omega (arith, r.executed));
        trace = rw e (simp (r.executed, take-length done) r.trace);
        all = rw e (λ _. r.executed, λ _. r.outcome);
      }
  run_ops-Ran done (op ∷ left) out x r =
      let (o, x') = run_op consumer calloc enabled op x in
      let stops : (o' : AbiCallseqOutcome)
          → o' ≢ accepted
          → Ran (done ++ op ∷ left) (record out { outcome = o' }) =
        λ o' ne. stopped-Ran done left op out o' ne r in
      outcome_cases (λ (t : AbiCallseqResult × Exec Ctx). Ran (done ++ op ∷ left) t.0)
        (run_ops consumer calloc enabled left (traced op out, x')) _ _ _ o
        (λ _.
          subst (λ ops. Ran ops (run_ops consumer calloc enabled left (traced op out, x')).0)
            (append_assoc done (op ∷ []) left)
            (run_ops-Ran (done ++ (op ∷ [])) left (traced op out) x'
              (traced-Running done op out r)))
        (λ _. stops rejected (λ e. cc)) (λ _. stops unsupported (λ e. cc))
        (λ _. stops invalid (λ e. cc))

  run_ops-Course :
      (ops : List AbiOp) (out : AbiCallseqResult) (x : Exec Ctx)
      → out.outcome ≡ accepted
      → let t = run_ops consumer calloc enabled ops (out, x) in
        (n : ℕ) × Course x ops t.0.outcome n t.1 × (t.0.executed ≡ out.executed + n)
  unfolding run_ops
  run_ops-Course [] out x e = (0, subst (λ o. Course x [] o 0 x) (sym e) finished, omega arith)
  run_ops-Course (op ∷ ops) out x e =
      let r = run_op consumer calloc enabled op x in
      let answered = λ (o : AbiCallseqOutcome) (h : r.0 ≡ o).
        ap {B = AbiCallseqOutcome × Exec Ctx} (λ q. (q, r.1)) h in
      outcome_cases
        (λ (t : AbiCallseqResult × Exec Ctx).
          (n : ℕ) × Course x (op ∷ ops) t.0.outcome n t.1 × (t.0.executed ≡ out.executed + n))
        (run_ops consumer calloc enabled ops (traced op out, r.1)) _ _ _ r.0
        (λ h.
          let (n, course, count) = run_ops-Course ops (traced op out) r.1 e in
          (suc n, performed (answered accepted h) course, omega (arith, count)))
        (λ h. (0, stopped (answered rejected h) (λ c. cc), omega arith))
        (λ h. (0, stopped (answered unsupported h) (λ c. cc), omega arith))
        (λ h. (0, stopped (answered invalid h) (λ c. cc), omega arith))

  -- The sequence is that of the case, or the default one. It takes its course from the start up to what
  -- the executor is left with: `executed` operations were accepted one after the other, all of them
  -- exactly when the outcome is accepted, and otherwise the outcome is that of the next one. The trace
  -- holds the codes of the first 32 of them, in order. Then the consumer lets go of what it took, if the
  -- sequence stopped, and the rest is cleaned up.
  pub run-executed :
      (r : AbiReconstruction) (c : AbiCase) (ctx : Ctx)
      → let (out, ctx', w) = abi_callseq_run consumer calloc enabled r c ctx in
        let ops = ops_of r.has_array c.ops in
        (y : Exec Ctx) × Course
          (start r (begun_ctx consumer calloc enabled c ctx))
          ops
          out.outcome
          out.executed
          y
        × (out.executed ≤ length ops)
        × ((out.outcome ≡ accepted) ↔ (out.executed ≡ length ops))
        × (out.trace ≡ take trace_max (map (λ (op : AbiOp). op.code) (take out.executed ops)))
        × (ctx' ≡ (let_go consumer calloc enabled out.outcome y).ctx)
        × (w ≡ clean_up (let_go consumer calloc enabled out.outcome y))
  unfolding abi_callseq_run
  run-executed r c ctx =
      let ops = ops_of r.has_array c.ops in
      let x = start r (begun_ctx consumer calloc enabled c ctx) in
      let ran =
        run_ops-Ran [] ops (begun_result c ops) x
          (record { outcome = refl; executed = refl; trace = refl }) in
      let (n, course, count) = run_ops-Course ops (begun_result c ops) x refl in
      let t = run_ops consumer calloc enabled ops (begun_result c ops, x) in
      let same : n ≡ t.0.executed = omega (arith, count) in
      (
        t.1,
        subst (λ k. Course x ops t.0.outcome k t.1) same course,
        ran.fits,
        ran.all,
        ran.trace,
        refl,
        refl,
      )
