-- ===== src/Callseq/Run.antt =====
-- `run_op` and `abi_callseq_run` of libabi/src/callseq.c.
use arrow_abi_doctor.Base.{
  ℕ, ◌+◌, List, [], ◌∷◌, ◌++◌, Bool, true, false, not, ◌&&◌, ◌||◌, Option, none, some, ◌==◌, ltb,
  length, if◌then◌else◌,
}
use arrow_abi_doctor.Model.{AbiOp, AbiCase}
use arrow_abi_doctor.Reconstruct.Export.{harness_release_schema, harness_release_array}
use arrow_abi_doctor.Reconstruct.State.{AbiReconstruction, stream_at}
use arrow_abi_doctor.Reconstruct.Stream.{harness_release_stream}
use arrow_abi_doctor.Callseq.{
  AbiOpCode, op_code, AbiCallseqOutcome, accepted, rejected, unsupported, invalid, World,
  schema_place, schema_of, array_place, array_of, put_schema, put_array, with_rec, AbiConsumer,
  Exec,
}
use arrow_abi_doctor.Callseq.Ops.{
  op_move, op_import_schema, op_import_array, op_use_after_release, op_release_child,
  op_release_dictionary, op_release_base,
}
use arrow_abi_doctor.Callseq.Stream.{op_expect_eof, op_stream}

-- AbiCallseqResult
pub record AbiCallseqResult : Type 0 where
  pub outcome : AbiCallseqOutcome
  pub defaulted : Bool
  pub op_count : ℕ
  pub executed : ℕ
  pub trace : List ℕ

-- ABI_CALLSEQ_TRACE_MAX
abbrev pub trace_max : ℕ
trace_max = 32

abbrev pub plain_op : ℕ → AbiOp
plain_op code = record { code = code; arg0 = 0; arg1 = 0 }

-- DEFAULT_OPS, less IMPORT_ARRAY where there is no array.
abbrev pub default_ops : Bool → List AbiOp
default_ops true = plain_op 1 ∷ plain_op 2 ∷ plain_op 6 ∷ []
default_ops false = plain_op 1 ∷ plain_op 6 ∷ []

abbrev pub ops_of : Bool → List AbiOp → List AbiOp
ops_of has_array [] = default_ops has_array
ops_of has_array (op ∷ ops) = op ∷ ops

-- The operations that a stream case cannot have.
abbrev pub takes_parts : AbiOpCode → Bool
takes_parts AbiOpCode.import_schema = true
takes_parts AbiOpCode.import_array = true
takes_parts AbiOpCode.move_struct = true
takes_parts _ = false

-- `*out` before the first operation.
abbrev pub begun_result : AbiCase → List AbiOp → AbiCallseqResult
begun_result c ops = record {
  outcome = accepted;
  defaulted = length c.ops == 0;
  op_count = length ops;
  executed = 0;
  trace = [];
}

-- `*out` behind an operation that was accepted.
abbrev pub traced : AbiOp → AbiCallseqResult → AbiCallseqResult
traced op out = record out {
  trace = if ltb out.executed trace_max then out.trace ++ (op.code ∷ []) else out.trace;
  executed = out.executed + 1;
}

abbrev pub clean_stream : Bool → World → World
clean_stream false w = w
clean_stream true w =
    let (s, r) = harness_release_stream (stream_at w.recon) w.recon.stream w.recon in
    record w { recon = record r { stream = s } }

abbrev pub clean_array : Bool → World → World
clean_array false w = w
clean_array true w =
    let (a, r) = harness_release_array (array_place w) (array_of w) w.recon.rec in
    with_rec r (put_array a w)

abbrev pub clean_schema : World → World
clean_schema w =
    let (s, r) = harness_release_schema (schema_place w) (schema_of w) w.recon.rec in
    with_rec r (put_schema s w)

-- The three releases by the harness.
unfoldable pub clean_up : {Ctx : Type 0} → Exec Ctx → World
unfolding harness_release_stream harness_release_array harness_release_schema put_schema put_array
clean_up x = clean_schema (clean_array x.has_array (clean_stream x.has_stream x.world))

abbrev pub start : {Ctx : Type 0} → AbiReconstruction → Ctx → Exec Ctx
start r ctx = record {
  world = record { recon = r; moved_schema = none; moved_array = none };
  ctx = ctx;
  has_array = r.has_array;
  schema_imported = false;
  array_imported = false;
  has_stream = r.stream_mode;
  stream_imported = false;
  got_next = false;
  last_eof = false;
  callocs = 0;
}

module _ {Ctx : Type 0} (consumer : AbiConsumer Ctx) (calloc : ℕ → Option ℕ) (enabled : Bool) where
  -- The `switch` of `run_op`.
  unfoldable pub run_code : AbiOpCode → AbiOp → Exec Ctx → AbiCallseqOutcome × Exec Ctx
  unfolding op_move op_import_schema op_import_array op_use_after_release op_release_child
      op_release_dictionary op_release_base op_expect_eof op_stream
  run_code AbiOpCode.nop op x = (accepted, x)
  run_code AbiOpCode.move_struct op x = op_move consumer calloc enabled x
  run_code AbiOpCode.import_schema op x = op_import_schema consumer calloc enabled x
  run_code AbiOpCode.import_array op x = op_import_array consumer calloc enabled x
  run_code AbiOpCode.release_base op x = op_release_base consumer calloc enabled x
  run_code AbiOpCode.release_child op x = op_release_child consumer calloc enabled op.arg0 x
  run_code AbiOpCode.release_dictionary op x = op_release_dictionary consumer calloc enabled x
  run_code AbiOpCode.use_after_release op x = op_use_after_release consumer calloc enabled x
  run_code AbiOpCode.expect_eof op x = op_expect_eof consumer x
  run_code AbiOpCode.stream_get_schema op x = op_stream consumer AbiOpCode.stream_get_schema x
  run_code AbiOpCode.stream_get_next op x = op_stream consumer AbiOpCode.stream_get_next x
  run_code AbiOpCode.stream_get_last_error op x =
      op_stream consumer AbiOpCode.stream_get_last_error x

  unfoldable pub run_op : AbiOp → Exec Ctx → AbiCallseqOutcome × Exec Ctx
  unfolding run_code op_code
  run_op op x = elim (op_code op.code) [
    | none ↦ (invalid, x)
    | some code ↦ if x.has_stream && takes_parts code then (invalid, x) else run_code code op x
  ]

  -- The loop over the operations.
  unfoldable pub run_ops : List AbiOp → AbiCallseqResult × Exec Ctx → AbiCallseqResult × Exec Ctx
  unfolding run_op
  run_ops [] (out, x) = (out, x)
  run_ops (op ∷ ops) (out, x) =
      let (o, x') = run_op op x in
      elim o [
        | accepted ↦ run_ops ops (traced op out, x')
        | rejected ↦ (record out { outcome = rejected }, x')
        | unsupported ↦ (record out { outcome = unsupported }, x')
        | invalid ↦ (record out { outcome = invalid }, x')
      ]

  abbrev pub is_accepted : AbiCallseqOutcome → Bool
  is_accepted accepted = true
  is_accepted _ = false

  -- A consumer that took something lets go of it behind a sequence that stopped.
  unfoldable pub let_go : AbiCallseqOutcome → Exec Ctx → Exec Ctx
  let_go o x =
      if not (is_accepted o) && (x.schema_imported || (x.array_imported || x.stream_imported))
      then elim consumer.release_base [
        | none ↦ x
        | some call ↦ let (ctx, w) = call x.ctx x.world in record x { ctx = ctx; world = w }
      ]
      else x

  abbrev pub begun_ctx : AbiCase → Ctx → Ctx
  begun_ctx c ctx = elim consumer.begin [ none ↦ ctx | some call ↦ call c ctx ]

  -- The result, the consumer and the memory that the executor leaves.
  unfoldable pub abi_callseq_run :
      AbiReconstruction → AbiCase → Ctx → AbiCallseqResult × Ctx × World
  unfolding run_ops let_go clean_up
  abi_callseq_run r c ctx =
      let ops = ops_of r.has_array c.ops in
      let out₀ = begun_result c ops in
      let (out, x) = run_ops ops (out₀, start r (begun_ctx c ctx)) in
      let x' = let_go out.outcome x in (out, x'.ctx, clean_up x')
