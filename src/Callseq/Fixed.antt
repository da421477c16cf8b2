-- ===== src/Callseq/Fixed.antt =====
-- Which structures the executor of libabi/src/callseq.c has is settled when it starts.
use arrow_abi_doctor.Base.{
  ℕ, ◌≡◌, refl, ◌∙◌, arith, List, [], ◌∷◌, Bool, not, Option, if_cases, elim_cases,
}
use arrow_abi_doctor.Model.{AbiOp}
use arrow_abi_doctor.Callseq.{
  AbiOpCode, op_code, AbiCallseqOutcome, accepted, rejected, unsupported, invalid, outcome_cases,
  AbiConsumer, Exec,
}
use arrow_abi_doctor.Callseq.Ops.{
  op_move, schema_answered, array_answered, op_import_schema, op_import_array, op_use_after_release,
  op_release_child, op_release_dictionary, op_release_base,
}
use arrow_abi_doctor.Callseq.Stream.{
  stream_answered, stream_handoff, stream_call, when_accepted, op_expect_eof, op_stream,
}
use arrow_abi_doctor.Callseq.Run.{AbiCallseqResult, run_code, run_op, run_ops, traced, let_go}

module _ {Ctx : Type 0} (consumer : AbiConsumer Ctx) (calloc : ℕ → Option ℕ) (enabled : Bool) where
  -- Which structures there are does not change.
  Same : Exec Ctx → AbiCallseqOutcome × Exec Ctx → Type 0
  Same x t = (t.1.has_array ≡ x.has_array) × (t.1.has_stream ≡ x.has_stream)

  op_move-Same : (x : Exec Ctx) → Same x (op_move consumer calloc enabled x)
  unfolding op_move Same
  op_move-Same x = ground arith

  op_import_schema-Same : (x : Exec Ctx) → Same x (op_import_schema consumer calloc enabled x)
  unfolding op_import_schema schema_answered Same
  op_import_schema-Same x = ground arith

  op_import_array-Same : (x : Exec Ctx) → Same x (op_import_array consumer calloc enabled x)
  unfolding op_import_array array_answered Same
  op_import_array-Same x = ground arith

  op_use_after_release-Same :
      (x : Exec Ctx) → Same x (op_use_after_release consumer calloc enabled x)
  unfolding op_use_after_release Same
  op_use_after_release-Same x = ground arith

  op_release_child-Same :
      (arg0 : ℕ) (x : Exec Ctx) → Same x (op_release_child consumer calloc enabled arg0 x)
  unfolding op_release_child Same
  op_release_child-Same arg0 x = ground arith

  op_release_dictionary-Same :
      (x : Exec Ctx) → Same x (op_release_dictionary consumer calloc enabled x)
  unfolding op_release_dictionary Same
  op_release_dictionary-Same x = ground arith

  op_release_base-Same : (x : Exec Ctx) → Same x (op_release_base consumer calloc enabled x)
  unfolding op_release_base Same
  op_release_base-Same x = ground arith

  op_expect_eof-Same : (x : Exec Ctx) → Same x (op_expect_eof consumer x)
  unfolding op_expect_eof Same
  op_expect_eof-Same x = ground arith

  stream_handoff-Same : (x : Exec Ctx) → Same x (stream_handoff consumer x)
  unfolding stream_handoff stream_answered Same
  stream_handoff-Same x = ground arith

  stream_call-Same : (code : AbiOpCode) (x : Exec Ctx) → Same x (stream_call consumer code x)
  unfolding stream_call Same
  stream_call-Same AbiOpCode.stream_get_schema x = ground arith
  stream_call-Same AbiOpCode.stream_get_next x = ground arith
  stream_call-Same AbiOpCode.stream_get_last_error x = ground arith
  stream_call-Same _ x = (refl, refl)

  op_stream-Same : (code : AbiOpCode) (x : Exec Ctx) → Same x (op_stream consumer code x)
  unfolding op_stream Same
  op_stream-Same code x =
      if_cases (Same x) (not x.has_stream) _ _ (λ _. (refl, refl))
        (λ _. handed (stream_handoff consumer x) (stream_handoff-Same x))
    where
      handed :
          (t : AbiCallseqOutcome × Exec Ctx)
          → Same x t
          → Same x (when_accepted consumer t (stream_call consumer code))
      handed (accepted, y) (a, s) = let (a', s') = stream_call-Same code y in (a' ∙ a, s' ∙ s)
      handed (rejected, y) h = h
      handed (unsupported, y) h = h
      handed (invalid, y) h = h

  run_code-Same :
      (code : AbiOpCode) (op : AbiOp) (x : Exec Ctx)
      → Same x (run_code consumer calloc enabled code op x)
  unfolding run_code Same
  run_code-Same AbiOpCode.nop op x = (refl, refl)
  run_code-Same AbiOpCode.move_struct op x = op_move-Same x
  run_code-Same AbiOpCode.import_schema op x = op_import_schema-Same x
  run_code-Same AbiOpCode.import_array op x = op_import_array-Same x
  run_code-Same AbiOpCode.release_base op x = op_release_base-Same x
  run_code-Same AbiOpCode.release_child op x = op_release_child-Same op.arg0 x
  run_code-Same AbiOpCode.release_dictionary op x = op_release_dictionary-Same x
  run_code-Same AbiOpCode.use_after_release op x = op_use_after_release-Same x
  run_code-Same AbiOpCode.expect_eof op x = op_expect_eof-Same x
  run_code-Same AbiOpCode.stream_get_schema op x = op_stream-Same AbiOpCode.stream_get_schema x
  run_code-Same AbiOpCode.stream_get_next op x = op_stream-Same AbiOpCode.stream_get_next x
  run_code-Same AbiOpCode.stream_get_last_error op x =
      op_stream-Same AbiOpCode.stream_get_last_error x

  run_op-Same : (op : AbiOp) (x : Exec Ctx) → Same x (run_op consumer calloc enabled op x)
  unfolding run_op Same
  run_op-Same op x =
      elim_cases (Same x) (op_code op.code) _ _ (λ _. (refl, refl))
        λ code _. if_cases (Same x) _ _ _ (λ _. (refl, refl)) (λ _. run_code-Same code op x)

  pub run_ops-Same :
      (ops : List AbiOp) (out : AbiCallseqResult) (x : Exec Ctx)
      → let y = (run_ops consumer calloc enabled ops (out, x)).1 in
        (y.has_array ≡ x.has_array) × (y.has_stream ≡ x.has_stream)
  unfolding run_ops Same
  run_ops-Same [] out x = (refl, refl)
  run_ops-Same (op ∷ ops) out x =
      let (o, y) = run_op consumer calloc enabled op x in
      let (a, s) = run_op-Same op x in
      outcome_cases
        (λ (t : AbiCallseqResult × Exec Ctx).
          (t.1.has_array ≡ x.has_array) × (t.1.has_stream ≡ x.has_stream))
        (run_ops consumer calloc enabled ops (traced op out, y)) _ _ _ o
        (λ _. let (a', s') = run_ops-Same ops (traced op out) y in (a' ∙ a, s' ∙ s)) (λ _. (a, s))
        (λ _. (a, s)) (λ _. (a, s))

  pub let_go-Same :
      (o : AbiCallseqOutcome) (x : Exec Ctx)
      → let y = let_go consumer calloc enabled o x in
        (y.has_array ≡ x.has_array) × (y.has_stream ≡ x.has_stream)
  unfolding let_go
  let_go-Same o x = ground arith
