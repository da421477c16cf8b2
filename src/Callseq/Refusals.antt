-- ===== src/Callseq/Refusals.antt =====
-- An operation that libabi/src/callseq.c cannot perform leaves everything as it was.
use arrow_abi_doctor.Base.{
  ℕ, ◌≡◌, refl, sym, ap, ◌∙◌, arith, Bool, true, false, ◌&&◌, Option, some, if◌then◌else◌, if_cases,
  elim_cases,
}
use arrow_abi_doctor.Model.{AbiOp}
use arrow_abi_doctor.Callseq.{
  AbiOpCode, op_code, AbiCallseqOutcome, unsupported, invalid, AbiConsumer, Exec,
}
use arrow_abi_doctor.Callseq.Ops.{
  op_move, schema_answered, array_answered, op_import_schema, op_import_array, op_use_after_release,
  op_release_child, op_release_dictionary, op_release_base,
}
use arrow_abi_doctor.Callseq.Stream.{op_expect_eof}
use arrow_abi_doctor.Callseq.Run.{takes_parts, run_code, run_op}

-- The outcomes of an operation that the executor does not perform.
abbrev pub refuses : AbiCallseqOutcome → Bool
refuses unsupported = true
refuses invalid = true
refuses _ = false

-- The three operations that call a stream.
abbrev pub calls_stream : Option AbiOpCode → Bool
calls_stream (some AbiOpCode.stream_get_schema) = true
calls_stream (some AbiOpCode.stream_get_next) = true
calls_stream (some AbiOpCode.stream_get_last_error) = true
calls_stream _ = false

module _ {Ctx : Type 0} (consumer : AbiConsumer Ctx) (calloc : ℕ → Option ℕ) (enabled : Bool) where
  -- Nothing but the count of the requests for memory has changed, if the operation was refused.
  Kept : Exec Ctx → AbiCallseqOutcome × Exec Ctx → Type 0
  Kept x t = refuses t.0 ≡ true → record t.1 { callocs = x.callocs } ≡ x

  op_move-Kept : (x : Exec Ctx) → Kept x (op_move consumer calloc enabled x)
  unfolding op_move Kept
  op_move-Kept x h = ground arith

  op_import_schema-Kept : (x : Exec Ctx) → Kept x (op_import_schema consumer calloc enabled x)
  unfolding op_import_schema schema_answered Kept
  op_import_schema-Kept x h = ground arith

  op_import_array-Kept : (x : Exec Ctx) → Kept x (op_import_array consumer calloc enabled x)
  unfolding op_import_array array_answered Kept
  op_import_array-Kept x h = ground arith

  op_use_after_release-Kept :
      (x : Exec Ctx) → Kept x (op_use_after_release consumer calloc enabled x)
  unfolding op_use_after_release Kept
  op_use_after_release-Kept x h = ground arith

  op_release_child-Kept :
      (arg0 : ℕ) (x : Exec Ctx) → Kept x (op_release_child consumer calloc enabled arg0 x)
  unfolding op_release_child Kept
  op_release_child-Kept arg0 x h = ground arith

  op_release_dictionary-Kept :
      (x : Exec Ctx) → Kept x (op_release_dictionary consumer calloc enabled x)
  unfolding op_release_dictionary Kept
  op_release_dictionary-Kept x h = ground arith

  op_release_base-Kept : (x : Exec Ctx) → Kept x (op_release_base consumer calloc enabled x)
  unfolding op_release_base Kept
  op_release_base-Kept x h = ground arith

  op_expect_eof-Kept : (x : Exec Ctx) → Kept x (op_expect_eof consumer x)
  unfolding op_expect_eof Kept
  op_expect_eof-Kept x h = ground arith

  run_code-Kept :
      (code : AbiOpCode) (op : AbiOp) (x : Exec Ctx)
      → calls_stream (some code) ≡ false
      → Kept x (run_code consumer calloc enabled code op x)
  unfolding run_code Kept
  run_code-Kept AbiOpCode.nop op x e h = absurd (ground arith)
  run_code-Kept AbiOpCode.move_struct op x e h = op_move-Kept x h
  run_code-Kept AbiOpCode.import_schema op x e h = op_import_schema-Kept x h
  run_code-Kept AbiOpCode.import_array op x e h = op_import_array-Kept x h
  run_code-Kept AbiOpCode.release_base op x e h = op_release_base-Kept x h
  run_code-Kept AbiOpCode.release_child op x e h = op_release_child-Kept op.arg0 x h
  run_code-Kept AbiOpCode.release_dictionary op x e h = op_release_dictionary-Kept x h
  run_code-Kept AbiOpCode.use_after_release op x e h = op_use_after_release-Kept x h
  run_code-Kept AbiOpCode.expect_eof op x e h = op_expect_eof-Kept x h
  run_code-Kept AbiOpCode.stream_get_schema op x e h = absurd (ground arith)
  run_code-Kept AbiOpCode.stream_get_next op x e h = absurd (ground arith)
  run_code-Kept AbiOpCode.stream_get_last_error op x e h = absurd (ground arith)

  -- An operation, other than a call of a stream, whose outcome is unsupported or invalid has done nothing:
  -- the consumer was not called, no structure was moved, no event was written and nothing counts as
  -- handed over. Only the requests for memory are counted.
  pub run_op-refused :
      (op : AbiOp) (x : Exec Ctx)
      → calls_stream (op_code op.code) ≡ false
      → refuses (run_op consumer calloc enabled op x).0 ≡ true
      → record (run_op consumer calloc enabled op x).1 { callocs = x.callocs } ≡ x
  unfolding run_op Kept
  run_op-refused op x e h =
      elim_cases (Kept x) (op_code op.code) (invalid, x)
        (λ code.
          if x.has_stream && takes_parts code
          then (invalid, x)
          else run_code consumer calloc enabled code op x)
        (λ _ _. refl)
        (λ code is_code.
          if_cases (Kept x) (x.has_stream && takes_parts code) _ _ (λ _ _. refl)
            (λ _. run_code-Kept code op x (ap calls_stream (sym is_code) ∙ e)))
        h
