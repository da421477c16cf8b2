-- ===== src/Examples/Memory.antt =====
-- The properties of the reconstruction (libabi/src/reconstruct.c) and of the call sequences
-- (libabi/src/callseq.c) at a small case, with the null consumer (adapters/null/null_worker.c).
use arrow_abi_doctor.Base.{
  ℕ, ◌+◌, ◌*◌, ◌%◌, ◌^◌, ◌≤◌, ◌≡◌, ◌↔◌, ◌⊎◌, refl, inr, arith, [], map, true, false, ◌&&◌, Option,
  none, some, length, take, leb, if◌then◌else◌,
}
use arrow_abi_doctor.Status.{no_memory}
use arrow_abi_doctor.Model.{AbiOp}
use arrow_abi_doctor.Examples.{sample_case, sample_schema}
use arrow_abi_doctor.Lifecycle.{abi_lifecycle_verify, add, release, drive, on_event, walk, add_live}
use arrow_abi_doctor.Reconstruct.Observer.{hdr_size}
use arrow_abi_doctor.Reconstruct.State.{AbiReconstruction, new_rec, new_reconstruction}
use arrow_abi_doctor.Reconstruct.Structs.{schema_live, array_live}
use arrow_abi_doctor.Reconstruct.Lifetime.{Reconstructed, reconstructed, refused, failed}
use arrow_abi_doctor.Reconstruct.Bounds.{obs_alloc_aligned-bounds}
use arrow_abi_doctor.Accounts.{bytes, allocated, freed, array_holds}
use arrow_abi_doctor.Accounts.Leaks.{
  reconstruct-leaked, reconstruct-abandons, reconstruct-null_read,
}
use arrow_abi_doctor.Callseq.{
  accepted, invalid, schema_place, array_place, schema_of, array_of, AbiConsumer, Exec,
}
use arrow_abi_doctor.Callseq.Run.{ops_of, trace_max, start, begun_ctx}
use arrow_abi_doctor.Callseq.Trace.{Course, run-executed}
use arrow_abi_doctor.Callseq.Moves.{live_schema, live_array, schema_twice, array_twice}
use arrow_abi_doctor.Callseq.Ending.{run-releases}
use arrow_abi_doctor.Callseq.Refusals.{run_op-refused}
use arrow_abi_doctor.NullConsumer.{fresh_ctx, null_consumer, NullCtx}
use arrow_abi_doctor.Reconstruct.Observer.{note, obs_event, obs_alloc_aligned, obs_alloc, obs_free}
use arrow_abi_doctor.Reconstruct.Release.{
  release_enter, release_exit, free_buffers, free_all, free_backing_allocations, schema_release,
  release_children, release_slots, release_dictionary, array_release, release_array_children,
  release_array_slots, release_array_dictionary,
}
use arrow_abi_doctor.Reconstruct.Build.{
  child_path, index_leaf, native_i32, metadata_total, metadata_pairs, alloc_slots, dup_cstr,
  encode_metadata,
}
use arrow_abi_doctor.Reconstruct.Build.Schema.{
  with_format, with_name, with_metadata, begin_schema, build_schema, build_slots, build_dictionary,
}
use arrow_abi_doctor.Reconstruct.Build.Array.{
  pointer_of, begin_array, build_array, build_array_slots, build_array_dictionary,
}
use arrow_abi_doctor.Reconstruct.Structs.{null_schemas, null_arrays}
use arrow_abi_doctor.Reconstruct.Export.{
  abi_reconstruction_move_schema, abi_reconstruction_move_array, note_schema_import,
  note_array_import, note_schema_returned, note_array_returned, harness_release_schema,
  harness_release_array,
}
use arrow_abi_doctor.Reconstruct.Stream.{
  stream_release, harness_release_stream, stream_get_next, abi_reconstruction_move_stream,
  note_stream_import, note_stream_returned, stream_get_schema,
}
use arrow_abi_doctor.Reconstruct.Lifetime.{
  release_structures, abi_reconstruction_release_all, abi_reconstruction_leaked, alloc_each,
  alloc_backing, export_schema, export_array, reconstruct, abi_reconstruct, abi_reconstruct_stream,
}
use arrow_abi_doctor.Callseq.{op_code, put_schema, put_array, abi_case_is_stream}
use arrow_abi_doctor.Callseq.Ops.{
  move_schema_to, move_array_to, op_move, schema_answered, array_answered, op_import_schema,
  op_import_array, op_use_after_release, op_release_child, op_release_dictionary, op_release_base,
}
use arrow_abi_doctor.Callseq.Stream.{
  stream_answered, stream_handoff, stream_call, op_expect_eof, op_stream,
}
use arrow_abi_doctor.Callseq.Run.{clean_up, run_code, run_op, run_ops, let_go, abi_callseq_run}
use arrow_abi_doctor.NullConsumer.{
  null_import_schema, null_import_array, null_import_stream, let_array_go, let_schema_go,
  let_stream_go, let_batch_go, let_stream_schema_go, null_release_base, release_slot,
  release_child_of, null_release_child, release_dictionary_of, null_release_dictionary,
  null_stream_get_next, null_stream_get_last_error, null_stream_get_schema,
}

-- Blocks far apart, for the first `n` requests.
abbrev heap : ℕ → ℕ → ℕ → Option ℕ
heap n k size = if leb n k then none else some (65536 * (k + 1))

abbrev built : Reconstructed → AbiReconstruction
built (reconstructed r) = r
built (refused st) = new_reconstruction 0
built (failed st r) = r

-- The case with memory for everything, and with memory that ends inside the array.
sample_built : AbiReconstruction
unfolding note obs_event obs_alloc_aligned obs_alloc obs_free release_enter release_exit
    free_buffers free_all free_backing_allocations schema_release release_children release_slots
    release_dictionary array_release release_array_children release_array_slots
    release_array_dictionary child_path index_leaf native_i32 metadata_total metadata_pairs
    alloc_slots dup_cstr encode_metadata with_format with_name with_metadata begin_schema
    build_schema build_slots build_dictionary pointer_of begin_array build_array build_array_slots
    build_array_dictionary null_schemas null_arrays abi_reconstruction_move_schema
    abi_reconstruction_move_array note_schema_import note_array_import note_schema_returned
    note_array_returned harness_release_schema harness_release_array stream_release
    harness_release_stream stream_get_next abi_reconstruction_move_stream note_stream_import
    note_stream_returned stream_get_schema release_structures abi_reconstruction_release_all
    abi_reconstruction_leaked alloc_each alloc_backing export_schema export_array reconstruct
    abi_reconstruct abi_reconstruct_stream
sample_built = built (reconstruct (heap 100) true (some 4096) sample_case false)

sample_failed : AbiReconstruction
unfolding note obs_event obs_alloc_aligned obs_alloc obs_free release_enter release_exit
    free_buffers free_all free_backing_allocations schema_release release_children release_slots
    release_dictionary array_release release_array_children release_array_slots
    release_array_dictionary child_path index_leaf native_i32 metadata_total metadata_pairs
    alloc_slots dup_cstr encode_metadata with_format with_name with_metadata begin_schema
    build_schema build_slots build_dictionary pointer_of begin_array build_array build_array_slots
    build_array_dictionary null_schemas null_arrays abi_reconstruction_move_schema
    abi_reconstruction_move_array note_schema_import note_array_import note_schema_returned
    note_array_returned harness_release_schema harness_release_array stream_release
    harness_release_stream stream_get_next abi_reconstruction_move_stream note_stream_import
    note_stream_returned stream_get_schema release_structures abi_reconstruction_release_all
    abi_reconstruction_leaked alloc_each alloc_backing export_schema export_array reconstruct
    abi_reconstruct abi_reconstruct_stream
sample_failed = built (reconstruct (heap 5) true (some 4096) sample_case false)

reconstruct-leaked_example :
    abi_reconstruction_leaked (abi_reconstruction_release_all sample_built) ≡ false
unfolding sample_built note obs_event obs_alloc_aligned obs_alloc obs_free release_enter
    release_exit free_buffers free_all free_backing_allocations schema_release release_children
    release_slots release_dictionary array_release release_array_children release_array_slots
    release_array_dictionary child_path index_leaf native_i32 metadata_total metadata_pairs
    alloc_slots dup_cstr encode_metadata with_format with_name with_metadata begin_schema
    build_schema build_slots build_dictionary pointer_of begin_array build_array build_array_slots
    build_array_dictionary null_schemas null_arrays abi_reconstruction_move_schema
    abi_reconstruction_move_array note_schema_import note_array_import note_schema_returned
    note_array_returned harness_release_schema harness_release_array stream_release
    harness_release_stream stream_get_next abi_reconstruction_move_stream note_stream_import
    note_stream_returned stream_get_schema release_structures abi_reconstruction_release_all
    abi_reconstruction_leaked alloc_each alloc_backing export_schema export_array reconstruct
    abi_reconstruct abi_reconstruct_stream
reconstruct-leaked_example =
    reconstruct-leaked (heap 100) true (some 4096) sample_case false sample_built refl

reconstruct-abandons_example :
    allocated bytes sample_failed.rec
    ≡ (freed bytes sample_failed.rec + array_holds bytes sample_failed.array) % 2 ^ 64
unfolding sample_failed note obs_event obs_alloc_aligned obs_alloc obs_free release_enter
    release_exit free_buffers free_all free_backing_allocations schema_release release_children
    release_slots release_dictionary array_release release_array_children release_array_slots
    release_array_dictionary child_path index_leaf native_i32 metadata_total metadata_pairs
    alloc_slots dup_cstr encode_metadata with_format with_name with_metadata begin_schema
    build_schema build_slots build_dictionary pointer_of begin_array build_array build_array_slots
    build_array_dictionary null_schemas null_arrays abi_reconstruction_move_schema
    abi_reconstruction_move_array note_schema_import note_array_import note_schema_returned
    note_array_returned harness_release_schema harness_release_array stream_release
    harness_release_stream stream_get_next abi_reconstruction_move_stream note_stream_import
    note_stream_returned stream_get_schema release_structures abi_reconstruction_release_all
    abi_reconstruction_leaked alloc_each alloc_backing export_schema export_array reconstruct
    abi_reconstruct abi_reconstruct_stream
reconstruct-abandons_example =
    reconstruct-abandons (heap 5) true (some 4096) sample_case false no_memory sample_failed bytes
      (inr (omega arith, refl)) refl

-- The private data of the array, 72 bytes, is lost.
sample_failed_leaks : array_holds bytes sample_failed.array ≡ 72
unfolding sample_failed note obs_event obs_alloc_aligned obs_alloc obs_free release_enter
    release_exit free_buffers free_all free_backing_allocations schema_release release_children
    release_slots release_dictionary array_release release_array_children release_array_slots
    release_array_dictionary child_path index_leaf native_i32 metadata_total metadata_pairs
    alloc_slots dup_cstr encode_metadata with_format with_name with_metadata begin_schema
    build_schema build_slots build_dictionary pointer_of begin_array build_array build_array_slots
    build_array_dictionary null_schemas null_arrays abi_reconstruction_move_schema
    abi_reconstruction_move_array note_schema_import note_array_import note_schema_returned
    note_array_returned harness_release_schema harness_release_array stream_release
    harness_release_stream stream_get_next abi_reconstruction_move_stream note_stream_import
    note_stream_returned stream_get_schema release_structures abi_reconstruction_release_all
    abi_reconstruction_leaked alloc_each alloc_backing export_schema export_array reconstruct
    abi_reconstruct abi_reconstruct_stream array_holds
sample_failed_leaks = refl

reconstruct-null_read_example :
    (r : AbiReconstruction) × (reconstruct (heap 0) true (some 4096) sample_case false
      ≡ failed no_memory r)
    × (r.rec.null_read ≡ true)
reconstruct-null_read_example =
    reconstruct-null_read (heap 0) true 4096 sample_case false sample_schema refl (omega arith)
      (λ size. refl)

obs_alloc_aligned-bounds_example :
    (heap 1 0 (4 + 64 + hdr_size) ≡ some 65536)
    × (65600 % 64 ≡ 0)
    × (65536 + hdr_size ≤ 65600)
    × (65600 + 4 ≤ 65536 + (4 + 64 + hdr_size))
unfolding obs_alloc_aligned
obs_alloc_aligned-bounds_example =
    obs_alloc_aligned-bounds (heap 1) 4 6 new_rec
      (record { addr = 65600; base = 65536; size = 4; magic = 0xAB1CA5E0D0C704 }) (omega arith)
      (λ base e. ground arith) refl

-- The null consumer, which the executor hands the structures of the sample.
abbrev null_here : AbiConsumer NullCtx
null_here = null_consumer (heap 100) true

run-executed_example :
    let (out, ctx', w) =
      abi_callseq_run null_here (λ n. none) false sample_built sample_case (fresh_ctx 512) in
    let ops = ops_of sample_built.has_array sample_case.ops in
    (y : Exec NullCtx) × Course null_here
      (λ n. none)
      false
      (start sample_built (begun_ctx null_here (λ n. none) false sample_case (fresh_ctx 512)))
      ops
      out.outcome
      out.executed
      y
    × (out.executed ≤ length ops)
    × ((out.outcome ≡ accepted) ↔ (out.executed ≡ length ops))
    × (out.trace ≡ take trace_max (map (λ (op : AbiOp). op.code) (take out.executed ops)))
    × (ctx' ≡ (let_go null_here (λ n. none) false out.outcome y).ctx)
    × (w ≡ clean_up (let_go null_here (λ n. none) false out.outcome y))
run-executed_example =
    run-executed null_here (λ n. none) false sample_built sample_case (fresh_ctx 512)

-- The move of a schema and an array that are live, to memory of the executor.
abbrev far : ℕ → Option ℕ
far n = some (1048576 * (n + 1))

abbrev exported : Exec NullCtx
exported = start sample_built (fresh_ctx 512)

run-releases_example :
    let (outcome, y) = op_move (null_consumer (heap 100) true) far false exported in
    let moved = y.world in
    let w =
      (abi_callseq_run
        (null_consumer (heap 100) true)
        far
        false
        sample_built
        sample_case
        (fresh_ctx 512)).2 in
    (live_schema moved ≡ live_schema exported.world)
    × (live_array moved ≡ live_array exported.world)
    × (schema_twice moved ≡ schema_twice exported.world)
    × (array_twice moved ≡ array_twice exported.world)
    × ((outcome ≡ invalid)
        ⊎ ((some (schema_place moved) ≡ far exported.callocs)
            × ((exported.has_array ≡ false)
                ⊎ (some (array_place moved) ≡ far (exported.callocs + 1)))))
    × (schema_live (schema_of w) ≡ false)
    × ((sample_built.has_array && array_live (array_of w)) ≡ false)
    × ((sample_built.stream_mode && w.recon.stream.live) ≡ false)
unfolding sample_built
run-releases_example =
    run-releases (null_consumer (heap 100) true) far false sample_built sample_case (fresh_ctx 512)
      exported refl refl

-- RELEASE_BASE before anything was handed over.
run_op-refused_example :
    let x = start sample_built (fresh_ctx 512) in
    let y =
      (run_op
        (null_consumer (heap 100) true)
        (λ n. none)
        false
        (record { code = 6; arg0 = 0; arg1 = 0 })
        x).1 in
    record y { callocs = 0 } ≡ x
unfolding sample_built note obs_event obs_alloc_aligned obs_alloc obs_free release_enter
    release_exit free_buffers free_all free_backing_allocations schema_release release_children
    release_slots release_dictionary array_release release_array_children release_array_slots
    release_array_dictionary child_path index_leaf native_i32 metadata_total metadata_pairs
    alloc_slots dup_cstr encode_metadata with_format with_name with_metadata begin_schema
    build_schema build_slots build_dictionary pointer_of begin_array build_array build_array_slots
    build_array_dictionary null_schemas null_arrays abi_reconstruction_move_schema
    abi_reconstruction_move_array note_schema_import note_array_import note_schema_returned
    note_array_returned harness_release_schema harness_release_array stream_release
    harness_release_stream stream_get_next abi_reconstruction_move_stream note_stream_import
    note_stream_returned stream_get_schema release_structures abi_reconstruction_release_all
    abi_reconstruction_leaked alloc_each alloc_backing export_schema export_array reconstruct
    abi_reconstruct abi_reconstruct_stream op_code put_schema put_array abi_case_is_stream
    move_schema_to move_array_to op_move schema_answered array_answered op_import_schema
    op_import_array op_use_after_release op_release_child op_release_dictionary op_release_base
    stream_answered stream_handoff stream_call op_expect_eof op_stream clean_up run_code run_op
    run_ops let_go abi_callseq_run null_import_schema null_import_array null_import_stream
    let_array_go let_schema_go let_stream_go let_batch_go let_stream_schema_go null_release_base
    release_slot release_child_of null_release_child release_dictionary_of null_release_dictionary
    null_stream_get_next null_stream_get_last_error null_stream_get_schema
run_op-refused_example =
    run_op-refused (null_consumer (heap 100) true) (λ n. none) false
      (record { code = 6; arg0 = 0; arg1 = 0 }) (start sample_built (fresh_ctx 512)) refl refl

-- The null consumer passes the default sequence, and nothing leaks.
null_passes :
    let w =
      (abi_callseq_run
        (null_consumer (heap 100) true)
        (λ n. none)
        false
        sample_built
        (record sample_case { ops = [] })
        (fresh_ctx 512)).2 in
    (abi_lifecycle_verify (some w.recon.rec.obs) true).count ≡ 0
unfolding sample_built note obs_event obs_alloc_aligned obs_alloc obs_free release_enter
    release_exit free_buffers free_all free_backing_allocations schema_release release_children
    release_slots release_dictionary array_release release_array_children release_array_slots
    release_array_dictionary child_path index_leaf native_i32 metadata_total metadata_pairs
    alloc_slots dup_cstr encode_metadata with_format with_name with_metadata begin_schema
    build_schema build_slots build_dictionary pointer_of begin_array build_array build_array_slots
    build_array_dictionary null_schemas null_arrays abi_reconstruction_move_schema
    abi_reconstruction_move_array note_schema_import note_array_import note_schema_returned
    note_array_returned harness_release_schema harness_release_array stream_release
    harness_release_stream stream_get_next abi_reconstruction_move_stream note_stream_import
    note_stream_returned stream_get_schema release_structures abi_reconstruction_release_all
    abi_reconstruction_leaked alloc_each alloc_backing export_schema export_array reconstruct
    abi_reconstruct abi_reconstruct_stream op_code put_schema put_array abi_case_is_stream
    move_schema_to move_array_to op_move schema_answered array_answered op_import_schema
    op_import_array op_use_after_release op_release_child op_release_dictionary op_release_base
    stream_answered stream_handoff stream_call op_expect_eof op_stream clean_up run_code run_op
    run_ops let_go abi_callseq_run null_import_schema null_import_array null_import_stream
    let_array_go let_schema_go let_stream_go let_batch_go let_stream_schema_go null_release_base
    release_slot release_child_of null_release_child release_dictionary_of null_release_dictionary
    null_stream_get_next null_stream_get_last_error null_stream_get_schema add release drive
    on_event walk add_live abi_lifecycle_verify
null_passes = refl
