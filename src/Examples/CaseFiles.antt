-- ===== src/Examples/CaseFiles.antt =====
-- The properties of whole case files (libabi/src/encode.c, decode.c, validate.c) at a small file.
use arrow_abi_doctor.Examples.{sample_ops, sample_schema}
use arrow_abi_doctor.Base.{length, inl, ◌≤◌}
use arrow_abi_doctor.Model.{limit_op_count}
use arrow_abi_doctor.Validate.Operations.{Allowed, validate-Allowed}
use arrow_abi_doctor.Validate.Shapes.{same_shape, validate-same_shape}
use arrow_abi_doctor.Base.{◌≡◌, refl, arith, [], ◌∷◌, true, All}
use arrow_abi_doctor.Validate.Containment.{Inside, array_views, validate-Inside}
use arrow_abi_doctor.Case.Canonical.{IsCanonical, decode-IsCanonical}
use arrow_abi_doctor.Case.Read.{decoded}
use arrow_abi_doctor.Cursor.{
  cur_fail, fail, position, check, need, cur_u8, cur_u16, cur_u32, cur_u64, cur_i64, cur_raw,
  zeros_loop, cur_zeros, cur_bool, arena_bytes, or_no_memory, cur_bytes,
}
use arrow_abi_doctor.Fill.{
  mem_eq, is_periodic, scan_run, run_count_loop, rle_run_count, period_loop, smallest_period,
  all_zero, choose_between, fill_choose, tile, read_pattern, same_as_prev, read_runs, read_rle,
  read_payload, check_canonical, out_bytes, fill_read,
}
use arrow_abi_doctor.Decode.{
  dec_count_guard, request, read_each, count_node, dec_provenance, dec_allocation, dec_allocations,
  dec_op, dec_callseq, dec_expected, guard_children,
}
use arrow_abi_doctor.Decode.Schema.{
  dec_metadata_kv, dec_name, dec_metadata, dec_schema_fields, read_schema_children,
  read_schema_dictionary, dec_schema_node,
}
use arrow_abi_doctor.Decode.Array.{
  dec_view_tail, dec_view, dec_array_fields, read_array_children, read_array_dictionary,
  dec_array_node,
}
use arrow_abi_doctor.Sha256.{abi_sha256}
use arrow_abi_doctor.Validate.{
  ◌then_val◌, val_bytes, count_val_node, val_schema_fields, val_extent, val_view, val_array_fields,
  val_op, val_ops, val_allocation, val_expected, val_provenance, val_trees, val_case,
  abi_case_validate, val_schema, val_schema_children, val_schema_dictionary, val_array,
  val_array_children, val_array_dictionary, val_shapes_agree, val_child_shapes,
  val_dictionary_shapes,
}
use arrow_abi_doctor.Case.Read.{
  put_part, dec_header, within, dec_body, dec_section, dec_sections, complete, finish_case,
  run_sections, with_header, abi_case_decode,
}
use arrow_abi_doctor.Bytes.{
  store_u16, store_u32, store_loop, store_u64, i64_to_u64, load_u16, load_u32, load_loop, load_u64,
  u64_to_i64,
}
use arrow_abi_doctor.Format.{
  provenance_bytes, allocation_bytes, allocations_bytes, schema_fields_bytes, schema_bytes,
  schemas_bytes, schema_dict_bytes, view_bytes, array_fields_bytes, array_bytes, arrays_bytes,
  array_dict_bytes, op_bytes, callseq_bytes, expected_bytes,
}
use arrow_abi_doctor.Fill.Payload.{payload}
use arrow_abi_doctor.Case.{case_bytes, payload_bytes}
use arrow_abi_doctor.Case.Write.{encoded, abi_case_encode}
use arrow_abi_doctor.Case.RoundTrip.{encode-case_bytes, abi_case_encode-abi_case_decode}
use arrow_abi_doctor.Status.{ok}
use arrow_abi_doctor.Examples.{
  all_bytes-AreBytes, any_size, any_request, sample_allocation, sample_array, sample_case,
  sample_file,
}

sample_decodes : abi_case_decode any_request true sample_file ≡ decoded sample_case
unfolding load_u16 load_u32 load_loop load_u64 u64_to_i64 cur_fail fail position check need cur_u8
    cur_u16 cur_u32 cur_u64 cur_i64 cur_raw zeros_loop cur_zeros cur_bool arena_bytes or_no_memory
    cur_bytes mem_eq is_periodic scan_run run_count_loop rle_run_count period_loop smallest_period
    all_zero choose_between fill_choose tile read_pattern same_as_prev read_runs read_rle
    read_payload check_canonical out_bytes fill_read dec_count_guard request read_each count_node
    dec_provenance dec_allocation dec_allocations dec_op dec_callseq dec_expected guard_children
    dec_metadata_kv dec_name dec_metadata dec_schema_fields read_schema_children
    read_schema_dictionary dec_schema_node dec_view_tail dec_view dec_array_fields
    read_array_children read_array_dictionary dec_array_node abi_sha256 ◌then_val◌ val_bytes
    count_val_node val_schema_fields val_extent val_view val_array_fields val_op val_ops
    val_allocation val_expected val_provenance val_trees val_case abi_case_validate val_schema
    val_schema_children val_schema_dictionary val_array val_array_children val_array_dictionary
    val_shapes_agree val_child_shapes val_dictionary_shapes put_part dec_header within dec_body
    dec_section dec_sections complete finish_case run_sections with_header abi_case_decode
sample_decodes = refl

decode_example : IsCanonical sample_file sample_case
decode_example =
    decode-IsCanonical any_request true sample_file sample_case
      (all_bytes-AreBytes sample_file refl) sample_decodes

validate-Inside_example : All (Inside (sample_allocation ∷ [])) (array_views sample_array)
unfolding ◌then_val◌ val_bytes count_val_node val_schema_fields val_extent val_view val_array_fields
    val_op val_ops val_allocation val_expected val_provenance val_trees val_case abi_case_validate
    val_schema val_schema_children val_schema_dictionary val_array val_array_children
    val_array_dictionary val_shapes_agree val_child_shapes val_dictionary_shapes
validate-Inside_example = validate-Inside sample_case sample_array refl refl

reencode_example : abi_case_encode any_size any_size sample_case ≡ encoded sample_file
reencode_example =
    abi_case_encode-abi_case_decode any_request true any_size any_size sample_file sample_case
      (λ n. refl) (λ n. refl) (all_bytes-AreBytes sample_file refl) sample_decodes

sample_is_valid : abi_case_validate sample_case ≡ ok
unfolding ◌then_val◌ val_bytes count_val_node val_schema_fields val_extent val_view val_array_fields
    val_op val_ops val_allocation val_expected val_provenance val_trees val_case abi_case_validate
    val_schema val_schema_children val_schema_dictionary val_array val_array_children
    val_array_dictionary val_shapes_agree val_child_shapes val_dictionary_shapes
sample_is_valid = refl

encode-case_bytes_example :
    abi_case_encode any_size any_size sample_case ≡ encoded (case_bytes sample_case)
unfolding payload_bytes provenance_bytes allocation_bytes allocations_bytes schema_fields_bytes
    schema_bytes schemas_bytes schema_dict_bytes view_bytes array_fields_bytes array_bytes
    arrays_bytes array_dict_bytes op_bytes callseq_bytes expected_bytes store_u16 store_u32
    store_loop store_u64 i64_to_u64 mem_eq is_periodic scan_run run_count_loop rle_run_count
    period_loop smallest_period all_zero choose_between fill_choose tile read_pattern same_as_prev
    read_runs read_rle read_payload check_canonical out_bytes fill_read payload
encode-case_bytes_example =
    encode-case_bytes any_size any_size sample_case (λ n. refl) (λ n. refl) sample_is_valid
      (record { filled = refl; small = omega arith }, tt) (omega arith) (ground arith)

validate-Allowed_example : (length sample_ops ≤ limit_op_count) × All (Allowed 0) sample_ops
validate-Allowed_example = validate-Allowed sample_case sample_is_valid

validate-same_shape_example : same_shape sample_schema sample_array ≡ true
validate-same_shape_example =
    validate-same_shape sample_case sample_schema sample_array sample_is_valid (inl refl) refl refl
