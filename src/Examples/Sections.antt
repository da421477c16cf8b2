-- ===== src/Examples/Sections.antt =====
-- The properties of the sections (libabi/src/encode.c, decode.c, fill.c) at small inputs.
use arrow_abi_doctor.Base.{
  ℕ, ◌≡◌, refl, arith, List, [], ◌∷◌, ◌++◌, true, Option, none, some, length,
}
use arrow_abi_doctor.Buffer.{buf_init}
use arrow_abi_doctor.Model.{bytes_at}
use arrow_abi_doctor.Encode.{enc_allocations, enc_schema_node, enc_array_node, enc_callseq}
use arrow_abi_doctor.Decode.RoundTrip.{
  written, enc_schema_node-dec_schema_node, enc_array_node-dec_array_node,
  enc_allocations-dec_allocations, enc_callseq-dec_callseq, fill_write-fill_read,
}
use arrow_abi_doctor.Cursor.{AbiCur}
use arrow_abi_doctor.Fill.{fill_write}
use arrow_abi_doctor.Bytes.{load_u16, load_u32, load_loop, load_u64, u64_to_i64}
use arrow_abi_doctor.Cursor.{
  cur_fail, fail, position, check, need, cur_u8, cur_u16, cur_u32, cur_u64, cur_i64, cur_raw,
  zeros_loop, cur_zeros, cur_bool, arena_bytes, or_no_memory, cur_bytes,
}
use arrow_abi_doctor.Fill.{
  mem_eq, is_periodic, scan_run, run_count_loop, rle_run_count, period_loop, smallest_period,
  all_zero, choose_between, fill_choose, tile, read_pattern, same_as_prev, read_runs, read_rle,
  read_payload, check_canonical, out_bytes, fill_read,
}
use arrow_abi_doctor.Decode.{
  dec_count_guard, request, read_each, count_node, dec_provenance, dec_allocation, dec_allocations,
  dec_op, dec_callseq, dec_expected, guard_children,
}
use arrow_abi_doctor.Decode.Schema.{
  dec_metadata_kv, dec_name, dec_metadata, dec_schema_fields, read_schema_children,
  read_schema_dictionary, dec_schema_node,
}
use arrow_abi_doctor.Decode.Array.{
  dec_view_tail, dec_view, dec_array_fields, read_array_children, read_array_dictionary,
  dec_array_node,
}
use arrow_abi_doctor.Examples.{
  all_bytes-AreBytes, any_size, any_request, sample_allocation, sample_schema, sample_array,
  sample_ops, sample_allocations_section, sample_schema_section, sample_array_section,
  sample_callseq_section, start_of,
}

enc_schema_node-dec_schema_node_example :
    ((enc_schema_node any_size sample_schema buf_init).0 ≡ true)
    × (written (enc_schema_node any_size sample_schema)
          ++ (dec_schema_node any_request 65 (start_of sample_schema_section)).1.cur.rest
        ≡ sample_schema_section)
unfolding load_u16 load_u32 load_loop load_u64 u64_to_i64 cur_fail fail position check need cur_u8
    cur_u16 cur_u32 cur_u64 cur_i64 cur_raw zeros_loop cur_zeros cur_bool arena_bytes or_no_memory
    cur_bytes mem_eq is_periodic scan_run run_count_loop rle_run_count period_loop smallest_period
    all_zero choose_between fill_choose tile read_pattern same_as_prev read_runs read_rle
    read_payload check_canonical out_bytes fill_read dec_count_guard request read_each count_node
    dec_provenance dec_allocation dec_allocations dec_op dec_callseq dec_expected guard_children
    dec_metadata_kv dec_name dec_metadata dec_schema_fields read_schema_children
    read_schema_dictionary dec_schema_node dec_view_tail dec_view dec_array_fields
    read_array_children read_array_dictionary dec_array_node
enc_schema_node-dec_schema_node_example =
    enc_schema_node-dec_schema_node any_request any_size (λ n. refl) 65
      (start_of sample_schema_section) sample_schema (all_bytes-AreBytes sample_schema_section refl)
      (omega arith) refl refl

enc_array_node-dec_array_node_example :
    ((enc_array_node any_size sample_array buf_init).0 ≡ true)
    × (written (enc_array_node any_size sample_array)
          ++ (dec_array_node any_request 65 (start_of sample_array_section)).1.cur.rest
        ≡ sample_array_section)
unfolding load_u16 load_u32 load_loop load_u64 u64_to_i64 cur_fail fail position check need cur_u8
    cur_u16 cur_u32 cur_u64 cur_i64 cur_raw zeros_loop cur_zeros cur_bool arena_bytes or_no_memory
    cur_bytes mem_eq is_periodic scan_run run_count_loop rle_run_count period_loop smallest_period
    all_zero choose_between fill_choose tile read_pattern same_as_prev read_runs read_rle
    read_payload check_canonical out_bytes fill_read dec_count_guard request read_each count_node
    dec_provenance dec_allocation dec_allocations dec_op dec_callseq dec_expected guard_children
    dec_metadata_kv dec_name dec_metadata dec_schema_fields read_schema_children
    read_schema_dictionary dec_schema_node dec_view_tail dec_view dec_array_fields
    read_array_children read_array_dictionary dec_array_node
enc_array_node-dec_array_node_example =
    enc_array_node-dec_array_node any_request any_size (λ n. refl) 65
      (start_of sample_array_section) sample_array (all_bytes-AreBytes sample_array_section refl)
      (omega arith) refl refl

enc_allocations-dec_allocations_example :
    ((enc_allocations any_size (sample_allocation ∷ []) buf_init).0 ≡ true)
    × (written (enc_allocations any_size (sample_allocation ∷ []))
          ++ (dec_allocations any_request (start_of sample_allocations_section).cur).1.rest
        ≡ sample_allocations_section)
unfolding load_u16 load_u32 load_loop load_u64 u64_to_i64 cur_fail fail position check need cur_u8
    cur_u16 cur_u32 cur_u64 cur_i64 cur_raw zeros_loop cur_zeros cur_bool arena_bytes or_no_memory
    cur_bytes mem_eq is_periodic scan_run run_count_loop rle_run_count period_loop smallest_period
    all_zero choose_between fill_choose tile read_pattern same_as_prev read_runs read_rle
    read_payload check_canonical out_bytes fill_read dec_count_guard request read_each count_node
    dec_provenance dec_allocation dec_allocations dec_op dec_callseq dec_expected guard_children
    dec_metadata_kv dec_name dec_metadata dec_schema_fields read_schema_children
    read_schema_dictionary dec_schema_node dec_view_tail dec_view dec_array_fields
    read_array_children read_array_dictionary dec_array_node
enc_allocations-dec_allocations_example =
    enc_allocations-dec_allocations any_request any_size (λ n. refl)
      (start_of sample_allocations_section).cur (sample_allocation ∷ [])
      (all_bytes-AreBytes sample_allocations_section refl) (omega arith) refl refl

enc_callseq-dec_callseq_example :
    ((enc_callseq any_size sample_ops buf_init).0 ≡ true)
    × (written (enc_callseq any_size sample_ops)
          ++ (dec_callseq any_request (start_of sample_callseq_section).cur).1.rest
        ≡ sample_callseq_section)
unfolding load_u16 load_u32 load_loop load_u64 u64_to_i64 cur_fail fail position check need cur_u8
    cur_u16 cur_u32 cur_u64 cur_i64 cur_raw zeros_loop cur_zeros cur_bool arena_bytes or_no_memory
    cur_bytes mem_eq is_periodic scan_run run_count_loop rle_run_count period_loop smallest_period
    all_zero choose_between fill_choose tile read_pattern same_as_prev read_runs read_rle
    read_payload check_canonical out_bytes fill_read dec_count_guard request read_each count_node
    dec_provenance dec_allocation dec_allocations dec_op dec_callseq dec_expected guard_children
    dec_metadata_kv dec_name dec_metadata dec_schema_fields read_schema_children
    read_schema_dictionary dec_schema_node dec_view_tail dec_view dec_array_fields
    read_array_children read_array_dictionary dec_array_node
enc_callseq-dec_callseq_example =
    enc_callseq-dec_callseq any_request any_size (λ n. refl) (start_of sample_callseq_section).cur
      sample_ops (all_bytes-AreBytes sample_callseq_section refl) (omega arith) refl refl

-- Six equal bytes under RLE would take 9 bytes, so the payload is a PATTERN of one byte.
abbrev sample_payload : AbiCur
sample_payload = record { pos = 0; rest = 1 ∷ 0 ∷ 0 ∷ 0 ∷ 7 ∷ []; err = none }

abbrev sample_memory : Option (List ℕ)
sample_memory = some (7 ∷ 7 ∷ 7 ∷ 7 ∷ 7 ∷ 7 ∷ [])

fill_write-fill_read_example :
    let chosen = fill_choose (bytes_at sample_memory) in
    let w =
      fill_write any_size (bytes_at sample_memory) chosen.fill chosen.period chosen.run_count in
    (chosen.fill ≡ 3)
    × (length (bytes_at sample_memory) ≡ 6)
    × (written w ++ (fill_read any_request 6 3 sample_payload).1.rest ≡ sample_payload.rest)
unfolding load_u16 load_u32 load_loop load_u64 u64_to_i64 cur_fail fail position check need cur_u8
    cur_u16 cur_u32 cur_u64 cur_i64 cur_raw zeros_loop cur_zeros cur_bool arena_bytes or_no_memory
    cur_bytes mem_eq is_periodic scan_run run_count_loop rle_run_count period_loop smallest_period
    all_zero choose_between fill_choose tile read_pattern same_as_prev read_runs read_rle
    read_payload check_canonical out_bytes fill_read dec_count_guard request read_each count_node
    dec_provenance dec_allocation dec_allocations dec_op dec_callseq dec_expected guard_children
    dec_metadata_kv dec_name dec_metadata dec_schema_fields read_schema_children
    read_schema_dictionary dec_schema_node dec_view_tail dec_view dec_array_fields
    read_array_children read_array_dictionary dec_array_node
fill_write-fill_read_example =
    fill_write-fill_read any_request any_size (λ n. refl) 6 3 sample_payload sample_memory
      (omega arith) (all_bytes-AreBytes sample_payload.rest refl) (omega arith) refl refl
