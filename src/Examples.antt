-- ===== src/Examples.antt =====
-- A small case file, its parts, and what the examples of the properties share.
pub mod CaseFiles
pub mod Sections
pub mod Logs
pub mod Numbers
pub mod Memory
pub mod Building
use arrow_abi_doctor.Base.{
  ℕ, ◌≡◌, refl, arith, List, [], ◌∷◌, ◌++◌, Bool, true, false, ltb, ◌&&◌, ◌==◌, not, Option, none,
  some, length, pos, negsuc, ◌↔◌, All, if◌then◌else◌,
}
use arrow_abi_doctor.Bytes.LittleEndian.{load-store_u64}
use arrow_abi_doctor.Bytes.Signed.{u64_to_i64-i64_to_u64}
use arrow_abi_doctor.Buffer.{buf_init, grow_loop, grown}
use arrow_abi_doctor.Buffer.Doubling.{grow_loop_meets}
use arrow_abi_doctor.Fill.Runs.{runs}
use arrow_abi_doctor.Fill.Scan.{rle_run_count-runs}
use arrow_abi_doctor.Model.{
  AbiAllocation, bytes_at, AbiBufferView, AbiSchemaNode, SchemaChildren, SchemaDictionary,
  schema_node, AbiArrayNode, ArrayChildren, ArrayDictionary, array_node, AbiOp, AbiCase,
}
use arrow_abi_doctor.Encode.{enc_allocations, enc_schema_node, enc_array_node, enc_callseq}
use arrow_abi_doctor.Decode.RoundTrip.{
  written, enc_schema_node-dec_schema_node, enc_array_node-dec_array_node,
  enc_allocations-dec_allocations, enc_callseq-dec_callseq, fill_write-fill_read,
}
use arrow_abi_doctor.Validate.Containment.{Inside, array_views, validate-Inside}
use arrow_abi_doctor.Case.Canonical.{IsCanonical, decode-IsCanonical}
use arrow_abi_doctor.Lifecycle.{
  AbiLifecycleObject, at_rest, base_path, max_findings, add, release, drive, on_event, walk,
  add_live, abi_lifecycle_verify,
}
use arrow_abi_doctor.Lifecycle.Discipline.{Life, verify_zero-Life}
use arrow_abi_doctor.Lifecycle.Verdict.{verify_findings}
use arrow_abi_doctor.Bytes.{AreBytes, store_u64, i64_to_u64}
use arrow_abi_doctor.Cursor.{AbiCur}
use arrow_abi_doctor.Fill.{fill_write}
use arrow_abi_doctor.Decode.{AbiDec}
use arrow_abi_doctor.Case.Read.{decoded}
use arrow_abi_doctor.Bytes.{load_u16, load_u32, load_loop, load_u64, u64_to_i64}
use arrow_abi_doctor.Cursor.{
  cur_fail, fail, position, check, need, cur_u8, cur_u16, cur_u32, cur_u64, cur_i64, cur_raw,
  zeros_loop, cur_zeros, cur_bool, arena_bytes, or_no_memory, cur_bytes,
}
use arrow_abi_doctor.Fill.{
  mem_eq, is_periodic, scan_run, run_count_loop, rle_run_count, period_loop, smallest_period,
  all_zero, choose_between, fill_choose, tile, read_pattern, same_as_prev, read_runs, read_rle,
  read_payload, check_canonical, out_bytes, fill_read,
}
use arrow_abi_doctor.Decode.{
  dec_count_guard, request, read_each, count_node, dec_provenance, dec_allocation, dec_allocations,
  dec_op, dec_callseq, dec_expected, guard_children,
}
use arrow_abi_doctor.Decode.Schema.{
  dec_metadata_kv, dec_name, dec_metadata, dec_schema_fields, read_schema_children,
  read_schema_dictionary, dec_schema_node,
}
use arrow_abi_doctor.Decode.Array.{
  dec_view_tail, dec_view, dec_array_fields, read_array_children, read_array_dictionary,
  dec_array_node,
}
use arrow_abi_doctor.Sha256.{abi_sha256}
use arrow_abi_doctor.Validate.{
  ◌then_val◌, val_bytes, count_val_node, val_schema_fields, val_extent, val_view, val_array_fields,
  val_op, val_ops, val_allocation, val_expected, val_provenance, val_trees, val_case,
  abi_case_validate, val_schema, val_schema_children, val_schema_dictionary, val_array,
  val_array_children, val_array_dictionary, val_shapes_agree, val_child_shapes,
  val_dictionary_shapes,
}
use arrow_abi_doctor.Case.Read.{
  put_part, dec_header, within, dec_body, dec_section, dec_sections, complete, finish_case,
  run_sections, with_header, abi_case_decode,
}

-- Bytes, by a test.
abbrev pub all_bytes : List ℕ → Bool
all_bytes [] = true
all_bytes (b ∷ bs) = ltb b 256 && all_bytes bs

pub all_bytes-AreBytes : (bs : List ℕ) → all_bytes bs ≡ true → AreBytes bs
all_bytes-AreBytes [] h = tt
all_bytes-AreBytes (b ∷ bs) h =
    let low : ltb b 256 ≡ true = ground arith in
    let rest : all_bytes bs ≡ true = ground arith in (ground arith, all_bytes-AreBytes bs rest)

abbrev pub any_size : ℕ → Bool
any_size n = true

abbrev pub any_request : ℕ → ℕ → Bool
any_request at n = true

abbrev pub sample_allocation : AbiAllocation
sample_allocation = record { size_bytes = 4; alignment = 8; bytes = some (1 ∷ 2 ∷ 3 ∷ 4 ∷ []) }

abbrev pub sample_schema : AbiSchemaNode
sample_schema =
    schema_node
      (record {
        format = 105 ∷ [];
        has_name = false;
        name = [];
        has_metadata = false;
        metadata = [];
        flags = pos 2;
        n_children = 0;
      })
      SchemaChildren.nil SchemaDictionary.absent

abbrev pub sample_view : AbiBufferView
sample_view = record {
  role = 2;
  present = 1;
  allocation_id = 0;
  byte_offset = 0;
  logical_length = 4;
}

abbrev pub sample_array : AbiArrayNode
sample_array =
    array_node
      (record {
        length = pos 1;
        null_count = pos 0;
        offset = pos 0;
        n_buffers = 1;
        buffers = sample_view ∷ [];
        n_children = 0;
      })
      ArrayChildren.nil ArrayDictionary.absent

abbrev pub sample_ops : List AbiOp
sample_ops = record { code = 1; arg0 = 0; arg1 = 0 } ∷ []

abbrev pub sample_case : AbiCase
sample_case = record {
  cls = 0;
  provenance = record {
    seed = 1;
    rng_algorithm = 120 ∷ [];
    rng_version = 1;
    generator_version = 103 ∷ [];
    abi_doctor_version = 49 ∷ [];
    spec_revision = [];
  };
  allocations = sample_allocation ∷ [];
  schema = some sample_schema;
  array = some sample_array;
  ops = sample_ops;
  expected = record { validation_level = 0; expected_outcome = 0; spec_clause = []; notes = [] };
}

-- The file of the case; its payload id was computed by another SHA-256.
abbrev pub sample_file : List ℕ
sample_file =
    65 ∷ 66 ∷ 73 ∷ 67 ∷ 1 ∷ 0 ∷ 40 ∷ 0 ∷ 255 ∷ 254 ∷ 0 ∷ 0 ∷ 0 ∷ 0 ∷ 0 ∷ 0 ∷ 6 ∷ 0 ∷ 0 ∷ 0 ∷ 1 ∷ 1
    ∷ 0 ∷ 0 ∷ 120 ∷ 94 ∷ 35 ∷ 197 ∷ 40 ∷ 169 ∷ 19 ∷ 6 ∷ 48 ∷ 116 ∷ 251 ∷ 148 ∷ 120 ∷ 197 ∷ 16 ∷ 177
    ∷ 1 ∷ 0 ∷ 1 ∷ 0 ∷ 31 ∷ 0 ∷ 0 ∷ 0 ∷ 1 ∷ 0 ∷ 0 ∷ 0 ∷ 0 ∷ 0 ∷ 0 ∷ 0 ∷ 1 ∷ 0 ∷ 0 ∷ 0 ∷ 120 ∷ 1 ∷ 0
    ∷ 0 ∷ 0 ∷ 1 ∷ 0 ∷ 0 ∷ 0 ∷ 103 ∷ 1 ∷ 0 ∷ 0 ∷ 0 ∷ 49 ∷ 0 ∷ 0 ∷ 0 ∷ 0 ∷ 2 ∷ 0 ∷ 1 ∷ 0 ∷ 24 ∷ 0 ∷ 0
    ∷ 0 ∷ 1 ∷ 0 ∷ 0 ∷ 0 ∷ 4 ∷ 0 ∷ 0 ∷ 0 ∷ 0 ∷ 0 ∷ 0 ∷ 0 ∷ 8 ∷ 0 ∷ 0 ∷ 0 ∷ 0 ∷ 0 ∷ 0 ∷ 0 ∷ 1 ∷ 2 ∷ 3
    ∷ 4 ∷ 3 ∷ 0 ∷ 1 ∷ 0 ∷ 23 ∷ 0 ∷ 0 ∷ 0 ∷ 1 ∷ 0 ∷ 0 ∷ 0 ∷ 105 ∷ 0 ∷ 2 ∷ 0 ∷ 0 ∷ 0 ∷ 0 ∷ 0 ∷ 0 ∷ 0
    ∷ 0 ∷ 0 ∷ 0 ∷ 0 ∷ 0 ∷ 0 ∷ 0 ∷ 0 ∷ 0 ∷ 4 ∷ 0 ∷ 1 ∷ 0 ∷ 65 ∷ 0 ∷ 0 ∷ 0 ∷ 1 ∷ 0 ∷ 0 ∷ 0 ∷ 0 ∷ 0 ∷ 0
    ∷ 0 ∷ 0 ∷ 0 ∷ 0 ∷ 0 ∷ 0 ∷ 0 ∷ 0 ∷ 0 ∷ 0 ∷ 0 ∷ 0 ∷ 0 ∷ 0 ∷ 0 ∷ 0 ∷ 0 ∷ 1 ∷ 0 ∷ 0 ∷ 0 ∷ 1 ∷ 0 ∷ 0
    ∷ 0 ∷ 2 ∷ 1 ∷ 0 ∷ 0 ∷ 0 ∷ 0 ∷ 0 ∷ 0 ∷ 0 ∷ 0 ∷ 0 ∷ 0 ∷ 0 ∷ 0 ∷ 0 ∷ 0 ∷ 4 ∷ 0 ∷ 0 ∷ 0 ∷ 0 ∷ 0 ∷ 0
    ∷ 0 ∷ 0 ∷ 0 ∷ 0 ∷ 0 ∷ 0 ∷ 0 ∷ 0 ∷ 0 ∷ 0 ∷ 5 ∷ 0 ∷ 1 ∷ 0 ∷ 14 ∷ 0 ∷ 0 ∷ 0 ∷ 1 ∷ 0 ∷ 0 ∷ 0 ∷ 1 ∷ 0
    ∷ 0 ∷ 0 ∷ 0 ∷ 0 ∷ 0 ∷ 0 ∷ 0 ∷ 0 ∷ 6 ∷ 0 ∷ 1 ∷ 0 ∷ 12 ∷ 0 ∷ 0 ∷ 0 ∷ 0 ∷ 0 ∷ 0 ∷ 0 ∷ 0 ∷ 0 ∷ 0 ∷ 0
    ∷ 0 ∷ 0 ∷ 0 ∷ 0 ∷ []

abbrev pub sample_allocations_section : List ℕ
sample_allocations_section =
    1 ∷ 0 ∷ 0 ∷ 0 ∷ 4 ∷ 0 ∷ 0 ∷ 0 ∷ 0 ∷ 0 ∷ 0 ∷ 0 ∷ 8 ∷ 0 ∷ 0 ∷ 0 ∷ 0 ∷ 0 ∷ 0 ∷ 0 ∷ 1 ∷ 2 ∷ 3 ∷ 4
    ∷ []

abbrev pub sample_schema_section : List ℕ
sample_schema_section =
    1 ∷ 0 ∷ 0 ∷ 0 ∷ 105 ∷ 0 ∷ 2 ∷ 0 ∷ 0 ∷ 0 ∷ 0 ∷ 0 ∷ 0 ∷ 0 ∷ 0 ∷ 0 ∷ 0 ∷ 0 ∷ 0 ∷ 0 ∷ 0 ∷ 0 ∷ 0 ∷ []

abbrev pub sample_array_section : List ℕ
sample_array_section =
    1 ∷ 0 ∷ 0 ∷ 0 ∷ 0 ∷ 0 ∷ 0 ∷ 0 ∷ 0 ∷ 0 ∷ 0 ∷ 0 ∷ 0 ∷ 0 ∷ 0 ∷ 0 ∷ 0 ∷ 0 ∷ 0 ∷ 0 ∷ 0 ∷ 0 ∷ 0 ∷ 0
    ∷ 1 ∷ 0 ∷ 0 ∷ 0 ∷ 1 ∷ 0 ∷ 0 ∷ 0 ∷ 2 ∷ 1 ∷ 0 ∷ 0 ∷ 0 ∷ 0 ∷ 0 ∷ 0 ∷ 0 ∷ 0 ∷ 0 ∷ 0 ∷ 0 ∷ 0 ∷ 0 ∷ 0
    ∷ 4 ∷ 0 ∷ 0 ∷ 0 ∷ 0 ∷ 0 ∷ 0 ∷ 0 ∷ 0 ∷ 0 ∷ 0 ∷ 0 ∷ 0 ∷ 0 ∷ 0 ∷ 0 ∷ 0 ∷ []

abbrev pub sample_callseq_section : List ℕ
sample_callseq_section = 1 ∷ 0 ∷ 0 ∷ 0 ∷ 1 ∷ 0 ∷ 0 ∷ 0 ∷ 0 ∷ 0 ∷ 0 ∷ 0 ∷ 0 ∷ 0 ∷ []

abbrev pub start_of : List ℕ → AbiDec
start_of bs = record { cur = record { pos = 0; rest = bs; err = none }; nodes = 0; buffers = 0 }
