-- ===== src/Builder/Calls.antt =====
-- Sequences of calls of the builder of libabi/src/case.c.
use arrow_abi_doctor.Base.{ℕ, List, [], ◌∷◌, Option}
use arrow_abi_doctor.Builder.{Builder}
use arrow_abi_doctor.Builder.Case.{
  abi_case_set_provenance, abi_case_set_expected, abi_case_add_allocation, abi_case_add_op,
}
use arrow_abi_doctor.Builder.Schema.{
  abi_schema_new, abi_schema_set_format, abi_schema_set_name, abi_schema_set_metadata_present,
  abi_schema_add_metadata, abi_schema_add_child, abi_schema_set_dictionary,
  abi_schema_set_declared_children, abi_case_set_schema,
}
use arrow_abi_doctor.Builder.Array.{
  abi_array_new, abi_array_add_buffer, abi_array_add_null_buffer, abi_array_add_child,
  abi_array_set_dictionary, abi_array_set_declared_buffers, abi_array_set_declared_children,
  abi_case_set_array,
}

-- The calls with the arguments of each, in the order of the source.
pub data Call : Type 0 where
  set_provenance :
      ℕ → Option (List ℕ) → ℕ → Option (List ℕ) → Option (List ℕ) → Option (List ℕ) → Call
  set_expected : ℕ → ℕ → Option (List ℕ) → Option (List ℕ) → Call
  add_allocation : Option (List ℕ) → ℕ → ℕ → Call
  schema_new : Option (List ℕ) → Call
  schema_set_format : ℕ → Option (List ℕ) → ℕ → Call
  schema_set_name : ℕ → Option (List ℕ) → Call
  schema_set_metadata_present : ℕ → Call
  schema_add_metadata : Option ℕ → Option (List ℕ) → ℕ → Option (List ℕ) → ℕ → Call
  schema_add_child : Option ℕ → Option ℕ → Call
  schema_set_dictionary : Option ℕ → Option ℕ → Call
  schema_set_declared_children : Option ℕ → ℕ → Call
  array_new : Call
  array_add_buffer : ℕ → ℕ → ℕ → ℕ → ℕ → Call
  array_add_null_buffer : ℕ → ℕ → Call
  array_add_child : Option ℕ → Option ℕ → Call
  array_set_dictionary : Option ℕ → Option ℕ → Call
  array_set_declared_buffers : Option ℕ → ℕ → Call
  array_set_declared_children : Option ℕ → ℕ → Call
  set_schema : Option ℕ → Call
  set_array : Option ℕ → Call
  add_op : ℕ → ℕ → ℕ → Call

module _ (malloc : ℕ → ℕ → Option ℕ) where
  -- What a call leaves, whether it succeeds or not.
  unfoldable pub perform : Call → Builder → Builder
  perform (Call.set_provenance seed rng version generator doctor revision) b =
      (abi_case_set_provenance malloc seed rng version generator doctor revision b).1
  perform (Call.set_expected level outcome clause notes) b =
      (abi_case_set_expected malloc level outcome clause notes b).1
  perform (Call.add_allocation bytes size alignment) b =
      (abi_case_add_allocation malloc bytes size alignment b).1
  perform (Call.schema_new format) b = (abi_schema_new malloc format b).1
  perform (Call.schema_set_format i format len) b = (abi_schema_set_format malloc i format len b).1
  perform (Call.schema_set_name i name) b = (abi_schema_set_name malloc i name b).1
  perform (Call.schema_set_metadata_present i) b = (abi_schema_set_metadata_present malloc i b).1
  perform (Call.schema_add_metadata i key key_len value value_len) b =
      (abi_schema_add_metadata malloc i key key_len value value_len b).1
  perform (Call.schema_add_child i j) b = (abi_schema_add_child malloc i j b).1
  perform (Call.schema_set_dictionary i dict) b = abi_schema_set_dictionary i dict b
  perform (Call.schema_set_declared_children i n) b = abi_schema_set_declared_children i n b
  perform Call.array_new b = (abi_array_new malloc b).1
  perform (Call.array_add_buffer i role id offset size) b =
      (abi_array_add_buffer malloc i role id offset size b).1
  perform (Call.array_add_null_buffer i role) b = (abi_array_add_null_buffer malloc i role b).1
  perform (Call.array_add_child i j) b = (abi_array_add_child malloc i j b).1
  perform (Call.array_set_dictionary i dict) b = abi_array_set_dictionary i dict b
  perform (Call.array_set_declared_buffers i n) b = abi_array_set_declared_buffers i n b
  perform (Call.array_set_declared_children i n) b = abi_array_set_declared_children i n b
  perform (Call.set_schema i) b = abi_case_set_schema i b
  perform (Call.set_array i) b = abi_case_set_array i b
  perform (Call.add_op code arg0 arg1) b = (abi_case_add_op malloc code arg0 arg1 b).1

  unfoldable pub perform_all : List Call → Builder → Builder
  unfolding perform
  perform_all [] b = b
  perform_all (call ∷ calls) b = perform_all calls (perform call b)
