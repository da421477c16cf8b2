-- ===== src/Encode/Writes.antt =====
-- The section writers of libabi/src/encode.c write what docs/abicase-format.md says.
use arrow_abi_doctor.Base.{ℕ, ◌≤◌, ◌≡◌, arith, List, [], ◌∷◌, Bool, length, All}
use arrow_abi_doctor.Buffer.{Writer}
use arrow_abi_doctor.Buffer.Writes.{
  Writes, done-Writes, then-Writes, if-Writes, u8-Writes, u16-Writes, u32-Writes, u64-Writes,
  i64-Writes, zeros-Writes, bytes-Writes,
}
use arrow_abi_doctor.Fill.Payload.{fill_write-Writes}
use arrow_abi_doctor.Model.{
  AbiAllocation, bytes_at, AbiBufferView, AbiMetadataKv, SchemaFields, AbiSchemaNode,
  SchemaChildren, SchemaDictionary, ArrayFields, AbiArrayNode, ArrayChildren, ArrayDictionary,
  schema_node, array_node, schema_count, array_count, AbiOp, AbiProvenance, AbiExpected,
  limit_alloc_bytes,
}
use arrow_abi_doctor.Format.{
  each, provenance_bytes, allocation_bytes, allocations_bytes, kv_bytes, schema_fields_bytes,
  schema_bytes, schemas_bytes, schema_dict_bytes, view_bytes, array_fields_bytes, array_bytes,
  arrays_bytes, array_dict_bytes, op_bytes, callseq_bytes, expected_bytes,
}
use arrow_abi_doctor.Encode.{
  write_each, enc_provenance, enc_allocation, enc_allocations, enc_metadata, enc_schema_fields,
  enc_schema_node, enc_schema_children, enc_schema_dictionary, enc_view, enc_array_fields,
  enc_array_node, enc_array_children, enc_array_dictionary, enc_op, enc_callseq, enc_expected,
}

-- The memory of an allocation has its size, and the size is within the limit.
pub record IsSized (a : AbiAllocation) : Type 0 where
  pub filled : length (bytes_at a.bytes) ≡ a.size_bytes
  pub small : a.size_bytes ≤ limit_alloc_bytes

module _ (realloc : ℕ → Bool) where
  ruleset writes = (
    done-Writes, then-Writes, if-Writes, u8-Writes, u16-Writes, u32-Writes, u64-Writes, i64-Writes,
    zeros-Writes, bytes-Writes,
  )

  each-Writes {ℓ} :
      {A : Type ℓ} (w : A → Writer) (f : A → List ℕ)
      → ((a : A) → Writes realloc (w a) (f a))
      → (items : List A) → Writes realloc (write_each w items) (each f items)
  each-Writes w f h [] = done-Writes realloc
  each-Writes w f h (a ∷ rest) = then-Writes realloc (h a) (each-Writes w f h rest)

  pub enc_provenance-Writes :
      (p : AbiProvenance) → Writes realloc (enc_provenance realloc p) (provenance_bytes p)
  unfolding enc_provenance provenance_bytes
  enc_provenance-Writes p = search writes depth 12

  pub enc_expected-Writes :
      (e : AbiExpected) → Writes realloc (enc_expected realloc e) (expected_bytes e)
  unfolding enc_expected expected_bytes
  enc_expected-Writes e = search writes depth 12

  op-Writes : (op : AbiOp) → Writes realloc (enc_op realloc op) (op_bytes op)
  unfolding enc_op op_bytes
  op-Writes op = search writes depth 12

  pub enc_callseq-Writes :
      (ops : List AbiOp) → Writes realloc (enc_callseq realloc ops) (callseq_bytes ops)
  unfolding enc_callseq callseq_bytes
  enc_callseq-Writes ops =
      then-Writes realloc (u32-Writes realloc _) (each-Writes _ _ op-Writes ops)

  allocation-Writes :
      (a : AbiAllocation)
      → IsSized a
      → Writes realloc (enc_allocation realloc a) (allocation_bytes a)
  unfolding enc_allocation allocation_bytes
  allocation-Writes a h =
      let memory = fill_write-Writes realloc (bytes_at a.bytes) (omega arith) in
      then-Writes realloc (u64-Writes realloc _) (
        then-Writes realloc (u32-Writes realloc _) (
          then-Writes realloc (u8-Writes realloc _)
            (then-Writes realloc (zeros-Writes realloc 3) memory)))

  table-Writes :
      (table : List AbiAllocation)
      → All IsSized table
      → Writes realloc (write_each (enc_allocation realloc) table) (each allocation_bytes table)
  table-Writes [] h = done-Writes realloc
  table-Writes (a ∷ rest) h = then-Writes realloc (allocation-Writes a h.0) (table-Writes rest h.1)

  pub enc_allocations-Writes :
      (table : List AbiAllocation)
      → All IsSized table
      → Writes realloc (enc_allocations realloc table) (allocations_bytes table)
  unfolding enc_allocations allocations_bytes
  enc_allocations-Writes table h = then-Writes realloc (u32-Writes realloc _) (table-Writes table h)

  metadata-Writes : (kv : AbiMetadataKv) → Writes realloc (enc_metadata realloc kv) (kv_bytes kv)
  unfolding enc_metadata
  metadata-Writes kv = search writes

  schema_fields-Writes :
      (f : SchemaFields) → Writes realloc (enc_schema_fields realloc f) (schema_fields_bytes f)
  unfolding enc_schema_fields schema_fields_bytes
  schema_fields-Writes f =
      let pairs = each-Writes (enc_metadata realloc) kv_bytes metadata-Writes f.metadata in
      let counted = then-Writes realloc (u32-Writes realloc (length f.metadata)) pairs in
      then-Writes realloc (bytes-Writes realloc _) (
        then-Writes realloc (u8-Writes realloc _) (
          then-Writes realloc
            (if-Writes realloc f.has_name (bytes-Writes realloc _) (done-Writes realloc))
            (then-Writes realloc (if-Writes realloc f.has_metadata counted (done-Writes realloc))
              (then-Writes realloc (i64-Writes realloc _) (u32-Writes realloc _)))))

  mutual
    unfolding enc_schema_node schema_bytes

    schema-Writes :
        (n : AbiSchemaNode) → Writes realloc (enc_schema_node realloc n) (schema_bytes n)
    schema-Writes (schema_node f ns d) = then-Writes realloc (schema_fields-Writes f) (
        then-Writes realloc (u32-Writes realloc (schema_count ns))
          (then-Writes realloc (schemas-Writes ns) (schema_dict-Writes d)))

    schemas-Writes :
        (ns : SchemaChildren) → Writes realloc (enc_schema_children realloc ns) (schemas_bytes ns)
    schemas-Writes SchemaChildren.nil = done-Writes realloc
    schemas-Writes (SchemaChildren.cons n ns) =
        then-Writes realloc (schema-Writes n) (schemas-Writes ns)

    schema_dict-Writes :
        (d : SchemaDictionary)
        → Writes realloc (enc_schema_dictionary realloc d) (schema_dict_bytes d)
    schema_dict-Writes SchemaDictionary.absent = u8-Writes realloc 0
    schema_dict-Writes (SchemaDictionary.present n) =
        then-Writes realloc (u8-Writes realloc 1) (schema-Writes n)

  pub enc_schema_node-Writes :
      (n : AbiSchemaNode) → Writes realloc (enc_schema_node realloc n) (schema_bytes n)
  enc_schema_node-Writes n = schema-Writes n

  view-Writes : (v : AbiBufferView) → Writes realloc (enc_view realloc v) (view_bytes v)
  unfolding enc_view view_bytes
  view-Writes v = search writes depth 12

  array_fields-Writes :
      (f : ArrayFields) → Writes realloc (enc_array_fields realloc f) (array_fields_bytes f)
  unfolding enc_array_fields array_fields_bytes
  array_fields-Writes f =
      let views = each-Writes (enc_view realloc) view_bytes view-Writes f.buffers in
      then-Writes realloc (i64-Writes realloc _) (
        then-Writes realloc (i64-Writes realloc _) (
          then-Writes realloc (i64-Writes realloc _) (
            then-Writes realloc (u32-Writes realloc _) (
              then-Writes realloc (u32-Writes realloc _)
                (then-Writes realloc views (u32-Writes realloc _))))))

  mutual
    unfolding enc_array_node array_bytes

    array-Writes : (n : AbiArrayNode) → Writes realloc (enc_array_node realloc n) (array_bytes n)
    array-Writes (array_node f ns d) = then-Writes realloc (array_fields-Writes f) (
        then-Writes realloc (u32-Writes realloc (array_count ns))
          (then-Writes realloc (arrays-Writes ns) (array_dict-Writes d)))

    arrays-Writes :
        (ns : ArrayChildren) → Writes realloc (enc_array_children realloc ns) (arrays_bytes ns)
    arrays-Writes ArrayChildren.nil = done-Writes realloc
    arrays-Writes (ArrayChildren.cons n ns) =
        then-Writes realloc (array-Writes n) (arrays-Writes ns)

    array_dict-Writes :
        (d : ArrayDictionary) → Writes realloc (enc_array_dictionary realloc d) (array_dict_bytes d)
    array_dict-Writes ArrayDictionary.absent = u8-Writes realloc 0
    array_dict-Writes (ArrayDictionary.present n) =
        then-Writes realloc (u8-Writes realloc 1) (array-Writes n)

  pub enc_array_node-Writes :
      (n : AbiArrayNode) → Writes realloc (enc_array_node realloc n) (array_bytes n)
  enc_array_node-Writes n = array-Writes n
