-- ===== src/Encode.antt =====
-- The section writers of libabi/src/encode.c.
pub mod Writes
use arrow_abi_doctor.Base.{
  ℕ, List, [], ◌∷◌, Bool, true, false, length, replicate, if◌then◌else◌, ◌==◌, bit_or,
}
use arrow_abi_doctor.Buffer.{
  Writer, buf_u8, buf_u16, buf_u32, buf_u64, buf_i64, buf_zeros, buf_bytes, ◌then_write◌, done,
}
use arrow_abi_doctor.Fill.{fill_choose, fill_write}
use arrow_abi_doctor.Model.{
  AbiAllocation, bytes_at, AbiBufferView, AbiMetadataKv, SchemaFields, AbiSchemaNode,
  SchemaChildren, SchemaDictionary, ArrayFields, AbiArrayNode, ArrayChildren, ArrayDictionary,
  schema_node, array_node, schema_count, array_count, AbiOp, AbiProvenance, AbiExpected,
}

-- `for (i = 0; i < count; i++) if (!write(item i)) return 0;`
abbrev pub write_each {ℓ} : {A : Type ℓ} → (A → Writer) → List A → Writer
write_each w [] = done
write_each w (a ∷ rest) = w a then_write write_each w rest

module _ (realloc : ℕ → Bool) where
  unfoldable pub enc_provenance : AbiProvenance → Writer
  enc_provenance p =
      buf_u64 realloc p.seed
      then_write buf_bytes realloc p.rng_algorithm
      then_write buf_u32 realloc p.rng_version
      then_write buf_bytes realloc p.generator_version
      then_write buf_bytes realloc p.abi_doctor_version
      then_write buf_bytes realloc p.spec_revision

  -- The body of the loop of `enc_allocations`.
  unfoldable pub enc_allocation : AbiAllocation → Writer
  enc_allocation a =
      let c = fill_choose (bytes_at a.bytes) in
      buf_u64 realloc a.size_bytes
      then_write buf_u32 realloc a.alignment
      then_write buf_u8 realloc c.fill
      then_write buf_zeros realloc 3
      then_write fill_write realloc (bytes_at a.bytes) c.fill c.period c.run_count

  unfoldable pub enc_allocations : List AbiAllocation → Writer
  unfolding enc_allocation
  enc_allocations table = buf_u32 realloc (length table) then_write write_each enc_allocation table

  unfoldable pub enc_metadata : AbiMetadataKv → Writer
  enc_metadata kv = buf_bytes realloc kv.key then_write buf_bytes realloc kv.value

  -- `enc_schema_node` up to the children.
  unfoldable pub enc_schema_fields : SchemaFields → Writer
  unfolding enc_metadata
  enc_schema_fields f =
      buf_bytes realloc f.format
      then_write buf_u8 realloc
          (bit_or (if f.has_name then 1 else 0) (if f.has_metadata then 2 else 0))
      then_write (if f.has_name then buf_bytes realloc f.name else done)
      then_write (if f.has_metadata
          then buf_u32 realloc (length f.metadata) then_write write_each enc_metadata f.metadata
          else done)
      then_write buf_i64 realloc f.flags
      then_write buf_u32 realloc f.n_children

  unfoldable mutual
    pub enc_schema_node : AbiSchemaNode → Writer
    enc_schema_node (schema_node f ns d) =
        enc_schema_fields f
        then_write buf_u32 realloc (schema_count ns)
        then_write enc_schema_children ns
        then_write enc_schema_dictionary d

    pub enc_schema_children : SchemaChildren → Writer
    enc_schema_children SchemaChildren.nil = done
    enc_schema_children (SchemaChildren.cons n ns) =
        enc_schema_node n then_write enc_schema_children ns

    pub enc_schema_dictionary : SchemaDictionary → Writer
    enc_schema_dictionary SchemaDictionary.absent = buf_u8 realloc 0
    enc_schema_dictionary (SchemaDictionary.present n) =
        buf_u8 realloc 1 then_write enc_schema_node n

  unfoldable pub enc_view : AbiBufferView → Writer
  enc_view v =
      buf_u8 realloc v.role
      then_write buf_u8 realloc v.present
      then_write buf_zeros realloc 2
      then_write (if v.present == 0
          then done
          else buf_u32 realloc v.allocation_id
            then_write buf_u64 realloc v.byte_offset
            then_write buf_u64 realloc v.logical_length)

  -- `enc_array_node` up to the children.
  unfoldable pub enc_array_fields : ArrayFields → Writer
  unfolding enc_view
  enc_array_fields f =
      buf_i64 realloc f.length
      then_write buf_i64 realloc f.null_count
      then_write buf_i64 realloc f.offset
      then_write buf_u32 realloc f.n_buffers
      then_write buf_u32 realloc (length f.buffers)
      then_write write_each enc_view f.buffers
      then_write buf_u32 realloc f.n_children

  unfoldable mutual
    pub enc_array_node : AbiArrayNode → Writer
    enc_array_node (array_node f ns d) =
        enc_array_fields f
        then_write buf_u32 realloc (array_count ns)
        then_write enc_array_children ns
        then_write enc_array_dictionary d

    pub enc_array_children : ArrayChildren → Writer
    enc_array_children ArrayChildren.nil = done
    enc_array_children (ArrayChildren.cons n ns) = enc_array_node n then_write enc_array_children ns

    pub enc_array_dictionary : ArrayDictionary → Writer
    enc_array_dictionary ArrayDictionary.absent = buf_u8 realloc 0
    enc_array_dictionary (ArrayDictionary.present n) = buf_u8 realloc 1 then_write enc_array_node n

  unfoldable pub enc_op : AbiOp → Writer
  enc_op op =
      buf_u16 realloc op.code then_write buf_u32 realloc op.arg0 then_write buf_u32 realloc op.arg1

  unfoldable pub enc_callseq : List AbiOp → Writer
  unfolding enc_op
  enc_callseq ops = buf_u32 realloc (length ops) then_write write_each enc_op ops

  unfoldable pub enc_expected : AbiExpected → Writer
  enc_expected e =
      buf_u8 realloc e.validation_level
      then_write buf_u8 realloc e.expected_outcome
      then_write buf_zeros realloc 2
      then_write buf_bytes realloc e.spec_clause
      then_write buf_bytes realloc e.notes
