-- ===== src/Format.antt =====
-- The byte strings that docs/abicase-format.md assigns to the parts of a case: the specification
-- that the encoder and the decoder share.
use arrow_abi_doctor.Base.{
  ℕ, List, [], ◌∷◌, ◌++◌, ℤ, length, replicate, if◌then◌else◌, ◌==◌, bit_or,
}
use arrow_abi_doctor.Bytes.{store_u16, store_u32, store_u64, i64_to_u64}
use arrow_abi_doctor.Fill.{fill_choose}
use arrow_abi_doctor.Fill.Payload.{payload}
use arrow_abi_doctor.Model.{
  AbiAllocation, bytes_at, AbiBufferView, AbiMetadataKv, SchemaFields, AbiSchemaNode,
  SchemaChildren, SchemaDictionary, ArrayFields, AbiArrayNode, ArrayChildren, ArrayDictionary,
  schema_node, array_node, schema_count, array_count, AbiOp, AbiProvenance, AbiExpected,
}

-- A list of records, one after the other.
abbrev pub each {ℓ} : {A : Type ℓ} → (A → List ℕ) → List A → List ℕ
each f [] = []
each f (a ∷ as') = f a ++ each f as'

abbrev pub string : List ℕ → List ℕ
string s = store_u32 (length s) ++ s

abbrev pub int64 : ℤ → List ℕ
int64 v = store_u64 (i64_to_u64 v)

unfoldable pub provenance_bytes : AbiProvenance → List ℕ
provenance_bytes p =
    store_u64 p.seed
    ++ (string p.rng_algorithm
        ++ (store_u32 p.rng_version
            ++ (string p.generator_version
                ++ (string p.abi_doctor_version ++ string p.spec_revision))))

unfoldable pub allocation_bytes : AbiAllocation → List ℕ
allocation_bytes a =
    store_u64 a.size_bytes
    ++ (store_u32 a.alignment
        ++ (((fill_choose (bytes_at a.bytes)).fill ∷ [])
            ++ (replicate 3 0 ++ payload (bytes_at a.bytes))))

unfoldable pub allocations_bytes : List AbiAllocation → List ℕ
unfolding allocation_bytes
allocations_bytes table = store_u32 (length table) ++ each allocation_bytes table

abbrev pub kv_bytes : AbiMetadataKv → List ℕ
kv_bytes kv = string kv.key ++ string kv.value

abbrev pub presence_bits : SchemaFields → ℕ
presence_bits f = bit_or (if f.has_name then 1 else 0) (if f.has_metadata then 2 else 0)

unfoldable pub schema_fields_bytes : SchemaFields → List ℕ
schema_fields_bytes f =
    string f.format
    ++ ((presence_bits f ∷ [])
        ++ ((if f.has_name then string f.name else [])
            ++ ((if f.has_metadata
                  then store_u32 (length f.metadata) ++ each kv_bytes f.metadata
                  else [])
                ++ (int64 f.flags ++ store_u32 f.n_children))))

unfoldable mutual
  pub schema_bytes : AbiSchemaNode → List ℕ
  schema_bytes (schema_node f ns d) =
      schema_fields_bytes f
      ++ (store_u32 (schema_count ns) ++ (schemas_bytes ns ++ schema_dict_bytes d))

  pub schemas_bytes : SchemaChildren → List ℕ
  schemas_bytes SchemaChildren.nil = []
  schemas_bytes (SchemaChildren.cons n ns) = schema_bytes n ++ schemas_bytes ns

  pub schema_dict_bytes : SchemaDictionary → List ℕ
  schema_dict_bytes SchemaDictionary.absent = 0 ∷ []
  schema_dict_bytes (SchemaDictionary.present n) = (1 ∷ []) ++ schema_bytes n

unfoldable pub view_bytes : AbiBufferView → List ℕ
view_bytes v =
    (v.role ∷ [])
    ++ ((v.present ∷ [])
        ++ (replicate 2 0
            ++ (if v.present == 0
                then []
                else store_u32 v.allocation_id
                  ++ (store_u64 v.byte_offset ++ store_u64 v.logical_length))))

unfoldable pub array_fields_bytes : ArrayFields → List ℕ
array_fields_bytes f =
    int64 f.length
    ++ (int64 f.null_count
        ++ (int64 f.offset
            ++ (store_u32 f.n_buffers
                ++ (store_u32 (length f.buffers)
                    ++ (each view_bytes f.buffers ++ store_u32 f.n_children)))))

unfoldable mutual
  pub array_bytes : AbiArrayNode → List ℕ
  array_bytes (array_node f ns d) =
      array_fields_bytes f
      ++ (store_u32 (array_count ns) ++ (arrays_bytes ns ++ array_dict_bytes d))

  pub arrays_bytes : ArrayChildren → List ℕ
  arrays_bytes ArrayChildren.nil = []
  arrays_bytes (ArrayChildren.cons n ns) = array_bytes n ++ arrays_bytes ns

  pub array_dict_bytes : ArrayDictionary → List ℕ
  array_dict_bytes ArrayDictionary.absent = 0 ∷ []
  array_dict_bytes (ArrayDictionary.present n) = (1 ∷ []) ++ array_bytes n

unfoldable pub op_bytes : AbiOp → List ℕ
op_bytes op = store_u16 op.code ++ (store_u32 op.arg0 ++ store_u32 op.arg1)

unfoldable pub callseq_bytes : List AbiOp → List ℕ
callseq_bytes ops = store_u32 (length ops) ++ each op_bytes ops

unfoldable pub expected_bytes : AbiExpected → List ℕ
expected_bytes e =
    (e.validation_level ∷ [])
    ++ ((e.expected_outcome ∷ []) ++ (replicate 2 0 ++ (string e.spec_clause ++ string e.notes)))

-- A section: its tag, the section version 1, the size of its body, and its body.
abbrev pub section_bytes : ℕ → List ℕ → List ℕ
section_bytes tag body = store_u16 tag ++ (store_u16 1 ++ (store_u32 (length body) ++ body))
