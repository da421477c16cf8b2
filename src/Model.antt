-- ===== src/Model.antt =====
-- The data model of libabi/include/abi/abicase.h. A vector and its count are a list; every AbiBytes
-- is non-NULL from birth (libabi/src/case.c), so it is its bytes. The capacities and the arena are
-- the builder's bookkeeping and left out.
use arrow_abi_doctor.Base.{ℕ, List, [], ℤ, Bool, Option, none, some, ◌+◌}

pub record AbiAllocation : Type 0 where
  pub size_bytes : ℕ
  pub alignment : ℕ
  -- NULL is `none`.
  pub bytes : Option (List ℕ)

-- The memory behind `bytes`.
abbrev pub bytes_at : Option (List ℕ) → List ℕ
bytes_at none = []
bytes_at (some bs) = bs

pub record AbiBufferView : Type 0 where
  pub role : ℕ
  pub present : ℕ
  pub allocation_id : ℕ
  pub byte_offset : ℕ
  pub logical_length : ℕ

pub record AbiMetadataKv : Type 0 where
  pub key : List ℕ
  pub value : List ℕ

-- The fields of an AbiSchemaNode beside its subtrees.
pub record SchemaFields : Type 0 where
  pub format : List ℕ
  pub has_name : Bool
  pub name : List ℕ
  pub has_metadata : Bool
  pub metadata : List AbiMetadataKv
  pub flags : ℤ
  pub n_children : ℕ

mutual
  pub data AbiSchemaNode : Type 0 where
    schema_node : SchemaFields → SchemaChildren → SchemaDictionary → AbiSchemaNode

  pub data SchemaChildren : Type 0 where
    nil : SchemaChildren
    cons : AbiSchemaNode → SchemaChildren → SchemaChildren

  -- `NULL` is `absent`.
  pub data SchemaDictionary : Type 0 where
    absent : SchemaDictionary
    present : AbiSchemaNode → SchemaDictionary

-- The fields of an AbiArrayNode beside its subtrees. `null_count` is -1 where it is not computed.
pub record ArrayFields : Type 0 where
  pub length : ℤ
  pub null_count : ℤ
  pub offset : ℤ
  pub n_buffers : ℕ
  pub buffers : List AbiBufferView
  pub n_children : ℕ

mutual
  pub data AbiArrayNode : Type 0 where
    array_node : ArrayFields → ArrayChildren → ArrayDictionary → AbiArrayNode

  pub data ArrayChildren : Type 0 where
    nil : ArrayChildren
    cons : AbiArrayNode → ArrayChildren → ArrayChildren

  pub data ArrayDictionary : Type 0 where
    absent : ArrayDictionary
    present : AbiArrayNode → ArrayDictionary

-- `child_count`
abbrev pub schema_count : SchemaChildren → ℕ
schema_count nil = 0
schema_count (cons n ns) = schema_count ns + 1

abbrev pub array_count : ArrayChildren → ℕ
array_count nil = 0
array_count (cons n ns) = array_count ns + 1

pub record AbiOp : Type 0 where
  pub code : ℕ
  pub arg0 : ℕ
  pub arg1 : ℕ

pub record AbiProvenance : Type 0 where
  pub seed : ℕ
  pub rng_algorithm : List ℕ
  pub rng_version : ℕ
  pub generator_version : List ℕ
  pub abi_doctor_version : List ℕ
  pub spec_revision : List ℕ

pub record AbiExpected : Type 0 where
  pub validation_level : ℕ
  pub expected_outcome : ℕ
  pub spec_clause : List ℕ
  pub notes : List ℕ

-- `schema` and `array` are pointers that may be NULL. An empty `ops` is a case without a CALLSEQ
-- section.
pub record AbiCase : Type 0 where
  pub cls : ℕ
  pub provenance : AbiProvenance
  pub allocations : List AbiAllocation
  pub schema : Option AbiSchemaNode
  pub array : Option AbiArrayNode
  pub ops : List AbiOp
  pub expected : AbiExpected

-- The codes of `AbiClass`.
abbrev pub class_a : ℕ
class_a = 0

abbrev pub class_b2 : ℕ
class_b2 = 2

abbrev pub class_c : ℕ
class_c = 3

-- The limits of docs/abicase-format.md 11.
abbrev pub limit_total_size : ℕ
limit_total_size = 67108864

abbrev pub limit_alloc_count : ℕ
limit_alloc_count = 4096

abbrev pub limit_alloc_bytes : ℕ
limit_alloc_bytes = 16777216

abbrev pub limit_alignment : ℕ
limit_alignment = 4096

abbrev pub limit_tree_depth : ℕ
limit_tree_depth = 64

abbrev pub limit_tree_nodes : ℕ
limit_tree_nodes = 4096

abbrev pub limit_op_count : ℕ
limit_op_count = 4096

-- ABI_ROLE__MAX, ABI_OP__MAX, ABI_VALIDATE_FULL and ABI_EXPECT_UNSPECIFIED.
abbrev pub role_max : ℕ
role_max = 8

abbrev pub op_max : ℕ
op_max = 11

abbrev pub validate_full : ℕ
validate_full = 3

abbrev pub expect_unspecified : ℕ
expect_unspecified = 3
