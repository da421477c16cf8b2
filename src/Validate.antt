-- ===== src/Validate.antt =====
-- The validation of libabi/src/validate.c. In the data model no pointer but `bytes`, `array`, `schema`
-- and a dictionary can be NULL, so the guards on the others have no counterpart; the error's text is
-- left out, and its offset is always 0.
pub mod Passes
pub mod Containment
pub mod Operations
pub mod Shapes
use arrow_abi_doctor.Base.{
  ℕ, ◌+◌, ◌-◌, List, [], ◌∷◌, Bool, true, false, not, ◌&&◌, ◌||◌, Option, none, some, ltb, leb,
  ◌==◌, if◌then◌else◌, length, get_elem?, is_some, bit_and,
}
use arrow_abi_doctor.Status.{
  AbiStatus, ok, invalid_argument, limit_exceeded, bad_reference, bad_enum, not_canonical,
  missing_section, class_rule, limit_bytes_len,
}
use arrow_abi_doctor.Model.{
  AbiAllocation, AbiBufferView, AbiMetadataKv, SchemaFields, AbiSchemaNode, SchemaChildren,
  SchemaDictionary, ArrayFields, AbiArrayNode, ArrayChildren, ArrayDictionary, schema_node,
  array_node, schema_count, array_count, AbiOp, AbiProvenance, AbiExpected, AbiCase, class_a,
  class_b2, class_c, limit_alloc_count, limit_alloc_bytes, limit_alignment, limit_tree_depth,
  limit_tree_nodes, limit_op_count, role_max, op_max, validate_full, expect_unspecified,
}

-- A check of the case, with the nodes counted so far.
abbrev pub Val : Type 0
Val = ℕ → AbiStatus × ℕ

-- `if (refused) return val_fail(v, st, ...);`
abbrev pub refuse_if : Bool → AbiStatus → Val
refuse_if refused st nodes = (if refused then st else ok, nodes)

-- `if (st != ABI_OK) return st;`
abbrev pub next : AbiStatus × ℕ → Val → AbiStatus × ℕ
next (ok, nodes) w = w nodes
next (st, nodes) w = (st, nodes)

infixr 30 ◌then_val◌
unfoldable pub ◌then_val◌ : Val → Val → Val
v then_val w = λ nodes. next (v nodes) w

abbrev pub passed : Val
passed nodes = (ok, nodes)

abbrev pub val_each {ℓ} : {A : Type ℓ} → (A → Val) → List A → Val
val_each f [] = passed
val_each f (a ∷ rest) = f a then_val val_each f rest

abbrev pub abi_is_pow2_u32 : ℕ → Bool
abi_is_pow2_u32 x = not (x == 0) && (bit_and x (x - 1) == 0)

abbrev pub class_requires_consistent_counts : ℕ → Bool
class_requires_consistent_counts cls = cls == class_a || (cls == class_b2)

-- An AbiBytes is never NULL, so the test of its pointer is left out.
unfoldable pub val_bytes : List ℕ → Val
val_bytes b = refuse_if (ltb limit_bytes_len (length b)) limit_exceeded

-- `if (++v->nodes > ABI_LIMIT_TREE_NODES)`
unfoldable pub count_val_node : Val
count_val_node nodes = (if ltb limit_tree_nodes (nodes + 1) then limit_exceeded else ok, nodes + 1)

abbrev val_kv : AbiMetadataKv → Val
val_kv kv = val_bytes kv.key then_val val_bytes kv.value

-- `val_schema` up to the children.
unfoldable pub val_schema_fields : ℕ → SchemaFields → ℕ → Val
unfolding val_bytes
val_schema_fields cls f child_count =
    val_bytes f.format
    then_val val_bytes f.name
    then_val refuse_if (ltb 0 (length f.metadata) && not f.has_metadata) invalid_argument
    then_val val_each val_kv f.metadata
    then_val refuse_if (class_requires_consistent_counts cls && not (child_count == f.n_children))
        class_rule

unfoldable mutual
  pub val_schema : ℕ → ℕ → AbiSchemaNode → Val
  val_schema cls depth (schema_node f ns d) =
      refuse_if (ltb limit_tree_depth depth) limit_exceeded
      then_val count_val_node
      then_val val_schema_fields cls f (schema_count ns)
      then_val val_schema_children cls (depth + 1) ns
      then_val val_schema_dictionary cls (depth + 1) d

  pub val_schema_children : ℕ → ℕ → SchemaChildren → Val
  val_schema_children cls depth SchemaChildren.nil = passed
  val_schema_children cls depth (SchemaChildren.cons n ns) =
      val_schema cls depth n then_val val_schema_children cls depth ns

  pub val_schema_dictionary : ℕ → ℕ → SchemaDictionary → Val
  val_schema_dictionary cls depth SchemaDictionary.absent = passed
  val_schema_dictionary cls depth (SchemaDictionary.present n) = val_schema cls depth n

-- A present view lies within the allocation that it names.
unfoldable pub val_extent : Option AbiAllocation → AbiBufferView → Val
val_extent none b = refuse_if true bad_reference
val_extent (some a) b =
    refuse_if
      (ltb a.size_bytes b.byte_offset || ltb (a.size_bytes - b.byte_offset) b.logical_length)
      bad_reference

-- The body of the loop over the buffers.
unfoldable pub val_view : List AbiAllocation → AbiBufferView → Val
unfolding val_extent
val_view allocations b =
    refuse_if (ltb role_max b.role) bad_enum
    then_val refuse_if (ltb 1 b.present) not_canonical
    then_val (if b.present == 0
        then refuse_if
            (not (b.allocation_id == 0)
              || (not (b.byte_offset == 0) || not (b.logical_length == 0)))
            not_canonical
        else val_extent (get_elem? allocations b.allocation_id) b)

-- `val_array` between the node count and the children.
unfoldable pub val_array_fields : ℕ → List AbiAllocation → ArrayFields → ℕ → Val
unfolding val_view
val_array_fields cls allocations f child_count =
    val_each (val_view allocations) f.buffers
    then_val refuse_if
        (class_requires_consistent_counts cls && not (length f.buffers == f.n_buffers)) class_rule
    then_val refuse_if (class_requires_consistent_counts cls && not (child_count == f.n_children))
        class_rule

unfoldable mutual
  pub val_array : ℕ → List AbiAllocation → ℕ → AbiArrayNode → Val
  val_array cls allocations depth (array_node f ns d) =
      refuse_if (ltb limit_tree_depth depth) limit_exceeded
      then_val count_val_node
      then_val val_array_fields cls allocations f (array_count ns)
      then_val val_array_children cls allocations (depth + 1) ns
      then_val val_array_dictionary cls allocations (depth + 1) d

  pub val_array_children : ℕ → List AbiAllocation → ℕ → ArrayChildren → Val
  val_array_children cls allocations depth ArrayChildren.nil = passed
  val_array_children cls allocations depth (ArrayChildren.cons n ns) =
      val_array cls allocations depth n then_val val_array_children cls allocations depth ns

  pub val_array_dictionary : ℕ → List AbiAllocation → ℕ → ArrayDictionary → Val
  val_array_dictionary cls allocations depth ArrayDictionary.absent = passed
  val_array_dictionary cls allocations depth (ArrayDictionary.present n) =
      val_array cls allocations depth n

abbrev pub has_schema_dictionary : SchemaDictionary → Bool
has_schema_dictionary SchemaDictionary.absent = false
has_schema_dictionary (SchemaDictionary.present n) = true

abbrev pub has_array_dictionary : ArrayDictionary → Bool
has_array_dictionary ArrayDictionary.absent = false
has_array_dictionary (ArrayDictionary.present n) = true

-- `!=` on two flags.
abbrev pub differ : Bool → Bool → Bool
differ true b = not b
differ false b = b

-- The loop over the children runs once the counts agree.
unfoldable mutual
  pub val_shapes_agree : AbiSchemaNode → AbiArrayNode → Val
  val_shapes_agree (schema_node f ns d) (array_node g ms e) =
      refuse_if (not (schema_count ns == array_count ms)) class_rule
      then_val refuse_if (differ (has_schema_dictionary d) (has_array_dictionary e)) class_rule
      then_val val_child_shapes ns ms
      then_val val_dictionary_shapes d e

  pub val_child_shapes : SchemaChildren → ArrayChildren → Val
  val_child_shapes (SchemaChildren.cons s ns) (ArrayChildren.cons a ms) =
      val_shapes_agree s a then_val val_child_shapes ns ms
  val_child_shapes SchemaChildren.nil ms = passed
  val_child_shapes (SchemaChildren.cons s ns) ArrayChildren.nil = passed

  pub val_dictionary_shapes : SchemaDictionary → ArrayDictionary → Val
  val_dictionary_shapes (SchemaDictionary.present s) (ArrayDictionary.present a) =
      val_shapes_agree s a
  val_dictionary_shapes SchemaDictionary.absent e = passed
  val_dictionary_shapes (SchemaDictionary.present s) ArrayDictionary.absent = passed

-- ABI_OP_RELEASE_CHILD, ABI_OP_RELEASE_DICTIONARY and ABI_OP_USE_AFTER_RELEASE.
abbrev pub op_release_child : ℕ
op_release_child = 7

abbrev pub op_release_dictionary : ℕ
op_release_dictionary = 8

abbrev pub op_use_after_release : ℕ
op_use_after_release = 10

abbrev pub is_misuse : ℕ → Bool
is_misuse code =
    code == op_release_child || (code == op_release_dictionary || (code == op_use_after_release))

unfoldable pub val_op : ℕ → AbiOp → Val
val_op cls op =
    refuse_if (ltb op_max op.code) bad_enum
    then_val refuse_if (is_misuse op.code && not (cls == class_c)) class_rule
    then_val refuse_if (not (op.code == op_release_child) && not (op.arg0 == 0)) not_canonical
    then_val refuse_if (not (op.arg1 == 0)) not_canonical

unfoldable pub val_ops : ℕ → List AbiOp → Val
unfolding val_op
val_ops cls ops =
    refuse_if (ltb limit_op_count (length ops)) limit_exceeded then_val val_each (val_op cls) ops

unfoldable pub val_allocation : AbiAllocation → Val
val_allocation a =
    refuse_if (ltb limit_alloc_bytes a.size_bytes) limit_exceeded
    then_val refuse_if (not (abi_is_pow2_u32 a.alignment) || ltb limit_alignment a.alignment)
        invalid_argument
    then_val refuse_if (differ (a.size_bytes == 0) (not (is_some a.bytes))) invalid_argument

unfoldable pub val_expected : AbiExpected → Val
unfolding val_bytes
val_expected e =
    refuse_if (ltb validate_full e.validation_level) bad_enum
    then_val refuse_if (ltb expect_unspecified e.expected_outcome) bad_enum
    then_val val_bytes e.spec_clause
    then_val val_bytes e.notes

unfoldable pub val_provenance : AbiProvenance → Val
unfolding val_bytes
val_provenance p =
    val_bytes p.rng_algorithm
    then_val val_bytes p.generator_version
    then_val val_bytes p.abi_doctor_version
    then_val val_bytes p.spec_revision

-- `v.nodes = 0`
abbrev pub from_zero : Val → Val
from_zero w nodes = w 0

unfoldable pub val_trees : AbiCase → AbiSchemaNode → Option AbiArrayNode → Val
val_trees c s none = from_zero (val_schema c.cls 0 s)
val_trees c s (some a) =
    from_zero (val_schema c.cls 0 s)
    then_val from_zero (val_array c.cls c.allocations 0 a)
    then_val (if class_requires_consistent_counts c.cls then val_shapes_agree s a else passed)

unfoldable pub val_case : AbiCase → Option AbiSchemaNode → Val
unfolding val_allocation val_expected val_provenance val_trees val_ops
val_case c none = refuse_if (ltb class_c c.cls) bad_enum then_val refuse_if true missing_section
val_case c (some s) =
    refuse_if (ltb class_c c.cls) bad_enum
    then_val refuse_if (ltb limit_alloc_count (length c.allocations)) limit_exceeded
    then_val val_each val_allocation c.allocations
    then_val val_expected c.expected
    then_val val_provenance c.provenance
    then_val val_trees c s c.array
    then_val val_ops c.cls c.ops

unfoldable pub abi_case_validate : AbiCase → AbiStatus
unfolding val_case
abi_case_validate c = (val_case c c.schema 0).0
