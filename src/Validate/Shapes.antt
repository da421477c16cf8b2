-- ===== src/Validate/Shapes.antt =====
-- The rule of libabi/src/validate.c that the array tree mirrors the schema tree.
use arrow_abi_doctor.Base.{ℕ, ◌≡◌, ◌⊎◌, refl, arith, Bool, true, false, ◌&&◌, Option, none, some}
use arrow_abi_doctor.Status.{ok}
use arrow_abi_doctor.Model.{
  AbiSchemaNode, SchemaChildren, SchemaDictionary, AbiArrayNode, ArrayChildren, ArrayDictionary,
  schema_node, array_node, schema_count, array_count, AbiCase, class_a, class_b2,
}
use arrow_abi_doctor.Validate.{
  val_shapes_agree, val_child_shapes, val_dictionary_shapes, val_trees, val_case, abi_case_validate,
  has_schema_dictionary, has_array_dictionary, differ, class_requires_consistent_counts,
}
use arrow_abi_doctor.Validate.Passes.{Passes, then_val-Passes}

-- The two trees branch alike, dictionaries included.
unfoldable mutual
  pub same_shape : AbiSchemaNode → AbiArrayNode → Bool
  same_shape (schema_node f ns d) (array_node g ms e) = same_children ns ms && same_dictionary d e

  same_children : SchemaChildren → ArrayChildren → Bool
  same_children SchemaChildren.nil ArrayChildren.nil = true
  same_children (SchemaChildren.cons s ns) (ArrayChildren.cons a ms) =
      same_shape s a && same_children ns ms
  same_children SchemaChildren.nil (ArrayChildren.cons a ms) = false
  same_children (SchemaChildren.cons s ns) ArrayChildren.nil = false

  same_dictionary : SchemaDictionary → ArrayDictionary → Bool
  same_dictionary SchemaDictionary.absent ArrayDictionary.absent = true
  same_dictionary (SchemaDictionary.present s) (ArrayDictionary.present a) = same_shape s a
  same_dictionary SchemaDictionary.absent (ArrayDictionary.present a) = false
  same_dictionary (SchemaDictionary.present s) ArrayDictionary.absent = false

both : (a b : Bool) → a ≡ true → b ≡ true → (a && b) ≡ true
both true b h k = k
both false b h k = h

mutual
  unfolding val_shapes_agree same_shape

  shapes-same :
      (s : AbiSchemaNode) (a : AbiArrayNode) (n : ℕ)
      → Passes (val_shapes_agree s a) n
      → same_shape s a ≡ true
  shapes-same (schema_node f ns d) (array_node g ms e) n h =
      let (counts, (n₁, h₁)) = then_val-Passes _ _ n h in
      let (flags, (n₂, h₂)) = then_val-Passes _ _ n₁ h₁ in
      let (children, (n₃, dictionary)) = then_val-Passes _ _ n₂ h₂ in
      both (same_children ns ms) (same_dictionary d e)
        (children-same ns ms n₂ (ground arith) children)
        (dictionary-same d e n₃ (ground arith) dictionary)

  children-same :
      (ns : SchemaChildren) (ms : ArrayChildren) (n : ℕ)
      → schema_count ns ≡ array_count ms
      → Passes (val_child_shapes ns ms) n
      → same_children ns ms ≡ true
  children-same SchemaChildren.nil ArrayChildren.nil n e h = refl
  children-same SchemaChildren.nil (ArrayChildren.cons a ms) n e h = ground arith
  children-same (SchemaChildren.cons s ns) ArrayChildren.nil n e h = ground arith
  children-same (SchemaChildren.cons s ns) (ArrayChildren.cons a ms) n e h =
      let (first, (m, rest)) = then_val-Passes _ _ n h in
      both (same_shape s a) (same_children ns ms) (shapes-same s a n first)
        (children-same ns ms m (omega (arith, e)) rest)

  dictionary-same :
      (d : SchemaDictionary) (e : ArrayDictionary) (n : ℕ)
      → differ (has_schema_dictionary d) (has_array_dictionary e) ≡ false
      → Passes (val_dictionary_shapes d e) n
      → same_dictionary d e ≡ true
  dictionary-same SchemaDictionary.absent ArrayDictionary.absent n f h = refl
  dictionary-same SchemaDictionary.absent (ArrayDictionary.present a) n f h = cc
  dictionary-same (SchemaDictionary.present s) ArrayDictionary.absent n f h = cc
  dictionary-same (SchemaDictionary.present s) (ArrayDictionary.present a) n f h =
      shapes-same s a n h

trees-same :
    (c : AbiCase) (s : AbiSchemaNode) (o : Option AbiArrayNode) (a : AbiArrayNode) (n : ℕ)
    → class_requires_consistent_counts c.cls ≡ true
    → Passes (val_trees c s o) n
    → o ≡ some a
    → same_shape s a ≡ true
unfolding val_trees
trees-same c s none a n strict h e = cc
trees-same c s (some b) a n strict h e =
    let (_, (m, h₁)) = then_val-Passes _ _ n h in
    let (_, (k, h₂)) = then_val-Passes _ _ m h₁ in
    let same : b ≡ a = cc in rw (same) at (shapes-same s b k (rw strict at h₂))

case-same :
    (c : AbiCase) (o : Option AbiSchemaNode) (s : AbiSchemaNode) (a : AbiArrayNode)
    → class_requires_consistent_counts c.cls ≡ true
    → Passes (val_case c o) 0
    → o ≡ some s
    → c.array ≡ some a
    → same_shape s a ≡ true
unfolding val_case
case-same c none s a strict h e f = cc
case-same c (some t) s a strict h e f =
    let (_, (n₁, h₁)) = then_val-Passes _ _ 0 h in
    let (_, (n₂, h₂)) = then_val-Passes _ _ n₁ h₁ in
    let (_, (n₃, h₃)) = then_val-Passes _ _ n₂ h₂ in
    let (_, (n₄, h₄)) = then_val-Passes _ _ n₃ h₃ in
    let (_, (n₅, h₅)) = then_val-Passes _ _ n₄ h₄ in
    let (trees, _) = then_val-Passes _ _ n₅ h₅ in
    let same : t ≡ s = cc in rw (same) at (trees-same c t c.array a n₅ strict trees f)

-- In a validated case of class A or B2 with a schema and an array, the two trees branch alike.
pub validate-same_shape :
    (c : AbiCase) (s : AbiSchemaNode) (a : AbiArrayNode)
    → abi_case_validate c ≡ ok
    → (c.cls ≡ class_a) ⊎ (c.cls ≡ class_b2)
    → c.schema ≡ some s
    → c.array ≡ some a
    → same_shape s a ≡ true
unfolding abi_case_validate
validate-same_shape c s a h cls e f =
    let strict : class_requires_consistent_counts c.cls ≡ true = ground arith in
    case-same c c.schema s a strict h e f
