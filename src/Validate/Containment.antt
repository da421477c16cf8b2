-- ===== src/Validate/Containment.antt =====
-- The containment rule of libabi/src/validate.c: a validated case never makes the tool form a pointer
-- outside an allocation.
use mathlib.Core.Path.{subst}
use arrow_abi_doctor.Base.{
  ℕ, ◌+◌, ◌≤◌, ◌≡◌, refl, arith, List, [], ◌++◌, Option, none, some, ◌==◌, get_elem?, All,
  All-append, Bool-cases, inl, inr, ◌⊎◌,
}
use arrow_abi_doctor.Status.{ok}
use arrow_abi_doctor.Model.{
  AbiAllocation, AbiBufferView, AbiSchemaNode, AbiArrayNode, ArrayChildren, ArrayDictionary,
  array_node, AbiCase,
}
use arrow_abi_doctor.Validate.{
  val_extent, val_view, val_array_fields, val_array, val_array_children, val_array_dictionary,
  val_trees, val_case, abi_case_validate,
}
use arrow_abi_doctor.Validate.Passes.{Passes, then_val-Passes, val_each-Passes}

-- An absent view carries no numbers; a present one lies within the allocation that it names.
pub Inside : List AbiAllocation → AbiBufferView → Type 0
Inside allocations v =
    ((v.present ≡ 0) × (v.allocation_id ≡ 0) × (v.byte_offset ≡ 0) × (v.logical_length ≡ 0))
    ⊎ ((v.present ≡ 1)
        × ((a : AbiAllocation) × (get_elem? allocations v.allocation_id ≡ some a)
            × (v.byte_offset + v.logical_length ≤ a.size_bytes)))

-- All the views of a tree.
unfoldable mutual
  pub array_views : AbiArrayNode → List AbiBufferView
  array_views (array_node f ns d) = f.buffers ++ (children_views ns ++ dictionary_views d)

  children_views : ArrayChildren → List AbiBufferView
  children_views ArrayChildren.nil = []
  children_views (ArrayChildren.cons n ns) = array_views n ++ children_views ns

  dictionary_views : ArrayDictionary → List AbiBufferView
  dictionary_views ArrayDictionary.absent = []
  dictionary_views (ArrayDictionary.present n) = array_views n

extent-lem :
    (o : Option AbiAllocation) (v : AbiBufferView) (n : ℕ)
    → Passes (val_extent o v) n
    → (a : AbiAllocation) × (o ≡ some a) × (v.byte_offset + v.logical_length ≤ a.size_bytes)
unfolding val_extent
extent-lem none v n h = cc
extent-lem (some a) v n h = (a, refl, ground arith)

view-Inside :
    (allocations : List AbiAllocation) (v : AbiBufferView) (n : ℕ)
    → Passes (val_view allocations v) n
    → Inside allocations v
unfolding val_view Inside
view-Inside allocations v n h =
    let (_, (m, h₁)) = then_val-Passes _ _ n h in
    let (_, (k, h₂)) = then_val-Passes _ _ m h₁ in
    elim (Bool-cases (v.present == 0)) [
      | inl absent ↦ inl (let h₃ = rw absent at h₂ in ground arith)
      | inr there ↦ inr (
        let (flag, _) = then_val-Passes _ _ m h₁ in ground arith,
        extent-lem (get_elem? allocations v.allocation_id) v k (rw there at h₂),
      )
    ]

mutual
  unfolding val_array val_array_fields array_views

  array-Inside :
      (cls : ℕ) (allocations : List AbiAllocation) (depth : ℕ) (a : AbiArrayNode) (n : ℕ)
      → Passes (val_array cls allocations depth a) n
      → All (Inside allocations) (array_views a)
  array-Inside cls allocations depth (array_node f ns d) n h =
      let (_, (n₁, h₁)) = then_val-Passes _ _ n h in
      let (_, (n₂, h₂)) = then_val-Passes _ _ n₁ h₁ in
      let (fields, (n₃, h₃)) = then_val-Passes _ _ n₂ h₂ in
      let (children, (n₄, dictionary)) = then_val-Passes _ _ n₃ h₃ in
      let (views, _) = then_val-Passes _ _ n₂ fields in
      All-append _ f.buffers _ (val_each-Passes _ _ (view-Inside allocations) f.buffers n₂ views) (
        All-append _ (children_views ns) _
          (children-Inside cls allocations (depth + 1) ns n₃ children)
          (dictionary-Inside cls allocations (depth + 1) d n₄ dictionary))

  children-Inside :
      (cls : ℕ) (allocations : List AbiAllocation) (depth : ℕ) (ns : ArrayChildren) (n : ℕ)
      → Passes (val_array_children cls allocations depth ns) n
      → All (Inside allocations) (children_views ns)
  children-Inside cls allocations depth ArrayChildren.nil n h = tt
  children-Inside cls allocations depth (ArrayChildren.cons a ns) n h =
      let (first, (m, rest)) = then_val-Passes _ _ n h in
      All-append _ (array_views a) _ (array-Inside cls allocations depth a n first)
        (children-Inside cls allocations depth ns m rest)

  dictionary-Inside :
      (cls : ℕ) (allocations : List AbiAllocation) (depth : ℕ) (d : ArrayDictionary) (n : ℕ)
      → Passes (val_array_dictionary cls allocations depth d) n
      → All (Inside allocations) (dictionary_views d)
  dictionary-Inside cls allocations depth ArrayDictionary.absent n h = tt
  dictionary-Inside cls allocations depth (ArrayDictionary.present a) n h =
      array-Inside cls allocations depth a n h

trees-Inside :
    (c : AbiCase) (s : AbiSchemaNode) (o : Option AbiArrayNode) (a : AbiArrayNode) (n : ℕ)
    → Passes (val_trees c s o) n
    → o ≡ some a
    → All (Inside c.allocations) (array_views a)
unfolding val_trees
trees-Inside c s none a n h e = cc
trees-Inside c s (some b) a n h e =
    let (_, (m, h₁)) = then_val-Passes _ _ n h in
    let (arrays, _) = then_val-Passes _ _ m h₁ in
    let inside = array-Inside c.cls c.allocations 0 b 0 arrays in
    subst (λ x. All (Inside c.allocations) (array_views x)) (let same : b ≡ a = cc in same) inside

case-Inside :
    (c : AbiCase) (s : Option AbiSchemaNode) (a : AbiArrayNode)
    → Passes (val_case c s) 0
    → c.array ≡ some a
    → All (Inside c.allocations) (array_views a)
unfolding val_case
case-Inside c none a h e = let (_, (n₁, h₁)) = then_val-Passes _ _ 0 h in cc
case-Inside c (some s) a h e =
    let (_, (n₁, h₁)) = then_val-Passes _ _ 0 h in
    let (_, (n₂, h₂)) = then_val-Passes _ _ n₁ h₁ in
    let (_, (n₃, h₃)) = then_val-Passes _ _ n₂ h₂ in
    let (_, (n₄, h₄)) = then_val-Passes _ _ n₃ h₃ in
    let (_, (n₅, h₅)) = then_val-Passes _ _ n₄ h₄ in
    let (trees, _) = then_val-Passes _ _ n₅ h₅ in trees-Inside c s c.array a n₅ trees e

-- A validated case with an array has every present buffer view inside an allocation of the case, and
-- no absent view carries numbers, whatever the class.
pub validate-Inside :
    (c : AbiCase) (a : AbiArrayNode)
    → abi_case_validate c ≡ ok
    → c.array ≡ some a
    → All (Inside c.allocations) (array_views a)
unfolding abi_case_validate
validate-Inside c a h e = case-Inside c c.schema a h e
