-- ===== src/Validate/Operations.antt =====
-- The rules of libabi/src/validate.c on the call sequence.
use arrow_abi_doctor.Base.{
  ℕ, ◌≤◌, ◌≡◌, ◌⊎◌, inl, inr, arith, false, Option, none, some, ◌==◌, length, All, Bool-cases,
}
use arrow_abi_doctor.Status.{ok}
use arrow_abi_doctor.Model.{AbiSchemaNode, AbiOp, AbiCase, class_c, op_max, limit_op_count}
use arrow_abi_doctor.Validate.{
  val_op, val_ops, val_case, abi_case_validate, is_misuse, op_release_child,
}
use arrow_abi_doctor.Validate.Passes.{Passes, then_val-Passes, val_each-Passes}

-- A known operation: misuse only in class C, an index only where a child is released, and no second
-- argument.
pub Allowed : ℕ → AbiOp → Type 0
Allowed cls op =
    (op.code ≤ op_max)
    × ((is_misuse op.code ≡ false) ⊎ (cls ≡ class_c))
    × ((op.code ≡ op_release_child) ⊎ (op.arg0 ≡ 0))
    × (op.arg1 ≡ 0)

op-Allowed : (cls : ℕ) (op : AbiOp) (n : ℕ) → Passes (val_op cls op) n → Allowed cls op
unfolding val_op Allowed
op-Allowed cls op n h =
    let (known, (n₁, h₁)) = then_val-Passes _ _ n h in
    let (misuse, (n₂, h₂)) = then_val-Passes _ _ n₁ h₁ in
    let (index, (n₃, second)) = then_val-Passes _ _ n₂ h₂ in
    (
      ground arith,
      elim (Bool-cases (is_misuse op.code)) [
        | inl bad ↦ inr (let k = rw bad at misuse in ground arith)
        | inr fine ↦ inl fine
      ],
      elim (Bool-cases (op.code == op_release_child)) [
        | inl child ↦ inl (ground arith)
        | inr other ↦ inr (let k = rw other at index in ground arith)
      ],
      ground arith,
    )

case-Allowed :
    (c : AbiCase) (s : Option AbiSchemaNode)
    → Passes (val_case c s) 0
    → (length c.ops ≤ limit_op_count) × All (Allowed c.cls) c.ops
unfolding val_case val_ops
case-Allowed c none h = let (_, (n₁, h₁)) = then_val-Passes _ _ 0 h in cc
case-Allowed c (some s) h =
    let (_, (n₁, h₁)) = then_val-Passes _ _ 0 h in
    let (_, (n₂, h₂)) = then_val-Passes _ _ n₁ h₁ in
    let (_, (n₃, h₃)) = then_val-Passes _ _ n₂ h₂ in
    let (_, (n₄, h₄)) = then_val-Passes _ _ n₃ h₃ in
    let (_, (n₅, h₅)) = then_val-Passes _ _ n₄ h₄ in
    let (_, (n₆, ops)) = then_val-Passes _ _ n₅ h₅ in
    let (few, (n₇, each_op)) = then_val-Passes _ _ n₆ ops in
    (ground arith, val_each-Passes _ _ (op-Allowed c.cls) c.ops n₇ each_op)

-- A validated case has at most 4096 operations, each of a known code, consumer misuse only in class C,
-- arg0 only where a child is released, and no arg1.
pub validate-Allowed :
    (c : AbiCase)
    → abi_case_validate c ≡ ok
    → (length c.ops ≤ limit_op_count) × All (Allowed c.cls) c.ops
unfolding abi_case_validate
validate-Allowed c h = case-Allowed c c.schema h
