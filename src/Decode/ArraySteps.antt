-- ===== src/Decode/ArraySteps.antt =====
-- The array tree reader of libabi/src/decode.c accepts nothing but what docs/abicase-format.md says.
use arrow_abi_doctor.Base.{
  ℕ, zero, suc, ◌-◌, ◌*◌, ◌≤◌, ◌≡◌, refl, arith, [], ◌∷◌, ◌++◌, append-nil, Bool, ltb, ◌==◌, All,
  replicate,
}
use arrow_abi_doctor.Status.{limit_exceeded, bad_enum}
use arrow_abi_doctor.Cursor.Monad.{M}
use arrow_abi_doctor.Cursor.Sound.{Step, Step-pure, Step-bind, Step-if}
use arrow_abi_doctor.Cursor.Loads.{own, u8-Step, u32-Step, u64-Step}
use arrow_abi_doctor.Cursor.Reads.{
  fail-Step, position-Step, check-Step, i64-Step, bool-Step, zeros-Step,
}
use arrow_abi_doctor.Model.{
  AbiBufferView, AbiArrayNode, ArrayChildren, ArrayDictionary, array_node, array_count,
  limit_tree_nodes, role_max,
}
use arrow_abi_doctor.Format.{
  view_bytes, array_fields_bytes, array_bytes, arrays_bytes, array_dict_bytes,
}
use arrow_abi_doctor.Decode.{AbiDec}
use arrow_abi_doctor.Decode.SectionSteps.{
  cur_of, on_cur-Step, look-Step, dec_count_guard-Step, request-Step, read_each-Step,
}
use arrow_abi_doctor.Decode.TreeSteps.{count_node-Step, maybe_vector-Step, guard_children-Step}
use arrow_abi_doctor.Decode.Array.{
  dec_view_tail, dec_view, add_buffers, dec_array_fields, read_array_children,
  read_array_dictionary, dec_array_node,
}

-- The two forms of a view: without a buffer its three numbers are zero.
ViewForm : AbiBufferView → Type 0
ViewForm v =
    (v.role ≤ role_max)
    × (v.present ≤ 1)
    × (v.present ≡ 0 → (v.allocation_id ≡ 0) × (v.byte_offset ≡ 0) × (v.logical_length ≡ 0))

dec_view_tail-Step :
    (role present : ℕ)
    → Step own (dec_view_tail role present) (λ v bs.
      role ≤ role_max
      → present ≤ 1
      → ((role ∷ []) ++ ((present ∷ []) ++ (replicate 2 0 ++ bs)) ≡ view_bytes v) × ViewForm v)
unfolding dec_view_tail view_bytes ViewForm
dec_view_tail-Step role present =
    Step-if own (present == 0)
      (Step-pure own
        (record {
          role = role;
          present = present;
          allocation_id = 0;
          byte_offset = 0;
          logical_length = 0;
        })
        _ λ missing r p. (rw missing refl, (r, p, λ _. (refl, refl, refl))))
      (Step-bind own u32-Step λ id. Step-bind own u64-Step λ offset. Step-bind own u64-Step λ len.
        Step-pure own
          (record {
            role = role;
            present = present;
            allocation_id = id;
            byte_offset = offset;
            logical_length = len;
          })
          _
          λ _ (e₃, _) _ (e₂, _) _ (e₁, _) there r p.
            (rw (there, e₁, e₂, e₃, append-nil), (r, p, λ z. ground arith)))

dec_view-Step : Step own dec_view (λ v bs. (bs ≡ view_bytes v) × ViewForm v)
unfolding dec_view
dec_view-Step = Step-bind own position-Step λ at. Step-bind own u8-Step λ role.
    Step-bind own check-Step λ _. Step-if own (ltb role_max role) (fail-Step bad_enum at _) (
      Step-bind own bool-Step λ present. Step-bind own (zeros-Step 2) λ _.
        Step-bind own (dec_view_tail-Step role present) λ v. Step-bind own check-Step λ _.
          Step-pure own v _ λ _ e₇ _ view _ e₅ _ (e₄, flag) known _ e₃ _ (e₂, _) _ e₁.
            let (stored, ok) = view (ground arith) flag in
            (rw (e₁, e₂, e₃, e₄, e₅, e₇, append-nil) stored, ok))

module _ (arena : ℕ → ℕ → Bool) where
  fields-Step :
      Step cur_of
        (dec_array_fields arena)
        (λ f bs. (bs ≡ array_fields_bytes f) × All ViewForm f.buffers)
  unfolding dec_array_fields array_fields_bytes
  fields-Step = Step-bind cur_of (on_cur-Step i64-Step) λ len.
      Step-bind cur_of (on_cur-Step i64-Step) λ null_count.
        Step-bind cur_of (on_cur-Step i64-Step) λ offset.
          Step-bind cur_of (on_cur-Step u32-Step) λ n_buffers.
            Step-bind cur_of (on_cur-Step u32-Step) λ count.
              Step-bind cur_of (on_cur-Step check-Step) λ _.
                Step-bind cur_of (look-Step cur_of (λ d. (d.buffers, d)) (λ d. refl)) λ seen.
                  Step-bind cur_of
                    (on_cur-Step (dec_count_guard-Step count 4 (limit_tree_nodes - seen)))
                    λ _. Step-bind cur_of (look-Step cur_of (add_buffers count) (λ d. refl)) λ _.
                      Step-bind cur_of (on_cur-Step (maybe_vector-Step arena count (24 * count)))
                        λ _.
                          Step-bind cur_of
                            (on_cur-Step
                              (read_each-Step own dec_view view_bytes ViewForm dec_view-Step count))
                            λ buffers. Step-bind cur_of (on_cur-Step u32-Step) λ n_children.
                              Step-pure cur_of
                                (record {
                                  length = len;
                                  null_count = null_count;
                                  offset = offset;
                                  n_buffers = n_buffers;
                                  buffers = buffers;
                                  n_children = n_children;
                                })
                                _
                                λ _ (e₁₂, _) _ (e₁₁, size, views) _ e₁₀ _ e₉ _ e₈ _ e₇ _ e₆ _
                                    (e₅, _) _ (e₄, _) _ (e₃, _) _ (e₂, _) _ (e₁, _).
                                  (
                                    rw (
                                      e₁, e₂, e₃, e₄, e₅, e₆, e₇, e₈, e₉, e₁₀, e₁₁, e₁₂, append-nil,
                                      size,
                                    ),
                                    views,
                                  )

  children-Step :
      (node : M AbiDec AbiArrayNode)
      → Step cur_of node (λ n bs. bs ≡ array_bytes n)
      → (count : ℕ)
      → Step cur_of
          (read_array_children arena count node)
          (λ ns bs. (bs ≡ arrays_bytes ns) × (array_count ns ≡ count))
  unfolding read_array_children arrays_bytes
  children-Step node t zero = Step-pure cur_of ArrayChildren.nil _ (refl, refl)
  children-Step node t (suc count) = Step-bind cur_of t λ child.
      Step-bind cur_of (children-Step node t count) λ rest.
        Step-pure cur_of (ArrayChildren.cons child rest) _
          λ _ (e₂, len) _ e₁. (rw (e₁, e₂, append-nil), omega (arith, len))

  dictionary-Step :
      (node : M AbiDec AbiArrayNode)
      → Step cur_of node (λ n bs. bs ≡ array_bytes n)
      → (has_dict : ℕ)
      → Step cur_of
          (read_array_dictionary arena has_dict node)
          (λ d bs. has_dict ≤ 1 → has_dict ∷ bs ≡ array_dict_bytes d)
  unfolding read_array_dictionary array_dict_bytes
  dictionary-Step node t has_dict =
      Step-if cur_of (has_dict == 0)
        (Step-pure cur_of ArrayDictionary.absent _
          λ zero_flag flag. let none_here : has_dict ≡ 0 = ground arith in rw none_here)
        (Step-bind cur_of t λ n.
          Step-pure cur_of (ArrayDictionary.present n) _
            λ _ e some_flag flag. let one : has_dict ≡ 1 = ground arith in rw (one, e, append-nil))

  -- An accepted array tree is the encoding of the tree it gives.
  pub dec_array_node-Step :
      (left : ℕ) → Step cur_of (dec_array_node arena left) (λ n bs. bs ≡ array_bytes n)
  unfolding dec_array_node array_bytes
  dec_array_node-Step zero = Step-bind cur_of (on_cur-Step check-Step) λ _.
      Step-bind cur_of (on_cur-Step position-Step) λ at. on_cur-Step (fail-Step limit_exceeded at _)
  dec_array_node-Step (suc left) = Step-bind cur_of (on_cur-Step check-Step) λ _.
      Step-bind cur_of count_node-Step λ _.
        Step-bind cur_of (on_cur-Step (request-Step arena 72)) λ _.
          Step-bind cur_of fields-Step λ fields. Step-bind cur_of (on_cur-Step u32-Step) λ count.
            Step-bind cur_of (on_cur-Step check-Step) λ _.
              Step-bind cur_of (guard_children-Step arena count) λ _.
                Step-bind cur_of (children-Step _ (dec_array_node-Step left) count) λ children.
                  Step-bind cur_of (on_cur-Step bool-Step) λ has_dict.
                    Step-bind cur_of (dictionary-Step _ (dec_array_node-Step left) has_dict)
                      λ dictionary.
                        Step-pure cur_of (array_node fields children dictionary) _
                          λ _ dict _ (e₉, flag) _ (e₈, len) _ e₇ _ e₆ _ (e₅, _) _ (e₄, _) _ e₃ _ e₂
                              _ e₁.
                            rw (e₁, e₂, e₃, e₄, e₅, e₆, e₇, e₈, e₉, append-nil, len, dict flag)
