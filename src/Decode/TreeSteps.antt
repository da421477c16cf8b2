-- ===== src/Decode/TreeSteps.antt =====
-- What the schema and the array reader of libabi/src/decode.c do alike at a node.
use arrow_abi_doctor.Base.{ℕ, ◌+◌, ◌-◌, ◌*◌, ◌≡◌, refl, [], Bool, true, ltb, ◌==◌, if◌then◌else◌}
use arrow_abi_doctor.Status.{limit_exceeded}
use arrow_abi_doctor.Cursor.Monad.{pure}
use arrow_abi_doctor.Cursor.Sound.{Step, Step-pure, Step-bind, Step-if, Step-weaken}
use arrow_abi_doctor.Cursor.Loads.{own}
use arrow_abi_doctor.Cursor.Reads.{fail-Step, position-Step}
use arrow_abi_doctor.Model.{limit_tree_nodes}
use arrow_abi_doctor.Decode.{request, count_node, guard_children}
use arrow_abi_doctor.Decode.SectionSteps.{
  cur_of, on_cur-Step, look-Step, dec_count_guard-Step, request-Step,
}

-- Counting a node takes nothing.
pub count_node-Step : Step cur_of count_node (λ _ bs. bs ≡ [])
unfolding count_node
count_node-Step =
    Step-bind cur_of (look-Step cur_of (λ d. (tt, record d { nodes = d.nodes + 1 })) (λ d. refl))
      λ _. Step-bind cur_of (look-Step cur_of (λ d. (d.nodes, d)) (λ d. refl)) λ nodes.
        Step-if cur_of (ltb limit_tree_nodes nodes)
          (on_cur-Step (Step-bind own position-Step λ at. fail-Step limit_exceeded at _))
          (Step-pure cur_of tt _ λ _ _ e₂ _ e₁. rw (e₁, e₂))

-- The vector of an empty list is not asked for.
pub maybe_vector-Step :
    (arena : ℕ → ℕ → Bool) (count size : ℕ)
    → Step own (if count == 0 then pure tt else request arena size) (λ _ bs. bs ≡ [])
maybe_vector-Step arena count size =
    Step-if own (count == 0) (Step-pure own tt (λ _ bs. (count == 0) ≡ true → bs ≡ []) λ _. refl)
      (Step-weaken own (request-Step arena size) λ _ _ e _. e)

pub guard_children-Step :
    (arena : ℕ → ℕ → Bool) (count : ℕ) → Step cur_of (guard_children arena count) (λ _ bs. bs ≡ [])
unfolding guard_children
guard_children-Step arena count =
    Step-bind cur_of (look-Step cur_of (λ d. (d.nodes, d)) (λ d. refl)) λ nodes.
      Step-bind cur_of (on_cur-Step (dec_count_guard-Step count 4 (limit_tree_nodes - nodes + 1)))
        λ _.
          Step-weaken cur_of (on_cur-Step (maybe_vector-Step arena count (8 * count)))
            λ _ _ e _ e₂ _ e₁. rw (e₁, e₂, e)
