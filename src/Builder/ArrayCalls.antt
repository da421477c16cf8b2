-- ===== src/Builder/ArrayCalls.antt =====
-- The calls of the builder of libabi/src/case.c on array nodes keep what a case is bounded by.
use arrow_abi_doctor.Base.{
  ℕ, ◌≤◌, ◌≡◌, arith, [], ◌∷◌, ◌++◌, not, Option, none, some, get_elem?, All, All-append, is_some,
  ltb, if_cases, elim_cases,
}
use arrow_abi_doctor.Status.{AbiStatus}
use arrow_abi_doctor.Model.{AbiBufferView, limit_tree_nodes, role_max}
use arrow_abi_doctor.Arena.{AbiArena, abi_arena_alloc}
use arrow_abi_doctor.Builder.{ArrayCell, Builder, abi_vec_grow}
use arrow_abi_doctor.Builder.Array.{
  on_array, new_array_cell, element_added, buffer_added, abi_array_new, abi_array_push_buffer,
  abi_array_add_buffer, abi_array_add_null_buffer, abi_array_add_child,
}
use arrow_abi_doctor.Builder.Limits.{
  abi_vec_grow-Grown, push-IsVec, All-update, All-get, IsArrayCell, AreBounded, IsBounded,
}

-- A store to a node that keeps what a node has to be.
pub on_array-IsBounded :
    (i : ℕ) (f : ArrayCell → ArrayCell) (b : Builder)
    → ((n : ArrayCell) → IsArrayCell n → IsArrayCell (f n))
    → IsBounded b
    → IsBounded (on_array i f b)
unfolding AreBounded on_array
on_array-IsBounded i f b keep (wa, wo, ws, wr) =
    (wa, wo, ws, All-update IsArrayCell f i b.arrays keep wr)

array_cell-lem :
    (i : ℕ) (n : ArrayCell) (b : Builder)
    → IsBounded b
    → get_elem? b.arrays i ≡ some n
    → IsArrayCell n
unfolding AreBounded
array_cell-lem i n b (wa, wo, ws, wr) e = All-get IsArrayCell i b.arrays n wr e

new_element-IsBounded :
    (b : Builder) (a : AbiArena)
    → IsBounded b
    → IsBounded (record b { arrays = b.arrays ++ (new_array_cell ∷ []); arena = a })
unfolding AreBounded
new_element-IsBounded b a (wa, wo, ws, wr) =
    let empty : IsArrayCell new_array_cell =
      ((omega arith, omega arith), tt, (omega arith, omega arith)) in
    (wa, wo, ws, All-append IsArrayCell b.arrays _ wr (empty, tt))

abbrev P : AbiStatus × Builder → Type 0
P r = IsBounded r.1

module _ (malloc : ℕ → ℕ → Option ℕ) where
  pub array_new-IsBounded : (b : Builder) → IsBounded b → IsBounded (abi_array_new malloc b).1
  unfolding abi_array_new
  array_new-IsBounded b w =
      let answer = abi_arena_alloc malloc 72 8 b.arena in
      if_cases {A = Option ℕ × Builder} (λ r. IsBounded r.1) (is_some answer.0) _ _
        (λ _. new_element-IsBounded b answer.1 w) (λ _. w)

  push_buffer-IsBounded :
      (i : ℕ) (view : AbiBufferView) (b : Builder)
      → view.role ≤ role_max
      → IsBounded b
      → IsBounded (abi_array_push_buffer malloc i view b).1
  unfolding abi_array_push_buffer
  push_buffer-IsBounded i view b known w =
      elim_cases P (get_elem? b.arrays i) _ _ (λ _. w)
        λ n e.
          let (vec₀, roles, _) = array_cell-lem i n b w e in
          let (same, vec, room) =
            abi_vec_grow-Grown malloc 24 8 limit_tree_nodes n.buffers b.arena (omega arith) vec₀ in
          let grown = abi_vec_grow malloc 24 8 limit_tree_nodes n.buffers b.arena in
          let roles' : All (λ (v : AbiBufferView). v.role ≤ role_max) grown.1.items =
            rw same roles in
          if_cases P grown.0 _ _
            (λ good.
              on_array-IsBounded i (buffer_added view grown.1) (record b { arena = grown.2 })
                (λ m h. (
                  push-IsVec limit_tree_nodes view grown.1 (rw same (room good)) vec.1,
                  All-append _ grown.1.items _ roles' (known, tt),
                  h.2,
                ))
                w)
            (λ _. w)

  pub add_buffer-IsBounded :
      (i role id offset size : ℕ) (b : Builder)
      → IsBounded b
      → IsBounded (abi_array_add_buffer malloc i role id offset size b).1
  unfolding abi_array_add_buffer
  add_buffer-IsBounded i role id offset size b w =
      if_cases P (not (is_some (get_elem? b.arrays i))) _ _ (λ _. w)
        λ _.
          if_cases P (ltb role_max role) _ _ (λ _. w)
            (λ known. push_buffer-IsBounded i _ b (ground arith) w)

  pub add_null_buffer-IsBounded :
      (i role : ℕ) (b : Builder)
      → IsBounded b
      → IsBounded (abi_array_add_null_buffer malloc i role b).1
  unfolding abi_array_add_null_buffer
  add_null_buffer-IsBounded i role b w =
      if_cases P (not (is_some (get_elem? b.arrays i))) _ _ (λ _. w)
        λ _.
          if_cases P (ltb role_max role) _ _ (λ _. w)
            (λ known. push_buffer-IsBounded i _ b (ground arith) w)

  pub array_add_child-IsBounded :
      (parent child : Option ℕ) (b : Builder)
      → IsBounded b
      → IsBounded (abi_array_add_child malloc parent child b).1
  unfolding abi_array_add_child
  array_add_child-IsBounded none child b w = w
  array_add_child-IsBounded (some i) child b w =
      elim_cases P (get_elem? b.arrays i) _ _ (λ _. w)
        λ n e.
          elim_cases P child _ _ (λ _. w)
            λ j _.
              let (same, vec, room) =
                abi_vec_grow-Grown malloc 8 8 limit_tree_nodes n.children b.arena (omega arith)
                  (array_cell-lem i n b w e).2 in
              let grown = abi_vec_grow malloc 8 8 limit_tree_nodes n.children b.arena in
              if_cases P grown.0 _ _
                (λ good.
                  on_array-IsBounded i (element_added j grown.1) (record b { arena = grown.2 })
                    (λ m h.
                      (h.0, h.1, push-IsVec limit_tree_nodes j grown.1 (rw same (room good)) vec.1))
                    w)
                (λ _. w)
