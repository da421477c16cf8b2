-- ===== src/Builder/Array.antt =====
-- The array nodes of the builder, libabi/src/case.c. A pointer to a node is its number; NULL is the
-- number of no node, or none.
use arrow_abi_doctor.Base.{
  ℕ, ◌+◌, [], ◌∷◌, ◌++◌, Option, none, some, length, get_elem?, ltb, not, is_some, if◌then◌else◌,
}
use arrow_abi_doctor.Status.{AbiStatus, ok, invalid_argument, no_memory, bad_enum}
use arrow_abi_doctor.Model.{AbiBufferView, limit_tree_nodes, role_max}
use arrow_abi_doctor.Arena.{abi_arena_alloc}
use arrow_abi_doctor.Builder.{AbiVec, empty_vec, push, ArrayCell, Builder, update_at, abi_vec_grow}

unfoldable pub on_array : ℕ → (ArrayCell → ArrayCell) → Builder → Builder
unfolding update_at
on_array i f b = record b { arrays = update_at i f b.arrays }

-- What `abi_arena_calloc` leaves of a node; length, null_count and offset are set directly.
abbrev pub new_array_cell : ArrayCell
new_array_cell = record {
  n_buffers = 0;
  buffers = empty_vec;
  n_children = 0;
  children = empty_vec;
  dictionary = none;
}

abbrev pub element_added : ℕ → AbiVec ℕ → ArrayCell → ArrayCell
element_added child v n = record n { children = push child v; n_children = length v.items + 1 }

abbrev pub buffer_added : AbiBufferView → AbiVec AbiBufferView → ArrayCell → ArrayCell
buffer_added view v n = record n { buffers = push view v; n_buffers = length v.items + 1 }

module _ (malloc : ℕ → ℕ → Option ℕ) where
  unfoldable pub abi_array_new : Builder → Option ℕ × Builder
  unfolding abi_arena_alloc
  abi_array_new b =
      let (p, a) = abi_arena_alloc malloc 72 8 b.arena in
      if is_some p
      then (
        some (length b.arrays),
        record b { arrays = b.arrays ++ (new_array_cell ∷ []); arena = a },
      )
      else (none, record b { arena = a })

  unfoldable pub abi_array_push_buffer : ℕ → AbiBufferView → Builder → AbiStatus × Builder
  unfolding abi_vec_grow
  abi_array_push_buffer i view b = elim (get_elem? b.arrays i) [
    | none ↦ (invalid_argument, b)
    | some n ↦
        let (good, v, a) = abi_vec_grow malloc 24 8 limit_tree_nodes n.buffers b.arena in
        let b' = record b { arena = a } in
        if good then (ok, on_array i (buffer_added view v) b') else (no_memory, b')
  ]

  unfoldable pub abi_array_add_buffer : ℕ → ℕ → ℕ → ℕ → ℕ → Builder → AbiStatus × Builder
  unfolding abi_array_push_buffer
  abi_array_add_buffer i role allocation_id byte_offset logical_length b =
      if not (is_some (get_elem? b.arrays i))
      then (invalid_argument, b)
      else if ltb role_max role
      then (bad_enum, b)
      else abi_array_push_buffer i
          (record {
            role = role;
            present = 1;
            allocation_id = allocation_id;
            byte_offset = byte_offset;
            logical_length = logical_length;
          })
          b

  unfoldable pub abi_array_add_null_buffer : ℕ → ℕ → Builder → AbiStatus × Builder
  unfolding abi_array_push_buffer
  abi_array_add_null_buffer i role b =
      if not (is_some (get_elem? b.arrays i))
      then (invalid_argument, b)
      else if ltb role_max role
      then (bad_enum, b)
      else abi_array_push_buffer i
          (record {
            role = role;
            present = 0;
            allocation_id = 0;
            byte_offset = 0;
            logical_length = 0;
          })
          b

  unfoldable pub abi_array_add_child : Option ℕ → Option ℕ → Builder → AbiStatus × Builder
  unfolding abi_vec_grow
  abi_array_add_child parent child b = elim parent [
    | none ↦ (invalid_argument, b)
    | some i ↦ elim (get_elem? b.arrays i) [
      | none ↦ (invalid_argument, b)
      | some n ↦ elim child [
        | none ↦ (invalid_argument, b)
        | some j ↦
            let (good, v, a) = abi_vec_grow malloc 8 8 limit_tree_nodes n.children b.arena in
            let b' = record b { arena = a } in
            if good then (ok, on_array i (element_added j v) b') else (no_memory, b')
      ]
    ]
  ]

-- A NULL node is left alone.
unfoldable pub abi_array_set_dictionary : Option ℕ → Option ℕ → Builder → Builder
abi_array_set_dictionary none dict b = b
abi_array_set_dictionary (some i) dict b = on_array i (λ n. record n { dictionary = dict }) b

unfoldable pub abi_array_set_declared_buffers : Option ℕ → ℕ → Builder → Builder
abi_array_set_declared_buffers none count b = b
abi_array_set_declared_buffers (some i) count b = on_array i (λ n. record n { n_buffers = count }) b

unfoldable pub abi_array_set_declared_children : Option ℕ → ℕ → Builder → Builder
abi_array_set_declared_children none count b = b
abi_array_set_declared_children (some i) count b =
    on_array i (λ n. record n { n_children = count }) b

unfoldable pub abi_case_set_array : Option ℕ → Builder → Builder
abi_case_set_array array b = record b { array = array }
