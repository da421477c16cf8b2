-- ===== src/Builder/Schema.antt =====
-- The schema nodes of the builder, libabi/src/case.c. A pointer to a node is its number; NULL is the
-- number of no node, or none.
use arrow_abi_doctor.Base.{
  ℕ, ◌+◌, List, [], ◌∷◌, ◌++◌, true, false, not, ◌&&◌, ◌||◌, Option, none, some, length, get_elem?,
  ltb, is_some, if◌then◌else◌,
}
use arrow_abi_doctor.Status.{
  AbiStatus, ok, invalid_argument, no_memory, limit_exceeded, limit_bytes_len,
}
use arrow_abi_doctor.Model.{limit_tree_nodes}
use arrow_abi_doctor.Arena.{abi_arena_alloc}
use arrow_abi_doctor.Builder.{
  AbiBytes, no_bytes, AbiVec, empty_vec, push, SchemaCell, Builder, update_at, and_then,
  no_memory_unless, string_of, store_bytes, store_cstr, abi_vec_grow, abi_arena_bytes,
}

unfoldable pub on_schema : ℕ → (SchemaCell → SchemaCell) → Builder → Builder
unfolding update_at
on_schema i f b = record b { schemas = update_at i f b.schemas }

abbrev pub schema_in : Option ℕ → Builder → Option SchemaCell
schema_in none b = none
schema_in (some i) b = get_elem? b.schemas i

-- What `abi_arena_calloc` leaves of a node.
abbrev pub new_schema_cell : SchemaCell
new_schema_cell = record {
  format = no_bytes;
  has_name = false;
  name = no_bytes;
  has_metadata = false;
  metadata = empty_vec;
  n_children = 0;
  children = empty_vec;
  dictionary = none;
}

-- `n->children[n->child_count] = child` and the two counts.
abbrev pub child_added : ℕ → AbiVec ℕ → SchemaCell → SchemaCell
child_added child v n = record n { children = push child v; n_children = length v.items + 1 }

-- `n->metadata_count++; n->has_metadata = 1;`
abbrev pub pair_added : AbiBytes × AbiBytes → AbiVec (AbiBytes × AbiBytes) → SchemaCell → SchemaCell
pair_added kv v n = record n { metadata = push kv v; has_metadata = true }

module _ (malloc : ℕ → ℕ → Option ℕ) where
  -- The node that is given, or none for NULL.
  unfoldable pub abi_schema_new : Option (List ℕ) → Builder → Option ℕ × Builder
  unfolding abi_arena_alloc store_cstr
  abi_schema_new format b =
      let (p, a) = abi_arena_alloc malloc 104 8 b.arena in
      let i = length b.schemas in
      let b₁ = record b { schemas = b.schemas ++ (new_schema_cell ∷ []); arena = a } in
      if not (is_some p)
      then (none, record b { arena = a })
      else let (good, b₂) =
          and_then
            (store_cstr malloc (λ s x. on_schema i (λ n. record n { format = s }) x) format b₁)
            (store_cstr malloc (λ s x. on_schema i (λ n. record n { name = s }) x) (some [])) in
        (if good then some i else none, b₂)

  -- `len` is the length of the bytes.
  unfoldable pub abi_schema_set_format : ℕ → Option (List ℕ) → ℕ → Builder → AbiStatus × Builder
  unfolding store_bytes
  abi_schema_set_format i format len b =
      if not (is_some (get_elem? b.schemas i)) || (not (is_some format) && ltb 0 len)
      then (invalid_argument, b)
      else if ltb limit_bytes_len len
      then (limit_exceeded, b)
      else no_memory_unless (
          store_bytes malloc (λ s x. on_schema i (λ n. record n { format = s }) x)
            (string_of format) b)

  -- The flag is set behind a successful copy.
  unfoldable pub abi_schema_set_name : ℕ → Option (List ℕ) → Builder → AbiStatus × Builder
  unfolding store_cstr
  abi_schema_set_name i name b =
      if not (is_some (get_elem? b.schemas i))
      then (invalid_argument, b)
      else if not (is_some name)
      then (ok, on_schema i (λ n. record n { has_name = false }) b)
      else let (good, b') =
          store_cstr malloc (λ s x. on_schema i (λ n. record n { name = s }) x) name b in
        if good then (ok, on_schema i (λ n. record n { has_name = true }) b') else (no_memory, b')

  unfoldable pub abi_schema_set_metadata_present : ℕ → Builder → AbiStatus × Builder
  abi_schema_set_metadata_present i b =
      if not (is_some (get_elem? b.schemas i))
      then (invalid_argument, b)
      else (ok, on_schema i (λ n. record n { has_metadata = true }) b)

  -- The copies of a pair, once the vector `v` of the node has a place for it.
  unfoldable pub put_pair :
      ℕ → AbiVec (AbiBytes × AbiBytes) → List ℕ → List ℕ → Builder → AbiStatus × Builder
  unfolding abi_arena_bytes
  put_pair i v key value b =
      let (k, a₁) = abi_arena_bytes malloc key b.arena in
      let (x, a₂) = abi_arena_bytes malloc value a₁ in
      if k.null
      then (no_memory, record b { arena = a₁ })
      else if x.null
      then (no_memory, record b { arena = a₂ })
      else (ok, on_schema i (pair_added (k, x) v) (record b { arena = a₂ }))

  unfoldable pub abi_schema_add_metadata :
      Option ℕ → Option (List ℕ) → ℕ → Option (List ℕ) → ℕ → Builder → AbiStatus × Builder
  unfolding abi_vec_grow put_pair
  abi_schema_add_metadata node key key_len value value_len b = elim node [
    | none ↦ (invalid_argument, b)
    | some i ↦ elim (get_elem? b.schemas i) [
      | none ↦ (invalid_argument, b)
      | some n ↦
          let (good, v, a) = abi_vec_grow malloc 32 8 limit_tree_nodes n.metadata b.arena in
          let b' = on_schema i (λ m. record m { metadata = v }) (record b { arena = a }) in
          if (not (is_some key) && ltb 0 key_len) || (not (is_some value) && ltb 0 value_len)
          then (invalid_argument, b)
          else if ltb limit_bytes_len key_len || ltb limit_bytes_len value_len
          then (limit_exceeded, b)
          else if not good
          then (no_memory, b')
          else put_pair i v (string_of key) (string_of value) b'
    ]
  ]

  unfoldable pub abi_schema_add_child : Option ℕ → Option ℕ → Builder → AbiStatus × Builder
  unfolding abi_vec_grow
  abi_schema_add_child parent child b = elim parent [
    | none ↦ (invalid_argument, b)
    | some i ↦ elim (get_elem? b.schemas i) [
      | none ↦ (invalid_argument, b)
      | some n ↦ elim child [
        | none ↦ (invalid_argument, b)
        | some j ↦
            let (good, v, a) = abi_vec_grow malloc 8 8 limit_tree_nodes n.children b.arena in
            let b' = record b { arena = a } in
            if good then (ok, on_schema i (child_added j v) b') else (no_memory, b')
      ]
    ]
  ]

-- A NULL node is left alone.
unfoldable pub abi_schema_set_dictionary : Option ℕ → Option ℕ → Builder → Builder
abi_schema_set_dictionary none dict b = b
abi_schema_set_dictionary (some i) dict b = on_schema i (λ n. record n { dictionary = dict }) b

unfoldable pub abi_schema_set_declared_children : Option ℕ → ℕ → Builder → Builder
abi_schema_set_declared_children none count b = b
abi_schema_set_declared_children (some i) count b =
    on_schema i (λ n. record n { n_children = count }) b

unfoldable pub abi_case_set_schema : Option ℕ → Builder → Builder
abi_case_set_schema schema b = record b { schema = schema }
