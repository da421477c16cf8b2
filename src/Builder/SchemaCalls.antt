-- ===== src/Builder/SchemaCalls.antt =====
-- The calls of the builder of libabi/src/case.c on schema nodes keep what a case is bounded by.
use arrow_abi_doctor.Base.{
  ℕ, ◌<◌, ◌≤◌, ◌≡◌, arith, List, [], ◌∷◌, ◌++◌, not, ◌&&◌, ◌||◌, Option, none, some, length,
  get_elem?, All-append, is_some, ltb, not-false, if_cases, elim_cases,
}
use arrow_abi_doctor.Status.{AbiStatus, limit_bytes_len}
use arrow_abi_doctor.Model.{limit_tree_nodes}
use arrow_abi_doctor.Arena.{AbiArena, abi_arena_alloc}
use arrow_abi_doctor.Builder.{
  AbiBytes, AbiVec, SchemaCell, Builder, string_of, store_cstr, abi_arena_bytes, abi_vec_grow,
}
use arrow_abi_doctor.Builder.Schema.{
  on_schema, new_schema_cell, child_added, pair_added, abi_schema_new, abi_schema_set_format,
  abi_schema_set_name, abi_schema_set_metadata_present, put_pair, abi_schema_add_metadata,
  abi_schema_add_child,
}
use arrow_abi_doctor.Builder.Limits.{
  abi_vec_grow-Grown, push-IsVec, All-update, All-get, IsSchemaCell, AreBounded, IsBounded,
}
use arrow_abi_doctor.Builder.CaseCalls.{
  store_bytes-IsBounded, store_cstr-IsBounded, next_string-IsBounded,
}

-- A store to a node that keeps what a node has to be.
pub on_schema-IsBounded :
    (i : ℕ) (f : SchemaCell → SchemaCell) (b : Builder)
    → ((n : SchemaCell) → IsSchemaCell n → IsSchemaCell (f n))
    → IsBounded b
    → IsBounded (on_schema i f b)
unfolding AreBounded on_schema
on_schema-IsBounded i f b keep (wa, wo, ws, wr) =
    (wa, wo, All-update IsSchemaCell f i b.schemas keep ws, wr)

schema_cell-lem :
    (i : ℕ) (n : SchemaCell) (b : Builder)
    → IsBounded b
    → get_elem? b.schemas i ≡ some n
    → IsSchemaCell n
unfolding AreBounded
schema_cell-lem i n b (wa, wo, ws, wr) e = All-get IsSchemaCell i b.schemas n ws e

new_node-IsBounded :
    (b : Builder) (a : AbiArena)
    → IsBounded b
    → IsBounded (record b { schemas = b.schemas ++ (new_schema_cell ∷ []); arena = a })
unfolding AreBounded
new_node-IsBounded b a (wa, wo, ws, wr) =
    let empty : IsSchemaCell new_schema_cell =
      ((omega arith, omega arith), (omega arith, omega arith)) in
    (wa, wo, All-append IsSchemaCell b.schemas _ ws (empty, tt), wr)

abbrev P : AbiStatus × Builder → Type 0
P r = IsBounded r.1

module _ (malloc : ℕ → ℕ → Option ℕ) where
  pub schema_new-IsBounded :
      (format : Option (List ℕ)) (b : Builder)
      → IsBounded b
      → IsBounded (abi_schema_new malloc format b).1
  unfolding abi_schema_new
  schema_new-IsBounded format b w =
      let i = length b.schemas in
      let answer = abi_arena_alloc malloc 104 8 b.arena in
      let b₁ = record b { schemas = b.schemas ++ (new_schema_cell ∷ []); arena = answer.1 } in
      let set_format : AbiBytes → Builder → Builder =
        λ s x. on_schema i (λ n. record n { format = s }) x in
      let set_name : AbiBytes → Builder → Builder =
        λ s x. on_schema i (λ n. record n { name = s }) x in
      if_cases {A = Option ℕ × Builder} (λ r. IsBounded r.1) (not (is_some answer.0)) _ _ (λ _. w)
        λ _.
          next_string-IsBounded malloc set_name (some []) (store_cstr malloc set_format format b₁)
            (λ s y k. on_schema-IsBounded i _ y (λ n m. m) k)
            (store_cstr-IsBounded malloc set_format format b₁
              (λ s y k. on_schema-IsBounded i _ y (λ n m. m) k) (new_node-IsBounded b answer.1 w))

  pub set_format-IsBounded :
      (i : ℕ) (format : Option (List ℕ)) (len : ℕ) (b : Builder)
      → IsBounded b
      → IsBounded (abi_schema_set_format malloc i format len b).1
  unfolding abi_schema_set_format
  set_format-IsBounded i format len b w =
      if_cases P (not (is_some (get_elem? b.schemas i)) || (not (is_some format) && ltb 0 len)) _ _
        (λ _. w)
        λ _.
          if_cases P (ltb limit_bytes_len len) _ _ (λ _. w)
            λ _.
              store_bytes-IsBounded malloc (λ s x. on_schema i (λ n. record n { format = s }) x)
                (string_of format) b (λ s y k. on_schema-IsBounded i _ y (λ n m. m) k) w

  pub set_name-IsBounded :
      (i : ℕ) (name : Option (List ℕ)) (b : Builder)
      → IsBounded b
      → IsBounded (abi_schema_set_name malloc i name b).1
  unfolding abi_schema_set_name
  set_name-IsBounded i name b w =
      let set_name : AbiBytes → Builder → Builder =
        λ s x. on_schema i (λ n. record n { name = s }) x in
      let r = store_cstr malloc set_name name b in
      let w' : IsBounded r.1 =
        store_cstr-IsBounded malloc set_name name b
          (λ s y k. on_schema-IsBounded i _ y (λ n m. m) k) w in
      if_cases P (not (is_some (get_elem? b.schemas i))) _ _ (λ _. w)
        λ _.
          if_cases P (not (is_some name)) _ _ (λ _. on_schema-IsBounded i _ b (λ n m. m) w)
            λ _. if_cases P r.0 _ _ (λ _. on_schema-IsBounded i _ r.1 (λ n m. m) w') (λ _. w')

  pub set_metadata_present-IsBounded :
      (i : ℕ) (b : Builder) → IsBounded b → IsBounded (abi_schema_set_metadata_present malloc i b).1
  unfolding abi_schema_set_metadata_present
  set_metadata_present-IsBounded i b w =
      if_cases P (not (is_some (get_elem? b.schemas i))) _ _ (λ _. w)
        (λ _. on_schema-IsBounded i _ b (λ n m. m) w)

  pub schema_add_child-IsBounded :
      (parent child : Option ℕ) (b : Builder)
      → IsBounded b
      → IsBounded (abi_schema_add_child malloc parent child b).1
  unfolding abi_schema_add_child
  schema_add_child-IsBounded none child b w = w
  schema_add_child-IsBounded (some i) child b w =
      elim_cases P (get_elem? b.schemas i) _ _ (λ _. w)
        λ n e.
          elim_cases P child _ _ (λ _. w)
            λ j _.
              let (same, vec, room) =
                abi_vec_grow-Grown malloc 8 8 limit_tree_nodes n.children b.arena (omega arith)
                  (schema_cell-lem i n b w e).1 in
              let grown = abi_vec_grow malloc 8 8 limit_tree_nodes n.children b.arena in
              if_cases P grown.0 _ _
                (λ good.
                  on_schema-IsBounded i (child_added j grown.1) (record b { arena = grown.2 })
                    (λ m known.
                      (known.0, push-IsVec limit_tree_nodes j grown.1 (rw same (room good)) vec.1))
                    w)
                (λ _. w)

  put_pair-IsBounded :
      (i : ℕ) (v : AbiVec (AbiBytes × AbiBytes)) (key value : List ℕ) (b : Builder)
      → IsBounded b
      → length v.items < v.capacity
      → v.capacity ≤ limit_tree_nodes
      → IsBounded (put_pair malloc i v key value b).1
  unfolding put_pair
  put_pair-IsBounded i v key value b w room low =
      let k = abi_arena_bytes malloc key b.arena in
      let x = abi_arena_bytes malloc value k.1 in
      if_cases P k.0.null _ _ (λ _. w)
        λ _.
          if_cases P x.0.null _ _ (λ _. w)
            λ _.
              on_schema-IsBounded i (pair_added (k.0, x.0) v) (record b { arena = x.1 })
                (λ n known. (push-IsVec limit_tree_nodes (k.0, x.0) v room low, known.1)) w

  pub add_metadata-IsBounded :
      (node : Option ℕ) (key : Option (List ℕ)) (key_len : ℕ) (value : Option (List ℕ))
      (value_len : ℕ) (b : Builder)
      → IsBounded b
      → IsBounded (abi_schema_add_metadata malloc node key key_len value value_len b).1
  unfolding abi_schema_add_metadata
  add_metadata-IsBounded none key key_len value value_len b w = w
  add_metadata-IsBounded (some i) key key_len value value_len b w =
      elim_cases P (get_elem? b.schemas i) _ _ (λ _. w)
        λ n e.
          let (same, vec, room) =
            abi_vec_grow-Grown malloc 32 8 limit_tree_nodes n.metadata b.arena (omega arith)
              (schema_cell-lem i n b w e).0 in
          let grown = abi_vec_grow malloc 32 8 limit_tree_nodes n.metadata b.arena in
          let b' =
            on_schema i (λ m. record m { metadata = grown.1 }) (record b { arena = grown.2 }) in
          let w' : IsBounded b' =
            on_schema-IsBounded i (λ m. record m { metadata = grown.1 })
              (record b { arena = grown.2 }) (λ m known. (vec, known.1)) w in
          if_cases P
            ((not (is_some key) && ltb 0 key_len) || (not (is_some value) && ltb 0 value_len)) _ _
            (λ _. w)
            λ _.
              if_cases P (ltb limit_bytes_len key_len || ltb limit_bytes_len value_len) _ _ (λ _. w)
                λ _.
                  if_cases P (not grown.0) _ _ (λ _. w')
                    λ good.
                      put_pair-IsBounded i grown.1 (string_of key) (string_of value) b' w'
                        (rw same (room (not-false _ good))) vec.1
