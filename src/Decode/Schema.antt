-- ===== src/Decode/Schema.antt =====
-- The schema tree reader of libabi/src/decode.c.
use arrow_abi_doctor.Base.{
  ℕ, zero, suc, ◌*◌, List, [], Bool, true, false, not, ◌==◌, if◌then◌else◌, bit_and,
}
use arrow_abi_doctor.Status.{not_canonical, limit_exceeded}
use arrow_abi_doctor.Cursor.{
  AbiCur, cur_u8, cur_u32, cur_i64, cur_bytes, cur_bool, fail, position, check, arena_bytes,
  or_no_memory,
}
use arrow_abi_doctor.Cursor.Monad.{M, ◌>>=◌, ◌>>◌, value, pure}
use arrow_abi_doctor.Model.{
  AbiMetadataKv, SchemaFields, AbiSchemaNode, SchemaChildren, SchemaDictionary, schema_node,
  limit_tree_nodes,
}
use arrow_abi_doctor.Decode.{
  AbiDec, on_cur, dec_count_guard, request, read_each, count_node, guard_children,
}

module _ (arena : ℕ → ℕ → Bool) where
  unfoldable pub dec_metadata_kv : M AbiCur AbiMetadataKv
  dec_metadata_kv = do
    key ← cur_bytes arena
    v ← cur_bytes arena
    pure (record { key = key; value = v })

  -- The name: without one the node gets the empty string.
  unfoldable pub dec_name : Bool → M AbiCur (List ℕ)
  dec_name true = cur_bytes arena
  dec_name false = do at ← value position; or_no_memory (arena_bytes arena at []) at

  unfoldable pub dec_metadata : Bool → M AbiCur (List AbiMetadataKv)
  unfolding dec_metadata_kv
  dec_metadata false = pure []
  dec_metadata true = do
    kv_count ← value cur_u32
    check
    dec_count_guard kv_count 8 limit_tree_nodes
    request arena (32 * (if kv_count == 0 then 1 else kv_count))
    read_each kv_count dec_metadata_kv

  -- `dec_schema_node` between the node's allocation and the child count.
  unfoldable pub dec_schema_fields : M AbiCur SchemaFields
  unfolding dec_name dec_metadata
  dec_schema_fields = do
    format ← cur_bytes arena
    at ← value position
    presence ← value cur_u8
    check
    if not (bit_and presence 0xfc == 0) then fail not_canonical at else do
      let has_name = not (bit_and presence 1 == 0)
      let has_metadata = not (bit_and presence 2 == 0)
      name ← dec_name has_name
      metadata ← dec_metadata has_metadata
      flags ← value cur_i64
      n_children ← value cur_u32
      pure (record {
        format = format;
        has_name = has_name;
        name = name;
        has_metadata = has_metadata;
        metadata = metadata;
        flags = flags;
        n_children = n_children;
      })

  unfoldable pub read_schema_children : ℕ → M AbiDec AbiSchemaNode → M AbiDec SchemaChildren
  read_schema_children zero node = pure SchemaChildren.nil
  read_schema_children (suc n) node = do
    child ← node
    rest ← read_schema_children n node
    pure (SchemaChildren.cons child rest)

  unfoldable pub read_schema_dictionary : ℕ → M AbiDec AbiSchemaNode → M AbiDec SchemaDictionary
  read_schema_dictionary has_dict node =
      if has_dict == 0
      then pure SchemaDictionary.absent
      else (node >>= λ n. pure (SchemaDictionary.present n))

  -- The fuel is `ABI_LIMIT_TREE_DEPTH + 1 - depth`: it runs out where the source finds the tree too
  -- deep.
  unfoldable pub dec_schema_node : ℕ → M AbiDec AbiSchemaNode
  unfolding dec_schema_fields read_schema_children read_schema_dictionary
  dec_schema_node zero = do
    on_cur check
    at ← on_cur (value position)
    on_cur (fail limit_exceeded at)
  dec_schema_node (suc left) = do
    on_cur check
    count_node
    on_cur (request arena 104)
    fields ← on_cur dec_schema_fields
    child_count ← on_cur (value cur_u32)
    on_cur check
    guard_children arena child_count
    children ← read_schema_children child_count (dec_schema_node left)
    has_dict ← on_cur cur_bool
    dictionary ← read_schema_dictionary has_dict (dec_schema_node left)
    pure (schema_node fields children dictionary)
