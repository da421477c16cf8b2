-- ===== src/Decode/Array.antt =====
-- The array tree reader of libabi/src/decode.c.
use arrow_abi_doctor.Base.{ℕ, zero, suc, ◌+◌, ◌-◌, ◌*◌, Bool, ltb, ◌==◌, if◌then◌else◌, length}
use arrow_abi_doctor.Status.{limit_exceeded, bad_enum}
use arrow_abi_doctor.Cursor.{
  AbiCur, cur_u8, cur_u32, cur_u64, cur_i64, cur_bool, cur_zeros, fail, position, check,
}
use arrow_abi_doctor.Cursor.Monad.{M, ◌>>=◌, ◌>>◌, value, pure}
use arrow_abi_doctor.Model.{
  AbiBufferView, ArrayFields, AbiArrayNode, ArrayChildren, ArrayDictionary, array_node,
  limit_tree_nodes, role_max,
}
use arrow_abi_doctor.Decode.{
  AbiDec, on_cur, dec_count_guard, request, read_each, count_node, guard_children,
}

-- An absent view carries zeros.
unfoldable pub dec_view_tail : ℕ → ℕ → M AbiCur AbiBufferView
dec_view_tail role present =
    if present == 0
    then pure (record {
      role = role;
      present = present;
      allocation_id = 0;
      byte_offset = 0;
      logical_length = 0;
    })
    else do
      allocation_id ← value cur_u32
      byte_offset ← value cur_u64
      logical_length ← value cur_u64
      pure (record {
        role = role;
        present = present;
        allocation_id = allocation_id;
        byte_offset = byte_offset;
        logical_length = logical_length;
      })

-- The body of the loop over the buffers.
unfoldable pub dec_view : M AbiCur AbiBufferView
unfolding dec_view_tail
dec_view = do
  at ← value position
  role ← value cur_u8
  check
  if ltb role_max role
      then fail bad_enum at
      else do present ← cur_bool; cur_zeros 2; v ← dec_view_tail role present; check; pure v

-- `d->buffers += n->buffer_count`
abbrev pub add_buffers : ℕ → AbiDec → Unit {0} × AbiDec
add_buffers n d = (tt, record d { buffers = d.buffers + n })

module _ (arena : ℕ → ℕ → Bool) where
  -- `dec_array_node` between the node's allocation and the child count.
  unfoldable pub dec_array_fields : M AbiDec ArrayFields
  unfolding dec_view
  dec_array_fields = do
    length ← on_cur (value cur_i64)
    null_count ← on_cur (value cur_i64)
    offset ← on_cur (value cur_i64)
    n_buffers ← on_cur (value cur_u32)
    buffer_count ← on_cur (value cur_u32)
    on_cur check
    seen ← value (λ d. (d.buffers, d))
    on_cur (dec_count_guard buffer_count 4 (limit_tree_nodes - seen))
    value (add_buffers buffer_count)
    on_cur (if buffer_count == 0 then pure tt else request arena (24 * buffer_count))
    buffers ← on_cur (read_each buffer_count dec_view)
    n_children ← on_cur (value cur_u32)
    pure (record {
      length = length;
      null_count = null_count;
      offset = offset;
      n_buffers = n_buffers;
      buffers = buffers;
      n_children = n_children;
    })

  unfoldable pub read_array_children : ℕ → M AbiDec AbiArrayNode → M AbiDec ArrayChildren
  read_array_children zero node = pure ArrayChildren.nil
  read_array_children (suc n) node = do
    child ← node
    rest ← read_array_children n node
    pure (ArrayChildren.cons child rest)

  unfoldable pub read_array_dictionary : ℕ → M AbiDec AbiArrayNode → M AbiDec ArrayDictionary
  read_array_dictionary has_dict node =
      if has_dict == 0
      then pure ArrayDictionary.absent
      else (node >>= λ n. pure (ArrayDictionary.present n))

  -- The fuel is `ABI_LIMIT_TREE_DEPTH + 1 - depth`: it runs out where the source finds the tree too
  -- deep.
  unfoldable pub dec_array_node : ℕ → M AbiDec AbiArrayNode
  unfolding dec_array_fields read_array_children read_array_dictionary
  dec_array_node zero = do
    on_cur check
    at ← on_cur (value position)
    on_cur (fail limit_exceeded at)
  dec_array_node (suc left) = do
    on_cur check
    count_node
    on_cur (request arena 72)
    fields ← dec_array_fields
    child_count ← on_cur (value cur_u32)
    on_cur check
    guard_children arena child_count
    children ← read_array_children child_count (dec_array_node left)
    has_dict ← on_cur cur_bool
    dictionary ← read_array_dictionary has_dict (dec_array_node left)
    pure (array_node fields children dictionary)
