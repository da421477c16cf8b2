-- ===== src/Decode/SchemaSteps.antt =====
-- The schema tree reader of libabi/src/decode.c accepts nothing but what docs/abicase-format.md says.
use arrow_abi_doctor.Base.{
  ℕ, zero, suc, ◌*◌, ◌≤◌, ◌≡◌, refl, ap, arith, [], ◌∷◌, ◌++◌, append-nil, Bool, true, false, not,
  length, ◌==◌, if◌then◌else◌, bit_and,
}
use arrow_abi_doctor.Bytes.{store_u32}
use arrow_abi_doctor.Status.{not_canonical, limit_exceeded}
use arrow_abi_doctor.Cursor.{arena_bytes, or_no_memory}
use arrow_abi_doctor.Cursor.Monad.{M}
use arrow_abi_doctor.Cursor.Sound.{Step, Step-pure, Step-bind, Step-if, Step-weaken}
use arrow_abi_doctor.Cursor.Loads.{own, u8-Step, u32-Step}
use arrow_abi_doctor.Cursor.Reads.{
  fail-Step, position-Step, check-Step, i64-Step, bool-Step, bytes-Step, copy-Step,
}
use arrow_abi_doctor.Model.{
  AbiSchemaNode, SchemaChildren, SchemaDictionary, schema_node, schema_count, limit_tree_nodes,
}
use arrow_abi_doctor.Format.{
  each, string, int64, kv_bytes, schema_fields_bytes, schema_bytes, schemas_bytes,
  schema_dict_bytes,
}
use arrow_abi_doctor.Decode.{AbiDec}
use arrow_abi_doctor.Decode.SectionSteps.{
  cur_of, on_cur-Step, dec_count_guard-Step, request-Step, read_each-Step,
}
use arrow_abi_doctor.Decode.Presence.{flags_of, presence-lem}
use arrow_abi_doctor.Decode.TreeSteps.{count_node-Step, guard_children-Step}
use arrow_abi_doctor.Decode.Schema.{
  dec_metadata_kv, dec_name, dec_metadata, dec_schema_fields, read_schema_children,
  read_schema_dictionary, dec_schema_node,
}

module _ (arena : ℕ → ℕ → Bool) where
  kv-Step : Step own (dec_metadata_kv arena) (λ kv bs. (bs ≡ kv_bytes kv) × Unit {0})
  unfolding dec_metadata_kv
  kv-Step = Step-bind own (bytes-Step arena) λ key. Step-bind own (bytes-Step arena) λ v.
      Step-pure own (record { key = key; value = v }) _
        λ _ (e₂, _) _ (e₁, _). (rw (e₁, e₂, append-nil), tt)

  name-Step :
      (has_name : Bool)
      → Step own (dec_name arena has_name) (λ name bs. bs ≡ (if has_name then string name else []))
  unfolding dec_name or_no_memory arena_bytes
  name-Step true = Step-weaken own (bytes-Step arena) λ _ _ (e, _). e
  name-Step false =
      Step-bind own position-Step
        λ at. Step-weaken own (copy-Step arena at []) λ _ _ (e, _) _ e₁. rw (e₁, e)

  metadata-Step :
      (has_metadata : Bool)
      → Step own (dec_metadata arena has_metadata) (λ kvs bs.
        bs ≡ (if has_metadata then store_u32 (length kvs) ++ each kv_bytes kvs else []))
  unfolding dec_metadata
  metadata-Step false = Step-pure own [] _ refl
  metadata-Step true = Step-bind own u32-Step λ count. Step-bind own check-Step λ _.
      Step-bind own (dec_count_guard-Step count 8 limit_tree_nodes) λ _.
        Step-bind own (request-Step arena (32 * (if count == 0 then 1 else count))) λ _.
          Step-weaken own
            (read_each-Step own (dec_metadata_kv arena) kv_bytes (λ _. Unit {0}) kv-Step count)
            λ _ _ (e₅, len, _) _ e₄ _ e₃ _ e₂ _ (e₁, _). rw (e₁, e₂, e₃, e₄, e₅, len)

  fields-Step : Step own (dec_schema_fields arena) (λ f bs. bs ≡ schema_fields_bytes f)
  unfolding dec_schema_fields schema_fields_bytes flags_of
  fields-Step = Step-bind own (bytes-Step arena) λ format. Step-bind own position-Step λ at.
      Step-bind own u8-Step λ presence. Step-bind own check-Step λ _.
        Step-if own (not (bit_and presence 0xfc == 0)) (fail-Step not_canonical at _) (
          Step-bind own (name-Step (not (bit_and presence 1 == 0))) λ name.
            Step-bind own (metadata-Step (not (bit_and presence 2 == 0))) λ metadata.
              Step-bind own i64-Step λ flags. Step-bind own u32-Step λ n_children.
                Step-pure own
                  (record {
                    format = format;
                    has_name = not (bit_and presence 1 == 0);
                    name = name;
                    has_metadata = not (bit_and presence 2 == 0);
                    metadata = metadata;
                    flags = flags;
                    n_children = n_children;
                  })
                  _
                  λ _ (e₈, _) _ (e₇, _) _ e₆ _ e₅ reserved _ e₄ _ (e₃, small) _ e₂ _ (e₁, _).
                    rw (e₁, e₂, e₃, e₄, e₅, e₆, e₇, e₈, append-nil)
                      (ap
                        (λ p.
                          string format
                          ++ (p
                              ∷ ((if not (bit_and presence 1 == 0) then string name else [])
                                  ++ ((if not (bit_and presence 2 == 0)
                                        then store_u32 (length metadata) ++ each kv_bytes metadata
                                        else [])
                                      ++ (int64 flags ++ store_u32 n_children)))))
                        (presence-lem presence small (ground arith))))

  children-Step :
      (node : M AbiDec AbiSchemaNode)
      → Step cur_of node (λ n bs. bs ≡ schema_bytes n)
      → (count : ℕ)
      → Step cur_of
          (read_schema_children arena count node)
          (λ ns bs. (bs ≡ schemas_bytes ns) × (schema_count ns ≡ count))
  unfolding read_schema_children schemas_bytes
  children-Step node t zero = Step-pure cur_of SchemaChildren.nil _ (refl, refl)
  children-Step node t (suc count) = Step-bind cur_of t λ child.
      Step-bind cur_of (children-Step node t count) λ rest.
        Step-pure cur_of (SchemaChildren.cons child rest) _
          λ _ (e₂, len) _ e₁. (rw (e₁, e₂, append-nil), omega (arith, len))

  dictionary-Step :
      (node : M AbiDec AbiSchemaNode)
      → Step cur_of node (λ n bs. bs ≡ schema_bytes n)
      → (has_dict : ℕ)
      → Step cur_of
          (read_schema_dictionary arena has_dict node)
          (λ d bs. has_dict ≤ 1 → has_dict ∷ bs ≡ schema_dict_bytes d)
  unfolding read_schema_dictionary schema_dict_bytes
  dictionary-Step node t has_dict =
      Step-if cur_of (has_dict == 0)
        (Step-pure cur_of SchemaDictionary.absent _
          λ zero_flag flag. let none_here : has_dict ≡ 0 = ground arith in rw none_here)
        (Step-bind cur_of t λ n.
          Step-pure cur_of (SchemaDictionary.present n) _
            λ _ e some_flag flag. let one : has_dict ≡ 1 = ground arith in rw (one, e, append-nil))

  -- An accepted schema tree is the encoding of the tree it gives.
  pub dec_schema_node-Step :
      (left : ℕ) → Step cur_of (dec_schema_node arena left) (λ n bs. bs ≡ schema_bytes n)
  unfolding dec_schema_node schema_bytes
  dec_schema_node-Step zero = Step-bind cur_of (on_cur-Step check-Step) λ _.
      Step-bind cur_of (on_cur-Step position-Step) λ at. on_cur-Step (fail-Step limit_exceeded at _)
  dec_schema_node-Step (suc left) = Step-bind cur_of (on_cur-Step check-Step) λ _.
      Step-bind cur_of count_node-Step λ _.
        Step-bind cur_of (on_cur-Step (request-Step arena 104)) λ _.
          Step-bind cur_of (on_cur-Step fields-Step) λ fields.
            Step-bind cur_of (on_cur-Step u32-Step) λ count.
              Step-bind cur_of (on_cur-Step check-Step) λ _.
                Step-bind cur_of (guard_children-Step arena count) λ _.
                  Step-bind cur_of (children-Step _ (dec_schema_node-Step left) count) λ children.
                    Step-bind cur_of (on_cur-Step bool-Step) λ has_dict.
                      Step-bind cur_of (dictionary-Step _ (dec_schema_node-Step left) has_dict)
                        λ dictionary.
                          Step-pure cur_of (schema_node fields children dictionary) _
                            λ _ dict _ (e₉, flag) _ (e₈, len) _ e₇ _ e₆ _ (e₅, _) _ e₄ _ e₃ _ e₂ _
                                e₁.
                              rw (e₁, e₂, e₃, e₄, e₅, e₆, e₇, e₈, e₉, append-nil, len, dict flag)
