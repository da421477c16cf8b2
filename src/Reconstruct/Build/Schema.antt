-- ===== src/Reconstruct/Build/Schema.antt =====
-- `build_schema` of libabi/src/reconstruct.c. A builder that runs out of memory returns false with the
-- part it built, which is releasable.
use arrow_abi_doctor.Base.{
  ℕ, suc, ◌-◌, List, Bool, true, false, Option, none, some, if◌then◌else◌, ℤ,
}
use arrow_abi_doctor.Model.{
  AbiMetadataKv, SchemaFields, AbiSchemaNode, SchemaChildren, SchemaDictionary, schema_node,
  schema_count,
}
use arrow_abi_doctor.Reconstruct.Observer.{Block, Rec, obs_alloc}
use arrow_abi_doctor.Reconstruct.Structs.{
  AbiNodePriv, SchemaBody, ArrowSchema, SchemaArray, SchemaSlots, SchemaLink, arrow_schema,
  null_schemas, no_schema,
}
use arrow_abi_doctor.Reconstruct.Build.{
  priv_size, schema_size, child_path, index_leaf, dict_leaf, max_u32, dup_cstr, encode_metadata,
  alloc_slots, priv_in,
}

-- A node under construction: whether to go on, and what it holds.
pub record Begun : Type 0 where
  pub good : Bool
  pub priv : AbiNodePriv
  pub body : SchemaBody
  pub rec : Rec

-- `if (...) return 0;` between two steps.
abbrev pub then_step : (Begun → Begun) → Begun → Begun
then_step f s = if s.good then f s else s

abbrev pub begun : AbiNodePriv → Rec → Begun
begun priv r = record {
  good = true;
  priv = priv;
  body = record { format = none; name = none; metadata = none; flags = ℤ.pos 0; n_children = 0 };
  rec = r;
}

-- The pointer array with its slots.
abbrev pub schema_array : Option Block → SchemaSlots → SchemaArray
schema_array none slots = SchemaArray.no_array
schema_array (some b) slots = SchemaArray.array_in b slots

-- `malloc` answers its call of a number for a size; `little` is the host's byte order.
module _ (malloc : ℕ → ℕ → Option ℕ) (little : Bool) where
  unfoldable pub with_format : List ℕ → Begun → Begun
  unfolding dup_cstr
  with_format format s =
      let (b, r) = dup_cstr malloc format s.rec in
      elim b [
        | none ↦ record s { good = false; rec = r }
        | some blk ↦ record s {
          priv = record s.priv { format_buf = some blk };
          body = record s.body { format = some format };
          rec = r;
        }
      ]

  unfoldable pub with_name : Bool → List ℕ → Begun → Begun
  unfolding dup_cstr
  with_name false name s = s
  with_name true name s =
      let (b, r) = dup_cstr malloc name s.rec in
      elim b [
        | none ↦ record s { good = false; rec = r }
        | some blk ↦ record s {
          priv = record s.priv { name_buf = some blk };
          body = record s.body { name = some name };
          rec = r;
        }
      ]

  unfoldable pub with_metadata : Bool → List AbiMetadataKv → Begun → Begun
  unfolding encode_metadata
  with_metadata false kvs s = s
  with_metadata true kvs s =
      let ((b, content), r) = encode_metadata malloc little kvs s.rec in
      elim b [
        | none ↦ record s { good = false; rec = r }
        | some blk ↦ record s {
          priv = record s.priv { metadata_buf = some blk };
          body = record s.body { metadata = some content };
          rec = r;
        }
      ]

  -- `build_schema` from `new_priv` to `out->flags = n->flags`.
  unfoldable pub begin_schema : SchemaFields → Bool → List ℕ → Block → Rec → Begun
  unfolding with_format with_name with_metadata
  begin_schema f is_root path b r =
      let s₀ = begun (priv_in b is_root path) r in
      let s₁ = with_format f.format s₀ in
      let s₂ = then_step (with_name f.has_name f.name) s₁ in
      let s₃ = then_step (with_metadata f.has_metadata f.metadata) s₂ in
      then_step (λ s. record s { body = record s.body { flags = f.flags } }) s₃

  unfoldable mutual
    unfolding obs_alloc begin_schema alloc_slots

    -- The three values are whether it succeeded, `*out`, and the state.
    pub build_schema : List ℕ → Bool → AbiSchemaNode → Rec → Bool × ArrowSchema × Rec
    build_schema path is_root (schema_node f cs d) r =
        let (p, r₀) = obs_alloc malloc priv_size r in
        elim p [
          | none ↦ (false, no_schema, r₀)
          | some b ↦
              let s = begin_schema f is_root path b r₀ in
              elim s.good [
                | false ↦ (
                  false,
                  arrow_schema (some s.priv) s.body SchemaArray.no_array SchemaLink.no_link,
                  s.rec,
                )
                | true ↦
                    let slots = max_u32 f.n_children (schema_count cs) in
                    let priv = record s.priv { child_slots = slots } in
                    let (room, array, r₁) = alloc_slots malloc slots s.rec in
                    elim room [
                      | false ↦ (
                        false,
                        arrow_schema (some priv) s.body SchemaArray.no_array SchemaLink.no_link,
                        r₁,
                      )
                      | true ↦
                          let (good, children, r₂) = build_slots path 0 slots cs r₁ in
                          elim good [
                            | false ↦ (
                              false,
                              arrow_schema (some priv) s.body (schema_array array children)
                                  SchemaLink.no_link,
                              r₂,
                            )
                            | true ↦
                                let (good', link, r₃) = build_dictionary path d r₂ in
                                let body = record s.body { n_children = f.n_children } in
                                (
                                  good',
                                  arrow_schema (some priv) body (schema_array array children) link,
                                  r₃,
                                )
                          ]
                    ]
              ]
        ]

    -- The loop over the children: `left` slots are left from slot `i` on.
    pub build_slots : List ℕ → ℕ → ℕ → SchemaChildren → Rec → Bool × SchemaSlots × Rec
    build_slots path i left SchemaChildren.nil r = (true, null_schemas left, r)
    build_slots path i left (SchemaChildren.cons n ns) r =
        let (b, r₀) = obs_alloc malloc schema_size r in
        elim b [
          | none ↦ (false, null_schemas left, r₀)
          | some blk ↦
              let (good, ch, r₁) = build_schema (child_path path (index_leaf i)) false n r₀ in
              elim good [
                | false ↦ (false, SchemaSlots.slot blk ch (null_schemas (left - 1)), r₁)
                | true ↦
                    let (good', slots, r₂) = build_slots path (suc i) (left - 1) ns r₁ in
                    (good', SchemaSlots.slot blk ch slots, r₂)
              ]
        ]

    pub build_dictionary : List ℕ → SchemaDictionary → Rec → Bool × SchemaLink × Rec
    build_dictionary path SchemaDictionary.absent r = (true, SchemaLink.no_link, r)
    build_dictionary path (SchemaDictionary.present n) r =
        let (b, r₀) = obs_alloc malloc schema_size r in
        elim b [
          | none ↦ (false, SchemaLink.no_link, r₀)
          | some blk ↦
              let (good, d, r₁) = build_schema (child_path path dict_leaf) false n r₀ in
              (good, SchemaLink.link_to blk d, r₁)
        ]
