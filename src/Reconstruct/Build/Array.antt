-- ===== src/Reconstruct/Build/Array.antt =====
-- `build_array` of libabi/src/reconstruct.c, with the buffer views as addresses in the allocations.
use arrow_abi_doctor.Base.{
  ℕ, suc, ◌+◌, ◌-◌, List, [], ◌++◌, map, Bool, true, false, Option, none, some, length, replicate,
  get_elem?, ◌==◌, if◌then◌else◌,
}
use arrow_abi_doctor.Model.{
  AbiBufferView, ArrayFields, AbiArrayNode, ArrayChildren, ArrayDictionary, array_node, array_count,
}
use arrow_abi_doctor.Reconstruct.Observer.{Block, Rec, obs_alloc}
use arrow_abi_doctor.Reconstruct.Structs.{
  AbiNodePriv, ArrayBody, ArrowArray, ArrayArray, ArraySlots, ArrayLink, arrow_array, null_arrays,
  no_arrow_array,
}
use arrow_abi_doctor.Reconstruct.Build.{
  priv_size, array_size, child_path, index_leaf, dict_leaf, max_u32, alloc_slots, priv_in,
}

-- `r->alloc_data[v->allocation_id] + v->byte_offset`. A valid case names an allocation that it has.
abbrev view_at : Option Block → ℕ → Option ℕ
view_at none offset = none
view_at (some b) offset = some (b.addr + offset)

unfoldable pub pointer_of : List Block → AbiBufferView → Option ℕ
pointer_of allocations v =
    if v.present == 0 then none else view_at (get_elem? allocations v.allocation_id) v.byte_offset

-- The body of an array under construction: whether to go on, and what it holds.
pub record Begun : Type 0 where
  pub good : Bool
  pub priv : AbiNodePriv
  pub body : ArrayBody
  pub rec : Rec

abbrev pub array_array : Option Block → ArraySlots → ArrayArray
array_array none slots = ArrayArray.no_array
array_array (some b) slots = ArrayArray.array_in b slots

-- `malloc` answers its call of a number for a size.
module _ (malloc : ℕ → ℕ → Option ℕ) where
  -- `build_array` from `out->length = n->length` to `out->n_buffers`.
  unfoldable pub begin_array : ArrayFields → AbiNodePriv → Rec → Begun
  unfolding alloc_slots pointer_of
  begin_array f priv r =
      let slots = max_u32 f.n_buffers (length f.buffers) in
      let body₀ : ArrayBody = record {
        length = f.length;
        null_count = f.null_count;
        offset = f.offset;
        n_buffers = 0;
        n_children = 0;
        buffers = none;
        pointers = [];
      } in
      let (room, array, r₁) = alloc_slots malloc slots r in
      elim room [
        | false ↦ record { good = false; priv = priv; body = body₀; rec = r₁ }
        | true ↦ record {
          good = true;
          priv = priv;
          body = record body₀ {
            n_buffers = f.n_buffers;
            buffers = array;
            pointers =
                map (pointer_of r₁.allocations) f.buffers
                ++ replicate (slots - length f.buffers) none;
          };
          rec = r₁;
        }
      ]

  unfoldable mutual
    unfolding obs_alloc begin_array alloc_slots

    -- The three values are whether it succeeded, `*out`, and the state.
    pub build_array : List ℕ → Bool → AbiArrayNode → Rec → Bool × ArrowArray × Rec
    build_array path is_root (array_node f cs d) r =
        let (p, r₀) = obs_alloc malloc priv_size r in
        elim p [
          | none ↦ (false, no_arrow_array, r₀)
          | some b ↦
              let s = begin_array f (priv_in b is_root path) r₀ in
              elim s.good [
                | false ↦ (
                  false,
                  arrow_array (some s.priv) s.body ArrayArray.no_array ArrayLink.no_link,
                  s.rec,
                )
                | true ↦
                    let slots = max_u32 f.n_children (array_count cs) in
                    let priv = record s.priv { child_slots = slots } in
                    let (room, array, r₁) = alloc_slots malloc slots s.rec in
                    elim room [
                      | false ↦ (
                        false,
                        arrow_array (some priv) s.body ArrayArray.no_array ArrayLink.no_link,
                        r₁,
                      )
                      | true ↦
                          let (good, children, r₂) = build_array_slots path 0 slots cs r₁ in
                          elim good [
                            | false ↦ (
                              false,
                              arrow_array (some priv) s.body (array_array array children)
                                  ArrayLink.no_link,
                              r₂,
                            )
                            | true ↦
                                let (good', link, r₃) = build_array_dictionary path d r₂ in
                                let body = record s.body { n_children = f.n_children } in
                                (
                                  good',
                                  arrow_array (some priv) body (array_array array children) link,
                                  r₃,
                                )
                          ]
                    ]
              ]
        ]

    -- The loop over the children: `left` slots are left from slot `i` on.
    pub build_array_slots : List ℕ → ℕ → ℕ → ArrayChildren → Rec → Bool × ArraySlots × Rec
    build_array_slots path i left ArrayChildren.nil r = (true, null_arrays left, r)
    build_array_slots path i left (ArrayChildren.cons n ns) r =
        let (b, r₀) = obs_alloc malloc array_size r in
        elim b [
          | none ↦ (false, null_arrays left, r₀)
          | some blk ↦
              let (good, ch, r₁) = build_array (child_path path (index_leaf i)) false n r₀ in
              elim good [
                | false ↦ (false, ArraySlots.slot blk ch (null_arrays (left - 1)), r₁)
                | true ↦
                    let (good', slots, r₂) = build_array_slots path (suc i) (left - 1) ns r₁ in
                    (good', ArraySlots.slot blk ch slots, r₂)
              ]
        ]

    pub build_array_dictionary : List ℕ → ArrayDictionary → Rec → Bool × ArrayLink × Rec
    build_array_dictionary path ArrayDictionary.absent r = (true, ArrayLink.no_link, r)
    build_array_dictionary path (ArrayDictionary.present n) r =
        let (b, r₀) = obs_alloc malloc array_size r in
        elim b [
          | none ↦ (false, ArrayLink.no_link, r₀)
          | some blk ↦
              let (good, d, r₁) = build_array (child_path path dict_leaf) false n r₀ in
              (good, ArrayLink.link_to blk d, r₁)
        ]
