-- ===== src/Reconstruct/Release.antt =====
-- The release callbacks of libabi/src/reconstruct.c. A call `schema_release at s r` is the callback of a
-- structure at the address `at`, and nothing for a released one, as every caller tests first. The
-- structure that it leaves is `released_schema s`.
use arrow_abi_doctor.Base.{
  ℕ, List, [], ◌∷◌, Bool, true, false, not, ◌&&◌, none, some, ◌==◌, if◌then◌else◌, is_some, ◌+◌,
  ◌%◌, ◌^◌,
}
use arrow_abi_doctor.Reconstruct.Observer.{
  AbiEventKind, Block, Rec, obs_event, obs_free, deeper, shallower,
}
use arrow_abi_doctor.Reconstruct.Structs.{
  AbiNodePriv, ArrowSchema, SchemaArray, SchemaSlots, SchemaLink, ArrowArray, ArrayArray,
  ArraySlots, ArrayLink, arrow_schema, arrow_array,
}

-- `by_consumer`
abbrev pub entered_by_consumer : Rec → Bool
entered_by_consumer r = (r.obs.release_depth == 0) && not r.harness_releasing

abbrev pub violated : Rec → Rec
violated r = record r { obs = record r.obs { violations = (r.obs.violations + 1) % 2 ^ 32 } }

-- From `by_consumer` to `release_depth++`; `enter` is the kind of the event.
unfoldable pub release_enter : AbiEventKind → AbiNodePriv → ℕ → Rec → Rec
unfolding obs_event
release_enter enter p at r =
    let by_consumer = entered_by_consumer r in
    let r₁ =
      if by_consumer && not p.is_root
      then obs_event AbiEventKind.violation_child_released_by_consumer p.path true at (violated r)
      else r in
    deeper (obs_event enter p.path by_consumer at r₁)

-- From `release_depth--` to `obs_free(r, p)`.
unfoldable pub release_exit : AbiEventKind → AbiNodePriv → ℕ → Bool → Rec → Rec
unfolding obs_event obs_free
release_exit exit p at by_consumer r =
    obs_free (some p.block) (obs_event exit p.path by_consumer at (shallower r))

unfoldable pub free_buffers : AbiNodePriv → Rec → Rec
unfolding obs_free
free_buffers p r = obs_free p.metadata_buf (obs_free p.name_buf (obs_free p.format_buf r))

unfoldable mutual
  unfolding release_enter release_exit free_buffers obs_free

  pub schema_release : ℕ → ArrowSchema → Rec → Rec
  schema_release at (arrow_schema none b children dictionary) r = r
  schema_release at (arrow_schema (some p) b children dictionary) r =
      let r₁ = release_enter AbiEventKind.schema_release_enter p at r in
      let r₂ = release_children children r₁ in
      let r₃ = release_dictionary dictionary r₂ in
      release_exit AbiEventKind.schema_release_exit p at (entered_by_consumer r) (free_buffers p r₃)

  -- The loop over the slots, and the array itself.
  pub release_children : SchemaArray → Rec → Rec
  release_children SchemaArray.no_array r = r
  release_children (SchemaArray.array_in b slots) r = obs_free (some b) (release_slots slots r)

  pub release_slots : SchemaSlots → Rec → Rec
  release_slots SchemaSlots.end r = r
  release_slots (SchemaSlots.null_slot slots) r = release_slots slots r
  release_slots (SchemaSlots.slot b ch slots) r =
      release_slots slots (obs_free (some b) (schema_release b.addr ch r))

  pub release_dictionary : SchemaLink → Rec → Rec
  release_dictionary SchemaLink.no_link r = r
  release_dictionary (SchemaLink.link_to b d) r = obs_free (some b) (schema_release b.addr d r)

abbrev pub released_schema : ArrowSchema → ArrowSchema
released_schema (arrow_schema p b children dictionary) =
    arrow_schema none (record b { format = none; name = none; metadata = none })
      SchemaArray.no_array SchemaLink.no_link

unfoldable pub free_all : List Block → Rec → Rec
unfolding obs_free
free_all [] r = r
free_all (b ∷ bs) r = free_all bs (obs_free (some b) r)

-- The loop reads `alloc_data[i]` for each `i` below `alloc_count`.
unfoldable pub free_backing_allocations : Rec → Rec
unfolding free_all obs_free
free_backing_allocations r =
    if r.buffers_freed
    then r
    else if not (is_some r.alloc_data) && not (r.alloc_count == 0)
    then record r { null_read = true }
    else let r₁ = obs_free r.alloc_data (free_all r.allocations r) in
      record r₁ { alloc_data = none; buffers_freed = true }

abbrev pub free_backing_if : Bool → Rec → Rec
free_backing_if true r = free_backing_allocations r
free_backing_if false r = r

unfoldable mutual
  unfolding release_enter release_exit obs_free free_backing_allocations

  pub array_release : ℕ → ArrowArray → Rec → Rec
  array_release at (arrow_array none b children dictionary) r = r
  array_release at (arrow_array (some p) b children dictionary) r =
      let r₁ = release_enter AbiEventKind.array_release_enter p at r in
      let r₂ = release_array_children children r₁ in
      let r₃ = obs_free b.buffers (release_array_dictionary dictionary r₂) in
      release_exit AbiEventKind.array_release_exit p at (entered_by_consumer r)
        (free_backing_if p.is_root r₃)

  pub release_array_children : ArrayArray → Rec → Rec
  release_array_children ArrayArray.no_array r = r
  release_array_children (ArrayArray.array_in b slots) r =
      obs_free (some b) (release_array_slots slots r)

  pub release_array_slots : ArraySlots → Rec → Rec
  release_array_slots ArraySlots.end r = r
  release_array_slots (ArraySlots.null_slot slots) r = release_array_slots slots r
  release_array_slots (ArraySlots.slot b ch slots) r =
      release_array_slots slots (obs_free (some b) (array_release b.addr ch r))

  pub release_array_dictionary : ArrayLink → Rec → Rec
  release_array_dictionary ArrayLink.no_link r = r
  release_array_dictionary (ArrayLink.link_to b d) r = obs_free (some b) (array_release b.addr d r)

-- `buffers` is NULL; the numbers stay.
abbrev pub released_array : ArrowArray → ArrowArray
released_array (arrow_array p b children dictionary) =
    arrow_array none (record b { buffers = none; pointers = [] }) ArrayArray.no_array
      ArrayLink.no_link
