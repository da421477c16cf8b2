-- ===== src/Callseq/Ops.antt =====
-- The operations on a schema and an array, libabi/src/callseq.c.
use arrow_abi_doctor.Base.{
  ℕ, ◌+◌, Bool, true, false, not, ◌&&◌, ◌||◌, Option, none, some, leb, if◌then◌else◌,
}
use arrow_abi_doctor.Reconstruct.Structs.{
  ArrowArray, ArrayLink, arrow_array, no_schema, no_arrow_array, schema_live, array_live,
}
use arrow_abi_doctor.Reconstruct.Export.{
  abi_reconstruction_move_schema, abi_reconstruction_move_array, note_schema_import,
  note_array_import, note_schema_returned, note_array_returned,
}
use arrow_abi_doctor.Callseq.{
  AbiCallseqOutcome, accepted, rejected, unsupported, invalid, World, schema_place, schema_of,
  array_place, array_of, put_schema, put_array, with_rec, AbiConsumer, Exec,
}

-- The stores of `op_move` once its memory is there.
unfoldable pub move_schema_to : ℕ → World → World
unfolding abi_reconstruction_move_schema put_schema
move_schema_to at w =
    let (st, dst, src, r) =
      abi_reconstruction_move_schema at no_schema (schema_place w) (schema_of w) w.recon.rec in
    record (with_rec r (put_schema src w)) {
      moved_schema = some (record { at = at; content = dst });
    }

unfoldable pub move_array_to : ℕ → World → World
unfolding abi_reconstruction_move_array put_array
move_array_to at w =
    let (st, dst, src, r) =
      abi_reconstruction_move_array at no_arrow_array (array_place w) (array_of w) w.recon.rec in
    record (with_rec r (put_array src w)) { moved_array = some (record { at = at; content = dst }) }

abbrev pub children_of : ArrowArray → ℕ
children_of (arrow_array p b children dictionary) = b.n_children

abbrev pub has_dictionary : ArrowArray → Bool
has_dictionary (arrow_array p b children ArrayLink.no_link) = false
has_dictionary (arrow_array p b children (ArrayLink.link_to d a)) = true

-- `calloc` answers its call of a number; `enabled` is ABI_ENABLE_USE_AFTER_RELEASE.
module _ {Ctx : Type 0} (consumer : AbiConsumer Ctx) (calloc : ℕ → Option ℕ) (enabled : Bool) where
  unfoldable pub op_move : Exec Ctx → AbiCallseqOutcome × Exec Ctx
  unfolding move_schema_to move_array_to
  op_move x =
      if x.schema_imported || x.array_imported
      then (invalid, x)
      else let x₁ = record x { callocs = x.callocs + 1 } in
        let x₂ = record x { callocs = x.callocs + 2 } in
        elim (calloc x.callocs) [
          | none ↦ (invalid, if x.has_array then x₂ else x₁)
          | some s ↦
              let w = move_schema_to s x.world in
              if not x.has_array
              then (accepted, record x₁ { world = w })
              else elim (calloc (x.callocs + 1)) [
                | none ↦ (invalid, x₂)
                | some a ↦ (accepted, record x₂ { world = move_array_to a w })
              ]
        ]

  -- What follows a call of `import_schema`.
  unfoldable pub schema_answered : Bool × Ctx × World → Exec Ctx → AbiCallseqOutcome × Exec Ctx
  unfolding note_schema_returned
  schema_answered (refused, ctx, w) x =
      let x₁ = record x { ctx = ctx; world = w; schema_imported = not refused } in
      if not refused
      then (accepted, x₁)
      else if schema_live (schema_of w)
      then (
        rejected,
        record x₁ { world = with_rec (note_schema_returned (schema_place w) w.recon.rec) w },
      )
      else (rejected, x₁)

  unfoldable pub array_answered : Bool × Ctx × World → Exec Ctx → AbiCallseqOutcome × Exec Ctx
  unfolding note_array_returned
  array_answered (refused, ctx, w) x =
      let x₁ = record x { ctx = ctx; world = w; array_imported = not refused } in
      if not refused
      then (accepted, x₁)
      else if array_live (array_of w)
      then (
        rejected,
        record x₁ { world = with_rec (note_array_returned (array_place w) w.recon.rec) w },
      )
      else (rejected, x₁)

  -- `op_import` for the two codes.
  unfoldable pub op_import_schema : Exec Ctx → AbiCallseqOutcome × Exec Ctx
  unfolding note_schema_import schema_answered
  op_import_schema x = elim consumer.import_schema [
    | none ↦ (unsupported, x)
    | some call ↦
        let at = schema_place x.world in
        if x.schema_imported
        then (invalid, x)
        else schema_answered
            (call at x.ctx (with_rec (note_schema_import at x.world.recon.rec) x.world)) x
  ]

  unfoldable pub op_import_array : Exec Ctx → AbiCallseqOutcome × Exec Ctx
  unfolding note_array_import array_answered
  op_import_array x = elim consumer.import_array [
    | none ↦ (unsupported, x)
    | some call ↦
        let at = array_place x.world in
        if not x.has_array
        then (invalid, x)
        else if x.array_imported
        then (invalid, x)
        else array_answered
            (call at x.ctx (with_rec (note_array_import at x.world.recon.rec) x.world)) x
  ]

  abbrev performed : Ctx × World → Exec Ctx → AbiCallseqOutcome × Exec Ctx
  performed (ctx, w) x = (accepted, record x { ctx = ctx; world = w })

  unfoldable pub op_use_after_release : Exec Ctx → AbiCallseqOutcome × Exec Ctx
  op_use_after_release x =
      if not enabled then (unsupported, x) else elim consumer.use_after_release [
        | none ↦ (unsupported, x)
        | some call ↦ performed (call x.ctx x.world) x
      ]

  unfoldable pub op_release_child : ℕ → Exec Ctx → AbiCallseqOutcome × Exec Ctx
  op_release_child arg0 x =
      if not x.array_imported then (invalid, x) else elim consumer.release_child [
        | none ↦ (unsupported, x)
        | some call ↦
            if leb (children_of (array_of x.world)) arg0
            then (invalid, x)
            else performed (call arg0 x.ctx x.world) x
      ]

  unfoldable pub op_release_dictionary : Exec Ctx → AbiCallseqOutcome × Exec Ctx
  op_release_dictionary x =
      if not x.array_imported then (invalid, x) else elim consumer.release_dictionary [
        | none ↦ (unsupported, x)
        | some call ↦
            if not (has_dictionary (array_of x.world))
            then (invalid, x)
            else performed (call x.ctx x.world) x
      ]

  unfoldable pub op_release_base : Exec Ctx → AbiCallseqOutcome × Exec Ctx
  op_release_base x = elim consumer.release_base [
    | none ↦ (unsupported, x)
    | some call ↦
        if not x.schema_imported && (not x.array_imported && not x.stream_imported)
        then (invalid, x)
        else performed (call x.ctx x.world) x
  ]
