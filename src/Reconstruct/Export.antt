-- ===== src/Reconstruct/Export.antt =====
-- The operations on an exported structure, libabi/src/reconstruct.c: the moves, the notes and the
-- harness's releases. A structure is passed with the address where it lives, and the state that a
-- reconstruction keeps beside its structures is `Rec`. The reconstruction is not NULL.
use arrow_abi_doctor.Base.{ℕ, List, [], ◌∷◌, true, false, not, ◌||◌, none, ◌==◌, if◌then◌else◌}
use arrow_abi_doctor.Status.{AbiStatus, ok, invalid_argument}
use arrow_abi_doctor.Reconstruct.Observer.{AbiEventKind, Rec, obs_event}
use arrow_abi_doctor.Reconstruct.Structs.{
  ArrowSchema, ArrowArray, arrow_schema, arrow_array, schema_live, array_live,
}
use arrow_abi_doctor.Reconstruct.Release.{
  schema_release, released_schema, array_release, released_array,
}

-- "/"
abbrev pub root_path : List ℕ
root_path = 47 ∷ []

-- `src->release = NULL`: the rest of the source keeps its bits.
abbrev pub moved_schema : ArrowSchema → ArrowSchema
moved_schema (arrow_schema p b children dictionary) = arrow_schema none b children dictionary

abbrev pub moved_array : ArrowArray → ArrowArray
moved_array (arrow_array p b children dictionary) = arrow_array none b children dictionary

-- The values are the status, `*dst`, `*src` and the state.
unfoldable pub abi_reconstruction_move_schema :
    ℕ → ArrowSchema → ℕ → ArrowSchema → Rec → AbiStatus × ArrowSchema × ArrowSchema × Rec
unfolding obs_event
abi_reconstruction_move_schema dst_at dst src_at src r =
    if not (schema_live src) || (dst_at == src_at)
    then (invalid_argument, dst, src, r)
    else (ok, src, moved_schema src, obs_event AbiEventKind.schema_moved root_path false dst_at r)

unfoldable pub abi_reconstruction_move_array :
    ℕ → ArrowArray → ℕ → ArrowArray → Rec → AbiStatus × ArrowArray × ArrowArray × Rec
unfolding obs_event
abi_reconstruction_move_array dst_at dst src_at src r =
    if not (array_live src) || (dst_at == src_at)
    then (invalid_argument, dst, src, r)
    else (ok, src, moved_array src, obs_event AbiEventKind.array_moved root_path false dst_at r)

unfoldable pub note_schema_import : ℕ → Rec → Rec
unfolding obs_event
note_schema_import at r = obs_event AbiEventKind.schema_imported root_path false at r

unfoldable pub note_array_import : ℕ → Rec → Rec
unfolding obs_event
note_array_import at r = obs_event AbiEventKind.array_imported root_path false at r

unfoldable pub note_schema_returned : ℕ → Rec → Rec
unfolding obs_event
note_schema_returned at r = obs_event AbiEventKind.schema_returned root_path false at r

unfoldable pub note_array_returned : ℕ → Rec → Rec
unfolding obs_event
note_array_returned at r = obs_event AbiEventKind.array_returned root_path false at r

-- The structure and the state.
unfoldable pub harness_release_schema : ℕ → ArrowSchema → Rec → ArrowSchema × Rec
unfolding obs_event schema_release
harness_release_schema at s r =
    if not (schema_live s)
    then (s, r)
    else let r₁ = obs_event AbiEventKind.harness_released root_path false at r in
      let r₂ = schema_release at s (record r₁ { harness_releasing = true }) in
      (released_schema s, record r₂ { harness_releasing = false })

unfoldable pub harness_release_array : ℕ → ArrowArray → Rec → ArrowArray × Rec
unfolding obs_event array_release
harness_release_array at a r =
    if not (array_live a)
    then (a, r)
    else let r₁ = obs_event AbiEventKind.harness_released root_path false at r in
      let r₂ = array_release at a (record r₁ { harness_releasing = true }) in
      (released_array a, record r₂ { harness_releasing = false })
