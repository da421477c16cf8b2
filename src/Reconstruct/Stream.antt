-- ===== src/Reconstruct/Stream.antt =====
-- The stream of a reconstruction, libabi/src/reconstruct.c: its callbacks and its lifetime.
use arrow_abi_doctor.Base.{
  ℕ, List, [], ◌∷◌, Bool, true, false, not, ◌&&◌, ◌||◌, Option, none, some, ◌==◌, if◌then◌else◌,
}
use arrow_abi_doctor.Status.{AbiStatus, ok, invalid_argument}
use arrow_abi_doctor.Model.{AbiSchemaNode, AbiCase}
use arrow_abi_doctor.Reconstruct.Observer.{AbiEventKind, Rec, obs_event, deeper, shallower}
use arrow_abi_doctor.Reconstruct.Structs.{
  ArrowSchema, ArrowArray, no_schema, no_arrow_array, array_live,
}
use arrow_abi_doctor.Reconstruct.Release.{entered_by_consumer, array_release, released_array}
use arrow_abi_doctor.Reconstruct.Build.Schema.{build_schema}
use arrow_abi_doctor.Reconstruct.Export.{root_path, moved_array}
use arrow_abi_doctor.Reconstruct.State.{ArrowArrayStream, AbiReconstruction, array_at}

-- "out of memory"
abbrev pub out_of_memory : List ℕ
out_of_memory = 111 ∷ 117 ∷ 116 ∷ 32 ∷ 111 ∷ 102 ∷ 32 ∷ 109 ∷ 101 ∷ 109 ∷ 111 ∷ 114 ∷ 121 ∷ []

-- `r->stream_case->schema`
abbrev pub kept_schema : Option AbiCase → Option AbiSchemaNode
kept_schema none = none
kept_schema (some c) = c.schema

-- The batch that was not handed over, if there is one.
abbrev pub release_batch : Bool → ℕ → ArrowArray → Rec → ArrowArray × Rec
release_batch true at a r = (released_array a, array_release at a r)
release_batch false at a r = (a, r)

-- The stream that is passed lives at `at`; the values are the stream and the reconstruction.
unfoldable pub stream_release : ℕ → AbiReconstruction → ArrowArrayStream × AbiReconstruction
unfolding obs_event array_release
stream_release at r =
    let by_consumer = entered_by_consumer r.rec in
    let r₁ = deeper (obs_event AbiEventKind.stream_release_enter root_path by_consumer at r.rec) in
    let (a, r₂) = release_batch (r.has_array && array_live r.array) (array_at r) r.array r₁ in
    let r₃ = obs_event AbiEventKind.stream_release_exit root_path by_consumer at (shallower r₂) in
    (record { live = false }, record r { rec = r₃; array = a })

unfoldable pub harness_release_stream :
    ℕ → ArrowArrayStream → AbiReconstruction → ArrowArrayStream × AbiReconstruction
unfolding obs_event stream_release
harness_release_stream at s r =
    if not s.live
    then (s, r)
    else let r₁ = obs_event AbiEventKind.harness_released root_path false at r.rec in
      let (s', r₂) =
        stream_release at (record r { rec = record r₁ { harness_releasing = true } }) in
      (s', record r₂ { rec = record r₂.rec { harness_releasing = false } })

unfoldable pub stream_get_next : ℕ → AbiReconstruction → ℕ × ArrowArray × AbiReconstruction
unfolding obs_event
stream_get_next out_at r =
    if r.has_array && array_live r.array
    then (
      0,
      r.array,
      record r {
        array = moved_array r.array;
        rec =
            obs_event AbiEventKind.array_imported root_path false out_at
              (obs_event AbiEventKind.array_moved root_path false out_at r.rec);
      },
    )
    else (
      0,
      no_arrow_array,
      record r { rec = obs_event AbiEventKind.stream_eof root_path false out_at r.rec },
    )

-- The values are the status, `*dst`, `*src` and the reconstruction.
unfoldable pub abi_reconstruction_move_stream :
    ℕ
    → ArrowArrayStream
    → ℕ
    → ArrowArrayStream
    → AbiReconstruction
    → AbiStatus × ArrowArrayStream × ArrowArrayStream × AbiReconstruction
unfolding obs_event
abi_reconstruction_move_stream dst_at dst src_at src r =
    if not src.live || (dst_at == src_at) then (invalid_argument, dst, src, r) else (
      ok,
      src,
      record { live = false },
      record r { rec = obs_event AbiEventKind.stream_moved root_path false dst_at r.rec },
    )

unfoldable pub note_stream_import : ℕ → AbiReconstruction → AbiReconstruction
unfolding obs_event
note_stream_import at r = record r {
  rec = obs_event AbiEventKind.stream_imported root_path false at r.rec;
}

unfoldable pub note_stream_returned : ℕ → AbiReconstruction → AbiReconstruction
unfolding obs_event
note_stream_returned at r = record r {
  rec = obs_event AbiEventKind.stream_returned root_path false at r.rec;
}

-- `malloc` answers its call of a number for a size; `little` is the host's byte order.
module _ (malloc : ℕ → ℕ → Option ℕ) (little : Bool) where
  -- The callbacks of the stream. ENOMEM is 12; the values are the result, `*out` and the state.
  unfoldable pub stream_get_schema : ℕ → AbiReconstruction → ℕ × ArrowSchema × AbiReconstruction
  unfolding build_schema obs_event
  stream_get_schema out_at r = elim (kept_schema r.stream_case) [
    | none ↦ (0, no_schema, record r { rec = record r.rec { null_read = true } })
    | some n ↦
        let (good, s, rec') = build_schema malloc little root_path true n r.rec in
        if not good
        then (12, s, record r { rec = rec'; last_error = out_of_memory })
        else let rec₁ = obs_event AbiEventKind.schema_exported root_path false out_at rec' in
          (
            0,
            s,
            record r { rec = obs_event AbiEventKind.schema_imported root_path false out_at rec₁ },
          )
  ]
