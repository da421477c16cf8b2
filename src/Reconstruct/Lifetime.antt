-- ===== src/Reconstruct/Lifetime.antt =====
-- A reconstruction from its construction to its end, libabi/src/reconstruct.c: `reconstruct` and the
-- release of everything. The pointers that are passed are not NULL.
use arrow_abi_doctor.Base.{
  ℕ, ◌*◌, List, [], ◌∷◌, ◌++◌, Bool, true, false, not, ◌||◌, Option, none, some, length, ◌==◌,
  if◌then◌else◌,
}
use arrow_abi_doctor.Status.{AbiStatus, no_memory, missing_section}
use arrow_abi_doctor.Model.{AbiAllocation, AbiSchemaNode, AbiArrayNode, AbiCase}
use arrow_abi_doctor.Case.Write.{abi_case_encode, encoded, not_encoded}
use arrow_abi_doctor.Case.Read.{abi_case_decode, decoded, not_decoded}
use arrow_abi_doctor.Reconstruct.Observer.{
  AbiEventKind, Rec, obs_event, obs_alloc, obs_alloc_aligned,
}
use arrow_abi_doctor.Reconstruct.Release.{free_backing_allocations}
use arrow_abi_doctor.Reconstruct.Build.{pointer_size}
use arrow_abi_doctor.Reconstruct.Build.Schema.{build_schema}
use arrow_abi_doctor.Reconstruct.Build.Array.{build_array}
use arrow_abi_doctor.Reconstruct.Export.{root_path, harness_release_schema, harness_release_array}
use arrow_abi_doctor.Reconstruct.State.{
  AbiReconstruction, schema_at, array_at, stream_at, new_rec, new_reconstruction,
}
use arrow_abi_doctor.Reconstruct.Stream.{harness_release_stream}

abbrev pub release_stream_if : Bool → AbiReconstruction → AbiReconstruction
release_stream_if false r = r
release_stream_if true r =
    let (s, r') = harness_release_stream (stream_at r) r.stream r in record r' { stream = s }

abbrev pub release_schema_in : AbiReconstruction → AbiReconstruction
release_schema_in r =
    let (s, rec') = harness_release_schema (schema_at r) r.schema r.rec in
    record r { schema = s; rec = rec' }

abbrev pub release_array_if : Bool → AbiReconstruction → AbiReconstruction
release_array_if false r = r
release_array_if true r =
    let (a, rec') = harness_release_array (array_at r) r.array r.rec in
    record r { array = a; rec = rec' }

-- The calls before `free_backing_allocations(r)`.
unfoldable pub release_structures : AbiReconstruction → AbiReconstruction
unfolding harness_release_stream harness_release_schema harness_release_array
release_structures r =
    let r₁ = release_schema_in (release_stream_if r.stream_mode r) in
    release_array_if r₁.has_array r₁

unfoldable pub abi_reconstruction_release_all : AbiReconstruction → AbiReconstruction
unfolding release_structures free_backing_allocations
abi_reconstruction_release_all r =
    let r₁ = release_structures r in record r₁ { rec = free_backing_allocations r₁.rec }

unfoldable pub abi_reconstruction_leaked : AbiReconstruction → Bool
abi_reconstruction_leaked r =
    let s = r.rec.obs.alloc in
    not (s.bytes_allocated == s.bytes_freed) || not (s.blocks_allocated == s.blocks_freed)

-- `failed st r`: the status, and what `abi_reconstruction_free` has made of the reconstruction when it
-- frees it.
pub data Reconstructed : Type 0 where
  reconstructed : AbiReconstruction → Reconstructed
  refused : AbiStatus → Reconstructed
  failed : AbiStatus → AbiReconstruction → Reconstructed

-- `malloc` answers its call of a number for a size; `little` is the host's byte order.
module _ (malloc : ℕ → ℕ → Option ℕ) (little : Bool) where
  -- The loop over the allocations; a failure stops it.
  unfoldable pub alloc_each : List AbiAllocation → Rec → Bool × Rec
  unfolding obs_alloc_aligned
  alloc_each [] r = (true, r)
  alloc_each (a ∷ rest) r =
      let (b, r₁) =
        obs_alloc_aligned malloc (if a.size_bytes == 0 then 1 else a.size_bytes) a.alignment r in
      elim b [
        | none ↦ (false, r₁)
        | some blk ↦ alloc_each rest (record r₁ { allocations = r₁.allocations ++ (blk ∷ []) })
      ]

  -- The block `if (c->alloc_count) { ... }`.
  unfoldable pub alloc_backing : List AbiAllocation → Rec → Bool × Rec
  unfolding obs_alloc alloc_each
  alloc_backing allocs r =
      let r₀ = record r { alloc_count = length allocs } in
      if length allocs == 0
      then (true, r₀)
      else let (b, r₁) = obs_alloc malloc (length allocs * pointer_size) r₀ in
        elim b [
          | none ↦ (false, r₁)
          | some blk ↦ alloc_each allocs (record r₁ { alloc_data = some blk })
        ]

  unfoldable pub export_schema : Bool → AbiSchemaNode → AbiReconstruction → Bool × AbiReconstruction
  unfolding build_schema obs_event
  export_schema true n r = (true, r)
  export_schema false n r =
      let (good, s, rec') = build_schema malloc little root_path true n r.rec in
      (
        good,
        record r {
          schema = s;
          rec =
              if good
              then obs_event AbiEventKind.schema_exported root_path false (schema_at r) rec'
              else rec';
        },
      )

  -- `has_array` is set behind a successful `build_array`.
  unfoldable pub export_array : Option AbiArrayNode → AbiReconstruction → Bool × AbiReconstruction
  unfolding build_array obs_event
  export_array none r = (true, r)
  export_array (some n) r =
      let (good, a, rec') = build_array malloc root_path true n r.rec in
      (
        good,
        record r {
          array = a;
          has_array = good;
          rec =
              if good
              then obs_event AbiEventKind.array_exported root_path false (array_at r) rec'
              else rec';
        },
      )

  abbrev give_up : AbiReconstruction → Reconstructed
  give_up r = failed no_memory (abi_reconstruction_release_all r)

  -- `room` is where `calloc` puts the reconstruction, if it does.
  unfoldable pub reconstruct : Option ℕ → AbiCase → Bool → Reconstructed
  unfolding alloc_backing export_schema export_array abi_reconstruction_release_all
  reconstruct room c stream_mode = elim c.schema [
    | none ↦ refused missing_section
    | some n ↦ elim room [
      | none ↦ refused no_memory
      | some at ↦
          let (backed, rec₁) = alloc_backing c.allocations new_rec in
          let r₁ = record (new_reconstruction at) { rec = rec₁ } in
          let (built, r₂) = export_schema stream_mode n r₁ in
          let (complete, r₃) = export_array c.array r₂ in
          if not backed
          then give_up r₁
          else if not built
          then give_up r₂
          else if not complete
          then give_up r₃
          else reconstructed r₃
    ]
  ]

  unfoldable pub abi_reconstruct : Option ℕ → AbiCase → Reconstructed
  unfolding reconstruct
  abi_reconstruct room c = reconstruct room c false

-- The copy of the case goes through its encoding: `realloc`, `block` and `arena` are the oracles of the
-- encoder and the decoder, `fresh` that of abi_case_new.
module _ (malloc : ℕ → ℕ → Option ℕ) (little : Bool) (realloc block : ℕ → Bool)
    (arena : ℕ → ℕ → Bool) (fresh : Bool) where
  abbrev as_stream : AbiReconstruction → AbiCase → AbiReconstruction
  as_stream r kept = record r {
    stream_case = some kept;
    stream_mode = true;
    stream = record { live = true };
    rec = obs_event AbiEventKind.stream_exported root_path false (stream_at r) r.rec;
  }

  abbrev keep_case : AbiCase → AbiReconstruction → Reconstructed
  keep_case c r = elim (abi_case_encode realloc block c) [
    | not_encoded st ↦ failed st (abi_reconstruction_release_all r)
    | encoded bytes ↦ elim (abi_case_decode arena fresh bytes) [
      | not_decoded err ↦ failed err.status (abi_reconstruction_release_all r)
      | decoded kept ↦ reconstructed (as_stream r kept)
    ]
  ]

  unfoldable pub abi_reconstruct_stream : Option ℕ → AbiCase → Reconstructed
  unfolding reconstruct abi_reconstruction_release_all obs_event
  abi_reconstruct_stream room c = elim (reconstruct malloc little room c true) [
    | reconstructed r ↦ keep_case c r
    | refused st ↦ refused st
    | failed st r ↦ failed st r
  ]
