-- ===== src/Accounts/Leaks.antt =====
-- The leak verdict of libabi/src/reconstruct.c: a reconstruction that was built leaks nothing once it is
-- released, and what a failed one leaves behind is the array it had begun.
use arrow_abi_doctor.Base.{
  ℕ, ◌+◌, ◌-◌, ◌*◌, ltb, ◌%◌, ◌^◌, ◌<◌, ◌⊎◌, ◌≡◌, refl, ap, sym, ◌∙◌, arith, List, Bool, true,
  false, not, Option, none, some, length, ◌==◌, if◌then◌else◌, if_cases, elim_cases, Bool-cases,
  inl, inr, not-true, not-false,
}
use mathlib.Core.Path.{subst}
use arrow_abi_doctor.Status.{AbiStatus, no_memory}
use arrow_abi_doctor.Model.{AbiAllocation, AbiSchemaNode, AbiArrayNode, AbiCase}
use arrow_abi_doctor.Reconstruct.Export.{root_path}
use arrow_abi_doctor.Reconstruct.Build.Schema.{build_schema}
use arrow_abi_doctor.Reconstruct.Build.Array.{build_array}
use arrow_abi_doctor.Reconstruct.Observer.{
  AbiEventKind, Rec, hdr_size, obs_alloc, obs_alloc_aligned,
}
use arrow_abi_doctor.Reconstruct.Build.{pointer_size}
use arrow_abi_doctor.Reconstruct.Release.{free_backing_allocations}
use arrow_abi_doctor.Reconstruct.State.{AbiReconstruction, array_at, new_rec, new_reconstruction}
use arrow_abi_doctor.Reconstruct.Lifetime.{
  Reconstructed, reconstructed, refused, failed, abi_reconstruction_release_all,
  abi_reconstruction_leaked, release_structures, alloc_backing, export_schema, export_array,
  reconstruct,
}
use arrow_abi_doctor.Accounts.{
  Measure, bytes, blocks, allocated, freed, backing, Balanced, schema_holds, array_holds,
  obs_event-Balanced,
}
use arrow_abi_doctor.Accounts.Release.{Balanced-of}
use arrow_abi_doctor.Accounts.Backing.{HasPointers, alloc_backing-Backs}
use arrow_abi_doctor.Accounts.Build.Schema.{build_schema-holds}
use arrow_abi_doctor.Accounts.Build.Array.{build_array-holds}
use arrow_abi_doctor.Accounts.Lifetime.{owed, stranded, release_all-Balanced, release_all-array}

-- A reconstruction that accounts for all its memory, `x` of each measure being held elsewhere.
abbrev pub Accounted : (Measure → ℕ) → AbiReconstruction → Type 0
Accounted x r = (m : Measure) → Balanced m (x m + owed m r) r.rec

abbrev pub nothing : Measure → ℕ
nothing m = 0

-- Once everything is released, the counters agree.
pub release_all-leaked :
    (r : AbiReconstruction)
    → Accounted nothing r
    → abi_reconstruction_leaked (abi_reconstruction_release_all r) ≡ false
unfolding abi_reconstruction_leaked
release_all-leaked r h =
    let (by, z) = release_all-Balanced bytes 0 r (h bytes) in
    let (bl, z') = release_all-Balanced blocks 0 r (h blocks) in
    let bytes_agree : allocated bytes (abi_reconstruction_release_all r).rec
        ≡ freed bytes (abi_reconstruction_release_all r).rec =
      omega (arith, by.sum, by.range, z) in
    let blocks_agree : allocated blocks (abi_reconstruction_release_all r).rec
        ≡ freed blocks (abi_reconstruction_release_all r).rec =
      omega (arith, bl.sum, bl.range, z') in
    ground arith

-- What a failed reconstruction leaves, once it is released: the array that it does not have.
abbrev Abandoned : AbiReconstruction → Type 0
Abandoned r = (m : Measure) → Balanced m (array_holds m r.array) r.rec × (backing m r.rec ≡ 0)

release_all-Abandoned :
    (r : AbiReconstruction)
    → r.stream_mode ≡ false
    → r.has_array ≡ false
    → ((m : Measure) → Balanced m (array_holds m r.array + owed m r) r.rec)
    → Abandoned (abi_reconstruction_release_all r)
release_all-Abandoned r mode has h m =
    let (h', z) = release_all-Balanced m (array_holds m r.array) r (h m) in
    (Balanced-of m _ (ap (array_holds m) (sym (release_all-array r mode has))) h', z)

-- Without an array, the schema is all that is owed.
owed-none :
    (m : Measure) (r : AbiReconstruction)
    → r.has_array ≡ false
    → array_holds m r.array ≡ 0
    → schema_holds m r.schema ≡ array_holds m r.array + owed m r
owed-none m r has z = simp has (omega (arith, z))

owed-stranded :
    (m : Measure) (r : AbiReconstruction)
    → r.has_array ≡ false
    → stranded m r + owed m r ≡ array_holds m r.array + owed m r
owed-stranded m r has = simp has refl

module _ (malloc : ℕ → ℕ → Option ℕ) (little : Bool) where
  export_schema-Accounted :
      (m : Measure) (stream_mode : Bool) (n : AbiSchemaNode) (at : ℕ) (r : Rec)
      → Balanced m 0 r
      → let r' =
          (export_schema malloc little stream_mode n
            (record (new_reconstruction at) { rec = r })).1 in
        Balanced m (schema_holds m r'.schema) r'.rec
  unfolding export_schema schema_holds
  export_schema-Accounted m true n at r h = h
  export_schema-Accounted m false n at r h =
      let built = build_schema malloc little root_path true n r in
      let h₁ = build_schema-holds malloc little m 0 root_path true n r h in
      if_cases (Balanced m (schema_holds m built.1)) built.0 _ _
        (λ _.
          obs_event-Balanced m _ AbiEventKind.schema_exported root_path false (at + 16) built.2
            (Balanced-of m _ (omega arith) h₁))
        (λ _. Balanced-of m _ (omega arith) h₁)

  export_schema-shape :
      (m : Measure) (stream_mode : Bool) (n : AbiSchemaNode) (at : ℕ) (r : Rec)
      → let r' =
          (export_schema malloc little stream_mode n
            (record (new_reconstruction at) { rec = r })).1 in
        (r'.stream_mode ≡ false) × (r'.has_array ≡ false) × (array_holds m r'.array ≡ 0)
  unfolding export_schema array_holds
  export_schema-shape m true n at r = (refl, refl, refl)
  export_schema-shape m false n at r = (refl, refl, refl)

  export_array-Accounted :
      (m : Measure) (a : Option AbiArrayNode) (r : AbiReconstruction)
      → r.has_array ≡ false
      → array_holds m r.array ≡ 0
      → Balanced m (schema_holds m r.schema) r.rec
      → let r' = (export_array malloc little a r).1 in Balanced m (stranded m r' + owed m r') r'.rec
  unfolding export_array
  export_array-Accounted m none r has z h = Balanced-of m _ (ground arith) h
  export_array-Accounted m (some n) r has z h =
      let built = build_array malloc root_path true n r.rec in
      let h₁ = build_array-holds malloc m _ root_path true n r.rec h in
      if_cases
        (λ t.
          Balanced m
            ((if built.0 then 0 else array_holds m built.1)
              + (schema_holds m r.schema + (if built.0 then array_holds m built.1 else 0)))
            t)
        built.0 _ _
        (λ e.
          obs_event-Balanced m _ AbiEventKind.array_exported root_path false (array_at r) built.2
            (Balanced-of m _ (ground arith) h₁))
        (λ e. Balanced-of m _ (ground arith) h₁)

  export_array-shape :
      (m : Measure) (a : Option AbiArrayNode) (r : AbiReconstruction)
      → r.has_array ≡ false
      → array_holds m r.array ≡ 0
      → let (complete, r') = export_array malloc little a r in
        (r'.stream_mode ≡ r.stream_mode)
        × (complete ≡ true → stranded m r' ≡ 0)
        × (complete ≡ false → r'.has_array ≡ false)
  unfolding export_array
  export_array-shape m none r has z = (refl, λ _. simp (has, z) refl, λ _. has)
  export_array-shape m (some n) r has z = (refl, λ e. simp e refl, λ e. e)

  -- The three ways in which `reconstruct` ends.
  abbrev Outcome : List AbiAllocation → Reconstructed → Type 0
  Outcome allocs (reconstructed r) = Accounted nothing r
  Outcome allocs (refused st) = Unit {0}
  Outcome allocs (failed st r) = HasPointers malloc allocs → Abandoned r

  reconstruct-Outcome :
      (room : Option ℕ) (c : AbiCase) (stream_mode : Bool)
      → Outcome c.allocations (reconstruct malloc little room c stream_mode)
  unfolding reconstruct schema_holds array_holds
  reconstruct-Outcome room c stream_mode =
      elim_cases (Outcome c.allocations) c.schema _ _ (λ _. tt)
        λ n _.
          elim_cases (Outcome c.allocations) room _ _ (λ _. tt)
            λ at _.
              let t₁ = alloc_backing malloc little c.allocations new_rec in
              let r₁ = record (new_reconstruction at) { rec = t₁.1 } in
              let t₂ = export_schema malloc little stream_mode n r₁ in
              let t₃ = export_array malloc little c.array t₂.1 in
              let (mode₂, has₂, _) = export_schema-shape bytes stream_mode n at t₁.1 in
              let none₂ = λ (m : Measure). (export_schema-shape m stream_mode n at t₁.1).2 in
              let (mode₃, _, has₃) = export_array-shape bytes c.array t₂.1 has₂ (none₂ bytes) in
              let kept₃ = λ (m : Measure). (export_array-shape m c.array t₂.1 has₂ (none₂ m)).1 in
              let h₁ = λ (m : Measure). alloc_backing-Backs malloc little m c.allocations in
              let h₂ = λ (m : Measure) (ok : (t₁.0 ≡ true) ⊎ HasPointers malloc c.allocations).
                export_schema-Accounted m stream_mode n at t₁.1 (h₁ m ok) in
              let h₃ = λ (m : Measure) (ok : (t₁.0 ≡ true) ⊎ HasPointers malloc c.allocations).
                export_array-Accounted m c.array t₂.1 has₂ (none₂ m) (h₂ m ok) in
              if_cases (Outcome c.allocations) (not t₁.0) _ _
                (λ _ g. release_all-Abandoned r₁ refl refl (λ m. h₁ m (inr g)))
                λ b₁.
                  if_cases (Outcome c.allocations) (not t₂.0) _ _
                    (λ _ g.
                      release_all-Abandoned t₂.1 mode₂ has₂
                        (λ m. Balanced-of m _ (owed-none m t₂.1 has₂ (none₂ m)) (h₂ m (inr g))))
                    λ b₂.
                      if_cases (Outcome c.allocations) (not t₃.0) _ _
                        (λ b₃ g.
                          let has = has₃ (not-true _ b₃) in
                          release_all-Abandoned t₃.1 (mode₃ ∙ mode₂) has
                            (λ m. Balanced-of m _ (owed-stranded m t₃.1 has) (h₃ m (inr g))))
                        λ b₃ m.
                          Balanced-of m _ (omega (arith, kept₃ m (not-false _ b₃)))
                            (h₃ m (inl (not-false _ b₁)))

-- For any memory that is granted or refused: a reconstruction that was built, as structures or as the
-- parts of a stream, leaks nothing once everything is released.
pub reconstruct-leaked :
    (malloc : ℕ → ℕ → Option ℕ) (little : Bool) (room : Option ℕ) (c : AbiCase) (stream_mode : Bool)
    (r : AbiReconstruction)
    → reconstruct malloc little room c stream_mode ≡ reconstructed r
    → abi_reconstruction_leaked (abi_reconstruction_release_all r) ≡ false
reconstruct-leaked malloc little room c stream_mode r e = release_all-leaked r (
    subst (Outcome malloc little c.allocations) e
      (reconstruct-Outcome malloc little room c stream_mode))

-- When a reconstruction fails, for want of memory behind the array of pointers to the allocations, what
-- was allocated and is never freed is exactly what the array holds that was begun: it is not released,
-- since has_array is not yet set. Bytes and blocks are counted modulo 2 ^ 64.
pub reconstruct-abandons :
    (malloc : ℕ → ℕ → Option ℕ) (little : Bool) (room : Option ℕ) (c : AbiCase) (stream_mode : Bool)
    (st : AbiStatus) (r : AbiReconstruction) (m : Measure)
    → HasPointers malloc c.allocations
    → reconstruct malloc little room c stream_mode ≡ failed st r
    → allocated m r.rec ≡ (freed m r.rec + array_holds m r.array) % 2 ^ 64
reconstruct-abandons malloc little room c stream_mode st r m g e =
    let (h, z) =
      subst (Outcome malloc little c.allocations) e
        (reconstruct-Outcome malloc little room c stream_mode) g m in
    omega (arith, h.sum, z)

refused_pointers :
    (malloc : ℕ → ℕ → Option ℕ) (little : Bool) (allocs : List AbiAllocation)
    → 0 < length allocs
    → ((size : ℕ) → malloc 0 size ≡ none)
    → let (backed, r) = alloc_backing malloc little allocs new_rec in
      (backed ≡ false) × ((free_backing_allocations r).null_read ≡ true)
unfolding alloc_backing obs_alloc obs_alloc_aligned free_backing_allocations
refused_pointers malloc little allocs pos refusal =
    let none_given = refusal (length allocs * pointer_size + 8 + hdr_size) in
    let some_allocs : (length allocs == 0) ≡ false = ground arith in
    elim (Bool-cases (ltb (2 ^ 64 - 1 - 8 - hdr_size) (length allocs * pointer_size))) [
      | inl large ↦ simp (some_allocs, large) (refl, refl)
      | inr fits ↦ simp (some_allocs, fits, none_given) (refl, refl)
    ]

-- A reconstruction of a case with allocations whose first request for memory is refused reads through
-- the NULL pointer `alloc_data` while it cleans up.
pub reconstruct-null_read :
    (malloc : ℕ → ℕ → Option ℕ) (little : Bool) (at : ℕ) (c : AbiCase) (stream_mode : Bool)
    (n : AbiSchemaNode)
    → c.schema ≡ some n
    → 0 < length c.allocations
    → ((size : ℕ) → malloc 0 size ≡ none)
    → (r : AbiReconstruction) × (reconstruct malloc little (some at) c stream_mode
        ≡ failed no_memory r)
      × (r.rec.null_read ≡ true)
unfolding reconstruct abi_reconstruction_release_all release_structures
reconstruct-null_read malloc little at c stream_mode n e pos refusal =
    let (unbacked, null) = refused_pointers malloc little c.allocations pos refusal in
    let r = abi_reconstruction_release_all (record (new_reconstruction at) {
      rec = (alloc_backing malloc little c.allocations new_rec).1;
    }) in
    (
      r,
      elim_cases (λ t. t ≡ failed no_memory r) c.schema _ _ (λ z. absurd (cc))
          (λ _ _. simp unbacked refl),
      null,
    )
