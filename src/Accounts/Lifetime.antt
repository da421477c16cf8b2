-- ===== src/Accounts/Lifetime.antt =====
-- A reconstruction accounts for its memory from its construction on, and releasing everything frees it.
use arrow_abi_doctor.Base.{
  ℕ, ◌+◌, ◌≡◌, refl, arith, Bool, true, false, not, ◌&&◌, none, some, if◌then◌else◌, if_cases,
}
use arrow_abi_doctor.Reconstruct.Observer.{AbiEventKind, Rec, obs_event}
use arrow_abi_doctor.Reconstruct.Structs.{
  ArrowSchema, ArrowArray, arrow_schema, arrow_array, schema_live, array_live,
}
use arrow_abi_doctor.Reconstruct.Release.{
  entered_by_consumer, released_schema, free_backing_allocations, released_array,
}
use arrow_abi_doctor.Reconstruct.Export.{root_path, harness_release_schema, harness_release_array}
use arrow_abi_doctor.Reconstruct.State.{
  ArrowArrayStream, AbiReconstruction, schema_at, array_at, stream_at,
}
use arrow_abi_doctor.Reconstruct.Stream.{release_batch, stream_release, harness_release_stream}
use arrow_abi_doctor.Reconstruct.Lifetime.{
  release_stream_if, release_schema_in, release_array_if, release_structures,
  abi_reconstruction_release_all,
}
use arrow_abi_doctor.Accounts.{
  Measure, bytes, blocks, backing, is_intact, Balanced, schema_holds, array_holds,
  obs_event-Balanced,
}
use arrow_abi_doctor.Accounts.Release.{
  Balanced-of, no_null_read, deeper-Balanced, shallower-Balanced, schema_release-frees,
  array_release-frees, free_backing-Balanced,
}

abbrev pub harnessed : Bool → Rec → Rec
harnessed b r = record r { harness_releasing = b }

pub harnessed-Balanced :
    (m : Measure) (x : ℕ) (b : Bool) (r : Rec) → Balanced m x r → Balanced m x (harnessed b r)
harnessed-Balanced bytes x b r h = record { sum = h.sum; range = h.range; intact = h.intact }
harnessed-Balanced blocks x b r h = record { sum = h.sum; range = h.range; intact = h.intact }

pub released_schema-holds : (m : Measure) (s : ArrowSchema) → schema_holds m (released_schema s) ≡ 0
unfolding schema_holds
released_schema-holds m (arrow_schema p b children dictionary) = refl

pub released_array-holds : (m : Measure) (a : ArrowArray) → array_holds m (released_array a) ≡ 0
unfolding array_holds
released_array-holds m (arrow_array p b children dictionary) = refl

pub harness_release_schema-Balanced :
    (m : Measure) (x at : ℕ) (s : ArrowSchema) (r : Rec)
    → Balanced m (x + schema_holds m s) r
    → let (s', r') = harness_release_schema at s r in Balanced m (x + schema_holds m s') r'
unfolding harness_release_schema
harness_release_schema-Balanced m x at s r h =
    if_cases {A = ArrowSchema × Rec} (λ t. Balanced m (x + schema_holds m t.0) t.1)
      (not (schema_live s)) _ _ (λ _. h)
      λ _. Balanced-of m _ (omega (arith, released_schema-holds m s)) (
        harnessed-Balanced m x false _ (
          schema_release-frees m x at s _
            (harnessed-Balanced m _ true _ (obs_event-Balanced m _ _ root_path false at r h))))

pub harness_release_array-Balanced :
    (m : Measure) (x at : ℕ) (a : ArrowArray) (r : Rec)
    → Balanced m (x + array_holds m a) r
    → let (a', r') = harness_release_array at a r in Balanced m (x + array_holds m a') r'
unfolding harness_release_array
harness_release_array-Balanced m x at a r h =
    if_cases {A = ArrowArray × Rec} (λ t. Balanced m (x + array_holds m t.0) t.1)
      (not (array_live a)) _ _ (λ _. h)
      λ _. Balanced-of m _ (omega (arith, released_array-holds m a)) (
        harnessed-Balanced m x false _ (
          array_release-frees m x at a _
            (harnessed-Balanced m _ true _ (obs_event-Balanced m _ _ root_path false at r h))))

-- What a reconstruction will release: its schema, and its array where it has one.
abbrev pub owed : Measure → AbiReconstruction → ℕ
owed m r = schema_holds m r.schema + (if r.has_array then array_holds m r.array else 0)

-- An array that it has not is released by no one.
abbrev pub stranded : Measure → AbiReconstruction → ℕ
stranded m r = if r.has_array then 0 else array_holds m r.array

release_batch-Balanced :
    (m : Measure) (x : ℕ) (has : Bool) (at : ℕ) (a : ArrowArray) (r : Rec)
    → Balanced m (x + (if has then array_holds m a else 0)) r
    → let (a', r') = release_batch (has && array_live a) at a r in
      Balanced m (x + (if has then array_holds m a' else 0)) r'
unfolding array_holds
release_batch-Balanced m x false at a r h = h
release_batch-Balanced m x true at (arrow_array none b children dictionary) r h = h
release_batch-Balanced m x true at (arrow_array (some p) b children dictionary) r h =
    Balanced-of m _ (omega arith)
      (array_release-frees m x at (arrow_array (some p) b children dictionary) r h)

pub stream_release-Balanced :
    (m : Measure) (x at : ℕ) (r : AbiReconstruction)
    → Balanced m (x + owed m r) r.rec
    → let r' = (stream_release at r).1 in Balanced m (x + owed m r') r'.rec
unfolding stream_release
stream_release-Balanced m x at r h =
    let start = deeper-Balanced m _ _ (
      obs_event-Balanced m _ AbiEventKind.stream_release_enter root_path (entered_by_consumer r.rec)
        at r.rec h) in
    let batch =
      release_batch-Balanced m (x + schema_holds m r.schema) r.has_array (array_at r) r.array _
        (Balanced-of m _ (omega arith) start) in
    Balanced-of m _ (omega arith) (
      obs_event-Balanced m _ AbiEventKind.stream_release_exit root_path _ at _
        (shallower-Balanced m _ _ batch))

pub harness_release_stream-Balanced :
    (m : Measure) (x at : ℕ) (s : ArrowArrayStream) (r : AbiReconstruction)
    → Balanced m (x + owed m r) r.rec
    → let r' = (harness_release_stream at s r).1 in Balanced m (x + owed m r') r'.rec
unfolding harness_release_stream
harness_release_stream-Balanced m x at s r h =
    if_cases {A = ArrowArrayStream × AbiReconstruction} (λ t. Balanced m (x + owed m t.1) t.1.rec)
      (not s.live) _ _ (λ _. h)
      λ _. harnessed-Balanced m _ false _ (
        stream_release-Balanced m x at
          (record r {
            rec = harnessed true (obs_event AbiEventKind.harness_released root_path false at r.rec);
          })
          (harnessed-Balanced m _ true _ (obs_event-Balanced m _ _ root_path false at r.rec h)))

release_stream_if-Balanced :
    (m : Measure) (x : ℕ) (b : Bool) (r : AbiReconstruction)
    → Balanced m (x + owed m r) r.rec
    → let r' = release_stream_if b r in Balanced m (x + owed m r') r'.rec
release_stream_if-Balanced m x false r h = h
release_stream_if-Balanced m x true r h =
    harness_release_stream-Balanced m x (stream_at r) r.stream r h

harness_release_schema-dead :
    (m : Measure) (at : ℕ) (s : ArrowSchema) (r : Rec)
    → schema_holds m (harness_release_schema at s r).0 ≡ 0
unfolding harness_release_schema schema_holds
harness_release_schema-dead m at (arrow_schema none b children dictionary) r = refl
harness_release_schema-dead m at (arrow_schema (some p) b children dictionary) r = refl

harness_release_array-dead :
    (m : Measure) (at : ℕ) (a : ArrowArray) (r : Rec)
    → array_holds m (harness_release_array at a r).0 ≡ 0
unfolding harness_release_array array_holds
harness_release_array-dead m at (arrow_array none b children dictionary) r = refl
harness_release_array-dead m at (arrow_array (some p) b children dictionary) r = refl

release_array_if-Balanced :
    (m : Measure) (x : ℕ) (b : Bool) (r : AbiReconstruction)
    → Balanced m (x + (if b then array_holds m r.array else 0)) r.rec
    → Balanced m x (release_array_if b r).rec
release_array_if-Balanced m x false r h = Balanced-of m _ (omega arith) h
release_array_if-Balanced m x true r h =
    Balanced-of m _ (omega (arith, harness_release_array-dead m (array_at r) r.array r.rec))
      (harness_release_array-Balanced m x (array_at r) r.array r.rec h)

release_structures-Balanced :
    (m : Measure) (x : ℕ) (r : AbiReconstruction)
    → Balanced m (x + owed m r) r.rec
    → Balanced m x (release_structures r).rec
unfolding release_structures
release_structures-Balanced m x r h =
    let r₁ = release_stream_if r.stream_mode r in
    let h₁ = release_stream_if-Balanced m x r.stream_mode r h in
    let h₂ =
      harness_release_schema-Balanced m (x + (if r₁.has_array then array_holds m r₁.array else 0))
        (schema_at r₁) r₁.schema r₁.rec (Balanced-of m _ (omega arith) h₁) in
    release_array_if-Balanced m x r₁.has_array (release_schema_in r₁) (
      Balanced-of m _ (omega (arith, harness_release_schema-dead m (schema_at r₁) r₁.schema r₁.rec))
        h₂)

backing-free_backing :
    (m : Measure) (r : Rec) → is_intact r ≡ true → backing m (free_backing_allocations r) ≡ 0
unfolding free_backing_allocations
backing-free_backing m r h =
    if_cases (λ t. backing m t ≡ 0) r.buffers_freed _ _ (λ e. simp e refl)
      λ e.
        if_cases (λ t. backing m t ≡ 0) _ _ _ (λ null. absurd (no_null_read r h e null)) (λ _. refl)

-- Releasing everything frees what the reconstruction owes, and leaves no backing allocation.
pub release_all-Balanced :
    (m : Measure) (x : ℕ) (r : AbiReconstruction)
    → Balanced m (x + owed m r) r.rec
    → let r' = (abi_reconstruction_release_all r).rec in Balanced m x r' × (backing m r' ≡ 0)
unfolding abi_reconstruction_release_all
release_all-Balanced m x r h =
    let h' = release_structures-Balanced m x r h in
    (free_backing-Balanced m x _ h', backing-free_backing m (release_structures r).rec h'.intact)

-- An array that the reconstruction does not have stays as it is.
pub release_all-array :
    (r : AbiReconstruction)
    → r.stream_mode ≡ false
    → r.has_array ≡ false
    → (abi_reconstruction_release_all r).array ≡ r.array
unfolding abi_reconstruction_release_all release_structures
release_all-array r mode has = simp (mode, has) refl
