-- ===== src/Callseq/Ending.antt =====
-- The moves of libabi/src/callseq.c, and what is live behind it.
use arrow_abi_doctor.Base.{
  ℕ, ◌+◌, ◌≡◌, refl, sym, ap, ◌∙◌, Bool, true, false, not, ◌&&◌, Option, none, some, if_cases,
  Option-cases, inl, inr, ◌⊎◌, not-true,
}
use arrow_abi_doctor.Model.{AbiCase}
use arrow_abi_doctor.Reconstruct.Observer.{Rec}
use arrow_abi_doctor.Reconstruct.Structs.{
  ArrowSchema, ArrowArray, arrow_schema, arrow_array, schema_live, array_live,
}
use arrow_abi_doctor.Reconstruct.Export.{harness_release_schema, harness_release_array}
use arrow_abi_doctor.Callseq.Ops.{op_move}
use arrow_abi_doctor.Reconstruct.State.{ArrowArrayStream, AbiReconstruction, stream_at}
use arrow_abi_doctor.Reconstruct.Stream.{harness_release_stream}
use arrow_abi_doctor.Callseq.{
  World, schema_of, array_of, schema_place, array_place, put_schema, put_array, invalid,
  AbiConsumer, Exec,
}
use arrow_abi_doctor.Callseq.Fixed.{run_ops-Same, let_go-Same}
use arrow_abi_doctor.Callseq.Run.{
  run_ops, let_go, ops_of, start, begun_ctx, begun_result, clean_stream, clean_array, clean_up,
  abi_callseq_run,
}
use arrow_abi_doctor.Callseq.Moves.{
  live_schema, live_array, schema_twice, array_twice, apart, MoveKeeps, op_move-places,
  op_move-MoveKeeps,
}

schema_of-put_schema : (s : ArrowSchema) (w : World) → schema_of (put_schema s w) ≡ s
unfolding put_schema
schema_of-put_schema s w = elim (Option-cases w.moved_schema) [
  | inl e ↦ simp e refl
  | inr (old, e) ↦ simp e refl
]

array_of-put_array : (a : ArrowArray) (w : World) → array_of (put_array a w) ≡ a
unfolding put_array
array_of-put_array a w = elim (Option-cases w.moved_array) [
  | inl e ↦ simp e refl
  | inr (old, e) ↦ simp e refl
]

-- A store to the schema leaves the array and the stream.
put_schema-others :
    (s : ArrowSchema) (w : World)
    → (array_of (put_schema s w) ≡ array_of w)
      × ((put_schema s w).recon.stream.live ≡ w.recon.stream.live)
unfolding put_schema
put_schema-others s w = elim (Option-cases w.moved_schema) [
  | inl e ↦ simp e (refl, refl)
  | inr (old, e) ↦ simp e (refl, refl)
]

put_array-stream :
    (a : ArrowArray) (w : World) → (put_array a w).recon.stream.live ≡ w.recon.stream.live
unfolding put_array
put_array-stream a w = elim (Option-cases w.moved_array) [
  | inl e ↦ simp e refl
  | inr (old, e) ↦ simp e refl
]

harness_release_schema-live :
    (at : ℕ) (s : ArrowSchema) (r : Rec) → schema_live (harness_release_schema at s r).0 ≡ false
unfolding harness_release_schema
harness_release_schema-live at (arrow_schema none b children dictionary) r = refl
harness_release_schema-live at (arrow_schema (some p) b children dictionary) r = refl

harness_release_array-live :
    (at : ℕ) (a : ArrowArray) (r : Rec) → array_live (harness_release_array at a r).0 ≡ false
unfolding harness_release_array
harness_release_array-live at (arrow_array none b children dictionary) r = refl
harness_release_array-live at (arrow_array (some p) b children dictionary) r = refl

harness_release_stream-live :
    (at : ℕ) (s : ArrowArrayStream) (r : AbiReconstruction)
    → (harness_release_stream at s r).0.live ≡ false
unfolding harness_release_stream
harness_release_stream-live at s r =
    if_cases {A = ArrowArrayStream × AbiReconstruction} (λ t. t.0.live ≡ false) (not s.live) _ _
      (λ e. not-true _ e) (λ _. refl)

clean_stream-live :
    (has : Bool) (w : World) → (has && (clean_stream has w).recon.stream.live) ≡ false
clean_stream-live false w = refl
clean_stream-live true w = harness_release_stream-live (stream_at w.recon) w.recon.stream w.recon

clean_array-live :
    (has : Bool) (w : World)
    → ((has && array_live (array_of (clean_array has w))) ≡ false)
      × ((clean_array has w).recon.stream.live ≡ w.recon.stream.live)
clean_array-live false w = (refl, refl)
clean_array-live true w =
    let a = harness_release_array (array_place w) (array_of w) w.recon.rec in
    (
      ap array_live (array_of-put_array a.0 w)
          ∙ harness_release_array-live (array_place w) (array_of w) w.recon.rec,
      put_array-stream a.0 w,
    )

-- What the executor leaves is released.
AllReleased : Bool → Bool → World → Type 0
AllReleased has_array has_stream w =
    (schema_live (schema_of w) ≡ false)
    × ((has_array && array_live (array_of w)) ≡ false)
    × ((has_stream && w.recon.stream.live) ≡ false)

clean_up-AllReleased :
    {Ctx : Type 0} (x : Exec Ctx) → AllReleased x.has_array x.has_stream (clean_up x)
unfolding clean_up AllReleased
clean_up-AllReleased x =
    let w₁ = clean_stream x.has_stream x.world in
    let w₂ = clean_array x.has_array w₁ in
    let s = harness_release_schema (schema_place w₂) (schema_of w₂) w₂.recon.rec in
    let (same_array, same_stream) = put_schema-others s.0 w₂ in
    let (dead, kept) = clean_array-live x.has_array w₁ in
    (
      ap schema_live (schema_of-put_schema s.0 w₂)
          ∙ harness_release_schema-live (schema_place w₂) (schema_of w₂) w₂.recon.rec,
      ap (λ a. x.has_array && array_live a) same_array ∙ dead,
      ap (λ b. x.has_stream && b) (same_stream ∙ kept) ∙ clean_stream-live x.has_stream x.world,
    )

module _ {Ctx : Type 0} (consumer : AbiConsumer Ctx) (calloc : ℕ → Option ℕ) (enabled : Bool) where
  -- For any consumer, however it behaves. A move, in any state of the executor, given that `calloc` answers
  -- with memory apart from the present place or not at all, loses nothing that is live: the live schema is
  -- the same before and behind it, and so is the live array, and a structure that was moved out of the
  -- reconstruction is live there behind the move only if it was before. Unless the move ends as invalid,
  -- the schema's place is then the memory of the first `calloc`, and the array's, if there is an array,
  -- that of the second. And behind the executor the schema at its present place, the array at its place
  -- if there is one, and the stream if there is one are released.
  pub run-releases :
      (r : AbiReconstruction) (c : AbiCase) (ctx : Ctx) (x : Exec Ctx)
      → apart (calloc x.callocs) (schema_place x.world) ≡ true
      → apart (calloc (x.callocs + 1)) (array_place x.world) ≡ true
      → let (outcome, y) = op_move consumer calloc enabled x in
        let moved = y.world in
        let w = (abi_callseq_run consumer calloc enabled r c ctx).2 in
        (live_schema moved ≡ live_schema x.world)
        × (live_array moved ≡ live_array x.world)
        × (schema_twice moved ≡ schema_twice x.world)
        × (array_twice moved ≡ array_twice x.world)
        × ((outcome ≡ invalid)
            ⊎ ((some (schema_place moved) ≡ calloc x.callocs)
                × ((x.has_array ≡ false) ⊎ (some (array_place moved) ≡ calloc (x.callocs + 1)))))
        × (schema_live (schema_of w) ≡ false)
        × ((r.has_array && array_live (array_of w)) ≡ false)
        × ((r.stream_mode && w.recon.stream.live) ≡ false)
  unfolding abi_callseq_run AllReleased MoveKeeps
  run-releases r c ctx x hs ha =
      let x₀ = start r (begun_ctx consumer calloc enabled c ctx) in
      let out₀ = begun_result c (ops_of r.has_array c.ops) in
      let t = run_ops consumer calloc enabled (ops_of r.has_array c.ops) (out₀, x₀) in
      let (a, s) = run_ops-Same consumer calloc enabled (ops_of r.has_array c.ops) out₀ x₀ in
      let (a', s') = let_go-Same consumer calloc enabled t.0.outcome t.1 in
      let y = let_go consumer calloc enabled t.0.outcome t.1 in
      let (schema, array, stream) = clean_up-AllReleased y in
      let (kept, kept', once, once') =
        op_move-MoveKeeps consumer calloc enabled x _ x.has_array _ _ refl refl refl refl hs ha in
      (
        kept,
        kept',
        once,
        once',
        op_move-places consumer calloc enabled x _ x.has_array _ _ refl refl refl refl,
        schema,
        ap (λ b. b && array_live (array_of (clean_up y))) (sym (a' ∙ a)) ∙ array,
        ap (λ b. b && (clean_up y).recon.stream.live) (sym (s' ∙ s)) ∙ stream,
      )
