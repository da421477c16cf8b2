-- ===== src/Callseq/Moves.antt =====
-- The moves of libabi/src/callseq.c and the structures that are live.
use arrow_abi_doctor.Base.{
  ℕ, ◌+◌, ◌≡◌, refl, ap, ◌∙◌, Bool, true, false, not, ◌&&◌, ◌||◌, Option, none, some, Option-cases,
  inl, inr, ◌⊎◌, arith, ◌==◌, if◌then◌else◌,
}
use arrow_abi_doctor.Reconstruct.Structs.{ArrowSchema, ArrowArray, schema_live, array_live}
use arrow_abi_doctor.Reconstruct.Export.{
  abi_reconstruction_move_schema, abi_reconstruction_move_array,
}
use arrow_abi_doctor.Callseq.Ops.{move_schema_to, move_array_to, op_move}
use arrow_abi_doctor.Callseq.{
  World, schema_of, array_of, schema_place, array_place, put_schema, put_array, invalid,
  AbiConsumer, Exec,
}

-- The schema that is live at its present place, and the array that is.
abbrev pub live_schema : World → Option ArrowSchema
live_schema w = if schema_live (schema_of w) then some (schema_of w) else none

abbrev pub live_array : World → Option ArrowArray
live_array w = if array_live (array_of w) then some (array_of w) else none

-- Whether a structure that was moved is still live in the reconstruction, beside where it was moved.
abbrev moved_away {ℓ} : {A : Type ℓ} → Option A → Bool
moved_away none = false
moved_away (some _) = true

abbrev pub schema_twice : World → Bool
schema_twice w = moved_away w.moved_schema && schema_live w.recon.schema

abbrev pub array_twice : World → Bool
array_twice w = moved_away w.moved_array && array_live w.recon.array

-- An answer of `calloc` is not the address of what is in use.
abbrev pub apart : Option ℕ → ℕ → Bool
apart none place = true
apart (some at) place = not (at == place)

move_schema_to-live_schema :
    (at : ℕ) (w : World)
    → not (at == schema_place w) ≡ true
    → (live_schema (move_schema_to at w) ≡ live_schema w)
      × (live_array (move_schema_to at w) ≡ live_array w)
      × (schema_twice (move_schema_to at w) ≡ schema_twice w)
      × (array_twice (move_schema_to at w) ≡ array_twice w)
      × (array_place (move_schema_to at w) ≡ array_place w)
unfolding move_schema_to abi_reconstruction_move_schema put_schema
move_schema_to-live_schema at w h = ground arith

move_array_to-live_array :
    (at : ℕ) (w : World)
    → not (at == array_place w) ≡ true
    → (live_array (move_array_to at w) ≡ live_array w)
      × (live_schema (move_array_to at w) ≡ live_schema w)
      × (array_twice (move_array_to at w) ≡ array_twice w)
      × (schema_twice (move_array_to at w) ≡ schema_twice w)
unfolding move_array_to abi_reconstruction_move_array put_array
move_array_to-live_array at w h = ground arith

-- What a move keeps: what is live, and that nothing is live in two places.
unfoldable pub MoveKeeps : World → World → Type 0
MoveKeeps w w' =
    (live_schema w' ≡ live_schema w)
    × (live_array w' ≡ live_array w)
    × (schema_twice w' ≡ schema_twice w)
    × (array_twice w' ≡ array_twice w)

stay-MoveKeeps : (w : World) → MoveKeeps w w
unfolding MoveKeeps
stay-MoveKeeps w = (refl, refl, refl, refl)

move_schema_to-MoveKeeps :
    (s : ℕ) (w : World) → not (s == schema_place w) ≡ true → MoveKeeps w (move_schema_to s w)
unfolding MoveKeeps
move_schema_to-MoveKeeps s w h =
    let (schema, array, once, once', _) = move_schema_to-live_schema s w h in
    (schema, array, once, once')

move_both-MoveKeeps :
    (s a : ℕ) (w : World)
    → not (s == schema_place w) ≡ true
    → not (a == array_place w) ≡ true
    → MoveKeeps w (move_array_to a (move_schema_to s w))
unfolding MoveKeeps
move_both-MoveKeeps s a w hs ha =
    let (schema, array, once, once', place) = move_schema_to-live_schema s w hs in
    let (array', schema', twice', twice) =
      move_array_to-live_array a (move_schema_to s w) (ap (λ p. not (a == p)) place ∙ ha) in
    (schema' ∙ schema, array' ∙ array, twice ∙ once, twice' ∙ once')

move_schema_to-place : (s : ℕ) (w : World) → schema_place (move_schema_to s w) ≡ s
unfolding move_schema_to
move_schema_to-place s w = refl

move_array_to-places :
    (a : ℕ) (w : World)
    → (array_place (move_array_to a w) ≡ a) × (schema_place (move_array_to a w) ≡ schema_place w)
unfolding move_array_to put_array
move_array_to-places a w = elim (Option-cases w.moved_array) [
  | inl e ↦ simp e (refl, refl)
  | inr (old, e) ↦ simp e (refl, refl)
]

module _ {Ctx : Type 0} (consumer : AbiConsumer Ctx) (calloc : ℕ → Option ℕ) (enabled : Bool) where
  pub op_move-places :
      (x : Exec Ctx) (imported has_array : Bool) (first second : Option ℕ)
      → (x.schema_imported || x.array_imported) ≡ imported
      → x.has_array ≡ has_array
      → calloc x.callocs ≡ first
      → calloc (x.callocs + 1) ≡ second
      → let (outcome, y) = op_move consumer calloc enabled x in
        (outcome ≡ invalid)
        ⊎ ((some (schema_place y.world) ≡ first)
            × ((has_array ≡ false) ⊎ (some (array_place y.world) ≡ second)))
  unfolding op_move
  op_move-places x true has_array first second ei eh e₁ e₂ = rw ei (inl refl)
  op_move-places x false has_array none second ei eh e₁ e₂ = rw (ei, e₁) (inl refl)
  op_move-places x false false (some s) second ei eh e₁ e₂ =
      rw (ei, e₁, eh) (inr (ap some (move_schema_to-place s x.world), inl refl))
  op_move-places x false true (some s) none ei eh e₁ e₂ = rw (ei, e₁, eh, e₂) (inl refl)
  op_move-places x false true (some s) (some a) ei eh e₁ e₂ =
      let (place, place') = move_array_to-places a (move_schema_to s x.world) in
      rw (ei, e₁, eh, e₂)
        (inr (ap some (place' ∙ move_schema_to-place s x.world), inr (ap some place)))

  pub op_move-MoveKeeps :
      (x : Exec Ctx) (imported has_array : Bool) (first second : Option ℕ)
      → (x.schema_imported || x.array_imported) ≡ imported
      → x.has_array ≡ has_array
      → calloc x.callocs ≡ first
      → calloc (x.callocs + 1) ≡ second
      → apart first (schema_place x.world) ≡ true
      → apart second (array_place x.world) ≡ true
      → MoveKeeps x.world (op_move consumer calloc enabled x).1.world
  unfolding op_move
  op_move-MoveKeeps x true has_array first second ei eh e₁ e₂ hs ha = rw ei (stay-MoveKeeps x.world)
  op_move-MoveKeeps x false false none second ei eh e₁ e₂ hs ha =
      rw (ei, e₁, eh) (stay-MoveKeeps x.world)
  op_move-MoveKeeps x false true none second ei eh e₁ e₂ hs ha =
      rw (ei, e₁, eh) (stay-MoveKeeps x.world)
  op_move-MoveKeeps x false false (some s) second ei eh e₁ e₂ hs ha =
      rw (ei, e₁, eh) (move_schema_to-MoveKeeps s x.world hs)
  op_move-MoveKeeps x false true (some s) none ei eh e₁ e₂ hs ha =
      rw (ei, e₁, eh, e₂) (stay-MoveKeeps x.world)
  op_move-MoveKeeps x false true (some s) (some a) ei eh e₁ e₂ hs ha =
      rw (ei, e₁, eh, e₂) (move_both-MoveKeeps s a x.world hs ha)
