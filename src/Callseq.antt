-- ===== src/Callseq.antt =====
-- The call sequence executor of libabi/src/callseq.c: its state, and the consumer of
-- libabi/include/abi/callseq.h. The text that goes with an outcome is left out.
pub mod Ops
pub mod Stream
pub mod Run
pub mod Trace
pub mod Fixed
pub mod Moves
pub mod Ending
pub mod Refusals
use arrow_abi_doctor.Base.{
  ℕ, suc, ◌+◌, ◌≤◌, ◌≡◌, refl, List, [], ◌∷◌, Bool, true, false, not, ◌&&◌, ◌||◌, Option, none,
  some, ◌==◌, leb, is_some, if◌then◌else◌,
}
use arrow_abi_doctor.Model.{AbiOp, AbiCase}
use arrow_abi_doctor.Reconstruct.Observer.{Rec}
use arrow_abi_doctor.Reconstruct.Structs.{
  ArrowSchema, ArrowArray, ArrayBody, ArrayLink, arrow_array, no_schema, no_arrow_array,
  schema_live, array_live,
}
use arrow_abi_doctor.Reconstruct.Export.{
  abi_reconstruction_move_schema, abi_reconstruction_move_array, note_schema_import,
  note_array_import, note_schema_returned, note_array_returned,
}
use arrow_abi_doctor.Reconstruct.State.{AbiReconstruction, schema_at, array_at, stream_at}
use arrow_abi_doctor.Reconstruct.Stream.{note_stream_import, note_stream_returned}

pub data AbiOpCode : Type 0 where
  nop import_schema import_array stream_get_schema stream_get_next stream_get_last_error : AbiOpCode
  release_base release_child release_dictionary move_struct use_after_release expect_eof : AbiOpCode

-- `(AbiOpCode)op->code`; another number is no operation.
unfoldable pub op_code : ℕ → Option AbiOpCode
op_code n =
    if n == 0
    then some AbiOpCode.nop
    else if n == 1
    then some AbiOpCode.import_schema
    else if n == 2
    then some AbiOpCode.import_array
    else if n == 3
    then some AbiOpCode.stream_get_schema
    else if n == 4
    then some AbiOpCode.stream_get_next
    else if n == 5
    then some AbiOpCode.stream_get_last_error
    else if n == 6
    then some AbiOpCode.release_base
    else if n == 7
    then some AbiOpCode.release_child
    else if n == 8
    then some AbiOpCode.release_dictionary
    else if n == 9
    then some AbiOpCode.move_struct
    else if n == 10
    then some AbiOpCode.use_after_release
    else if n == 11
    then some AbiOpCode.expect_eof
    else none

pub data AbiCallseqOutcome : Type 0 where
  accepted rejected unsupported invalid : AbiCallseqOutcome

module _ {ℓ κ} {A : Type ℓ} (P : A → Type κ) (a b c d : A) where
  -- The four ways in which an operation ends.
  pub outcome_cases :
      (o : AbiCallseqOutcome)
      → (o ≡ accepted → P a)
      → (o ≡ rejected → P b)
      → (o ≡ unsupported → P c)
      → (o ≡ invalid → P d)
      → P (elim o [ accepted ↦ a | rejected ↦ b | unsupported ↦ c | invalid ↦ d ])
  outcome_cases accepted ha hb hc hd = ha refl
  outcome_cases rejected ha hb hc hd = hb refl
  outcome_cases unsupported ha hb hc hd = hc refl
  outcome_cases invalid ha hb hc hd = hd refl

-- A structure in storage of the executor.
pub record Stored {ℓ} (A : Type ℓ) : Type ℓ where
  pub at : ℕ
  pub content : A

-- The memory outside the consumer's: the reconstruction, and where its base structures were moved.
pub record World : Type 0 where
  pub recon : AbiReconstruction
  pub moved_schema : Option (Stored ArrowSchema)
  pub moved_array : Option (Stored ArrowArray)

-- `x->schema` and `x->array`: the address, what is there, and a store to it.
abbrev place_in {ℓ} : {A : Type ℓ} → ℕ → Option (Stored A) → ℕ
place_in home none = home
place_in home (some s) = s.at

abbrev content_in {ℓ} : {A : Type ℓ} → A → Option (Stored A) → A
content_in here none = here
content_in here (some s) = s.content

abbrev pub schema_place : World → ℕ
schema_place w = place_in (schema_at w.recon) w.moved_schema

abbrev pub schema_of : World → ArrowSchema
schema_of w = content_in w.recon.schema w.moved_schema

abbrev pub array_place : World → ℕ
array_place w = place_in (array_at w.recon) w.moved_array

abbrev pub array_of : World → ArrowArray
array_of w = content_in w.recon.array w.moved_array

store_schema_in : ArrowSchema → Option (Stored ArrowSchema) → World → World
store_schema_in s none w = record w { recon = record w.recon { schema = s } }
store_schema_in s (some old) w = record w { moved_schema = some (record old { content = s }) }

store_array_in : ArrowArray → Option (Stored ArrowArray) → World → World
store_array_in a none w = record w { recon = record w.recon { array = a } }
store_array_in a (some old) w = record w { moved_array = some (record old { content = a }) }

unfoldable pub put_schema : ArrowSchema → World → World
unfolding store_schema_in
put_schema s w = store_schema_in s w.moved_schema w

unfoldable pub put_array : ArrowArray → World → World
unfolding store_array_in
put_array a w = store_array_in a w.moved_array w

abbrev pub with_rec : Rec → World → World
with_rec r w = record w { recon = record w.recon { rec = r } }

-- `ctx` is a value of the consumer's own type. A callback that is NULL is none; the first value of an
-- import and of a stream call is whether it was refused, and the second of `stream_get_next` is `eof`.
pub record AbiConsumer (Ctx : Type 0) : Type 0 where
  pub begin : Option (AbiCase → Ctx → Ctx)
  pub import_schema : Option (ℕ → Ctx → World → Bool × Ctx × World)
  pub import_array : Option (ℕ → Ctx → World → Bool × Ctx × World)
  pub release_base : Option (Ctx → World → Ctx × World)
  pub release_child : Option (ℕ → Ctx → World → Ctx × World)
  pub release_dictionary : Option (Ctx → World → Ctx × World)
  pub use_after_release : Option (Ctx → World → Ctx × World)
  pub import_stream : Option (ℕ → Ctx → World → Bool × Ctx × World)
  pub stream_get_schema : Option (Ctx → World → Bool × Ctx × World)
  pub stream_get_next : Option (Ctx → World → Bool × Bool × Ctx × World)
  pub stream_get_last_error : Option (Ctx → World → Bool × Ctx × World)

-- `has_array` is whether `x->array` is not NULL, and `has_stream` likewise; `callocs` counts the calls.
pub record Exec (Ctx : Type 0) : Type 0 where
  pub world : World
  pub ctx : Ctx
  pub has_array : Bool
  pub schema_imported : Bool
  pub array_imported : Bool
  pub has_stream : Bool
  pub stream_imported : Bool
  pub got_next : Bool
  pub last_eof : Bool
  pub callocs : ℕ

abbrev is_stream_op : Option AbiOpCode → Bool
is_stream_op (some AbiOpCode.stream_get_schema) = true
is_stream_op (some AbiOpCode.stream_get_next) = true
is_stream_op (some AbiOpCode.stream_get_last_error) = true
is_stream_op (some AbiOpCode.expect_eof) = true
is_stream_op _ = false

any_stream_op : List AbiOp → Bool
any_stream_op [] = false
any_stream_op (op ∷ ops) = is_stream_op (op_code op.code) || any_stream_op ops

unfoldable pub abi_case_is_stream : AbiCase → Bool
unfolding any_stream_op op_code
abi_case_is_stream c = any_stream_op c.ops
