-- ===== src/Reconstruct/State.antt =====
-- AbiReconstruction of libabi/src/reconstruct.c, and what `calloc` leaves of it.
use arrow_abi_doctor.Base.{ℕ, ◌+◌, List, [], Bool, false, Option, none}
use arrow_abi_doctor.Model.{AbiCase}
use arrow_abi_doctor.Reconstruct.Observer.{AbiObserver, Rec}
use arrow_abi_doctor.Reconstruct.Structs.{ArrowSchema, ArrowArray, no_schema, no_arrow_array}

-- The callbacks of a stream are set and cleared with its `release`.
pub record ArrowArrayStream : Type 0 where
  pub live : Bool

-- `at` is where the structure itself lives.
pub record AbiReconstruction : Type 0 where
  pub at : ℕ
  pub rec : Rec
  pub schema : ArrowSchema
  pub array : ArrowArray
  pub has_array : Bool
  pub stream_mode : Bool
  pub stream : ArrowArrayStream
  pub stream_case : Option AbiCase
  pub last_error : List ℕ

-- `&r->schema`, `&r->array` and `&r->stream`, on a 64-bit host.
abbrev pub schema_at : AbiReconstruction → ℕ
schema_at r = r.at + 16

abbrev pub array_at : AbiReconstruction → ℕ
array_at r = r.at + 88

abbrev pub stream_at : AbiReconstruction → ℕ
stream_at r = r.at + 184

abbrev pub no_events : AbiObserver
no_events = record {
  events = [];
  events_dropped = 0;
  next_seq = 0;
  alloc = record { bytes_allocated = 0; bytes_freed = 0; blocks_allocated = 0; blocks_freed = 0 };
  release_depth = 0;
  violations = 0;
}

abbrev pub new_rec : Rec
new_rec = record {
  alloc_data = none;
  allocations = [];
  alloc_count = 0;
  buffers_freed = false;
  harness_releasing = false;
  obs = no_events;
  mallocs = 0;
  null_read = false;
}

-- What `calloc` leaves.
abbrev pub new_reconstruction : ℕ → AbiReconstruction
new_reconstruction at = record {
  at = at;
  rec = new_rec;
  schema = no_schema;
  array = no_arrow_array;
  has_array = false;
  stream_mode = false;
  stream = record { live = false };
  stream_case = none;
  last_error = [];
}
