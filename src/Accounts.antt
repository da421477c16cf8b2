-- ===== src/Accounts.antt =====
-- The allocation counters of libabi/src/reconstruct.c against the blocks that the structures hold.
pub mod Release
pub mod Build
pub mod Lifetime
pub mod Backing
pub mod Leaks
use arrow_abi_doctor.Base.{
  ℕ, ◌+◌, ◌%◌, ◌^◌, ◌<◌, ◌≤◌, ◌≡◌, refl, arith, List, [], ◌∷◌, Bool, true, false, Option, none,
  some, ◌==◌, not, ◌&&◌, ◌||◌, is_some, if◌then◌else◌,
}
use arrow_abi_doctor.Reconstruct.Observer.{
  AbiEventKind, Block, alloc_magic, Rec, note, obs_event, obs_free,
}
use arrow_abi_doctor.Reconstruct.Structs.{
  ArrowSchema, SchemaArray, SchemaSlots, SchemaLink, ArrowArray, ArrayArray, ArraySlots, ArrayLink,
  AbiNodePriv, arrow_schema, arrow_array,
}

-- What is counted: bytes, or blocks.
pub data Measure : Type 0 where
  bytes blocks : Measure

abbrev amount : Measure → ℕ → ℕ
amount bytes size = size
amount blocks size = 1

-- `obs_free` counts a block by its header.
abbrev pub weight : Measure → Block → ℕ
weight m b = if b.magic == alloc_magic then amount m b.size else 0

abbrev pub weight_of : Measure → Option Block → ℕ
weight_of m none = 0
weight_of m (some b) = weight m b

unfoldable pub weights : Measure → List Block → ℕ
weights m [] = 0
weights m (b ∷ bs) = weight m b + weights m bs

abbrev pub allocated : Measure → Rec → ℕ
allocated bytes r = r.obs.alloc.bytes_allocated
allocated blocks r = r.obs.alloc.blocks_allocated

abbrev pub freed : Measure → Rec → ℕ
freed bytes r = r.obs.alloc.bytes_freed
freed blocks r = r.obs.alloc.blocks_freed

-- The backing allocations that are not yet freed.
abbrev pub backing : Measure → Rec → ℕ
backing m r = if r.buffers_freed then 0 else weight_of m r.alloc_data + weights m r.allocations

-- What a structure holds beside itself: nothing, when it is released.
abbrev pub priv_weight : Measure → AbiNodePriv → ℕ
priv_weight m p =
    weight m p.block
    + (weight_of m p.format_buf + (weight_of m p.name_buf + weight_of m p.metadata_buf))

unfoldable mutual
  pub schema_holds : Measure → ArrowSchema → ℕ
  schema_holds m (arrow_schema none b children dictionary) = 0
  schema_holds m (arrow_schema (some p) b children dictionary) =
      priv_weight m p + (schema_array_holds m children + schema_link_holds m dictionary)

  pub schema_array_holds : Measure → SchemaArray → ℕ
  schema_array_holds m SchemaArray.no_array = 0
  schema_array_holds m (SchemaArray.array_in b slots) = weight m b + schema_slots_hold m slots

  pub schema_slots_hold : Measure → SchemaSlots → ℕ
  schema_slots_hold m SchemaSlots.end = 0
  schema_slots_hold m (SchemaSlots.null_slot slots) = schema_slots_hold m slots
  schema_slots_hold m (SchemaSlots.slot b ch slots) =
      weight m b + (schema_holds m ch + schema_slots_hold m slots)

  pub schema_link_holds : Measure → SchemaLink → ℕ
  schema_link_holds m SchemaLink.no_link = 0
  schema_link_holds m (SchemaLink.link_to b d) = weight m b + schema_holds m d

unfoldable mutual
  pub array_holds : Measure → ArrowArray → ℕ
  array_holds m (arrow_array none b children dictionary) = 0
  array_holds m (arrow_array (some p) b children dictionary) =
      weight m p.block
      + (weight_of m b.buffers + (array_array_holds m children + array_link_holds m dictionary))

  pub array_array_holds : Measure → ArrayArray → ℕ
  array_array_holds m ArrayArray.no_array = 0
  array_array_holds m (ArrayArray.array_in b slots) = weight m b + array_slots_hold m slots

  pub array_slots_hold : Measure → ArraySlots → ℕ
  array_slots_hold m ArraySlots.end = 0
  array_slots_hold m (ArraySlots.null_slot slots) = array_slots_hold m slots
  array_slots_hold m (ArraySlots.slot b ch slots) =
      weight m b + (array_holds m ch + array_slots_hold m slots)

  pub array_link_holds : Measure → ArrayLink → ℕ
  array_link_holds m ArrayLink.no_link = 0
  array_link_holds m (ArrayLink.link_to b d) = weight m b + array_holds m d

-- No NULL has been read through, and freeing the backing allocations will read through none.
abbrev pub is_intact : Rec → Bool
is_intact r = not r.null_read && (r.buffers_freed || (is_some r.alloc_data || (r.alloc_count == 0)))

-- Every unit allocated is freed, stands in the backing allocations or is one of the `held` units. The
-- counters are uint64_t.
pub record Balanced (m : Measure) (held : ℕ) (r : Rec) : Type 0 where
  pub sum : allocated m r ≡ (freed m r + backing m r + held) % 2 ^ 64
  pub range : freed m r < 2 ^ 64
  pub intact : is_intact r ≡ true

pub obs_free-Balanced :
    (m : Measure) (x : ℕ) (b : Option Block) (r : Rec)
    → Balanced m (x + weight_of m b) r
    → Balanced m x (obs_free b r)
unfolding obs_free
obs_free-Balanced m x none r h = ground arith
obs_free-Balanced bytes x (some b) r h = ground arith
obs_free-Balanced blocks x (some b) r h = ground arith

pub obs_event-Balanced :
    (m : Measure) (x : ℕ) (kind : AbiEventKind) (path : List ℕ) (by_consumer : Bool) (at : ℕ)
    (r : Rec)
    → Balanced m x r
    → Balanced m x (obs_event kind path by_consumer at r)
unfolding obs_event note
obs_event-Balanced bytes x kind path by_consumer at r h = ground arith
obs_event-Balanced blocks x kind path by_consumer at r h = ground arith
