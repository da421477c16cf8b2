-- ===== src/Reconstruct/Build.antt =====
-- The parts of the construction of the exported structures, libabi/src/reconstruct.c: paths, the copies
-- of names and metadata, the arrays of pointers.
pub mod Schema
pub mod Array
use arrow_abi_doctor.Base.{
  ℕ, zero, suc, ◌+◌, ◌-◌, ◌*◌, ◌/◌, ◌%◌, ◌^◌, List, [], ◌∷◌, ◌++◌, Bool, true, false, Option, none,
  some, length, take, ltb, leb, ◌==◌, if◌then◌else◌, is_some,
}
use mathlib.Core.List.{reverse}
use arrow_abi_doctor.Bytes.{store_u32}
use arrow_abi_doctor.Model.{AbiMetadataKv}
use arrow_abi_doctor.Reconstruct.Observer.{Block, Rec, obs_alloc, event_path_max}
use arrow_abi_doctor.Reconstruct.Structs.{AbiNodePriv}

-- `sizeof` of the structures on a 64-bit host.
abbrev pub priv_size : ℕ
priv_size = 72

abbrev pub schema_size : ℕ
schema_size = 72

abbrev pub array_size : ℕ
array_size = 80

abbrev pub pointer_size : ℕ
pointer_size = 8

-- A leaf that does not fit leaves the parent's path.
unfoldable pub child_path : List ℕ → List ℕ → List ℕ
child_path parent leaf =
    if leb event_path_max (length parent + length leaf + 1)
    then take (event_path_max - 1) parent
    else parent ++ leaf

-- The decimal digits of a number, before those already printed.
decimal : ℕ → ℕ → List ℕ → List ℕ
decimal zero n rest = rest
decimal (suc fuel) n rest =
    let more = decimal fuel (n / 10) ((48 + n % 10) ∷ rest) in
    if ltb n 10 then (48 + n) ∷ rest else more

-- `"%u/"`; a uint32_t has ten digits at most.
unfoldable pub index_leaf : ℕ → List ℕ
unfolding decimal
index_leaf i = decimal 10 i (47 ∷ [])

-- "dict/"
abbrev pub dict_leaf : List ℕ
dict_leaf = 100 ∷ 105 ∷ 99 ∷ 116 ∷ 47 ∷ []

abbrev pub max_u32 : ℕ → ℕ → ℕ
max_u32 a b = if ltb b a then a else b

-- An `int32_t` as the host stores it.
unfoldable pub native_i32 : Bool → ℕ → List ℕ
native_i32 true v = store_u32 v
native_i32 false v = reverse (store_u32 v)

-- The first loop of `encode_metadata`.
unfoldable pub metadata_total : List AbiMetadataKv → ℕ → ℕ
metadata_total [] total = total
metadata_total (kv ∷ kvs) total =
    metadata_total kvs (((total + (4 + length kv.key)) % 2 ^ 64 + (4 + length kv.value)) % 2 ^ 64)

-- The second.
unfoldable pub metadata_pairs : Bool → List AbiMetadataKv → List ℕ
unfolding native_i32
metadata_pairs little [] = []
metadata_pairs little (kv ∷ kvs) =
    native_i32 little (length kv.key)
    ++ (kv.key ++ (native_i32 little (length kv.value) ++ (kv.value ++ metadata_pairs little kvs)))

-- `new_priv`, in its block.
abbrev pub priv_in : Block → Bool → List ℕ → AbiNodePriv
priv_in b is_root path = record {
  block = b;
  child_slots = 0;
  format_buf = none;
  name_buf = none;
  metadata_buf = none;
  is_root = is_root;
  path = take (event_path_max - 1) path;
}

-- `malloc` answers its call of a number for a size.
module _ (malloc : ℕ → ℕ → Option ℕ) where
  -- The array of `slots` pointers, if there are any: whether it could be had, and its block.
  unfoldable pub alloc_slots : ℕ → Rec → Bool × Option Block × Rec
  unfolding obs_alloc
  alloc_slots slots r =
      if slots == 0
      then (true, none, r)
      else let (b, r') = obs_alloc malloc (slots * pointer_size) r in (is_some b, b, r')

  -- The block and the text in it, before the NUL.
  unfoldable pub dup_cstr : List ℕ → Rec → Option Block × Rec
  unfolding obs_alloc
  dup_cstr b r = obs_alloc malloc (length b + 1) r

  -- The block, and the bytes written to it.
  unfoldable pub encode_metadata : Bool → List AbiMetadataKv → Rec → (Option Block × List ℕ) × Rec
  unfolding obs_alloc metadata_total metadata_pairs
  encode_metadata little kvs r =
      let (b, r') = obs_alloc malloc (metadata_total kvs 4) r in
      ((b, native_i32 little (length kvs) ++ metadata_pairs little kvs), r')
