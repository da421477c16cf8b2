-- ===== src/Reconstruct/Structs.antt =====
-- The structures of libabi/include/abi/arrow_abi.h as libabi/src/reconstruct.c fills them. A structure
-- is a tree that owns its blocks; where it lives is known to whoever points to it. `release` and
-- `private_data` are set together and cleared together, so they are one Option: none is a released
-- structure. (The source of a move keeps a `private_data` that nothing reads.)
use arrow_abi_doctor.Base.{ℕ, zero, suc, List, [], ℤ, pos, Bool, Option, none, some}
use arrow_abi_doctor.Reconstruct.Observer.{Block}

-- AbiNodePriv. `block` is the block that holds it.
pub record AbiNodePriv : Type 0 where
  pub block : Block
  pub child_slots : ℕ
  pub format_buf : Option Block
  pub name_buf : Option Block
  pub metadata_buf : Option Block
  pub is_root : Bool
  pub path : List ℕ

-- A C string is the bytes before its NUL, `metadata` the bytes of Arrow's wire form.
pub record SchemaBody : Type 0 where
  pub format : Option (List ℕ)
  pub name : Option (List ℕ)
  pub metadata : Option (List ℕ)
  pub flags : ℤ
  pub n_children : ℕ

mutual
  pub data ArrowSchema : Type 0 where
    arrow_schema : Option AbiNodePriv → SchemaBody → SchemaArray → SchemaLink → ArrowSchema

  -- `children`: NULL, or the array of `child_slots` pointers in its block.
  pub data SchemaArray : Type 0 where
    no_array : SchemaArray
    array_in : Block → SchemaSlots → SchemaArray

  pub data SchemaSlots : Type 0 where
    end : SchemaSlots
    null_slot : SchemaSlots → SchemaSlots
    slot : Block → ArrowSchema → SchemaSlots → SchemaSlots

  -- `dictionary`
  pub data SchemaLink : Type 0 where
    no_link : SchemaLink
    link_to : Block → ArrowSchema → SchemaLink

-- `length`, `null_count`, `offset`; `buffers` as its block with the pointers in it.
pub record ArrayBody : Type 0 where
  pub length : ℤ
  pub null_count : ℤ
  pub offset : ℤ
  pub n_buffers : ℕ
  pub n_children : ℕ
  pub buffers : Option Block
  pub pointers : List (Option ℕ)

mutual
  pub data ArrowArray : Type 0 where
    arrow_array : Option AbiNodePriv → ArrayBody → ArrayArray → ArrayLink → ArrowArray

  pub data ArrayArray : Type 0 where
    no_array : ArrayArray
    array_in : Block → ArraySlots → ArrayArray

  pub data ArraySlots : Type 0 where
    end : ArraySlots
    null_slot : ArraySlots → ArraySlots
    slot : Block → ArrowArray → ArraySlots → ArraySlots

  pub data ArrayLink : Type 0 where
    no_link : ArrayLink
    link_to : Block → ArrowArray → ArrayLink

-- What `memset(out, 0, sizeof(*out))` leaves.
abbrev pub no_schema : ArrowSchema
no_schema =
    arrow_schema none
      (record { format = none; name = none; metadata = none; flags = pos 0; n_children = 0 })
      SchemaArray.no_array SchemaLink.no_link

abbrev pub empty_array : ArrayBody
empty_array = record {
  length = pos 0;
  null_count = pos 0;
  offset = pos 0;
  n_buffers = 0;
  n_children = 0;
  buffers = none;
  pointers = [];
}

abbrev pub no_arrow_array : ArrowArray
no_arrow_array = arrow_array none empty_array ArrayArray.no_array ArrayLink.no_link

-- `s->release != NULL`
abbrev pub schema_live : ArrowSchema → Bool
schema_live (arrow_schema none b c d) = Bool.false
schema_live (arrow_schema (some p) b c d) = Bool.true

abbrev pub array_live : ArrowArray → Bool
array_live (arrow_array none b c d) = Bool.false
array_live (arrow_array (some p) b c d) = Bool.true

-- An array of NULL pointers.
unfoldable pub null_schemas : ℕ → SchemaSlots
null_schemas zero = SchemaSlots.end
null_schemas (suc n) = SchemaSlots.null_slot (null_schemas n)

unfoldable pub null_arrays : ℕ → ArraySlots
null_arrays zero = ArraySlots.end
null_arrays (suc n) = ArraySlots.null_slot (null_arrays n)
