-- ===== src/Builder.antt =====
-- The builder of libabi/src/case.c: its state, copied strings and growable vectors. `c` is never NULL. A C
-- string is the bytes before its NUL, and a NULL string is none.
pub mod Case
pub mod Schema
pub mod Array
pub mod Limits
pub mod CaseCalls
pub mod SchemaCalls
pub mod ArrayCalls
pub mod Calls
pub mod Bounded
pub mod File
use arrow_abi_doctor.Base.{
  ℕ, zero, suc, ◌+◌, ◌-◌, ◌*◌, ◌%◌, ◌^◌, List, [], ◌∷◌, ◌++◌, Bool, true, false, not, ◌&&◌, ◌||◌,
  Option, none, some, length, min, ltb, leb, ◌==◌, is_some, if◌then◌else◌,
}
use arrow_abi_doctor.Status.{
  AbiStatus, ok, invalid_argument, no_memory, limit_exceeded, bad_enum, limit_bytes_len,
}
use arrow_abi_doctor.Model.{
  AbiAllocation, AbiBufferView, AbiOp, limit_alloc_count, limit_alloc_bytes, limit_alignment,
  limit_op_count, op_max, validate_full, expect_unspecified, class_c,
}
use arrow_abi_doctor.Validate.{abi_is_pow2_u32}
use arrow_abi_doctor.Arena.{AbiArena, new_arena, abi_arena_alloc}

-- AbiBytes. `null` is whether `data` is NULL, which a failed copy leaves.
pub record AbiBytes : Type 0 where
  pub null : Bool
  pub bytes : List ℕ

abbrev pub no_bytes : AbiBytes
no_bytes = record { null = true; bytes = [] }

-- A vector with its count; `capacity` is how many the memory behind it can hold.
pub record AbiVec {ℓ} (A : Type ℓ) : Type ℓ where
  pub items : List A
  pub capacity : ℕ

abbrev pub empty_vec {ℓ} : {A : Type ℓ} → AbiVec A
empty_vec = record { items = []; capacity = 0 }

abbrev pub push {ℓ} : {A : Type ℓ} → A → AbiVec A → AbiVec A
push x v = record v { items = v.items ++ (x ∷ []) }

-- A node lives where it was made: a pointer to it is its number.
pub record SchemaCell : Type 0 where
  pub format : AbiBytes
  pub has_name : Bool
  pub name : AbiBytes
  pub has_metadata : Bool
  pub metadata : AbiVec (AbiBytes × AbiBytes)
  pub n_children : ℕ
  pub children : AbiVec ℕ
  pub dictionary : Option ℕ

pub record ArrayCell : Type 0 where
  pub n_buffers : ℕ
  pub buffers : AbiVec AbiBufferView
  pub n_children : ℕ
  pub children : AbiVec ℕ
  pub dictionary : Option ℕ

-- AbiProvenance and AbiExpected with the strings as the builder has them.
pub record Provenance : Type 0 where
  pub seed : ℕ
  pub rng_algorithm : AbiBytes
  pub rng_version : ℕ
  pub generator_version : AbiBytes
  pub abi_doctor_version : AbiBytes
  pub spec_revision : AbiBytes

pub record Expected : Type 0 where
  pub validation_level : ℕ
  pub expected_outcome : ℕ
  pub spec_clause : AbiBytes
  pub notes : AbiBytes

-- The case, the nodes made for it and its arena.
pub record Builder : Type 0 where
  pub cls : ℕ
  pub provenance : Provenance
  pub allocations : AbiVec AbiAllocation
  pub schema : Option ℕ
  pub array : Option ℕ
  pub ops : AbiVec AbiOp
  pub expected : Expected
  pub schemas : List SchemaCell
  pub arrays : List ArrayCell
  pub arena : AbiArena

-- The stores of the strings of a case.
abbrev pub set_rng_algorithm : AbiBytes → Builder → Builder
set_rng_algorithm s b = record b { provenance = record b.provenance { rng_algorithm = s } }

abbrev pub set_generator_version : AbiBytes → Builder → Builder
set_generator_version s b = record b { provenance = record b.provenance { generator_version = s } }

abbrev pub set_doctor_version : AbiBytes → Builder → Builder
set_doctor_version s b = record b { provenance = record b.provenance { abi_doctor_version = s } }

abbrev pub set_spec_revision : AbiBytes → Builder → Builder
set_spec_revision s b = record b { provenance = record b.provenance { spec_revision = s } }

abbrev pub set_spec_clause : AbiBytes → Builder → Builder
set_spec_clause s b = record b { expected = record b.expected { spec_clause = s } }

abbrev pub set_notes : AbiBytes → Builder → Builder
set_notes s b = record b { expected = record b.expected { notes = s } }

-- A store to a node.
unfoldable pub update_at {ℓ} : {A : Type ℓ} → ℕ → (A → A) → List A → List A
update_at i f [] = []
update_at zero f (x ∷ xs) = f x ∷ xs
update_at (suc i) f (x ∷ xs) = x ∷ update_at i f xs

-- `if (!a || !b) return ...;` where `b` is evaluated when `a` has succeeded.
abbrev pub and_then : Bool × Builder → (Builder → Bool × Builder) → Bool × Builder
and_then (false, b) f = (false, b)
and_then (true, b) f = f b

abbrev pub no_memory_unless : Bool × Builder → AbiStatus × Builder
no_memory_unless (good, b) = (if good then ok else no_memory, b)

-- ABI_DOCTOR_VERSION, "0.1.0-m0"
abbrev pub doctor_version : List ℕ
doctor_version = 48 ∷ 46 ∷ 49 ∷ 46 ∷ 48 ∷ 45 ∷ 109 ∷ 48 ∷ []

abbrev pub string_of : Option (List ℕ) → List ℕ
string_of none = []
string_of (some s) = s

-- ABI_VALIDATE_DEFAULT
abbrev pub validate_default : ℕ
validate_default = 2

-- The size that `abi_vec_grow` takes next.
abbrev pub next_capacity : ℕ → ℕ → ℕ
next_capacity limit n = min (if n == 0 then 4 else n * 2 % 2 ^ 32) limit

-- `malloc` answers its call of a number for a size. The sizes are those of a 64-bit host.
module _ (malloc : ℕ → ℕ → Option ℕ) where
  unfoldable pub abi_arena_bytes : List ℕ → AbiArena → AbiBytes × AbiArena
  unfolding abi_arena_alloc
  abi_arena_bytes src a =
      let (p, a') = abi_arena_alloc malloc (if length src == 0 then 1 else length src) 1 a in
      (record { null = not (is_some p); bytes = src }, a')

  -- The copy is stored by `set`.
  unfoldable pub store_bytes : (AbiBytes → Builder → Builder) → List ℕ → Builder → Bool × Builder
  unfolding abi_arena_bytes
  store_bytes set src b =
      let (s, a) = abi_arena_bytes src b.arena in (not s.null, set s (record b { arena = a }))

  -- `abi_arena_cstr`; a string that is too long is not stored.
  unfoldable pub store_cstr :
      (AbiBytes → Builder → Builder) → Option (List ℕ) → Builder → Bool × Builder
  unfolding store_bytes
  store_cstr set s b =
      if ltb limit_bytes_len (length (string_of s))
      then (false, b)
      else store_bytes set (string_of s) b

  -- `elem` is the size of an element.
  unfoldable pub abi_vec_grow {ℓ} :
      {A : Type ℓ} → ℕ → ℕ → ℕ → AbiVec A → AbiArena → Bool × AbiVec A × AbiArena
  unfolding abi_arena_alloc
  abi_vec_grow elem align limit v a =
      if ltb (length v.items) v.capacity
      then (true, v, a)
      else if leb limit (length v.items)
      then (false, v, a)
      else let n = next_capacity limit v.capacity in
        let (p, a') = abi_arena_alloc malloc (elem * n) align a in
        if is_some p then (true, record v { capacity = n }, a') else (false, v, a')
