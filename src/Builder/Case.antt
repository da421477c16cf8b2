-- ===== src/Builder/Case.antt =====
-- The case of the builder, libabi/src/case.c: its creation, its strings, its allocations and operations.
use arrow_abi_doctor.Base.{
  ℕ, List, [], not, ◌&&◌, ◌||◌, Option, none, some, length, ltb, leb, ◌==◌, is_some, if◌then◌else◌,
}
use arrow_abi_doctor.Status.{AbiStatus, ok, invalid_argument, no_memory, limit_exceeded, bad_enum}
use arrow_abi_doctor.Model.{
  AbiAllocation, limit_alloc_count, limit_alloc_bytes, limit_alignment, limit_op_count, op_max,
  validate_full, expect_unspecified, class_c,
}
use arrow_abi_doctor.Validate.{abi_is_pow2_u32}
use arrow_abi_doctor.Arena.{AbiArena, new_arena, abi_arena_alloc}
use arrow_abi_doctor.Builder.{
  no_bytes, empty_vec, push, Builder, set_rng_algorithm, set_generator_version, set_doctor_version,
  set_spec_revision, set_spec_clause, set_notes, and_then, no_memory_unless, doctor_version,
  string_of, validate_default, store_cstr, abi_vec_grow,
}

-- `malloc` answers its call of a number for a size. The sizes are those of a 64-bit host.
module _ (malloc : ℕ → ℕ → Option ℕ) where
  unfoldable pub abi_case_set_provenance :
      ℕ
      → Option (List ℕ)
      → ℕ
      → Option (List ℕ)
      → Option (List ℕ)
      → Option (List ℕ)
      → Builder
      → AbiStatus × Builder
  unfolding store_cstr
  abi_case_set_provenance seed rng rng_version generator doctor revision b =
      let b₀ = record b {
        provenance = record b.provenance { seed = seed; rng_version = rng_version };
      } in
      let doctor' : Option (List ℕ) = if is_some doctor then doctor else some doctor_version in
      no_memory_unless (
        and_then
          (and_then
            (and_then (store_cstr malloc set_rng_algorithm rng b₀)
              (store_cstr malloc set_generator_version generator))
            (store_cstr malloc set_doctor_version doctor'))
          (store_cstr malloc set_spec_revision revision))

  unfoldable pub abi_case_set_expected :
      ℕ → ℕ → Option (List ℕ) → Option (List ℕ) → Builder → AbiStatus × Builder
  unfolding store_cstr
  abi_case_set_expected level outcome clause notes b =
      if ltb validate_full level || ltb expect_unspecified outcome
      then (bad_enum, b)
      else let b₀ = record b {
        expected = record b.expected { validation_level = level; expected_outcome = outcome };
      } in
        no_memory_unless (
          and_then (store_cstr malloc set_spec_clause clause b₀)
            (store_cstr malloc set_notes notes))

  -- The element behind the grown vector.
  unfoldable pub put_allocation : List ℕ → ℕ → ℕ → Builder → AbiStatus × Builder
  unfolding abi_arena_alloc
  put_allocation bytes size alignment b =
      let entry : Option (List ℕ) → AbiAllocation =
        λ copy. record { size_bytes = size; alignment = alignment; bytes = copy } in
      if size == 0
      then (ok, record b { allocations = push (entry none) b.allocations })
      else let (p, a) = abi_arena_alloc malloc size 1 b.arena in
        if is_some p
        then (ok, record b { allocations = push (entry (some bytes)) b.allocations; arena = a })
        else (no_memory, record b { arena = a })

  -- `bytes` is NULL, or `size` bytes; the id is the count before the call.
  unfoldable pub abi_case_add_allocation : Option (List ℕ) → ℕ → ℕ → Builder → AbiStatus × Builder
  unfolding abi_vec_grow put_allocation
  abi_case_add_allocation bytes size alignment b =
      if not (is_some bytes) && not (size == 0)
      then (invalid_argument, b)
      else if not (abi_is_pow2_u32 alignment) || ltb limit_alignment alignment
      then (invalid_argument, b)
      else if ltb limit_alloc_bytes size
      then (limit_exceeded, b)
      else let (good, v, a) = abi_vec_grow malloc 24 8 limit_alloc_count b.allocations b.arena in
        let b' = record b { allocations = v; arena = a } in
        if not good
        then (
          if leb limit_alloc_count (length b.allocations.items) then limit_exceeded else no_memory,
          b',
        )
        else put_allocation (string_of bytes) size alignment b'

  unfoldable pub abi_case_add_op : ℕ → ℕ → ℕ → Builder → AbiStatus × Builder
  unfolding abi_vec_grow
  abi_case_add_op code arg0 arg1 b =
      if ltb op_max code
      then (bad_enum, b)
      else let (good, v, a) = abi_vec_grow malloc 12 4 limit_op_count b.ops b.arena in
        if not good
        then (
          if leb limit_op_count (length b.ops.items) then limit_exceeded else no_memory,
          record b { ops = v; arena = a },
        )
        else (
          ok,
          record b { ops = push (record { code = code; arg0 = arg0; arg1 = arg1 }) v; arena = a },
        )

  -- Behind `memset`: every string is NULL until it is stored.
  abbrev pub zeroed_case : ℕ → AbiArena → Builder
  zeroed_case cls a = record {
    cls = cls;
    provenance = record {
      seed = 0;
      rng_algorithm = no_bytes;
      rng_version = 0;
      generator_version = no_bytes;
      abi_doctor_version = no_bytes;
      spec_revision = no_bytes;
    };
    allocations = empty_vec;
    schema = none;
    array = none;
    ops = empty_vec;
    expected = record {
      validation_level = 0;
      expected_outcome = 0;
      spec_clause = no_bytes;
      notes = no_bytes;
    };
    schemas = [];
    arrays = [];
    arena = a;
  }

  -- none is NULL. The arena is the first thing that is allocated.
  unfoldable pub abi_case_new : ℕ → Option Builder
  unfolding abi_arena_alloc store_cstr
  abi_case_new cls = if ltb class_c cls then none else elim (malloc 0 16) [
    | none ↦ none
    | some at ↦
        let (p, a) = abi_arena_alloc malloc 192 8 (record new_arena { calls = 1 }) in
        let r₁ = store_cstr malloc set_rng_algorithm (some []) (zeroed_case cls a) in
        let r₂ = and_then r₁ (store_cstr malloc set_generator_version (some [])) in
        let r₃ = and_then r₂ (store_cstr malloc set_doctor_version (some doctor_version)) in
        let r₄ = and_then r₃ (store_cstr malloc set_spec_revision (some [])) in
        let r₅ = and_then r₄ (store_cstr malloc set_spec_clause (some [])) in
        let (good, b) = and_then r₅ (store_cstr malloc set_notes (some [])) in
        if is_some p && good
        then some (record b {
          expected = record b.expected {
            validation_level = validate_default;
            expected_outcome = expect_unspecified;
          };
        })
        else none
  ]
