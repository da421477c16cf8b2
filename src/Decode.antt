-- ===== src/Decode.antt =====
-- The section readers of libabi/src/decode.c. A reader returns what the source stores into the case.
-- `arena at n` says whether the case's arena gives `n` bytes to the request made at position `at`;
-- the sizes of the records are those of an LP64 target.
pub mod Schema
pub mod Array
pub mod SectionSteps
pub mod TreeSteps
pub mod Presence
pub mod SchemaSteps
pub mod RoundTrip
pub mod ArraySteps
use arrow_abi_doctor.Base.{
  ℕ, zero, suc, ◌+◌, ◌-◌, ◌*◌, ◌/◌, List, [], ◌∷◌, ℤ, Bool, true, false, not, ◌&&◌, ◌||◌, Option,
  none, some, ltb, ◌==◌, if◌then◌else◌, length, bit_and,
}
use arrow_abi_doctor.Status.{
  truncated, not_canonical, limit_exceeded, bad_enum, no_memory, invalid_argument,
}
use arrow_abi_doctor.Cursor.{
  AbiCur, cur_u8, cur_u16, cur_u32, cur_u64, cur_i64, cur_bytes, cur_bool, cur_zeros, fail,
  position, check, arena_bytes, or_no_memory,
}
use arrow_abi_doctor.Cursor.Monad.{M, ◌>>=◌, ◌>>◌, value, pure}
use arrow_abi_doctor.Fill.{fill_read}
use arrow_abi_doctor.Model.{
  AbiAllocation, AbiBufferView, AbiMetadataKv, SchemaFields, AbiSchemaNode, SchemaChildren,
  SchemaDictionary, ArrayFields, AbiArrayNode, ArrayChildren, ArrayDictionary, schema_node,
  array_node, AbiOp, AbiProvenance, AbiExpected, limit_alloc_count, limit_alloc_bytes,
  limit_alignment, limit_tree_nodes, limit_op_count, role_max, op_max, validate_full,
  expect_unspecified,
}

-- The cursor and the budgets shared across one tree and across all buffer views.
pub record AbiDec : Type 0 where
  pub cur : AbiCur
  pub nodes : ℕ
  pub buffers : ℕ

abbrev pub with_cur {ℓ} : {A : Type ℓ} → AbiDec → Option A × AbiCur → Option A × AbiDec
with_cur d (o, c) = (o, record d { cur = c })

abbrev pub on_cur : {A : Type 0} → M AbiCur A → M AbiDec A
on_cur m d = with_cur d (m d.cur)

unfoldable pub dec_count_guard : ℕ → ℕ → ℕ → M AbiCur (Unit {0})
dec_count_guard count min_bytes_each limit = do
  check
  at ← value position
  if ltb limit count then fail limit_exceeded at else do
    remaining ← value (λ c. (length c.rest, c))
    if not (min_bytes_each == 0) && ltb (remaining / min_bytes_each) count
        then fail truncated at
        else pure tt

-- A vector of the arena.
unfoldable pub request : (ℕ → ℕ → Bool) → ℕ → M AbiCur (Unit {0})
request arena size = do at ← value position; if arena at size then pure tt else fail no_memory at

-- `for (i = 0; i < count; i++)`, one item a round.
unfoldable pub read_each : {S A : Type 0} → ℕ → M S A → M S (List A)
read_each zero m = pure []
read_each (suc n) m = do a ← m; rest ← read_each n m; pure (a ∷ rest)

-- `alignment == 0 || (alignment & (alignment - 1)) != 0 || alignment > ABI_LIMIT_ALIGNMENT`
abbrev pub bad_alignment : ℕ → Bool
bad_alignment alignment =
    alignment == 0
    || (not (bit_and alignment (alignment - 1) == 0) || ltb limit_alignment alignment)

-- `if (++d->nodes > ABI_LIMIT_TREE_NODES)`
unfoldable pub count_node : M AbiDec (Unit {0})
count_node = do
  value (λ d. (tt, record d { nodes = d.nodes + 1 }))
  nodes ← value (λ d. (d.nodes, d))
  if ltb limit_tree_nodes nodes
      then on_cur (value position >>= λ at. fail limit_exceeded at)
      else pure tt

module _ (arena : ℕ → ℕ → Bool) where
  unfoldable pub dec_provenance : M AbiCur AbiProvenance
  dec_provenance = do
    seed ← value cur_u64
    rng_algorithm ← cur_bytes arena
    rng_version ← value cur_u32
    generator_version ← cur_bytes arena
    abi_doctor_version ← cur_bytes arena
    spec_revision ← cur_bytes arena
    check
    pure (record {
      seed = seed;
      rng_algorithm = rng_algorithm;
      rng_version = rng_version;
      generator_version = generator_version;
      abi_doctor_version = abi_doctor_version;
      spec_revision = spec_revision;
    })

  -- The body of the loop of `dec_allocations`.
  unfoldable pub dec_allocation : M AbiCur AbiAllocation
  dec_allocation = do
    size_at ← value position
    size_bytes ← value cur_u64
    check
    if ltb limit_alloc_bytes size_bytes then fail limit_exceeded size_at else do
      align_at ← value position
      alignment ← value cur_u32
      check
      if bad_alignment alignment then fail invalid_argument align_at else do
        fill ← value cur_u8
        cur_zeros 3
        bytes ← fill_read arena size_bytes fill
        pure (record { size_bytes = size_bytes; alignment = alignment; bytes = bytes })

  unfoldable pub dec_allocations : M AbiCur (List AbiAllocation)
  unfolding dec_allocation
  dec_allocations = do
    count ← value cur_u32
    check
    dec_count_guard count 16 limit_alloc_count
    request arena (24 * (if count == 0 then 1 else count))
    table ← read_each count dec_allocation
    check
    pure table

  -- The body of the loop of `dec_callseq`.
  unfoldable pub dec_op : M AbiCur AbiOp
  dec_op = do
    op_at ← value position
    code ← value cur_u16
    arg0 ← value cur_u32
    arg1 ← value cur_u32
    check
    if ltb op_max code
        then fail bad_enum op_at
        else pure (record { code = code; arg0 = arg0; arg1 = arg1 })

  unfoldable pub dec_callseq : M AbiCur (List AbiOp)
  unfolding dec_op
  dec_callseq = do
    at ← value position
    count ← value cur_u32
    check
    if count == 0 then fail not_canonical at else do
      dec_count_guard count 10 limit_op_count
      request arena (12 * count)
      ops ← read_each count dec_op
      check
      pure ops

  unfoldable pub dec_expected : M AbiCur AbiExpected
  dec_expected = do
    at ← value position
    validation_level ← value cur_u8
    expected_outcome ← value cur_u8
    check
    if ltb validate_full validation_level
        then fail bad_enum at
        else if ltb expect_unspecified expected_outcome
        then fail bad_enum (at + 1)
        else do
          cur_zeros 2
          spec_clause ← cur_bytes arena
          notes ← cur_bytes arena
          check
          pure (record {
            validation_level = validation_level;
            expected_outcome = expected_outcome;
            spec_clause = spec_clause;
            notes = notes;
          })

  -- The guard on a child count, and the vector for the children.
  unfoldable pub guard_children : ℕ → M AbiDec (Unit {0})
  guard_children count = do
    nodes ← value (λ d. (d.nodes, d))
    on_cur (dec_count_guard count 4 (limit_tree_nodes - nodes + 1))
    on_cur (if count == 0 then pure tt else request arena (8 * count))
