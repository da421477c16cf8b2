-- ===== src/Builder/CaseCalls.antt =====
-- The calls of the builder of libabi/src/case.c on a case keep what it is bounded by.
use arrow_abi_doctor.Base.{
  ℕ, ◌<◌, ◌≤◌, ◌≡◌, arith, List, Bool, true, false, not, ◌&&◌, ◌||◌, Option, some, length, All,
  All-append, is_some, ltb, not-false, if_cases, if◌then◌else◌, ◌==◌,
}
use arrow_abi_doctor.Status.{AbiStatus, limit_bytes_len}
use arrow_abi_doctor.Model.{
  AbiAllocation, AbiOp, limit_alloc_count, limit_alloc_bytes, limit_alignment, limit_op_count,
  op_max, validate_full, expect_unspecified,
}
use arrow_abi_doctor.Validate.{abi_is_pow2_u32}
use arrow_abi_doctor.Arena.{abi_arena_alloc}
use arrow_abi_doctor.Builder.{
  AbiBytes, Builder, and_then, string_of, store_bytes, store_cstr, abi_vec_grow, doctor_version,
  set_rng_algorithm, set_generator_version, set_doctor_version, set_spec_revision, set_spec_clause,
  set_notes,
}
use arrow_abi_doctor.Builder.Case.{
  put_allocation, abi_case_add_allocation, abi_case_add_op, abi_case_set_provenance,
  abi_case_set_expected,
}
use arrow_abi_doctor.Builder.Limits.{abi_vec_grow-Grown, push-IsVec, AreBounded, IsBounded}

-- A setter of a copied string.
abbrev pub Keeps : (AbiBytes → Builder → Builder) → Type 0
Keeps set = (s : AbiBytes) (b : Builder) → IsBounded b → IsBounded (set s b)

module _ (malloc : ℕ → ℕ → Option ℕ) where
  pub store_bytes-IsBounded :
      (set : AbiBytes → Builder → Builder) (s : List ℕ) (b : Builder)
      → Keeps set
      → IsBounded b
      → IsBounded (store_bytes malloc set s b).1
  unfolding store_bytes
  store_bytes-IsBounded set s b keep w = keep _ (record b { arena = _ }) w

  pub store_cstr-IsBounded :
      (set : AbiBytes → Builder → Builder) (s : Option (List ℕ)) (b : Builder)
      → Keeps set
      → IsBounded b
      → IsBounded (store_cstr malloc set s b).1
  unfolding store_cstr
  store_cstr-IsBounded set s b keep w =
      if_cases {A = Bool × Builder} (λ r. IsBounded r.1)
        (ltb limit_bytes_len (length (string_of s))) _ _ (λ _. w)
        (λ _. store_bytes-IsBounded set (string_of s) b keep w)

  pub and_then-IsBounded :
      (r : Bool × Builder) (f : Builder → Bool × Builder)
      → ((b : Builder) → IsBounded b → IsBounded (f b).1)
      → IsBounded r.1
      → IsBounded (and_then r f).1
  and_then-IsBounded (false, b) f keep w = w
  and_then-IsBounded (true, b) f keep w = keep b w

  -- A further string of the case.
  pub next_string-IsBounded :
      (set : AbiBytes → Builder → Builder) (s : Option (List ℕ)) (r : Bool × Builder)
      → Keeps set
      → IsBounded r.1
      → IsBounded (and_then r (store_cstr malloc set s)).1
  next_string-IsBounded set s r keep w =
      and_then-IsBounded r (store_cstr malloc set s) (λ x h. store_cstr-IsBounded set s x keep h) w

  pub set_provenance-IsBounded :
      (seed version : ℕ) (rng generator doctor revision : Option (List ℕ)) (b : Builder)
      → IsBounded b
      → IsBounded (abi_case_set_provenance malloc seed rng version generator doctor revision b).1
  unfolding abi_case_set_provenance
  set_provenance-IsBounded seed version rng generator doctor revision b w =
      let b₀ = record b {
        provenance = record b.provenance { seed = seed; rng_version = version };
      } in
      let doctor' : Option (List ℕ) = if is_some doctor then doctor else some doctor_version in
      let r₁ = store_cstr malloc set_rng_algorithm rng b₀ in
      let r₂ = and_then r₁ (store_cstr malloc set_generator_version generator) in
      let r₃ = and_then r₂ (store_cstr malloc set_doctor_version doctor') in
      next_string-IsBounded set_spec_revision revision r₃ (λ s y k. k)
        (next_string-IsBounded set_doctor_version doctor' r₂ (λ s y k. k)
          (next_string-IsBounded set_generator_version generator r₁ (λ s y k. k)
            (store_cstr-IsBounded set_rng_algorithm rng b₀ (λ s y k. k) w)))

  pub set_expected-IsBounded :
      (level outcome : ℕ) (clause notes : Option (List ℕ)) (b : Builder)
      → IsBounded b
      → IsBounded (abi_case_set_expected malloc level outcome clause notes b).1
  unfolding abi_case_set_expected
  set_expected-IsBounded level outcome clause notes b w =
      if_cases {A = AbiStatus × Builder} (λ r. IsBounded r.1)
        (ltb validate_full level || ltb expect_unspecified outcome) _ _ (λ _. w)
        (λ _.
          let b₀ = record b {
            expected = record b.expected { validation_level = level; expected_outcome = outcome };
          } in
          next_string-IsBounded set_notes notes (store_cstr malloc set_spec_clause clause b₀)
            (λ s y k. k) (store_cstr-IsBounded set_spec_clause clause b₀ (λ s y k. k) w))

  pub add_op-IsBounded :
      (code arg0 arg1 : ℕ) (b : Builder)
      → IsBounded b
      → IsBounded (abi_case_add_op malloc code arg0 arg1 b).1
  unfolding abi_case_add_op AreBounded
  add_op-IsBounded code arg0 arg1 b (wa, (v, codes), ws, wr) =
      let P : AbiStatus × Builder → Type 0 = λ r. IsBounded r.1 in
      let grown = abi_vec_grow malloc 12 4 limit_op_count b.ops b.arena in
      let (same, vec, room) =
        abi_vec_grow-Grown malloc 12 4 limit_op_count b.ops b.arena (omega arith) v in
      let codes' : All (λ (op : AbiOp). op.code ≤ op_max) grown.1.items = rw same codes in
      if_cases P (ltb op_max code) _ _ (λ _. (wa, (v, codes), ws, wr))
        λ known.
          if_cases P (not grown.0) _ _ (λ _. (wa, (vec, codes'), ws, wr))
            λ good. (
              wa,
              (
                push-IsVec limit_op_count _ grown.1 (rw same (room (not-false _ good))) vec.1,
                All-append _ grown.1.items _ codes' (ground arith, tt),
              ),
              ws,
              wr,
            )

  put_allocation-IsBounded :
      (bytes : List ℕ) (size alignment : ℕ) (b : Builder)
      → IsBounded b
      → length b.allocations.items < b.allocations.capacity
      → size ≤ limit_alloc_bytes
      → alignment ≤ limit_alignment
      → abi_is_pow2_u32 alignment ≡ true
      → IsBounded (put_allocation malloc bytes size alignment b).1
  unfolding put_allocation AreBounded
  put_allocation-IsBounded bytes size alignment b ((v, entries), wo, ws, wr) room small low power =
      let P : AbiStatus × Builder → Type 0 = λ r. IsBounded r.1 in
      let vec = λ (x : AbiAllocation). push-IsVec limit_alloc_count x b.allocations room v.1 in
      if_cases P (size == 0) _ _
        (λ _. (
          (vec _, All-append _ b.allocations.items _ entries ((small, low, power), tt)),
          wo,
          ws,
          wr,
        ))
        λ _.
          if_cases P (is_some (abi_arena_alloc malloc size 1 b.arena).0) _ _
            (λ _. (
              (vec _, All-append _ b.allocations.items _ entries ((small, low, power), tt)),
              wo,
              ws,
              wr,
            ))
            (λ _. ((v, entries), wo, ws, wr))

  pub add_allocation-IsBounded :
      (bytes : Option (List ℕ)) (size alignment : ℕ) (b : Builder)
      → IsBounded b
      → IsBounded (abi_case_add_allocation malloc bytes size alignment b).1
  unfolding abi_case_add_allocation AreBounded
  add_allocation-IsBounded bytes size alignment b ((v, entries), wo, ws, wr) =
      let P : AbiStatus × Builder → Type 0 = λ r. IsBounded r.1 in
      let w : IsBounded b = ((v, entries), wo, ws, wr) in
      let grown = abi_vec_grow malloc 24 8 limit_alloc_count b.allocations b.arena in
      let (same, vec, room) =
        abi_vec_grow-Grown malloc 24 8 limit_alloc_count b.allocations b.arena (omega arith) v in
      let b' = record b { allocations = grown.1; arena = grown.2 } in
      let w' : IsBounded b' = ((vec, rw same entries), wo, ws, wr) in
      if_cases P (not (is_some bytes) && not (size == 0)) _ _ (λ _. w)
        λ _.
          if_cases P (not (abi_is_pow2_u32 alignment) || ltb limit_alignment alignment) _ _ (λ _. w)
            λ fine.
              if_cases P (ltb limit_alloc_bytes size) _ _ (λ _. w)
                λ small.
                  if_cases P (not grown.0) _ _ (λ _. w')
                    λ good.
                      put_allocation-IsBounded (string_of bytes) size alignment b' w'
                        (rw same (room (not-false _ good))) (ground arith) (ground arith)
                        (ground arith)
