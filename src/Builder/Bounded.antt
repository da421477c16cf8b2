-- ===== src/Builder/Bounded.antt =====
-- What is built by the calls of libabi/src/case.c stays bounded.
use arrow_abi_doctor.Base.{
  ℕ, ◌≡◌, ap, arith, List, [], ◌∷◌, ◌&&◌, Option, none, some, ltb, is_some, if_cases, elim_cases,
}
use mathlib.Core.Path.{subst}
use arrow_abi_doctor.Model.{class_c}
use arrow_abi_doctor.Arena.{AbiArena, new_arena, abi_arena_alloc}
use arrow_abi_doctor.Builder.{
  Builder, and_then, store_cstr, doctor_version, set_rng_algorithm, set_generator_version,
  set_doctor_version, set_spec_revision, set_spec_clause, set_notes,
}
use arrow_abi_doctor.Builder.Case.{abi_case_new, zeroed_case}
use arrow_abi_doctor.Builder.Schema.{
  abi_schema_set_dictionary, abi_schema_set_declared_children, abi_case_set_schema,
}
use arrow_abi_doctor.Builder.Array.{
  abi_array_set_dictionary, abi_array_set_declared_buffers, abi_array_set_declared_children,
  abi_case_set_array,
}
use arrow_abi_doctor.Builder.Limits.{AreBounded, IsBounded}
use arrow_abi_doctor.Builder.CaseCalls.{
  store_cstr-IsBounded, next_string-IsBounded, set_provenance-IsBounded, set_expected-IsBounded,
  add_op-IsBounded, add_allocation-IsBounded,
}
use arrow_abi_doctor.Builder.SchemaCalls.{
  on_schema-IsBounded, schema_new-IsBounded, set_format-IsBounded, set_name-IsBounded,
  set_metadata_present-IsBounded, add_metadata-IsBounded, schema_add_child-IsBounded,
}
use arrow_abi_doctor.Builder.ArrayCalls.{
  on_array-IsBounded, array_new-IsBounded, add_buffer-IsBounded, add_null_buffer-IsBounded,
  array_add_child-IsBounded,
}
use arrow_abi_doctor.Builder.Calls.{Call, perform, perform_all}

module _ (malloc : ℕ → ℕ → Option ℕ) where
  perform-IsBounded : (call : Call) (b : Builder) → IsBounded b → IsBounded (perform malloc call b)
  unfolding perform abi_schema_set_dictionary abi_schema_set_declared_children abi_case_set_schema
      abi_array_set_dictionary abi_array_set_declared_buffers abi_array_set_declared_children
      abi_case_set_array
  perform-IsBounded (Call.set_provenance seed rng version generator doctor revision) b w =
      set_provenance-IsBounded malloc seed version rng generator doctor revision b w
  perform-IsBounded (Call.set_expected level outcome clause notes) b w =
      set_expected-IsBounded malloc level outcome clause notes b w
  perform-IsBounded (Call.add_allocation bytes size alignment) b w =
      add_allocation-IsBounded malloc bytes size alignment b w
  perform-IsBounded (Call.schema_new format) b w = schema_new-IsBounded malloc format b w
  perform-IsBounded (Call.schema_set_format i format len) b w =
      set_format-IsBounded malloc i format len b w
  perform-IsBounded (Call.schema_set_name i name) b w = set_name-IsBounded malloc i name b w
  perform-IsBounded (Call.schema_set_metadata_present i) b w =
      set_metadata_present-IsBounded malloc i b w
  perform-IsBounded (Call.schema_add_metadata i key key_len value value_len) b w =
      add_metadata-IsBounded malloc i key key_len value value_len b w
  perform-IsBounded (Call.schema_add_child i j) b w = schema_add_child-IsBounded malloc i j b w
  perform-IsBounded (Call.schema_set_dictionary none dict) b w = w
  perform-IsBounded (Call.schema_set_dictionary (some i) dict) b w =
      on_schema-IsBounded i _ b (λ n h. h) w
  perform-IsBounded (Call.schema_set_declared_children none k) b w = w
  perform-IsBounded (Call.schema_set_declared_children (some i) k) b w =
      on_schema-IsBounded i _ b (λ n h. h) w
  perform-IsBounded Call.array_new b w = array_new-IsBounded malloc b w
  perform-IsBounded (Call.array_add_buffer i role id offset size) b w =
      add_buffer-IsBounded malloc i role id offset size b w
  perform-IsBounded (Call.array_add_null_buffer i role) b w =
      add_null_buffer-IsBounded malloc i role b w
  perform-IsBounded (Call.array_add_child i j) b w = array_add_child-IsBounded malloc i j b w
  perform-IsBounded (Call.array_set_dictionary none dict) b w = w
  perform-IsBounded (Call.array_set_dictionary (some i) dict) b w =
      on_array-IsBounded i _ b (λ n h. h) w
  perform-IsBounded (Call.array_set_declared_buffers none k) b w = w
  perform-IsBounded (Call.array_set_declared_buffers (some i) k) b w =
      on_array-IsBounded i _ b (λ n h. h) w
  perform-IsBounded (Call.array_set_declared_children none k) b w = w
  perform-IsBounded (Call.array_set_declared_children (some i) k) b w =
      on_array-IsBounded i _ b (λ n h. h) w
  perform-IsBounded (Call.set_schema i) b w = w
  perform-IsBounded (Call.set_array i) b w = w
  perform-IsBounded (Call.add_op code arg0 arg1) b w = add_op-IsBounded malloc code arg0 arg1 b w

  perform_all-IsBounded :
      (calls : List Call) (b : Builder) → IsBounded b → IsBounded (perform_all malloc calls b)
  unfolding perform_all
  perform_all-IsBounded [] b w = w
  perform_all-IsBounded (call ∷ calls) b w =
      perform_all-IsBounded calls _ (perform-IsBounded call b w)

  zeroed-IsBounded : (cls : ℕ) (a : AbiArena) → IsBounded (zeroed_case malloc cls a)
  unfolding AreBounded
  zeroed-IsBounded cls a =
      (((omega arith, omega arith), tt), ((omega arith, omega arith), tt), tt, tt)

  case_new-IsBounded : (cls : ℕ) (b : Builder) → abi_case_new malloc cls ≡ some b → IsBounded b
  unfolding abi_case_new
  case_new-IsBounded cls b e =
      let Q : Option Builder → Type 0 = λ r. r ≡ some b → IsBounded b in
      let answer = abi_arena_alloc malloc 192 8 (record new_arena { calls = 1 }) in
      let b₀ = zeroed_case malloc cls answer.1 in
      let r₁ = store_cstr malloc set_rng_algorithm (some []) b₀ in
      let r₂ = and_then r₁ (store_cstr malloc set_generator_version (some [])) in
      let r₃ = and_then r₂ (store_cstr malloc set_doctor_version (some doctor_version)) in
      let r₄ = and_then r₃ (store_cstr malloc set_spec_revision (some [])) in
      let r₅ = and_then r₄ (store_cstr malloc set_spec_clause (some [])) in
      let r₆ = and_then r₅ (store_cstr malloc set_notes (some [])) in
      let w₁ : IsBounded r₁.1 =
        store_cstr-IsBounded malloc set_rng_algorithm (some []) b₀ (λ s y k. k)
          (zeroed-IsBounded cls answer.1) in
      let w₃ : IsBounded r₃.1 =
        next_string-IsBounded malloc set_doctor_version (some doctor_version) r₂ (λ s y k. k)
          (next_string-IsBounded malloc set_generator_version (some []) r₁ (λ s y k. k) w₁) in
      let w₅ : IsBounded r₅.1 =
        next_string-IsBounded malloc set_spec_clause (some []) r₄ (λ s y k. k)
          (next_string-IsBounded malloc set_spec_revision (some []) r₃ (λ s y k. k) w₃) in
      let w₆ : IsBounded r₆.1 =
        next_string-IsBounded malloc set_notes (some []) r₅ (λ s y k. k) w₅ in
      if_cases Q (ltb class_c cls) _ _ (λ _ h. absurd (cc))
        (λ _.
          elim_cases Q (malloc 0 16) _ _ (λ _ h. absurd (cc))
            λ at _.
              if_cases Q (is_some answer.0 && r₆.0) _ _
                (λ _ h.
                  subst IsBounded (ap (λ (o : Option Builder). elim o [ none ↦ b | some z ↦ z ]) h)
                    w₆)
                (λ _ h. absurd (cc)))
        e

  -- Whatever memory is granted, a new case is bounded behind any sequence of calls of the builder, those
  -- that fail included: it has at most 4096 allocations of at most 16 MiB, aligned to a power of two up to
  -- 4096, at most 4096 operations of known codes, and each node has at most 4096 metadata pairs, views of
  -- known roles and children; and each vector holds no more than its memory. The depth of a tree, its
  -- number of nodes, the length of a string and the size of the file are not bounded by this.
  pub built-IsBounded :
      (cls : ℕ) (calls : List Call) (b : Builder)
      → abi_case_new malloc cls ≡ some b
      → IsBounded (perform_all malloc calls b)
  built-IsBounded cls calls b e = perform_all-IsBounded calls b (case_new-IsBounded cls b e)
