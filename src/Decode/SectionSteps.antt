-- ===== src/Decode/SectionSteps.antt =====
-- The section readers of libabi/src/decode.c accept nothing but what docs/abicase-format.md says.
use arrow_abi_doctor.Base.{
  ℕ, zero, suc, ◌+◌, ◌*◌, ◌/◌, ◌<◌, ◌≤◌, ◌≡◌, refl, ap, ◌∙◌, arith, List, [], ◌∷◌, append-nil, Bool,
  false, not, ◌&&◌, none, length, ltb, ◌==◌, if◌then◌else◌, All,
}
use arrow_abi_doctor.Status.{
  truncated, not_canonical, limit_exceeded, bad_enum, no_memory, invalid_argument,
}
use arrow_abi_doctor.Cursor.{AbiCur}
use arrow_abi_doctor.Cursor.Monad.{M, value}
use arrow_abi_doctor.Cursor.Sound.{Step, Step-pure, Step-bind, Step-if}
use arrow_abi_doctor.Cursor.Loads.{own, u8-Step, u16-Step, u32-Step, u64-Step}
use arrow_abi_doctor.Cursor.Reads.{fail-Step, position-Step, check-Step, zeros-Step, bytes-Step}
use arrow_abi_doctor.Fill.Canonical.{fill_read-Step}
use arrow_abi_doctor.Fill.{out_bytes}
use arrow_abi_doctor.Model.{
  bytes_at, limit_alloc_bytes, op_max, validate_full, expect_unspecified, limit_alloc_count,
  limit_op_count,
}
use arrow_abi_doctor.Format.{
  each, provenance_bytes, allocation_bytes, allocations_bytes, op_bytes, callseq_bytes,
  expected_bytes,
}
use arrow_abi_doctor.Encode.Writes.{IsSized}
use arrow_abi_doctor.Decode.{
  AbiDec, on_cur, dec_count_guard, request, read_each, dec_provenance, bad_alignment,
  dec_allocation, dec_allocations, dec_op, dec_callseq, dec_expected,
}

abbrev pub cur_of : AbiDec → AbiCur
cur_of d = d.cur

-- A step of the cursor, as a step of the decoder.
pub on_cur-Step :
    {A : Type 0} {m : M AbiCur A} {R : A → List ℕ → Type 0}
    → Step own m R
    → Step cur_of (on_cur m) R
on_cur-Step {m} t = record {
  keeps = record {
    bytes = λ d h. t.keeps.bytes d.cur h;
    sticky = λ d e h. t.keeps.sticky d.cur e h;
  };
  sound = record { reads = λ d a ab h e. t.sound.reads d.cur a ab h e };
}

-- Reading a field of the state takes nothing.
pub look-Step :
    {S A : Type 0} (cur : S → AbiCur) (f : S → A × S)
    → ((s : S) → cur (f s).1 ≡ cur s)
    → Step cur (value f) (λ _ bs. bs ≡ [])
look-Step cur f same = record {
  keeps = record { bytes = λ s h. rw (same s) h; sticky = λ s e h. rw (same s) h };
  sound = record {
    reads = λ s a ab h live.
        let before : (cur s).err ≡ none = rw (same s) at live in
        ([], rw (same s) (record { live = before; bytes = refl; moved = omega arith }), refl);
  };
}

pub dec_count_guard-Step :
    (count each_min limit : ℕ) → Step own (dec_count_guard count each_min limit) (λ _ bs. bs ≡ [])
unfolding dec_count_guard
dec_count_guard-Step count each_min limit = Step-bind own check-Step λ _.
    Step-bind own position-Step λ at.
      Step-if own (ltb limit count) (fail-Step limit_exceeded at _) (
        Step-bind own (look-Step own (λ c. (length c.rest, c)) (λ c. refl)) λ remaining.
          Step-if own (not (each_min == 0) && ltb (remaining / each_min) count)
            (fail-Step truncated at _)
            (Step-pure own tt _ λ _ ws no_ws _ zs no_zs ys no_ys. rw (no_ws, no_zs, no_ys)))

pub request-Step :
    (arena : ℕ → ℕ → Bool) (size : ℕ) → Step own (request arena size) (λ _ bs. bs ≡ [])
unfolding request
request-Step arena size = Step-bind own position-Step λ at.
    Step-if own (arena at size) (Step-pure own tt _ λ _ xs no_xs. rw no_xs)
      (fail-Step no_memory at _)

-- A loop takes its items one after the other.
pub read_each-Step :
    {S A : Type 0} (cur : S → AbiCur) (m : M S A) (f : A → List ℕ) (P : A → Type 0)
    → Step cur m (λ a bs. (bs ≡ f a) × P a)
    → (n : ℕ)
    → Step cur (read_each n m) (λ items bs. (bs ≡ each f items) × (length items ≡ n) × All P items)
unfolding read_each
read_each-Step cur m f P t zero = Step-pure cur [] _ (refl, refl, tt)
read_each-Step cur m f P t (suc n) = Step-bind cur t λ a.
    Step-bind cur (read_each-Step cur m f P t n) λ rest.
      Step-pure cur (a ∷ rest) _
        λ ys (e, len, all) xs (first, p). (rw (first, e, append-nil), ap suc len, (p, all))

module _ (arena : ℕ → ℕ → Bool) where
  pub dec_provenance-Step : Step own (dec_provenance arena) (λ p bs. bs ≡ provenance_bytes p)
  unfolding dec_provenance provenance_bytes
  dec_provenance-Step = Step-bind own u64-Step λ seed. Step-bind own (bytes-Step arena) λ alg.
      Step-bind own u32-Step λ ver. Step-bind own (bytes-Step arena) λ gen.
        Step-bind own (bytes-Step arena) λ doc. Step-bind own (bytes-Step arena) λ spec.
          Step-bind own check-Step λ _.
            Step-pure own
              (record {
                seed = seed;
                rng_algorithm = alg;
                rng_version = ver;
                generator_version = gen;
                abi_doctor_version = doc;
                spec_revision = spec;
              })
              _
              λ _ e₇ _ (e₆, _) _ (e₅, _) _ (e₄, _) _ (e₃, _) _ (e₂, _) _ (e₁, _).
                rw (e₁, e₂, e₃, e₄, e₅, e₆, e₇, append-nil)

  op-Step : Step own (dec_op arena) (λ op bs. (bs ≡ op_bytes op) × (op.code ≤ op_max))
  unfolding dec_op op_bytes
  op-Step = Step-bind own position-Step λ at. Step-bind own u16-Step λ code.
      Step-bind own u32-Step λ arg0. Step-bind own u32-Step λ arg1. Step-bind own check-Step λ _.
        Step-if own (ltb op_max code) (fail-Step bad_enum at _) (
          Step-pure own (record { code = code; arg0 = arg0; arg1 = arg1 }) _
            λ known _ e₅ _ (e₄, _) _ (e₃, _) _ (e₂, _) _ e₁.
              (rw (e₁, e₂, e₃, e₄, e₅, append-nil), ground arith))

  -- An accepted CALLSEQ section is never empty.
  pub dec_callseq-Step :
      Step own (dec_callseq arena) (λ ops bs. (bs ≡ callseq_bytes ops) × (0 < length ops))
  unfolding dec_callseq callseq_bytes
  dec_callseq-Step = Step-bind own position-Step λ at. Step-bind own u32-Step λ count.
      Step-bind own check-Step λ _. Step-if own (count == 0) (fail-Step not_canonical at _) (
        Step-bind own (dec_count_guard-Step count 10 limit_op_count) λ _.
          Step-bind own (request-Step arena (12 * count)) λ _.
            Step-bind own (read_each-Step own (dec_op arena) op_bytes _ op-Step count) λ ops.
              Step-bind own check-Step λ _.
                Step-pure own ops _ λ _ e₇ _ (e₆, len, _) _ e₅ _ e₄ nonzero _ e₃ _ (e₂, _) _ e₁.
                  (rw (e₁, e₂, e₃, e₄, e₅, e₆, e₇, append-nil, len), ground arith))

  pub dec_expected-Step : Step own (dec_expected arena) (λ x bs.
      (bs ≡ expected_bytes x)
      × (x.validation_level ≤ validate_full)
      × (x.expected_outcome ≤ expect_unspecified))
  unfolding dec_expected expected_bytes
  dec_expected-Step = Step-bind own position-Step λ at. Step-bind own u8-Step λ level.
      Step-bind own u8-Step λ outcome. Step-bind own check-Step λ _.
        Step-if own (ltb validate_full level) (fail-Step bad_enum at _) (
          Step-if own (ltb expect_unspecified outcome) (fail-Step bad_enum (at + 1) _) (
            Step-bind own (zeros-Step 2) λ _. Step-bind own (bytes-Step arena) λ clause.
              Step-bind own (bytes-Step arena) λ notes. Step-bind own check-Step λ _.
                Step-pure own
                  (record {
                    validation_level = level;
                    expected_outcome = outcome;
                    spec_clause = clause;
                    notes = notes;
                  })
                  _
                  λ _ e₈ _ (e₇, _) _ (e₆, _) _ e₅ in₂ in₁ _ e₄ _ (e₃, _) _ (e₂, _) _ e₁.
                    (rw (e₁, e₂, e₃, e₄, e₅, e₆, e₇, e₈, append-nil), ground arith, ground arith)))

  -- The memory that `fill_read` gives is the bytes of the payload.
  pub bytes_at-out_bytes :
      (size : ℕ) (dst : List ℕ) → length dst ≡ size → bytes_at (out_bytes size dst) ≡ dst
  unfolding out_bytes
  bytes_at-out_bytes size [] e = ground arith
  bytes_at-out_bytes size (b ∷ dst) e =
      let some_size : (size == 0) ≡ false = ground arith in rw some_size

  allocation-Step : Step own (dec_allocation arena) (λ a bs. (bs ≡ allocation_bytes a) × IsSized a)
  unfolding dec_allocation allocation_bytes
  allocation-Step = Step-bind own position-Step λ size_at. Step-bind own u64-Step λ size.
      Step-bind own check-Step λ _.
        Step-if own (ltb limit_alloc_bytes size) (fail-Step limit_exceeded size_at _) (
          Step-bind own position-Step λ align_at. Step-bind own u32-Step λ align.
            Step-bind own check-Step λ _.
              Step-if own (bad_alignment align) (fail-Step invalid_argument align_at _) (
                Step-bind own u8-Step λ fill. Step-bind own (zeros-Step 3) λ _.
                  Step-bind own (fill_read-Step arena size fill) λ bytes.
                    Step-pure own (record { size_bytes = size; alignment = align; bytes = bytes }) _
                      λ _ (dst, out, len, code, stored) _ e₈ _ (e₇, _) _ _ e₆ _ (e₅, _) _ e₄ small _
                          e₃ _ (e₂, _) _ e₁.
                        let memory : bytes_at bytes ≡ dst =
                          ap bytes_at out ∙ bytes_at-out_bytes size dst len in
                        (
                          rw (e₁, e₂, e₃, e₄, e₅, e₆, e₇, e₈, stored, append-nil, memory, code),
                          record { filled = ap length memory ∙ len; small = ground arith },
                        )))

  pub dec_allocations-Step :
      Step own
        (dec_allocations arena)
        (λ table bs. (bs ≡ allocations_bytes table) × All IsSized table)
  unfolding dec_allocations allocations_bytes
  dec_allocations-Step = Step-bind own u32-Step λ count. Step-bind own check-Step λ _.
      Step-bind own (dec_count_guard-Step count 16 limit_alloc_count) λ _.
        Step-bind own (request-Step arena (24 * (if count == 0 then 1 else count))) λ _.
          Step-bind own
            (read_each-Step own (dec_allocation arena) allocation_bytes IsSized allocation-Step
              count)
            λ table. Step-bind own check-Step λ _.
              Step-pure own table _ λ _ e₆ _ (e₅, len, sized) _ e₄ _ e₃ _ e₂ _ (e₁, _).
                (rw (e₁, e₂, e₃, e₄, e₅, e₆, append-nil, len), sized)
