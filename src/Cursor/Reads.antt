-- ===== src/Cursor/Reads.antt =====
-- The other cursor operations of libabi/src/bytes.c: what each takes from the input.
use mathlib.Core.Path.{subst}
use arrow_abi_doctor.Base.{
  ℕ, ◌+◌, ◌≤◌, ◌≡◌, refl, sym, arith, List, [], ◌∷◌, ◌++◌, append-nil, Bool, none, some, length,
  length-take, take, take-append-drop, replicate, inl, inr, if◌then◌else◌, ltb, ◌==◌, Bool-cases,
}
use arrow_abi_doctor.Bytes.{store_u32, store_u64, u64_to_i64, i64_to_u64}
use arrow_abi_doctor.Bytes.Signed
use arrow_abi_doctor.Bytes.Signed.{FitsInt64}
use arrow_abi_doctor.Status.{AbiStatus, limit_bytes_len, not_canonical, no_memory, limit_exceeded}
use arrow_abi_doctor.Cursor.{
  AbiCur, advance, fail, position, check, need, cur_u64, cur_i64, cur_raw, zeros_loop, cur_zeros,
  cur_bool, cur_bytes, arena_bytes, or_no_memory,
}
use arrow_abi_doctor.Cursor.Monad.{value}
use arrow_abi_doctor.Cursor.Sound.{
  Took, Keeps-bind, Step, Step-pure, Step-bind, Step-if, Step-weaken,
}
use arrow_abi_doctor.Cursor.Loads.{
  own, drop-AreBytes, fail-Keeps, check-Keeps, need-Keeps, u8-Step, u32-Step, u64-Step,
}

pub fail-Step :
    {A : Type 0} (st : AbiStatus) (at : ℕ) (R : A → List ℕ → Type 0) → Step own (fail st at) R
unfolding fail
fail-Step st at R = record { keeps = fail-Keeps st at; sound = record { reads = λ c v ab h e. cc } }

-- Reading the position takes nothing, and neither does a check.
pub position-Step : Step own (value position) (λ v bs. bs ≡ [])
unfolding position
position-Step = record {
  keeps = record { bytes = λ c h. h; sticky = λ c e h. h };
  sound = record {
    reads = λ c v ab h live. ([], record { live = live; bytes = refl; moved = omega arith }, refl);
  };
}

check_passes : (c : AbiCur) → (check c).0 ≡ some tt → (c.err ≡ none) × ((check c).1 ≡ c)
unfolding check
check_passes c h = ground arith

pub check-Step : Step own check (λ v bs. bs ≡ [])
check-Step = record {
  keeps = check-Keeps;
  sound = record {
    reads = λ c v ab h live.
        let (before, same) = check_passes c h in
        (
          [],
          subst (λ c'. Took c [] c') (sym same)
              (record { live = before; bytes = refl; moved = omega arith }),
          refl,
        );
  };
}

-- What `raw` gives is what stands at the cursor.
raw_took :
    (n : ℕ) (c : AbiCur) (v : List ℕ)
    → (cur_raw n c).0 ≡ some v
    → (c.err ≡ none) × (n ≤ length c.rest) × (v ≡ take n c.rest) × ((cur_raw n c).1 ≡ advance n c)
unfolding cur_raw need
raw_took n c v h = ground arith

pub raw-Step : (n : ℕ) → Step own (cur_raw n) (λ v bs. (bs ≡ v) × (length v ≡ n))
raw-Step n = record {
  keeps =
      unfold cur_raw in
      Keeps-bind own (need n) _ (need-Keeps n)
        λ _. record { bytes = λ c h. drop-AreBytes n c.rest h; sticky = λ c e h. h };
  sound = record {
    reads = λ c v ab h live.
        let (before, le, e, same) = raw_took n c v h in
        (
          take n c.rest,
          record {
            live = before;
            bytes = rw same (sym (take-append-drop n c.rest));
            moved = rw (same, length-take n c.rest le);
          },
          (sym e, rw e (length-take n c.rest le)),
        );
  };
}

-- The eight bytes of the two's complement.
pub i64-Step : Step own (value cur_i64) (λ v bs. (bs ≡ store_u64 (i64_to_u64 v)) × FitsInt64 v)
unfolding cur_i64
i64-Step = record {
  keeps = record { bytes = u64-Step.keeps.bytes; sticky = u64-Step.keeps.sticky };
  sound = record {
    reads = λ c v ab h live.
        let (bs, t, (e, small)) = u64-Step.sound.reads c (cur_u64 c).0 ab refl live in
        let loaded : v ≡ u64_to_i64 (cur_u64 c).0 = cc in
        (
          bs,
          t,
          (
            rw (loaded, Signed.i64_to_u64-u64_to_i64 _ small) e,
            rw loaded (Signed.u64_to_i64-FitsInt64 _ small),
          ),
        );
  };
}

zeros_loop-Step :
    (raw : List ℕ) (off : ℕ)
    → Step own (zeros_loop raw off) (λ _ bs. (bs ≡ []) × (raw ≡ replicate (length raw) 0))
unfolding zeros_loop
zeros_loop-Step [] off = Step-pure own tt _ (refl, refl)
zeros_loop-Step (b ∷ raw) off =
    Step-if own (b == 0)
      (Step-weaken own (zeros_loop-Step raw (off + 1)) λ _ bs (e, z) zero_byte. (e, ground arith))
      (fail-Step not_canonical off _)

-- Reserved bytes are zero, and `n` of them are taken.
pub zeros-Step : (n : ℕ) → Step own (cur_zeros n) (λ _ bs. bs ≡ replicate n 0)
unfolding cur_zeros
zeros-Step n = Step-bind own position-Step λ at. Step-bind own (raw-Step n) λ raw.
    Step-weaken own (zeros_loop-Step raw at)
      λ _ zs (none_left, z) ys (same, len) xs e. rw (e, none_left, same, append-nil, ← len) z

-- A flag is one byte, 0 or 1.
pub bool-Step : Step own cur_bool (λ v bs. (bs ≡ v ∷ []) × (v ≤ 1))
unfolding cur_bool
bool-Step = Step-bind own position-Step λ at. Step-bind own u8-Step λ v.
    Step-bind own check-Step λ _. Step-if own (ltb 1 v) (fail-Step not_canonical at _) (
      Step-pure own v _
        λ flag zs no_zs ys (byte, _) xs no_xs. (rw (no_xs, no_zs, byte), ground arith))

pub copy-Step :
    (arena : ℕ → ℕ → Bool) (at : ℕ) (raw : List ℕ)
    → Step own (or_no_memory (arena_bytes arena at raw) at) (λ v bs. (bs ≡ []) × (v ≡ raw))
unfolding or_no_memory arena_bytes
copy-Step arena at raw =
    let size = if length raw == 0 then 1 else length raw in
    elim (Bool-cases (arena at size)) [
      | inl given ↦ rw given (Step-pure own raw _ (refl, refl))
      | inr refused ↦ rw refused (fail-Step no_memory at _)
    ]

-- A byte string is its length and its bytes, and no longer than the limit.
pub bytes-Step :
    (arena : ℕ → ℕ → Bool)
    → Step own
        (cur_bytes arena)
        (λ v bs. (bs ≡ store_u32 (length v) ++ v) × (length v ≤ limit_bytes_len))
unfolding cur_bytes
bytes-Step arena = Step-bind own position-Step λ at. Step-bind own u32-Step λ len.
    Step-bind own check-Step λ _.
      Step-if own (ltb limit_bytes_len len) (fail-Step limit_exceeded at _) (
        Step-bind own (raw-Step len) λ raw.
          Step-weaken own (copy-Step arena at raw)
            λ v us (no_us, copy) ws (same, size) fits zs no_zs ys (prefix, _) xs no_xs. (
              rw (no_xs, no_zs, prefix, no_us, same, append-nil, copy, size),
              rw (copy, size) (ground arith),
            ))
