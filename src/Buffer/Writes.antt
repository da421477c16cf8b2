-- ===== src/Buffer/Writes.antt =====
-- What a writer leaves in the buffer, and when it succeeds: rules for the writers and their sequence.
use arrow_abi_doctor.Base.{
  ℕ, ◌+◌, ◌-◌, ◌^◌, ◌≤◌, ◌<◌, ◌≡◌, refl, sym, ◌∙◌, arith, if◌then◌else◌, ltb, leb, ◌==◌, ℤ, Bool,
  true, false, Bool-cases, inl, inr, List, [], ◌∷◌, ◌++◌, length, length-append, append_assoc,
  append-nil, replicate, length-replicate,
}
use arrow_abi_doctor.Bytes.{store_u16, store_u32, store_u64, i64_to_u64}
use arrow_abi_doctor.Bytes.LittleEndian.{length-store_u16, length-store_u32, length-store_u64}
use arrow_abi_doctor.Buffer.{
  AbiBuf, size_max, grow_loop, take_block, buf_reserve, Writer, buf_put, buf_u8, buf_u16, buf_u32,
  buf_u64, buf_i64, buf_zeros, buf_bytes, copy_in, run_second, ◌then_write◌, done,
}
use arrow_abi_doctor.Buffer.Doubling.{grow_loop_meets}

-- An allocator that never refuses.
abbrev pub Grants : (ℕ → Bool) → Type 0
Grants realloc = (n : ℕ) → realloc n ≡ true

module _ (realloc : ℕ → Bool) where
  -- On success `bs` stands behind what was there; and a sound buffer with room in the address space
  -- makes it succeed.
  pub record Writes (w : Writer) (bs : List ℕ) : Type 0 where
    pub appends :
        (b : AbiBuf)
        → (w b).0 ≡ true
        → ((w b).1.content ≡ b.content ++ bs) × (b.failed ≡ false → (w b).1.failed ≡ false)
    pub succeeds :
        (b : AbiBuf)
        → b.failed ≡ false
        → length b.content + length bs ≤ 2 ^ 63
        → Grants realloc
        → (w b).0 ≡ true

  reserve_keeps :
      (n : ℕ) (b : AbiBuf)
      → (buf_reserve realloc n b).0 ≡ true
      → ((buf_reserve realloc n b).1.content ≡ b.content)
        × ((buf_reserve realloc n b).1.failed ≡ false)
  unfolding buf_reserve
  reserve_keeps n b h = ground arith

  -- The doubling loop meets the need, so the allocator is asked.
  take_block_succeeds :
      (room need : ℕ) (b : AbiBuf)
      → 0 < room
      → need ≤ 2 ^ 63
      → Grants realloc
      → (take_block realloc (grow_loop 65 room need) b).0 ≡ true
  unfolding take_block
  take_block_succeeds room need b pos small grants =
      let (n, e, _, _) = grow_loop_meets 64 room need (grind arith) small in rw (e, grants n)

  reserve_succeeds :
      (n : ℕ) (b : AbiBuf)
      → b.failed ≡ false
      → length b.content + n ≤ 2 ^ 63
      → Grants realloc
      → (buf_reserve realloc n b).0 ≡ true
  unfolding buf_reserve
  reserve_succeeds n b live room grants =
      let need = length b.content + n in
      let fits : ltb (size_max - length b.content) n ≡ false = ground arith in
      elim (Bool-cases (leb need b.capacity)) [
        | inl enough ↦ simp (live, fits, enough)
        | inr short ↦ elim (Bool-cases (b.capacity == 0)) [
          | inl fresh ↦
              simp (live, fits, short, fresh)
                (take_block_succeeds 256 need b (omega arith) room grants)
          | inr used ↦
              simp (live, fits, short, used)
                (take_block_succeeds b.capacity need b (ground arith) room grants)
        ]
      ]

  -- Copying behind a reserve of the right size.
  copy-Writes :
      (bs : List ℕ) (n : ℕ) → length bs ≡ n → Writes (λ b. copy_in bs (buf_reserve realloc n b)) bs
  copy-Writes bs n e = record {
    appends = λ b h. of_reserve b (buf_reserve realloc n b) (reserve_keeps n b) h;
    succeeds = λ b live room grants.
        granted (buf_reserve realloc n b) (reserve_succeeds n b live (rw (← e) room) grants);
  }
    where
      of_reserve :
          (b : AbiBuf) (r : Bool × AbiBuf)
          → (r.0 ≡ true → (r.1.content ≡ b.content) × (r.1.failed ≡ false))
          → (copy_in bs r).0 ≡ true
          → ((copy_in bs r).1.content ≡ b.content ++ bs)
            × (b.failed ≡ false → (copy_in bs r).1.failed ≡ false)
      of_reserve b (true, b') k h = let (same, live) = k refl in (rw same, λ _. live)
      of_reserve b (false, b') k h = cc

      granted : (r : Bool × AbiBuf) → r.0 ≡ true → (copy_in bs r).0 ≡ true
      granted (true, b') h = refl
      granted (false, b') h = h

  pub put-Writes : (bs : List ℕ) → Writes (buf_put realloc bs) bs
  unfolding buf_put
  put-Writes bs = copy-Writes bs (length bs) refl

  pub u8-Writes : (v : ℕ) → Writes (buf_u8 realloc v) (v ∷ [])
  unfolding buf_u8
  u8-Writes v = copy-Writes (v ∷ []) 1 refl

  pub u16-Writes : (v : ℕ) → Writes (buf_u16 realloc v) (store_u16 v)
  unfolding buf_u16
  u16-Writes v = copy-Writes (store_u16 v) 2 (length-store_u16 v)

  pub u32-Writes : (v : ℕ) → Writes (buf_u32 realloc v) (store_u32 v)
  unfolding buf_u32
  u32-Writes v = copy-Writes (store_u32 v) 4 (length-store_u32 v)

  pub u64-Writes : (v : ℕ) → Writes (buf_u64 realloc v) (store_u64 v)
  unfolding buf_u64
  u64-Writes v = copy-Writes (store_u64 v) 8 (length-store_u64 v)

  pub i64-Writes : (v : ℤ) → Writes (buf_i64 realloc v) (store_u64 (i64_to_u64 v))
  unfolding buf_i64
  i64-Writes v = u64-Writes (i64_to_u64 v)

  pub zeros-Writes : (n : ℕ) → Writes (buf_zeros realloc n) (replicate n 0)
  unfolding buf_zeros
  zeros-Writes n = copy-Writes (replicate n 0) n (length-replicate n 0)

  pub done-Writes : Writes done []
  done-Writes = record {
    appends = λ b h. (sym (append-nil b.content), λ live. live);
    succeeds = λ b live room grants. refl;
  }

  pub then-Writes :
      {v w : Writer} {xs ys : List ℕ}
      → Writes v xs
      → Writes w ys
      → Writes (v then_write w) (xs ++ ys)
  then-Writes {v} {w} {xs} {ys} p q = record {
    appends = λ b h. both b (v b) (p.appends b) h;
    succeeds = λ b live room grants.
        let fits : length b.content + length xs + length ys ≤ 2 ^ 63 =
          omega (arith, length-append xs ys) in
        let first : (v b).0 ≡ true = p.succeeds b live (omega arith) grants in
        let (there, live') = p.appends b first in
        let measured : length (v b).1.content ≡ length b.content + length xs =
          rw there (length-append b.content xs) in
        second (v b) first (q.succeeds (v b).1 (live' live) (omega arith) grants);
  }
    where
      both :
          (b : AbiBuf) (r : Bool × AbiBuf)
          → (r.0 ≡ true → (r.1.content ≡ b.content ++ xs) × (b.failed ≡ false → r.1.failed ≡ false))
          → (run_second r w).0 ≡ true
          → ((run_second r w).1.content ≡ b.content ++ (xs ++ ys))
            × (b.failed ≡ false → (run_second r w).1.failed ≡ false)
      both b (true, b') k h =
          let (there, live') = k refl in
          let (behind, live'') = q.appends b' h in
          (behind ∙ rw there (append_assoc b.content xs ys), λ live. live'' (live' live))
      both b (false, b') k h = cc

      second : (r : Bool × AbiBuf) → r.0 ≡ true → (w r.1).0 ≡ true → (run_second r w).0 ≡ true
      second (true, b') e h = h
      second (false, b') e h = e

  pub if-Writes :
      (c : Bool) {v w : Writer} {xs ys : List ℕ}
      → Writes v xs
      → Writes w ys
      → Writes (if c then v else w) (if c then xs else ys)
  if-Writes true p q = p
  if-Writes false p q = q

  pub bytes-Writes : (s : List ℕ) → Writes (buf_bytes realloc s) (store_u32 (length s) ++ s)
  unfolding buf_bytes
  bytes-Writes s = then-Writes (u32-Writes (length s)) (put-Writes s)
