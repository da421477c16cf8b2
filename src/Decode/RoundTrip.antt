-- ===== src/Decode/RoundTrip.antt =====
-- What libabi/src/decode.c reads, libabi/src/encode.c writes back, byte for byte.
use arrow_abi_doctor.Base.{
  ℕ, ◌^◌, ◌<◌, ◌≤◌, ◌≡◌, refl, sym, ap, ◌∙◌, arith, List, ◌++◌, Bool, true, Option, none, some,
  length, length-append, All,
}
use arrow_abi_doctor.Bytes.{AreBytes}
use arrow_abi_doctor.Buffer.{buf_init, Writer}
use arrow_abi_doctor.Buffer.Writes.{Writes, Grants}
use arrow_abi_doctor.Cursor.{AbiCur}
use arrow_abi_doctor.Cursor.Monad.{M}
use arrow_abi_doctor.Cursor.Sound.{Step, Step-weaken}
use arrow_abi_doctor.Cursor.Loads.{own}
use arrow_abi_doctor.Fill.{fill_choose, fill_write, fill_read}
use arrow_abi_doctor.Fill.Payload.{payload, fill_write-Writes}
use arrow_abi_doctor.Fill.Canonical.{fill_read-Step}
use arrow_abi_doctor.Model.{AbiAllocation, bytes_at, AbiSchemaNode, AbiArrayNode, AbiOp}
use arrow_abi_doctor.Format.{allocations_bytes, schema_bytes, array_bytes, callseq_bytes}
use arrow_abi_doctor.Encode.{enc_allocations, enc_schema_node, enc_array_node, enc_callseq}
use arrow_abi_doctor.Encode.Writes.{
  IsSized, enc_allocations-Writes, enc_schema_node-Writes, enc_array_node-Writes,
  enc_callseq-Writes,
}
use arrow_abi_doctor.Decode.{AbiDec, dec_allocations, dec_callseq}
use arrow_abi_doctor.Decode.Schema.{dec_schema_node}
use arrow_abi_doctor.Decode.Array.{dec_array_node}
use arrow_abi_doctor.Decode.SectionSteps.{
  cur_of, dec_allocations-Step, dec_callseq-Step, bytes_at-out_bytes,
}
use arrow_abi_doctor.Decode.SchemaSteps.{dec_schema_node-Step}
use arrow_abi_doctor.Decode.ArraySteps.{dec_array_node-Step}

-- A writer that starts with an empty buffer, and what it leaves.
abbrev pub written : Writer → List ℕ
written w = (w buf_init).1.content

write_back :
    {S A : Type 0} (cur : S → AbiCur) (m : M S A) (f : A → List ℕ) (P : A → Type 0)
    → Step cur m (λ a bs. (bs ≡ f a) × P a)
    → (realloc : ℕ → Bool) (w : A → Writer) → ((a : A) → P a → Writes realloc (w a) (f a))
    → Grants realloc
    → (s : S) (a : A) → AreBytes (cur s).rest
    → length (cur s).rest ≤ 2 ^ 63
    → (m s).0 ≡ some a
    → (cur (m s).1).err ≡ none
    → ((w a buf_init).0 ≡ true) × (written (w a) ++ (cur (m s).1).rest ≡ (cur s).rest)
unfolding buf_init
write_back cur m f P t realloc w writes grants s a ab room h live =
    let (bs, took, (e, p)) = t.sound.reads s a ab h live in
    let short : length (f a) ≤ 2 ^ 63 =
      omega (arith, ap length took.bytes, length-append bs (cur (m s).1).rest, ap length e, room) in
    let success = (writes a p).succeeds buf_init refl (omega (arith, short)) grants in
    let (content, _) = (writes a p).appends buf_init success in
    (success, ap (λ x. x ++ (cur (m s).1).rest) (content ∙ sym e) ∙ sym took.bytes)

module _ (arena : ℕ → ℕ → Bool) (realloc : ℕ → Bool) (grants : Grants realloc) where
  -- A schema tree that was read from bytes without a failure is written back as the bytes that were
  -- taken, at whatever depth it stands. The memory is granted and the input no longer than 2 ^ 63.
  pub enc_schema_node-dec_schema_node :
      (left : ℕ) (d : AbiDec) (n : AbiSchemaNode)
      → AreBytes d.cur.rest
      → length d.cur.rest ≤ 2 ^ 63
      → (dec_schema_node arena left d).0 ≡ some n
      → (dec_schema_node arena left d).1.cur.err ≡ none
      → ((enc_schema_node realloc n buf_init).0 ≡ true)
        × (written (enc_schema_node realloc n) ++ (dec_schema_node arena left d).1.cur.rest
            ≡ d.cur.rest)
  enc_schema_node-dec_schema_node left =
      write_back cur_of (dec_schema_node arena left) schema_bytes (λ _. Unit {0})
        (Step-weaken cur_of (dec_schema_node-Step arena left) (λ _ _ e. (e, tt))) realloc
        (enc_schema_node realloc) (λ n _. enc_schema_node-Writes realloc n) grants

  -- An array tree that was read from bytes without a failure is written back as the bytes that were
  -- taken, at whatever depth it stands. The memory is granted and the input no longer than 2 ^ 63.
  pub enc_array_node-dec_array_node :
      (left : ℕ) (d : AbiDec) (n : AbiArrayNode)
      → AreBytes d.cur.rest
      → length d.cur.rest ≤ 2 ^ 63
      → (dec_array_node arena left d).0 ≡ some n
      → (dec_array_node arena left d).1.cur.err ≡ none
      → ((enc_array_node realloc n buf_init).0 ≡ true)
        × (written (enc_array_node realloc n) ++ (dec_array_node arena left d).1.cur.rest
            ≡ d.cur.rest)
  enc_array_node-dec_array_node left =
      write_back cur_of (dec_array_node arena left) array_bytes (λ _. Unit {0})
        (Step-weaken cur_of (dec_array_node-Step arena left) (λ _ _ e. (e, tt))) realloc
        (enc_array_node realloc) (λ n _. enc_array_node-Writes realloc n) grants

  -- An allocation table that was read from bytes without a failure is written back as the bytes that
  -- were taken: the reader takes no other fill than the one the writer chooses.
  -- The memory is granted and the input no longer than 2 ^ 63.
  pub enc_allocations-dec_allocations :
      (c : AbiCur) (table : List AbiAllocation)
      → AreBytes c.rest
      → length c.rest ≤ 2 ^ 63
      → (dec_allocations arena c).0 ≡ some table
      → (dec_allocations arena c).1.err ≡ none
      → ((enc_allocations realloc table buf_init).0 ≡ true)
        × (written (enc_allocations realloc table) ++ (dec_allocations arena c).1.rest ≡ c.rest)
  enc_allocations-dec_allocations =
      write_back own (dec_allocations arena) allocations_bytes (All IsSized)
        (dec_allocations-Step arena) realloc (enc_allocations realloc)
        (enc_allocations-Writes realloc) grants

  -- A call sequence that was read from bytes without a failure is written back as the bytes that
  -- were taken. The memory is granted and the input no longer than 2 ^ 63.
  pub enc_callseq-dec_callseq :
      (c : AbiCur) (ops : List AbiOp)
      → AreBytes c.rest
      → length c.rest ≤ 2 ^ 63
      → (dec_callseq arena c).0 ≡ some ops
      → (dec_callseq arena c).1.err ≡ none
      → ((enc_callseq realloc ops buf_init).0 ≡ true)
        × (written (enc_callseq realloc ops) ++ (dec_callseq arena c).1.rest ≡ c.rest)
  enc_callseq-dec_callseq =
      write_back own (dec_callseq arena) callseq_bytes (λ ops. 0 < length ops)
        (dec_callseq-Step arena) realloc (enc_callseq realloc)
        (λ ops _. enc_callseq-Writes realloc ops) grants

  -- A payload that was read from bytes without a failure, for an allocation of less than 2 ^ 32 bytes
  -- under any fill code, is written back as the bytes that were taken, the code is the chosen one, and
  -- as many bytes as asked for are given. The memory is granted and the input no longer than 2 ^ 63.
  pub fill_write-fill_read :
      (size fill : ℕ) (c : AbiCur) (out : Option (List ℕ))
      → size < 2 ^ 32
      → AreBytes c.rest
      → length c.rest ≤ 2 ^ 63
      → (fill_read arena size fill c).0 ≡ some out
      → (fill_read arena size fill c).1.err ≡ none
      → let chosen = fill_choose (bytes_at out) in
        let w = fill_write realloc (bytes_at out) chosen.fill chosen.period chosen.run_count in
        (chosen.fill ≡ fill)
        × (length (bytes_at out) ≡ size)
        × (written w ++ (fill_read arena size fill c).1.rest ≡ c.rest)
  unfolding buf_init
  fill_write-fill_read size fill c out small ab room h live =
      let (bs, took, (dst, e, len, code, stored)) =
        (fill_read-Step arena size fill).sound.reads c out ab h live in
      let memory : bytes_at out ≡ dst = ap bytes_at e ∙ bytes_at-out_bytes arena size dst len in
      let rest = (fill_read arena size fill c).1.rest in
      let full : length (bytes_at out) ≡ size = ap length memory ∙ len in
      let wr = fill_write-Writes realloc (bytes_at out) (omega (arith, full, small)) in
      let short : length (payload (bytes_at out)) ≤ 2 ^ 63 = omega (
        arith,
        ap length took.bytes,
        length-append bs rest,
        ap length stored,
        room,
        ap (λ x. length (payload x)) memory,
      ) in
      let success = wr.succeeds buf_init refl (omega (arith, short)) grants in
      let (content, _) = wr.appends buf_init success in
      (
        ap (λ x. (fill_choose x).fill) memory ∙ code,
        full,
        ap (λ x. x ++ rest) (content ∙ (ap payload memory ∙ sym stored)) ∙ sym took.bytes,
      )
