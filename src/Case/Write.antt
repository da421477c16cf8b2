-- ===== src/Case/Write.antt =====
-- `abi_case_encode` and the identities of a case, libabi/src/encode.c. `realloc` and `malloc` say whether
-- the C library grants a block of the size asked for.
use arrow_abi_doctor.Base.{
  ℕ, ◌+◌, ◌/◌, ◌%◌, List, [], ◌∷◌, ◌++◌, Bool, true, false, not, ◌&&◌, ◌||◌, Option, none, some,
  length, take, drop, ltb, ◌==◌, if◌then◌else◌,
}
use arrow_abi_doctor.Bytes.{store_u16, store_u32}
use arrow_abi_doctor.Status.{AbiStatus, ok, no_memory, limit_exceeded, truncated, bad_magic}
use arrow_abi_doctor.Buffer.{AbiBuf, buf_init, Writer, buf_put, buf_u16, buf_u32, ◌then_write◌}
use arrow_abi_doctor.Sha256.{abi_sha256}
use arrow_abi_doctor.Model.{AbiSchemaNode, AbiArrayNode, AbiOp, AbiCase, limit_total_size}
use arrow_abi_doctor.Encode.{
  enc_provenance, enc_allocations, enc_schema_node, enc_array_node, enc_callseq, enc_expected,
}
use arrow_abi_doctor.Validate.{abi_case_validate}
use arrow_abi_doctor.Case.{header_size, id_bytes, magic, bom}

-- The local variables of `abi_case_encode`; `ok` is `good`.
pub record Emit : Type 0 where
  pub payload : AbiBuf
  pub body : AbiBuf
  pub section_count : ℕ
  pub good : Bool

-- `body.size = 0; body.failed = 0;`: the block is kept.
abbrev pub emptied : AbiBuf → AbiBuf
emptied b = record b { content = []; failed = false }

pub data Encoded : Type 0 where
  encoded : List ℕ → Encoded
  not_encoded : AbiStatus → Encoded

module _ (realloc : ℕ → Bool) where
  -- The writes of `enc_section` into the payload.
  unfoldable pub put_section : ℕ → List ℕ → Writer
  put_section tag body =
      buf_u16 realloc tag
      then_write buf_u16 realloc 1
      then_write buf_u32 realloc (length body)
      then_write buf_put realloc body

  abbrev pub counted : Bool × AbiBuf → Emit → Emit
  counted (true, payload) s = record s { payload = payload; section_count = s.section_count + 1 }
  counted (false, payload) s = record s { payload = payload; good = false }

  unfoldable pub enc_section : ℕ → Emit → Emit
  unfolding put_section
  enc_section tag s =
      if s.body.failed || ltb 0xFFFFFFFF (length s.body.content)
      then record s { good = false }
      else counted (put_section tag s.body.content s.payload) s

  abbrev pub wrote : ℕ → Bool × AbiBuf → Emit → Emit
  wrote tag (true, body) s = enc_section tag (record s { body = body })
  wrote tag (false, body) s = record s { body = body; good = false }

  -- ABI_EMIT
  unfoldable pub emit : ℕ → Writer → Emit → Emit
  unfolding enc_section
  emit tag w s =
      let body = emptied s.body in if s.good then wrote tag (w body) s else record s { body = body }

  -- `abi_case_validate` has refused a case without a schema.
  abbrev pub emit_schema : Option AbiSchemaNode → Emit → Emit
  emit_schema none s = s
  emit_schema (some n) s = emit 3 (enc_schema_node realloc n) s

  abbrev pub emit_array : Option AbiArrayNode → Emit → Emit
  emit_array none s = s
  emit_array (some n) s = emit 4 (enc_array_node realloc n) s

  abbrev pub emit_callseq : List AbiOp → Emit → Emit
  emit_callseq [] s = s
  emit_callseq (op ∷ ops) s = emit 5 (enc_callseq realloc (op ∷ ops)) s

  unfoldable pub emit_all : AbiCase → Emit
  unfolding emit
  emit_all c =
      let s₀ : Emit = record {
        payload = buf_init;
        body = buf_init;
        section_count = 0;
        good = true;
      } in
      let s₁ = emit 1 (enc_provenance realloc c.provenance) s₀ in
      let s₂ = emit 2 (enc_allocations realloc c.allocations) s₁ in
      let s₃ = emit_schema c.schema s₂ in
      let s₄ = emit_array c.array s₃ in
      let s₅ = emit_callseq c.ops s₄ in emit 6 (enc_expected realloc c.expected) s₅

  -- The stores into `out`.
  unfoldable pub put_header : AbiCase → Emit → ℕ → List ℕ
  put_header c s total =
      magic
      ++ (store_u16 1
          ++ (store_u16 header_size
              ++ (store_u32 bom
                  ++ (c.cls % 256
                      ∷ 0
                      ∷ (store_u16 0 ++ (store_u32 s.section_count ++ store_u32 total))))))

  -- The rest of `abi_case_encode`, behind the sections.
  unfoldable pub finish_encode : (ℕ → Bool) → AbiCase → Emit → Encoded
  unfolding put_header
  finish_encode malloc c s =
      let payload = s.payload.content in
      let total = header_size + length payload in
      if not s.good || s.payload.failed
      then not_encoded no_memory
      else if ltb limit_total_size total
      then not_encoded limit_exceeded
      else if not (malloc total)
      then not_encoded no_memory
      else encoded (put_header c s total ++ (take id_bytes (abi_sha256 payload) ++ payload))

  -- `if (st != ABI_OK) return st;`
  abbrev pub unless_invalid : AbiStatus → Encoded → Encoded
  unless_invalid ok r = r
  unless_invalid st r = not_encoded st

  unfoldable pub abi_case_encode : (ℕ → Bool) → AbiCase → Encoded
  unfolding emit_all finish_encode
  abi_case_encode malloc c =
      unless_invalid (abi_case_validate c) (finish_encode malloc c (emit_all c))

-- The characters of `digits`.
abbrev digit : ℕ → ℕ
digit n = if ltb n 10 then 48 + n else 87 + n

-- The text before the NUL.
unfoldable pub abi_hex : List ℕ → List ℕ
abi_hex [] = []
abi_hex (b ∷ bs) = digit (b / 16 % 16) ∷ digit (b % 16) ∷ abi_hex bs

pub data CaseId : Type 0 where
  case_id : List ℕ → CaseId
  no_id : AbiStatus → CaseId

unfoldable pub abi_case_id : (ℕ → Bool) → (ℕ → Bool) → AbiCase → CaseId
unfolding abi_hex
abi_case_id realloc malloc c = elim (abi_case_encode realloc malloc c) [
  | encoded bs ↦ case_id (abi_hex (take id_bytes (drop 24 bs)))
  | not_encoded st ↦ no_id st
]

abbrev pub has_magic : List ℕ → Bool
has_magic (m0 ∷ m1 ∷ m2 ∷ m3 ∷ rest) =
    (m0 == 0x41) && ((m1 == 0x42) && ((m2 == 0x49) && (m3 == 0x43)))
has_magic _ = false

unfoldable pub abi_case_id_of_bytes : List ℕ → CaseId
unfolding abi_hex
abi_case_id_of_bytes bs =
    if ltb (length bs) header_size
    then no_id truncated
    else if not (has_magic bs)
    then no_id bad_magic
    else case_id (abi_hex (take id_bytes (drop 24 bs)))
