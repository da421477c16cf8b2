-- ===== src/Case/Read.antt =====
-- `abi_case_decode`, libabi/src/decode.c. `arena at n` says whether the case's arena gives `n` bytes to
-- the request made at position `at`, and `fresh` whether abi_case_new gets its memory.
use arrow_abi_doctor.Base.{
  ℕ, zero, suc, ◌+◌, List, [], ◌++◌, Bool, not, Option, none, some, length, take, drop, ltb, leb,
  ◌==◌, if◌then◌else◌, is_some,
}
use arrow_abi_doctor.Status.{
  AbiStatus, AbiError, ok, no_memory, truncated, bad_magic, bad_version, bad_byte_order,
  not_canonical, limit_exceeded, bad_enum, trailing_bytes, digest_mismatch, missing_section,
}
use arrow_abi_doctor.Sha256.{abi_sha256}
use arrow_abi_doctor.Cursor.{
  AbiCur, cur_u8, cur_u16, cur_u32, cur_zeros, cur_fail, need, fail, position, check,
}
use arrow_abi_doctor.Cursor.Monad.{M, ◌>>=◌, ◌>>◌, value, pure}
use arrow_abi_doctor.Fill.{mem_eq}
use arrow_abi_doctor.Model.{
  AbiAllocation, AbiSchemaNode, AbiArrayNode, AbiOp, AbiProvenance, AbiExpected, AbiCase, class_c,
  limit_total_size, limit_tree_depth,
}
use arrow_abi_doctor.Decode.{
  AbiDec, on_cur, dec_provenance, dec_allocations, dec_callseq, dec_expected,
}
use arrow_abi_doctor.Decode.Schema.{dec_schema_node}
use arrow_abi_doctor.Decode.Array.{dec_array_node}
use arrow_abi_doctor.Validate.{abi_case_validate}
use arrow_abi_doctor.Case.{header_size, id_bytes, bom}
use arrow_abi_doctor.Case.Write.{has_magic}

-- What a section holds.
pub data Section : Type 0 where
  provenance : AbiProvenance → Section
  allocations : List AbiAllocation → Section
  schema : AbiSchemaNode → Section
  array : AbiArrayNode → Section
  callseq : List AbiOp → Section
  expected : AbiExpected → Section

-- What has been read into the case; a required part that is missing is the source's `have_...` flag
-- at 0.
pub record Parts : Type 0 where
  pub provenance : Option AbiProvenance
  pub allocations : Option (List AbiAllocation)
  pub schema : Option AbiSchemaNode
  pub array : Option AbiArrayNode
  pub ops : List AbiOp
  pub expected : Option AbiExpected

abbrev pub no_parts : Parts
no_parts = record {
  provenance = none;
  allocations = none;
  schema = none;
  array = none;
  ops = [];
  expected = none;
}

unfoldable pub put_part : Section → Parts → Parts
put_part (Section.provenance p) ps = record ps { provenance = some p }
put_part (Section.allocations t) ps = record ps { allocations = some t }
put_part (Section.schema n) ps = record ps { schema = some n }
put_part (Section.array n) ps = record ps { array = some n }
put_part (Section.callseq ops) ps = record ps { ops = ops }
put_part (Section.expected e) ps = record ps { expected = some e }

-- `dec_header` from the version to the payload id, which stands at position 24. `bs` is the whole file.
unfoldable pub dec_header : List ℕ → M AbiCur (ℕ × ℕ × ℕ)
dec_header bs = do
  ver ← value cur_u16
  if not (ver == 1) then fail bad_version 4 else do
    size ← value cur_u16
    if not (size == header_size) then fail bad_version 6 else do
      order ← value cur_u32
      if not (order == bom) then fail bad_byte_order 8 else do
        cls ← value cur_u8
        if ltb class_c cls then fail bad_enum 12 else do
          cur_zeros 3
          section_count ← value cur_u32
          total ← value cur_u32
          check
          if ltb limit_total_size total
              then fail limit_exceeded 20
              else if ltb total header_size
              then fail truncated 20
              else if ltb (length bs) total
              then fail truncated 20
              else if ltb total (length bs)
              then fail trailing_bytes total
              else if not (mem_eq (take id_bytes (abi_sha256 (drop header_size bs))) (drop 24 bs))
              then fail digest_mismatch 24
              else pure (cls, section_count, total)

abbrev pub narrow : ℕ → AbiDec → AbiDec
narrow size d = record d { cur = record d.cur { rest = take size d.cur.rest } }

-- `d.cur.size = saved_size`
abbrev pub widen : List ℕ → AbiDec → AbiDec
widen behind d = record d { cur = record d.cur { rest = d.cur.rest ++ behind } }

-- The end of a section: `if (!ok || d.cur.failed)` and `if (d.cur.pos != sec_end)`.
abbrev pub end_section : {A : Type 0} → ℕ → List ℕ → Option A × AbiDec → Option A × AbiDec
end_section sec_end behind (none, d) = (none, widen behind d)
end_section sec_end behind (some a, d) =
    if is_some d.cur.err
    then (none, widen behind d)
    else if not (d.cur.pos == sec_end)
    then on_cur (fail not_canonical d.cur.pos) (widen behind d)
    else (some a, widen behind d)

-- A section cannot read past its own payload, and must read all of it.
unfoldable pub within : {A : Type 0} → ℕ → M AbiDec A → M AbiDec A
within size m d = end_section (d.cur.pos + size) (drop size d.cur.rest) (m (narrow size d))

abbrev pub reset_nodes : M AbiDec (Unit {0})
reset_nodes = value (λ d. (tt, record d { nodes = 0 }))

abbrev pub section_of : {A : Type 0} → (A → Section) → M AbiDec A → M AbiDec Section
section_of f m = m >>= λ a. pure (f a)

module _ (arena : ℕ → ℕ → Bool) where
  -- The `switch` on the tag.
  unfoldable pub dec_body : ℕ → ℕ → M AbiDec Section
  dec_body tag sec_at =
      if tag == 1
      then section_of Section.provenance (on_cur (dec_provenance arena))
      else if tag == 2
      then section_of Section.allocations (on_cur (dec_allocations arena))
      else if tag == 3
      then reset_nodes >> section_of Section.schema (dec_schema_node arena (limit_tree_depth + 1))
      else if tag == 4
      then reset_nodes >> section_of Section.array (dec_array_node arena (limit_tree_depth + 1))
      else if tag == 5
      then section_of Section.callseq (on_cur (dec_callseq arena))
      else if tag == 6
      then section_of Section.expected (on_cur (dec_expected arena))
      else on_cur (fail bad_enum sec_at)

  -- The body of the loop over the sections.
  unfoldable pub dec_section : ℕ → M AbiDec (ℕ × Section)
  unfolding within dec_body
  dec_section prev_tag = do
    sec_at ← on_cur (value position)
    tag ← on_cur (value cur_u16)
    sver ← on_cur (value cur_u16)
    sec_size ← on_cur (value cur_u32)
    on_cur check
    if not (sver == 1)
        then on_cur (fail bad_version (sec_at + 2))
        else if leb tag prev_tag
        then on_cur (fail not_canonical sec_at)
        else do on_cur (need sec_size); s ← within sec_size (dec_body tag sec_at); pure (tag, s)

  unfoldable pub dec_sections : ℕ → ℕ → Parts → M AbiDec Parts
  unfolding dec_section put_part
  dec_sections zero prev_tag ps = pure ps
  dec_sections (suc n) prev_tag ps =
      dec_section prev_tag >>= λ r. dec_sections n r.0 (put_part r.1 ps)

pub data Decoded : Type 0 where
  decoded : AbiCase → Decoded
  not_decoded : AbiError → Decoded

abbrev at_zero : AbiStatus → Decoded
at_zero st = not_decoded (record { status = st; offset = 0 })

-- `fail:` returns the cursor's error. A failing reader has set it.
abbrev pub cursor_error : Option AbiError → Decoded
cursor_error none = at_zero ok
cursor_error (some e) = not_decoded e

abbrev pub valid : AbiCase → AbiStatus → Decoded
valid c ok = decoded c
valid c st = at_zero st

-- No required section is missing, and the case is valid.
unfoldable pub complete :
    ℕ
    → Parts
    → AbiCur
    → Option AbiProvenance
    → Option (List AbiAllocation)
    → Option AbiSchemaNode
    → Option AbiExpected
    → Decoded
complete cls ps cur (some p) (some t) (some s) (some e) =
    let c : AbiCase = record {
      cls = cls;
      provenance = p;
      allocations = t;
      schema = some s;
      array = ps.array;
      ops = ps.ops;
      expected = e;
    } in
    valid c (abi_case_validate c)
complete cls ps cur _ _ _ _ = cursor_error (cur_fail missing_section 0 cur).err

-- Behind the sections.
unfoldable pub finish_case : ℕ → ℕ → Parts → AbiDec → Decoded
unfolding complete
finish_case total cls ps d =
    if not (d.cur.pos == total)
    then cursor_error (cur_fail trailing_bytes d.cur.pos d.cur).err
    else complete cls ps d.cur ps.provenance ps.allocations ps.schema ps.expected

abbrev pub finished : ℕ → ℕ → Option Parts × AbiDec → Decoded
finished total cls (none, d) = cursor_error d.cur.err
finished total cls (some ps, d) = finish_case total cls ps d

unfoldable pub run_sections : (ℕ → ℕ → Bool) → ℕ → ℕ → ℕ → AbiDec → Decoded
unfolding dec_sections finish_case
run_sections arena total cls section_count d =
    if ltb 6 section_count
    then cursor_error (cur_fail not_canonical 16 d.cur).err
    else finished total cls (dec_sections arena section_count 0 no_parts d)

-- `cur->pos = ABICASE_HEADER_SIZE`
abbrev pub at_payload : List ℕ → AbiCur → AbiDec
at_payload bs cur = record {
  cur = record cur { pos = header_size; rest = drop header_size bs };
  nodes = 0;
  buffers = 0;
}

unfoldable pub with_header : (ℕ → ℕ → Bool) → Bool → List ℕ → Option (ℕ × ℕ × ℕ) × AbiCur → Decoded
unfolding run_sections
with_header arena fresh bs (none, cur) = cursor_error cur.err
with_header arena fresh bs (some (cls, section_count, total), cur) =
    if not fresh
    then cursor_error (cur_fail no_memory 0 cur).err
    else run_sections arena total cls section_count (at_payload bs cur)

-- The cursor behind the magic.
abbrev pub at_version : List ℕ → AbiCur
at_version bs = record { pos = 4; rest = drop 4 bs; err = none }

unfoldable pub abi_case_decode : (ℕ → ℕ → Bool) → Bool → List ℕ → Decoded
unfolding dec_header with_header
abi_case_decode arena fresh bs =
    if ltb (length bs) header_size
    then not_decoded (record { status = truncated; offset = 0 })
    else if not (has_magic bs)
    then not_decoded (record { status = bad_magic; offset = 0 })
    else with_header arena fresh bs (dec_header bs (at_version bs))
