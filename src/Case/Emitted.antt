-- ===== src/Case/Emitted.antt =====
-- `abi_case_encode`, libabi/src/encode.c: what the sections leave in the payload.
use arrow_abi_doctor.Base.{
  ℕ, ◌+◌, ◌≤◌, ◌≡◌, refl, sym, ap, ◌∙◌, arith, List, [], ◌∷◌, ◌++◌, append_assoc, append-nil, Bool,
  true, false, Option, none, some, ltb, lt→ltb, ltb-false, if◌then◌else◌, length, length-append,
  All,
}
use arrow_abi_doctor.Bytes.{store_u16, store_u32}
use arrow_abi_doctor.Buffer.{AbiBuf, buf_init, Writer}
use arrow_abi_doctor.Buffer.Writes.{Writes, Grants, u16-Writes, u32-Writes, put-Writes, then-Writes}
use arrow_abi_doctor.Model.{AbiSchemaNode, AbiArrayNode, AbiOp, AbiCase, limit_total_size}
use arrow_abi_doctor.Format.{
  provenance_bytes, allocations_bytes, schema_bytes, array_bytes, callseq_bytes, expected_bytes,
  section_bytes,
}
use arrow_abi_doctor.Encode.Writes.{
  IsSized, enc_provenance-Writes, enc_allocations-Writes, enc_schema_node-Writes,
  enc_array_node-Writes, enc_callseq-Writes, enc_expected-Writes,
}
use arrow_abi_doctor.Case.{
  schema_section, array_section, callseq_section, count_of, section_count_of, payload_bytes,
}
use arrow_abi_doctor.Case.Write.{
  Emit, emptied, put_section, enc_section, counted, wrote, emit, emit_schema, emit_array,
  emit_callseq, emit_all,
}

-- All has gone well so far: `bs` is the payload and `n` the number of its sections.
pub record Emitted (s : Emit) (bs : List ℕ) (n : ℕ) : Type 0 where
  pub good : s.good ≡ true
  pub live : s.payload.failed ≡ false
  pub content : s.payload.content ≡ bs
  pub count : s.section_count ≡ n

six_appended :
    (a b c d e f : List ℕ) → ((((a ++ b) ++ c) ++ d) ++ e) ++ f ≡ a ++ (b ++ (c ++ (d ++ (e ++ f))))
six_appended a b c d e f = simp append_assoc refl

module _ (realloc : ℕ → Bool) (grants : Grants realloc) where
  put_section-Writes :
      (tag : ℕ) (body : List ℕ)
      → Writes realloc (put_section realloc tag body) (section_bytes tag body)
  unfolding put_section
  put_section-Writes tag body = then-Writes realloc (u16-Writes realloc tag) (
      then-Writes realloc (u16-Writes realloc 1)
        (then-Writes realloc (u32-Writes realloc (length body)) (put-Writes realloc body)))

  length-section_bytes :
      (tag : ℕ) (body : List ℕ) → length (section_bytes tag body) ≡ 8 + length body
  unfolding store_u16 store_u32
  length-section_bytes tag body = omega arith

  counted-Emitted :
      (r : Bool × AbiBuf) (s : Emit) (bs : List ℕ) (n : ℕ)
      → r.0 ≡ true
      → r.1.failed ≡ false
      → r.1.content ≡ bs
      → s.good ≡ true
      → s.section_count ≡ n
      → Emitted (counted realloc r s) bs (n + 1)
  counted-Emitted (true, p) s bs n h live content good count = record {
    good = good;
    live = live;
    content = content;
    count = ap (λ k. k + 1) count;
  }
  counted-Emitted (false, p) s bs n h live content good count = cc

  wrote-Emitted :
      (tag : ℕ) (r : Bool × AbiBuf) (s : Emit) (bs : List ℕ) (n : ℕ)
      → r.0 ≡ true
      → Emitted (enc_section realloc tag (record s { body = r.1 })) bs n
      → Emitted (wrote realloc tag r s) bs n
  wrote-Emitted tag (true, b) s bs n h e = e
  wrote-Emitted tag (false, b) s bs n h e = cc

  enc_section-Emitted :
      (tag n : ℕ) (s : Emit) (bs body : List ℕ)
      → Emitted s bs n
      → s.body.failed ≡ false
      → s.body.content ≡ body
      → length bs + length (section_bytes tag body) ≤ limit_total_size
      → Emitted (enc_section realloc tag s) (bs ++ section_bytes tag body) (n + 1)
  unfolding enc_section
  enc_section-Emitted tag n s bs body e live content room =
      let small : ltb 0xFFFFFFFF (length s.body.content) ≡ false =
        ltb-false 0xFFFFFFFF (length s.body.content)
          (omega (arith, room, length-section_bytes tag body, ap length content)) in
      let w = put_section-Writes tag s.body.content in
      let success =
        w.succeeds s.payload e.live
          (omega (
            arith,
            room,
            length-section_bytes tag body,
            length-section_bytes tag s.body.content,
            ap length content,
            ap length e.content,
          ))
          grants in
      let (stored, kept) = w.appends s.payload success in
      let whole : (put_section realloc tag s.body.content s.payload).1.content
          ≡ bs ++ section_bytes tag body =
        stored
        ∙ (ap (λ x. x ++ section_bytes tag s.body.content) e.content
            ∙ ap (λ x. bs ++ section_bytes tag x) content) in
      simp (live, small)
        (counted-Emitted (put_section realloc tag s.body.content s.payload) s _ n success
          (kept e.live) whole e.good e.count)

  emit-Emitted :
      (tag n : ℕ) (w : Writer) (s : Emit) (bs body : List ℕ)
      → Writes realloc w body
      → Emitted s bs n
      → length bs + length (section_bytes tag body) ≤ limit_total_size
      → Emitted (emit realloc tag w s) (bs ++ section_bytes tag body) (n + 1)
  unfolding emit
  emit-Emitted tag n w s bs body t e room =
      let b = emptied s.body in
      let success = t.succeeds b refl (omega (arith, room, length-section_bytes tag body)) grants in
      let (content, live) = t.appends b success in
      simp e.good (
        wrote-Emitted tag (w b) s _ _ success (
          enc_section-Emitted tag n (record s { body = (w b).1 }) bs body
            (record { good = e.good; live = e.live; content = e.content; count = e.count })
            (live refl) content room))

  still : (n : ℕ) (s : Emit) (bs : List ℕ) → Emitted s bs n → Emitted s (bs ++ []) (n + 0)
  still n s bs e = record {
    good = e.good;
    live = e.live;
    content = e.content ∙ sym (append-nil bs);
    count = omega (arith, e.count);
  }

  emit_schema-Emitted :
      (o : Option AbiSchemaNode) (n : ℕ) (s : Emit) (bs : List ℕ)
      → Emitted s bs n
      → length bs + length (schema_section o) ≤ limit_total_size
      → Emitted (emit_schema realloc o s) (bs ++ schema_section o) (n + count_of o)
  emit_schema-Emitted none n s bs e room = still n s bs e
  emit_schema-Emitted (some x) n s bs e room =
      emit-Emitted 3 n _ s bs (schema_bytes x) (enc_schema_node-Writes realloc x) e room

  emit_array-Emitted :
      (o : Option AbiArrayNode) (n : ℕ) (s : Emit) (bs : List ℕ)
      → Emitted s bs n
      → length bs + length (array_section o) ≤ limit_total_size
      → Emitted (emit_array realloc o s) (bs ++ array_section o) (n + count_of o)
  emit_array-Emitted none n s bs e room = still n s bs e
  emit_array-Emitted (some x) n s bs e room =
      emit-Emitted 4 n _ s bs (array_bytes x) (enc_array_node-Writes realloc x) e room

  emit_callseq-Emitted :
      (ops : List AbiOp) (n : ℕ) (s : Emit) (bs : List ℕ)
      → Emitted s bs n
      → length bs + length (callseq_section ops) ≤ limit_total_size
      → Emitted
          (emit_callseq realloc ops s)
          (bs ++ callseq_section ops)
          (n + (if ltb 0 (length ops) then 1 else 0))
  emit_callseq-Emitted [] n s bs e room = still n s bs e
  emit_callseq-Emitted (op ∷ ops) n s bs e room = rw (lt→ltb 0 (length (op ∷ ops)) (omega arith)) (
      emit-Emitted 5 n _ s bs (callseq_bytes (op ∷ ops)) (enc_callseq-Writes realloc (op ∷ ops)) e
        room)

  abbrev nothing_yet : Emit
  nothing_yet = record { payload = buf_init; body = buf_init; section_count = 0; good = true }

  -- The whole payload.
  pub emit_all-Emitted :
      (c : AbiCase)
      → All IsSized c.allocations
      → length (payload_bytes c) ≤ limit_total_size
      → Emitted (emit_all realloc c) (payload_bytes c) (section_count_of c)
  unfolding emit_all payload_bytes buf_init
  emit_all-Emitted c sized room =
      let p₁ = section_bytes 1 (provenance_bytes c.provenance) in
      let p₂ = section_bytes 2 (allocations_bytes c.allocations) in
      let p₃ = schema_section c.schema in
      let p₄ = array_section c.array in
      let p₅ = callseq_section c.ops in
      let p₆ = section_bytes 6 (expected_bytes c.expected) in
      let total : length p₁ + (length p₂ + (length p₃ + (length p₄ + (length p₅ + length p₆))))
          ≤ limit_total_size =
        omega (
          arith,
          room,
          length-append p₁ (p₂ ++ (p₃ ++ (p₄ ++ (p₅ ++ p₆)))),
          length-append p₂ (p₃ ++ (p₄ ++ (p₅ ++ p₆))),
          length-append p₃ (p₄ ++ (p₅ ++ p₆)),
          length-append p₄ (p₅ ++ p₆),
          length-append p₅ p₆,
        ) in
      let b₂ = p₁ ++ p₂ in
      let b₃ = b₂ ++ p₃ in
      let b₄ = b₃ ++ p₄ in
      let b₅ = b₄ ++ p₅ in
      let l₂ = length-append p₁ p₂ in
      let l₃ = length-append b₂ p₃ in
      let l₄ = length-append b₃ p₄ in
      let l₅ = length-append b₄ p₅ in
      let start : Emitted nothing_yet [] 0 = record {
        good = refl;
        live = refl;
        content = refl;
        count = refl;
      } in
      let e₁ =
        emit-Emitted 1 0 _ nothing_yet [] _ (enc_provenance-Writes realloc c.provenance) start
          (omega (arith, total)) in
      let e₂ =
        emit-Emitted 2 1 _ _ p₁ _ (enc_allocations-Writes realloc c.allocations sized) e₁
          (omega (arith, total)) in
      let e₃ = emit_schema-Emitted c.schema 2 _ b₂ e₂ (omega (arith, total, l₂)) in
      let e₄ =
        emit_array-Emitted c.array (2 + count_of c.schema) _ b₃ e₃ (omega (arith, total, l₂, l₃)) in
      let e₅ = emit_callseq-Emitted c.ops _ _ b₄ e₄ (omega (arith, total, l₂, l₃, l₄)) in
      let e₆ =
        emit-Emitted 6 _ _ _ b₅ _ (enc_expected-Writes realloc c.expected) e₅
          (omega (arith, total, l₂, l₃, l₄, l₅)) in
      record {
        good = e₆.good;
        live = e₆.live;
        content = e₆.content ∙ six_appended p₁ p₂ p₃ p₄ p₅ p₆;
        count = omega (arith, e₆.count);
      }
