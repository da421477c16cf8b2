-- ===== src/Case/Sections.antt =====
-- The section loop of `abi_case_decode`, libabi/src/decode.c: what it accepts is the canonical sequence of
-- the sections.
use arrow_abi_doctor.Base.{
  ℕ, ◌+◌, ◌<◌, ◌≡◌, refl, sym, ap, ◌∙◌, arith, List, [], ◌++◌, append_assoc, append-nil, Bool, true,
  not, Option, none, some, length, take, drop, take-append-drop, leb, ◌==◌, is_some, All,
  All-append, All-split,
}
use arrow_abi_doctor.Bytes.{AreBytes}
use arrow_abi_doctor.Status.{bad_version, not_canonical, bad_enum, AbiError}
use arrow_abi_doctor.Cursor.{cur_fail, fail, need}
use arrow_abi_doctor.Cursor.Monad.{M}
use arrow_abi_doctor.Cursor.Sound.{Step, Step-pure, Step-bind, Step-if, Step-weaken}
use arrow_abi_doctor.Cursor.Loads.{own, need-Keeps, need_passes, u16-Step, u32-Step}
use arrow_abi_doctor.Cursor.Reads.{fail-Step, position-Step, check-Step}
use arrow_abi_doctor.Model.{limit_tree_depth}
use arrow_abi_doctor.Format.{
  provenance_bytes, allocations_bytes, schema_bytes, array_bytes, callseq_bytes, expected_bytes,
  section_bytes,
}
use arrow_abi_doctor.Encode.Writes.{IsSized}
use arrow_abi_doctor.Decode.{AbiDec}
use arrow_abi_doctor.Decode.SectionSteps.{
  cur_of, on_cur-Step, look-Step, dec_provenance-Step, dec_allocations-Step, dec_callseq-Step,
  dec_expected-Step,
}
use arrow_abi_doctor.Decode.SchemaSteps.{dec_schema_node-Step}
use arrow_abi_doctor.Decode.ArraySteps.{dec_array_node-Step}
use arrow_abi_doctor.Case.Read.{
  Section, narrow, widen, end_section, within, section_of, dec_body, dec_section,
}

-- A section's tag, its body, and what its reader guarantees.
abbrev pub tag_of : Section → ℕ
tag_of (Section.provenance p) = 1
tag_of (Section.allocations t) = 2
tag_of (Section.schema n) = 3
tag_of (Section.array n) = 4
tag_of (Section.callseq ops) = 5
tag_of (Section.expected e) = 6

abbrev pub body_bytes : Section → List ℕ
body_bytes (Section.provenance p) = provenance_bytes p
body_bytes (Section.allocations t) = allocations_bytes t
body_bytes (Section.schema n) = schema_bytes n
body_bytes (Section.array n) = array_bytes n
body_bytes (Section.callseq ops) = callseq_bytes ops
body_bytes (Section.expected e) = expected_bytes e

abbrev pub IsGood : Section → Type 0
IsGood (Section.allocations t) = All IsSized t
IsGood (Section.callseq ops) = 0 < length ops
IsGood _ = Unit {0}

end_section-rest :
    {A : Type 0} (sec_end : ℕ) (behind : List ℕ) (r : Option A × AbiDec)
    → (end_section sec_end behind r).1.cur.rest ≡ r.1.cur.rest ++ behind
unfolding fail cur_fail
end_section-rest sec_end behind (none, d) = refl
end_section-rest sec_end behind (some a, d) = ground arith

end_section-sticky :
    {A : Type 0} (sec_end : ℕ) (behind : List ℕ) (r : Option A × AbiDec) (e : AbiError)
    → r.1.cur.err ≡ some e
    → (end_section sec_end behind r).1.cur.err ≡ some e
end_section-sticky sec_end behind (none, d) e h = h
end_section-sticky sec_end behind (some a, d) e h =
    let set : is_some d.cur.err ≡ true = rw h refl in rw set h

pub end_section-some :
    {A : Type 0} (sec_end : ℕ) (behind : List ℕ) (r : Option A × AbiDec) (a : A)
    → (end_section sec_end behind r).0 ≡ some a
    → (r.0 ≡ some a)
      × (r.1.cur.err ≡ none)
      × (r.1.cur.pos ≡ sec_end)
      × ((end_section sec_end behind r).1 ≡ widen behind r.1)
unfolding fail
end_section-some sec_end behind (none, d) a h = cc
end_section-some sec_end behind (some b, d) a h = ground arith

-- A section takes exactly the bytes that its header announced.
within-Step :
    {A : Type 0} (size : ℕ) (m : M AbiDec A) (R : A → List ℕ → Type 0)
    → Step cur_of m R
    → Step cur_of (within size m) (λ a bs. R a bs × (length bs ≡ size))
unfolding within
within-Step size m R t = record {
  keeps = record {
    bytes = λ d h.
        let (front, behind) = cut d h in
        rw (end_section-rest (d.cur.pos + size) (drop size d.cur.rest) (m (narrow size d))) (
          All-append _ (m (narrow size d)).1.cur.rest _ (t.keeps.bytes (narrow size d) front)
            behind);
    sticky = λ d e h.
        end_section-sticky (d.cur.pos + size) (drop size d.cur.rest) (m (narrow size d)) e
          (t.keeps.sticky (narrow size d) e h);
  };
  sound = record {
    reads = λ d a ab h live.
        let (gave, ok_, there, after) =
          end_section-some (d.cur.pos + size) (drop size d.cur.rest) (m (narrow size d)) a h in
        let (bs, took, good) = t.sound.reads (narrow size d) a (cut d ab).0 gave ok_ in
        let len : length bs ≡ size = omega (arith, took.moved, there) in
        (
          bs,
          rw after (record {
            live = took.live;
            bytes =
                sym (take-append-drop size d.cur.rest)
                ∙ (ap (λ r. r ++ drop size d.cur.rest) took.bytes
                    ∙ append_assoc bs (m (narrow size d)).1.cur.rest (drop size d.cur.rest));
            moved = took.moved;
          }),
          (good, len),
        );
  };
}
  where
    cut :
        (d : AbiDec)
        → AreBytes d.cur.rest
        → AreBytes (take size d.cur.rest) × AreBytes (drop size d.cur.rest)
    cut d h =
        All-split _ (take size d.cur.rest) (drop size d.cur.rest)
          (rw (take-append-drop size d.cur.rest) h)

section_of-Step :
    {A : Type 0} (f : A → Section) (m : M AbiDec A) (R : A → List ℕ → Type 0)
    → Step cur_of m R
    → Step cur_of (section_of f m) (λ s bs. (a : A) × (s ≡ f a) × R a bs)
section_of-Step f m R t =
    Step-bind cur_of t λ a. Step-pure cur_of (f a) _ λ xs r. (a, refl, rw append-nil r)

-- The reader of a known tag reads the body of that section.
dec_body-Step :
    (arena : ℕ → ℕ → Bool) (tag sec_at : ℕ)
    → Step cur_of
        (dec_body arena tag sec_at)
        (λ s bs. (tag ≡ tag_of s) × (bs ≡ body_bytes s) × IsGood s)
unfolding dec_body
dec_body-Step arena tag sec_at =
    Step-if cur_of (tag == 1)
      (Step-weaken cur_of
        (section_of-Step Section.provenance _ _ (on_cur-Step (dec_provenance-Step arena)))
        λ s bs (p, same, e) at.
          let known : tag ≡ 1 = ground arith in rw (same, e) (known, refl, tt))
      (Step-if cur_of (tag == 2)
        (Step-weaken cur_of
          (section_of-Step Section.allocations _ _ (on_cur-Step (dec_allocations-Step arena)))
          λ s bs (p, same, (e, sized)) at _.
            let known : tag ≡ 2 = ground arith in rw (same, e) (known, refl, sized))
        (Step-if cur_of (tag == 3)
          (Step-bind cur_of (look-Step cur_of (λ d. (tt, record d { nodes = 0 })) (λ d. refl)) λ _.
            Step-weaken cur_of
              (section_of-Step Section.schema _ _
                (dec_schema_node-Step arena (limit_tree_depth + 1)))
              λ s bs (p, same, e) xs e₁ at _ _.
                let known : tag ≡ 3 = ground arith in rw (same, e, e₁) (known, refl, tt))
          (Step-if cur_of (tag == 4)
            (Step-bind cur_of (look-Step cur_of (λ d. (tt, record d { nodes = 0 })) (λ d. refl))
              λ _.
                Step-weaken cur_of
                  (section_of-Step Section.array _ _
                    (dec_array_node-Step arena (limit_tree_depth + 1)))
                  λ s bs (p, same, e) xs e₁ at _ _ _.
                    let known : tag ≡ 4 = ground arith in rw (same, e, e₁) (known, refl, tt))
            (Step-if cur_of (tag == 5)
              (Step-weaken cur_of
                (section_of-Step Section.callseq _ _ (on_cur-Step (dec_callseq-Step arena)))
                λ s bs (p, same, (e, some_op)) at _ _ _ _.
                  let known : tag ≡ 5 = ground arith in rw (same, e) (known, refl, some_op))
              (Step-if cur_of (tag == 6)
                (Step-weaken cur_of
                  (section_of-Step Section.expected _ _ (on_cur-Step (dec_expected-Step arena)))
                  λ s bs (p, same, (e, _, _)) at _ _ _ _ _.
                    let known : tag ≡ 6 = ground arith in rw (same, e) (known, refl, tt))
                (on_cur-Step (fail-Step bad_enum sec_at _)))))))

need-Step : (n : ℕ) → Step own (need n) (λ _ bs. bs ≡ [])
need-Step n = record {
  keeps = need-Keeps n;
  sound = record {
    reads = λ c v ab h live.
        let (before, _, still) = need_passes n c h in
        ([], rw still (record { live = before; bytes = refl; moved = omega arith }), refl);
  };
}

abbrev pub section_part : Section → List ℕ
section_part s = section_bytes (tag_of s) (body_bytes s)

pub dec_section-Step :
    (arena : ℕ → ℕ → Bool) (prev : ℕ)
    → Step cur_of
        (dec_section arena prev)
        (λ r bs. (bs ≡ section_part r.1) × (prev < r.0) × (r.0 ≡ tag_of r.1) × IsGood r.1)
unfolding dec_section
dec_section-Step arena prev = Step-bind cur_of (on_cur-Step position-Step) λ sec_at.
    Step-bind cur_of (on_cur-Step u16-Step) λ tag. Step-bind cur_of (on_cur-Step u16-Step) λ sver.
      Step-bind cur_of (on_cur-Step u32-Step) λ sec_size.
        Step-bind cur_of (on_cur-Step check-Step) λ _.
          Step-if cur_of (not (sver == 1)) (on_cur-Step (fail-Step bad_version (sec_at + 2) _)) (
            Step-if cur_of (leb tag prev) (on_cur-Step (fail-Step not_canonical sec_at _)) (
              Step-bind cur_of (on_cur-Step (need-Step sec_size)) λ _.
                Step-bind cur_of (within-Step sec_size _ _ (dec_body-Step arena tag sec_at)) λ s.
                  Step-pure cur_of (tag, s) _
                    λ _ ((t, e, good), len) _ e₆ later version _ e₅ _ (e₄, _) _ (e₃, _) _ (e₂, _) _
                        e₁.
                      let is1 : sver ≡ 1 = ground arith in
                      (
                        rw (e₁, e₂, e₃, e₄, e₅, e₆, append-nil, is1, t, ← e, len),
                        ground arith,
                        t,
                        good,
                      )))
