-- ===== src/Case/Parts.antt =====
-- The parts that the section loop of libabi/src/decode.c has read so far, and their bytes.
use arrow_abi_doctor.Base.{
  ℕ, zero, suc, ◌+◌, ◌<◌, ◌≡◌, refl, ◌∙◌, arith, List, [], ◌∷◌, ◌++◌, append_assoc, append-nil,
  Option, none, some, length, All, Bool, true, ltb, lt→ltb, if◌then◌else◌,
}
use arrow_abi_doctor.Cursor.Sound.{Step, Step-pure, Step-bind, Step-weaken}
use arrow_abi_doctor.Model.{AbiAllocation, AbiProvenance, AbiExpected}
use arrow_abi_doctor.Format.{provenance_bytes, allocations_bytes, expected_bytes, section_bytes}
use arrow_abi_doctor.Encode.Writes.{IsSized}
use arrow_abi_doctor.Decode.SectionSteps.{cur_of}
use arrow_abi_doctor.Case.{schema_section, array_section, callseq_section, count_of}
use arrow_abi_doctor.Case.Read.{Section, Parts, no_parts, put_part, dec_sections}
use arrow_abi_doctor.Case.Sections.{tag_of, IsGood, section_part, dec_section-Step}

abbrev pub provenance_section : Option AbiProvenance → List ℕ
provenance_section none = []
provenance_section (some p) = section_bytes 1 (provenance_bytes p)

abbrev pub allocations_section : Option (List AbiAllocation) → List ℕ
allocations_section none = []
allocations_section (some t) = section_bytes 2 (allocations_bytes t)

abbrev pub expected_section : Option AbiExpected → List ℕ
expected_section none = []
expected_section (some e) = section_bytes 6 (expected_bytes e)

unfoldable pub parts_bytes : Parts → List ℕ
parts_bytes ps =
    provenance_section ps.provenance
    ++ (allocations_section ps.allocations
        ++ (schema_section ps.schema
            ++ (array_section ps.array
                ++ (callseq_section ps.ops ++ expected_section ps.expected))))

-- Nothing has been read of the sections above `prev`.
pub record Fresh (prev : ℕ) (ps : Parts) : Type 0 where
  at1 : prev < 1 → ps.provenance ≡ none
  at2 : prev < 2 → ps.allocations ≡ none
  at3 : prev < 3 → ps.schema ≡ none
  at4 : prev < 4 → ps.array ≡ none
  at5 : prev < 5 → ps.ops ≡ []
  at6 : prev < 6 → ps.expected ≡ none

-- The memory of every allocation read is as large as it says.
unfoldable pub Sized : Option (List AbiAllocation) → Type 0
Sized none = Unit {0}
Sized (some t) = All IsSized t

put_part-bytes :
    (s : Section) (prev : ℕ) (ps : Parts)
    → Fresh prev ps
    → prev < tag_of s
    → IsGood s
    → parts_bytes (put_part s ps) ≡ parts_bytes ps ++ section_part s
unfolding parts_bytes put_part
put_part-bytes (Section.provenance p) prev ps f less good = simp (
  f.at1 less,
  f.at2 (omega (arith, less)),
  f.at3 (omega (arith, less)),
  f.at4 (omega (arith, less)),
  f.at5 (omega (arith, less)),
  f.at6 (omega (arith, less)),
  append-nil,
  append_assoc,
)
put_part-bytes (Section.allocations t) prev ps f less good = simp (
  f.at2 less,
  f.at3 (omega (arith, less)),
  f.at4 (omega (arith, less)),
  f.at5 (omega (arith, less)),
  f.at6 (omega (arith, less)),
  append-nil,
  append_assoc,
)
put_part-bytes (Section.schema n) prev ps f less good = simp (
  f.at3 less,
  f.at4 (omega (arith, less)),
  f.at5 (omega (arith, less)),
  f.at6 (omega (arith, less)),
  append-nil,
  append_assoc,
)
put_part-bytes (Section.array n) prev ps f less good =
    simp (
      f.at4 less,
      f.at5 (omega (arith, less)),
      f.at6 (omega (arith, less)),
      append-nil,
      append_assoc,
    )
put_part-bytes (Section.callseq []) prev ps f less good = ground arith
put_part-bytes (Section.callseq (op ∷ ops)) prev ps f less good =
    simp (f.at5 less, f.at6 (omega (arith, less)), append-nil, append_assoc)
put_part-bytes (Section.expected e) prev ps f less good =
    simp (f.at6 less, append-nil, append_assoc)

put_part-Fresh :
    (s : Section) (prev : ℕ) (ps : Parts)
    → Fresh prev ps
    → prev < tag_of s
    → Fresh (tag_of s) (put_part s ps)
unfolding put_part
put_part-Fresh (Section.provenance p) prev ps f less = record {
  at1 = λ h. ground arith;
  at2 = λ h. f.at2 (omega (arith, less));
  at3 = λ h. f.at3 (omega (arith, less));
  at4 = λ h. f.at4 (omega (arith, less));
  at5 = λ h. f.at5 (omega (arith, less));
  at6 = λ h. f.at6 (omega (arith, less));
}
put_part-Fresh (Section.allocations t) prev ps f less = record {
  at1 = λ h. ground arith;
  at2 = λ h. ground arith;
  at3 = λ h. f.at3 (omega (arith, less));
  at4 = λ h. f.at4 (omega (arith, less));
  at5 = λ h. f.at5 (omega (arith, less));
  at6 = λ h. f.at6 (omega (arith, less));
}
put_part-Fresh (Section.schema n) prev ps f less = record {
  at1 = λ h. ground arith;
  at2 = λ h. ground arith;
  at3 = λ h. ground arith;
  at4 = λ h. f.at4 (omega (arith, less));
  at5 = λ h. f.at5 (omega (arith, less));
  at6 = λ h. f.at6 (omega (arith, less));
}
put_part-Fresh (Section.array n) prev ps f less = record {
  at1 = λ h. ground arith;
  at2 = λ h. ground arith;
  at3 = λ h. ground arith;
  at4 = λ h. ground arith;
  at5 = λ h. f.at5 (omega (arith, less));
  at6 = λ h. f.at6 (omega (arith, less));
}
put_part-Fresh (Section.callseq ops) prev ps f less = record {
  at1 = λ h. ground arith;
  at2 = λ h. ground arith;
  at3 = λ h. ground arith;
  at4 = λ h. ground arith;
  at5 = λ h. ground arith;
  at6 = λ h. f.at6 (omega (arith, less));
}
put_part-Fresh (Section.expected e) prev ps f less = record {
  at1 = λ h. ground arith;
  at2 = λ h. ground arith;
  at3 = λ h. ground arith;
  at4 = λ h. ground arith;
  at5 = λ h. ground arith;
  at6 = λ h. ground arith;
}

put_part-Sized :
    (s : Section) (ps : Parts) → IsGood s → Sized ps.allocations → Sized (put_part s ps).allocations
unfolding put_part Sized
put_part-Sized (Section.provenance p) ps good sized = sized
put_part-Sized (Section.allocations t) ps good sized = good
put_part-Sized (Section.schema n) ps good sized = sized
put_part-Sized (Section.array n) ps good sized = sized
put_part-Sized (Section.callseq ops) ps good sized = sized
put_part-Sized (Section.expected e) ps good sized = sized

-- How many sections have been read.
abbrev pub count_parts : Parts → ℕ
count_parts ps =
    count_of ps.provenance
    + count_of ps.allocations
    + count_of ps.schema
    + count_of ps.array
    + (if ltb 0 (length ps.ops) then 1 else 0)
    + count_of ps.expected

put_part-count :
    (s : Section) (prev : ℕ) (ps : Parts)
    → Fresh prev ps
    → prev < tag_of s
    → IsGood s
    → count_parts (put_part s ps) ≡ count_parts ps + 1
unfolding put_part
put_part-count (Section.provenance p) prev ps f less good = simp (f.at1 less) (omega arith)
put_part-count (Section.allocations t) prev ps f less good = simp (f.at2 less) (omega arith)
put_part-count (Section.schema n) prev ps f less good = simp (f.at3 less) (omega arith)
put_part-count (Section.array n) prev ps f less good = simp (f.at4 less) (omega arith)
put_part-count (Section.callseq ops) prev ps f less good =
    let here : ltb 0 (length ops) ≡ true = lt→ltb 0 (length ops) good in
    simp (f.at5 less, here) (omega arith)
put_part-count (Section.expected e) prev ps f less good = simp (f.at6 less) (omega arith)

-- The loop appends the bytes of the sections it reads, in the order of the format.
pub sections-Step :
    (arena : ℕ → ℕ → Bool) (n prev : ℕ) (ps : Parts)
    → Step cur_of (dec_sections arena n prev ps) (λ qs bs.
      Fresh prev ps
      → Sized ps.allocations
      → (parts_bytes qs ≡ parts_bytes ps ++ bs)
        × Sized qs.allocations
        × (count_parts qs ≡ count_parts ps + n))
unfolding dec_sections
sections-Step arena zero prev ps =
    Step-pure cur_of ps _ λ f sized. (rw append-nil, sized, omega arith)
sections-Step arena (suc n) prev ps = Step-bind cur_of (dec_section-Step arena prev) λ r.
    Step-weaken cur_of (sections-Step arena n r.0 (put_part r.1 ps))
      λ qs ys more xs (e, less, t, good) f sized.
        let up : prev < tag_of r.1 = rw t at less in
        let (out, sized', counted) =
          more (rw t (put_part-Fresh r.1 prev ps f up)) (put_part-Sized r.1 ps good sized) in
        (
          out ∙ rw (put_part-bytes r.1 prev ps f up good, e, append_assoc),
          sized',
          omega (arith, counted, put_part-count r.1 prev ps f up good),
        )

pub no_parts-Fresh : Fresh 0 no_parts
no_parts-Fresh = record {
  at1 = λ h. refl;
  at2 = λ h. refl;
  at3 = λ h. refl;
  at4 = λ h. refl;
  at5 = λ h. refl;
  at6 = λ h. refl;
}
