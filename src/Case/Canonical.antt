-- ===== src/Case/Canonical.antt =====
-- The decoder of libabi/src/decode.c accepts only the bytes that the format assigns to the case it gives.
use mathlib.Core.Path.{subst}
use arrow_abi_doctor.Base.{
  ℕ, ◌+◌, ◌≤◌, ◌≡◌, ◌≢◌, refl, sym, ap, ◌∙◌, arith, List, [], ◌∷◌, ◌++◌, append-nil, Bool, true,
  false, not, Option, none, some, ltb, ◌==◌, if◌then◌else◌, length, length-append, take, drop,
  take-append-drop, length-drop, length-take, drop-drop, length-zero, All,
}
use arrow_abi_doctor.Bytes.{AreBytes, store_u16, store_u32}
use arrow_abi_doctor.Status.{AbiStatus, AbiError, ok}
use arrow_abi_doctor.Sha256.{abi_sha256, length-abi_sha256}
use arrow_abi_doctor.Cursor.{AbiCur}
use arrow_abi_doctor.Cursor.Loads.{drop-AreBytes}
use arrow_abi_doctor.Fill.{mem_eq}
use arrow_abi_doctor.Model.{
  AbiAllocation, AbiSchemaNode, AbiProvenance, AbiExpected, AbiCase, limit_total_size, class_c,
}
use arrow_abi_doctor.Encode.Writes.{IsSized}
use arrow_abi_doctor.Decode.{AbiDec}
use arrow_abi_doctor.Validate.{abi_case_validate}
use arrow_abi_doctor.Case.{
  header_size, id_bytes, magic, header_bytes, payload_bytes, section_count_of, case_bytes,
}
use arrow_abi_doctor.Case.Write.{has_magic}
use arrow_abi_doctor.Case.Read.{
  Parts, no_parts, Decoded, decoded, cursor_error, valid, complete, finish_case, finished,
  run_sections, at_payload, with_header, at_version, abi_case_decode, dec_header, dec_sections,
}
use arrow_abi_doctor.Case.Parts.{parts_bytes, count_parts, Sized, sections-Step, no_parts-Fresh}
use arrow_abi_doctor.Case.Header.{Accepted, fixed_bytes, header-Step}
use arrow_abi_doctor.Case.Live.{sections-Stays, header-Live}

-- The parts of a finished case are those that were read.
record Completes (cls : ℕ) (ps : Parts) (c : AbiCase) : Type 0 where
  class_ : c.cls ≡ cls
  provenance : ps.provenance ≡ some c.provenance
  allocations : ps.allocations ≡ some c.allocations
  schema : (s : AbiSchemaNode) × (ps.schema ≡ some s) × (c.schema ≡ some s)
  array : ps.array ≡ c.array
  ops : ps.ops ≡ c.ops
  expected : ps.expected ≡ some c.expected
  is_valid : abi_case_validate c ≡ ok

cursor_error-fails : (e : Option AbiError) (c : AbiCase) → cursor_error e ≢ decoded c
cursor_error-fails none c h = cc
cursor_error-fails (some e) c h = cc

valid-lem : (c c' : AbiCase) (st : AbiStatus) → valid c st ≡ decoded c' → (c ≡ c') × (st ≡ ok)
valid-lem c c' ok h = (let e : c ≡ c' = cc in e, refl)
valid-lem c c' _ h = cc

complete-lem :
    (cls : ℕ) (ps : Parts) (cur : AbiCur) (p : Option AbiProvenance)
    (t : Option (List AbiAllocation)) (s : Option AbiSchemaNode) (e : Option AbiExpected)
    (c : AbiCase)
    → ps.provenance ≡ p
    → ps.allocations ≡ t
    → ps.schema ≡ s
    → ps.expected ≡ e
    → complete cls ps cur p t s e ≡ decoded c
    → Completes cls ps c
unfolding complete
complete-lem cls ps cur (some p) (some t) (some s) (some e) c hp ht hs he h =
    let (same, fine) = valid-lem _ c _ h in
    subst (Completes cls ps) same (record {
      class_ = refl;
      provenance = hp;
      allocations = ht;
      schema = (s, hs, refl);
      array = refl;
      ops = refl;
      expected = he;
      is_valid = fine;
    })
complete-lem cls ps cur _ _ _ _ c hp ht hs he h = elim (cursor_error-fails _ c h) [ ]

if-decoded :
    (b : Bool) (e r : Decoded) (c : AbiCase)
    → e ≢ decoded c
    → (if b then e else r) ≡ decoded c
    → (b ≡ false) × (r ≡ decoded c)
if-decoded true e r c bad h = elim (bad h) [ ]
if-decoded false e r c bad h = (refl, h)

with_header-lem :
    (arena : ℕ → ℕ → Bool) (fresh : Bool) (bs : List ℕ) (r : Option (ℕ × ℕ × ℕ) × AbiCur)
    (c : AbiCase)
    → with_header arena fresh bs r ≡ decoded c
    → (x : ℕ × ℕ × ℕ) × (r.0 ≡ some x)
      × (run_sections arena x.2 x.0 x.1 (at_payload bs r.1) ≡ decoded c)
unfolding with_header
with_header-lem arena fresh bs (none, cur) c h = elim (cursor_error-fails _ c h) [ ]
with_header-lem arena fresh bs (some x, cur) c h =
    let (_, run) = if-decoded (not fresh) _ _ c (cursor_error-fails _ c) h in (x, refl, run)

finished-lem :
    (total cls : ℕ) (r : Option Parts × AbiDec) (c : AbiCase)
    → finished total cls r ≡ decoded c
    → (ps : Parts) × (r.0 ≡ some ps) × (r.1.cur.pos ≡ total) × Completes cls ps c
unfolding finish_case
finished-lem total cls (none, d) c h = elim (cursor_error-fails _ c h) [ ]
finished-lem total cls (some ps, d) c h =
    let (at, done) = if-decoded (not (d.cur.pos == total)) _ _ c (cursor_error-fails _ c) h in
    (
      ps,
      refl,
      ground arith,
      complete-lem cls ps d.cur ps.provenance ps.allocations ps.schema ps.expected c refl refl refl
          refl done,
    )

has_magic-lem : (bs : List ℕ) → has_magic bs ≡ true → bs ≡ magic ++ drop 4 bs
has_magic-lem (m0 ∷ m1 ∷ m2 ∷ m3 ∷ rest) h = ground arith
has_magic-lem [] h = cc
has_magic-lem (a ∷ []) h = cc
has_magic-lem (a ∷ b ∷ []) h = cc
has_magic-lem (a ∷ b ∷ d ∷ []) h = cc

mem_eq-lem : (xs ys : List ℕ) → mem_eq xs ys ≡ true → xs ≡ take (length xs) ys
unfolding mem_eq
mem_eq-lem [] ys h = refl
mem_eq-lem (x ∷ xs) [] h = cc
mem_eq-lem (x ∷ xs) (y ∷ ys) h =
    let same : x ≡ y = ground arith in
    let others : mem_eq xs ys ≡ true = ground arith in
    rw same (ap (λ t. y ∷ t) (mem_eq-lem xs ys others))

-- The first 40 bytes: the magic, the fixed fields and the digest.
header-lem :
    (bs taken after : List ℕ) (x : ℕ × ℕ × ℕ)
    → header_size ≤ length bs
    → has_magic bs ≡ true
    → drop 4 bs ≡ taken ++ after
    → Accepted bs x taken
    → bs
      ≡ header_bytes x.0 x.1 x.2
        ++ (take id_bytes (abi_sha256 (drop header_size bs)) ++ drop header_size bs)
unfolding store_u16 store_u32
header-lem bs taken after x big m rest hdr =
    let fixed = fixed_bytes x.0 x.1 x.2 in
    let digest = take id_bytes (abi_sha256 (drop header_size bs)) in
    let start : bs ≡ magic ++ (fixed ++ after) =
      has_magic-lem bs m ∙ ap (λ r. magic ++ r) (rest ∙ ap (λ t. t ++ after) hdr.fixed) in
    let at24 : after ≡ drop 24 bs = sym (ap (λ r. drop 24 r) start) in
    let len : length digest ≡ 16 =
      length-take 16 (abi_sha256 (drop header_size bs))
        (omega (arith, length-abi_sha256 (drop header_size bs))) in
    let id : digest ≡ take 16 (drop 24 bs) =
      mem_eq-lem digest (drop 24 bs) hdr.digest ∙ ap (λ n. take n (drop 24 bs)) len in
    let split : after ≡ digest ++ drop header_size bs =
      at24
      ∙ (sym (take-append-drop 16 (drop 24 bs))
          ∙ (ap (λ t. t ++ drop 16 (drop 24 bs)) (sym id)
              ∙ ap (λ r. digest ++ r) (drop-drop 24 16 bs))) in
    start ∙ ap (λ r. magic ++ (fixed ++ r)) split

not_below : (a b : ℕ) → ltb a b ≡ false → b ≤ a
not_below a b h = ground arith

-- What an accepted file is.
pub record IsCanonical (bs : List ℕ) (c : AbiCase) : Type 0 where
  pub bytes : bs ≡ case_bytes c
  pub is_valid : abi_case_validate c ≡ ok
  pub sized : All IsSized c.allocations
  pub fits : length bs ≤ limit_total_size
  pub known : c.cls ≤ class_c

payload-lem :
    (cls : ℕ) (ps : Parts) (c : AbiCase)
    → Completes cls ps c
    → (parts_bytes ps ≡ payload_bytes c) × (count_parts ps ≡ section_count_of c)
unfolding parts_bytes payload_bytes
payload-lem cls ps c k =
    let (s, e₁, e₂) = k.schema in
    (
      simp (k.provenance, k.allocations, e₁, e₂, k.array, k.ops, k.expected) refl,
      simp (k.provenance, k.allocations, e₁, e₂, k.array, k.ops, k.expected) (omega arith),
    )

case_bytes-lem :
    (c : AbiCase) (cls count total : ℕ) (payload : List ℕ)
    → payload ≡ payload_bytes c
    → total ≡ header_size + length (payload_bytes c)
    → count ≡ section_count_of c
    → cls ≡ c.cls
    → header_bytes cls count total ++ (take id_bytes (abi_sha256 payload) ++ payload) ≡ case_bytes c
unfolding case_bytes
case_bytes-lem c cls count total payload e₁ e₂ e₃ e₄ = rw (e₁, e₂, e₃, e₄) refl

-- Every file that the decoder accepts is the canonical file of the case it gives: the bytes that the
-- format assigns to that case, a valid case, memory of the stated sizes, within the size limit.
pub decode-IsCanonical :
    (arena : ℕ → ℕ → Bool) (fresh : Bool) (bs : List ℕ) (c : AbiCase)
    → AreBytes bs
    → abi_case_decode arena fresh bs ≡ decoded c
    → IsCanonical bs c
unfolding abi_case_decode run_sections case_bytes parts_bytes Sized
decode-IsCanonical arena fresh bs c ab h =
    let (big, h₁) = if-decoded (ltb (length bs) header_size) _ _ c (λ e. cc) h in
    let (m, h₂) = if-decoded (not (has_magic bs)) _ _ c (λ e. cc) h₁ in
    let (x, hx, run) = with_header-lem arena fresh bs (dec_header bs (at_version bs)) c h₂ in
    let cur = (dec_header bs (at_version bs)).1 in
    let live = (header-Live bs).ends (at_version bs) x hx in
    let (taken, took, hdr) =
      (header-Step bs).sound.reads (at_version bs) x (drop-AreBytes 4 bs ab) hx live in
    let d = at_payload bs cur in
    let (_, h₃) = if-decoded (ltb 6 x.1) _ _ c (cursor_error-fails _ c) run in
    let (ps, hps, at, k) = finished-lem x.2 x.0 (dec_sections arena x.1 0 no_parts d) c h₃ in
    let live' = (sections-Stays arena x.1 0 no_parts).ends d ps live hps in
    let (body, took', r) =
      (sections-Step arena x.1 0 no_parts).sound.reads d ps (drop-AreBytes 40 bs ab) hps live' in
    let (parts, sized, counted) = r no_parts-Fresh tt in
    let (payload, sections) = payload-lem x.0 ps c k in
    let end = (dec_sections arena x.1 0 no_parts d).1.cur in
    let none_left : end.rest ≡ [] = length-zero end.rest (
      omega (
        arith,
        took'.moved,
        at,
        hdr.whole,
        ap length took'.bytes,
        length-drop 40 bs,
        length-append body end.rest,
        not_below (length bs) header_size big,
      )) in
    let pay : drop header_size bs ≡ payload_bytes c =
      took'.bytes ∙ (rw (none_left, append-nil) (sym parts) ∙ payload) in
    let total : x.2 ≡ header_size + length (payload_bytes c) =
      omega (
        arith,
        hdr.whole,
        ap length pay,
        length-drop 40 bs,
        not_below (length bs) header_size big,
      ) in
    let count : x.1 ≡ section_count_of c = omega (arith, counted, sections) in
    let cls : x.0 ≡ c.cls = sym k.class_ in
    let same = case_bytes-lem c x.0 x.1 x.2 (drop header_size bs) pay total count cls in
    record {
      bytes =
          header-lem bs taken cur.rest x (not_below (length bs) header_size big) (ground arith)
            took.bytes hdr
          ∙ same;
      is_valid = k.is_valid;
      sized = subst Sized k.allocations sized;
      fits = omega (arith, hdr.fits, hdr.whole);
      known = omega (arith, k.class_, hdr.known);
    }
