-- ===== src/Case/RoundTrip.antt =====
-- `abi_case_encode` of libabi/src/encode.c against the format, and against `abi_case_decode`.
use arrow_abi_doctor.Base.{
  ℕ, ◌+◌, ◌%◌, ◌≤◌, ◌≡◌, refl, sym, ap, ◌∙◌, arith, List, ◌++◌, Bool, false, ltb, ltb-false, length,
  length-append, length-take, take, All,
}
use arrow_abi_doctor.Bytes.{AreBytes, store_u16, store_u32}
use arrow_abi_doctor.Status.{ok}
use arrow_abi_doctor.Sha256.{abi_sha256, length-abi_sha256}
use arrow_abi_doctor.Buffer.Writes.{Grants}
use arrow_abi_doctor.Model.{AbiCase, class_c, limit_total_size}
use arrow_abi_doctor.Encode.Writes.{IsSized}
use arrow_abi_doctor.Validate.{abi_case_validate}
use arrow_abi_doctor.Case.{
  header_size, id_bytes, header_bytes, payload_bytes, case_bytes, section_count_of,
}
use arrow_abi_doctor.Case.Write.{
  Emit, emit_all, put_header, finish_encode, unless_invalid, encoded, abi_case_encode,
}
use arrow_abi_doctor.Case.Read.{abi_case_decode, decoded}
use arrow_abi_doctor.Case.Emitted.{Emitted, emit_all-Emitted}
use arrow_abi_doctor.Case.Canonical.{decode-IsCanonical}

put_header-lem :
    (realloc : ℕ → Bool) (c : AbiCase) (s : Emit) (total : ℕ)
    → c.cls ≤ class_c
    → s.section_count ≡ section_count_of c
    → put_header realloc c s total ≡ header_bytes c.cls (section_count_of c) total
unfolding put_header store_u16
put_header-lem realloc c s total known count =
    let low : c.cls % 256 ≡ c.cls = omega (arith, known) in simp (count, low) refl

finish_encode-lem :
    (realloc malloc : ℕ → Bool) (c : AbiCase) (s : Emit)
    → Grants malloc
    → Emitted s (payload_bytes c) (section_count_of c)
    → c.cls ≤ class_c
    → header_size + length (payload_bytes c) ≤ limit_total_size
    → finish_encode realloc malloc c s ≡ encoded (case_bytes c)
unfolding finish_encode case_bytes
finish_encode-lem realloc malloc c s given e known room =
    let content = s.payload.content in
    let total = ap (λ x. header_size + length x) e.content in
    let fits : ltb limit_total_size (header_size + length content) ≡ false =
      ltb-false limit_total_size (header_size + length content) (omega (arith, total, room)) in
    let head = put_header-lem realloc c s (header_size + length content) known e.count in
    let same : put_header realloc c s (header_size + length content)
          ++ (take id_bytes (abi_sha256 content) ++ content)
        ≡ case_bytes c =
      ap (λ h. h ++ (take id_bytes (abi_sha256 content) ++ content)) head
      ∙ ap
          (λ x.
            header_bytes c.cls (section_count_of c) (header_size + length x)
            ++ (take id_bytes (abi_sha256 x) ++ x))
          e.content in
    simp (e.good, e.live, fits, given (header_size + length content)) (ap encoded same)

-- A valid case of a known class, whose allocations have memory of the stated sizes, is encoded as the
-- file that the format assigns to it, when that is within the size limit and memory is granted.
pub encode-case_bytes :
    (realloc malloc : ℕ → Bool) (c : AbiCase)
    → Grants realloc
    → Grants malloc
    → abi_case_validate c ≡ ok
    → All IsSized c.allocations
    → c.cls ≤ class_c
    → header_size + length (payload_bytes c) ≤ limit_total_size
    → abi_case_encode realloc malloc c ≡ encoded (case_bytes c)
unfolding abi_case_encode
encode-case_bytes realloc malloc c grants given valid sized known room =
    let e = emit_all-Emitted realloc grants c sized (omega (arith, room)) in
    ap (λ st. unless_invalid realloc st (finish_encode realloc malloc c (emit_all realloc c))) valid
    ∙ finish_encode-lem realloc malloc c (emit_all realloc c) given e known room

length-case_bytes : (c : AbiCase) → length (case_bytes c) ≡ header_size + length (payload_bytes c)
unfolding case_bytes store_u16 store_u32
length-case_bytes c =
    let payload = payload_bytes c in
    omega (
      arith,
      length-append (take id_bytes (abi_sha256 payload)) payload,
      length-take 16 (abi_sha256 payload) (omega (arith, length-abi_sha256 payload)),
    )

-- A file that the decoder accepts is what the encoder makes of the case that it gives, when memory is
-- granted: the format has no second spelling of a case.
pub abi_case_encode-abi_case_decode :
    (arena : ℕ → ℕ → Bool) (fresh : Bool) (realloc malloc : ℕ → Bool) (bs : List ℕ) (c : AbiCase)
    → Grants realloc
    → Grants malloc
    → AreBytes bs
    → abi_case_decode arena fresh bs ≡ decoded c
    → abi_case_encode realloc malloc c ≡ encoded bs
abi_case_encode-abi_case_decode arena fresh realloc malloc bs c grants given ab h =
    let k = decode-IsCanonical arena fresh bs c ab h in
    let room : header_size + length (payload_bytes c) ≤ limit_total_size =
      omega (arith, length-case_bytes c, ap length k.bytes, k.fits) in
    encode-case_bytes realloc malloc c grants given k.is_valid k.sized k.known room
    ∙ ap encoded (sym k.bytes)
