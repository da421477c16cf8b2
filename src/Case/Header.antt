-- ===== src/Case/Header.antt =====
-- `dec_header`, libabi/src/decode.c: what it accepts is the header that the format assigns.
use arrow_abi_doctor.Base.{
  ℕ, ◌≤◌, ◌≡◌, arith, List, [], ◌∷◌, ◌++◌, append-nil, true, not, ltb, ◌==◌, length, take, drop,
}
use arrow_abi_doctor.Bytes.{store_u16, store_u32}
use arrow_abi_doctor.Status.{
  bad_version, bad_byte_order, bad_enum, limit_exceeded, truncated, trailing_bytes, digest_mismatch,
}
use arrow_abi_doctor.Sha256.{abi_sha256}
use arrow_abi_doctor.Cursor.Sound.{Step, Step-pure, Step-bind, Step-if}
use arrow_abi_doctor.Cursor.Loads.{own, u8-Step, u16-Step, u32-Step}
use arrow_abi_doctor.Cursor.Reads.{fail-Step, check-Step, zeros-Step}
use arrow_abi_doctor.Fill.{mem_eq}
use arrow_abi_doctor.Model.{class_c, limit_total_size}
use arrow_abi_doctor.Case.{header_size, id_bytes, bom}
use arrow_abi_doctor.Case.Read.{dec_header}

-- The header behind the magic, up to the payload id.
abbrev pub fixed_bytes : ℕ → ℕ → ℕ → List ℕ
fixed_bytes cls section_count total =
    store_u16 1
    ++ (store_u16 header_size
        ++ (store_u32 bom
            ++ ((cls ∷ 0 ∷ 0 ∷ 0 ∷ []) ++ (store_u32 section_count ++ store_u32 total))))

pub record Accepted (bs : List ℕ) (r : ℕ × ℕ × ℕ) (taken : List ℕ) : Type 0 where
  pub fixed : taken ≡ fixed_bytes r.0 r.1 r.2
  pub known : r.0 ≤ class_c
  pub whole : r.2 ≡ length bs
  pub fits : r.2 ≤ limit_total_size
  pub digest : mem_eq (take id_bytes (abi_sha256 (drop header_size bs))) (drop 24 bs) ≡ true

pub header-Step : (bs : List ℕ) → Step own (dec_header bs) (Accepted bs)
unfolding dec_header
header-Step bs = Step-bind own u16-Step λ ver.
    Step-if own (not (ver == 1)) (fail-Step bad_version 4 _) (
      Step-bind own u16-Step λ size.
        Step-if own (not (size == header_size)) (fail-Step bad_version 6 _) (
          Step-bind own u32-Step λ order.
            Step-if own (not (order == bom)) (fail-Step bad_byte_order 8 _) (
              Step-bind own u8-Step λ cls. Step-if own (ltb class_c cls) (fail-Step bad_enum 12 _) (
                Step-bind own (zeros-Step 3) λ _. Step-bind own u32-Step λ section_count.
                  Step-bind own u32-Step λ total. Step-bind own check-Step λ _.
                    Step-if own (ltb limit_total_size total) (fail-Step limit_exceeded 20 _) (
                      Step-if own (ltb total header_size) (fail-Step truncated 20 _) (
                        Step-if own (ltb (length bs) total) (fail-Step truncated 20 _) (
                          Step-if own (ltb total (length bs)) (fail-Step trailing_bytes total _) (
                            Step-if own
                              (not (
                                mem_eq (take id_bytes (abi_sha256 (drop header_size bs)))
                                  (drop 24 bs)))
                              (fail-Step digest_mismatch 24 _)
                              (Step-pure own (cls, section_count, total) _
                                λ same over under _ fits _ e₈ _ (e₇, _) _ (e₆, _) _ e₅ class_ok _
                                    (e₄, _) order_ok _ (e₃, _) size_ok _ (e₂, _) ver_ok _ (e₁, _).
                                  let is1 : ver ≡ 1 = ground arith in
                                  let is40 : size ≡ header_size = ground arith in
                                  let is_bom : order ≡ bom = ground arith in
                                  record {
                                    fixed = rw (
                                      e₁, e₂, e₃, e₄, e₅, e₆, e₇, e₈, append-nil, is1, is40, is_bom,
                                    );
                                    known = ground arith;
                                    whole = ground arith;
                                    fits = ground arith;
                                    digest = ground arith;
                                  })))))))))
