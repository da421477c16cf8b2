-- ===== src/Case/Live.antt =====
-- Where `abi_case_decode`, libabi/src/decode.c, goes on, no failure has been recorded.
use arrow_abi_doctor.Base.{
  ℕ, zero, suc, ◌+◌, ◌≡◌, arith, List, Bool, true, false, not, none, some, ltb, leb, ◌==◌,
  if◌then◌else◌, length, take, drop,
}
use arrow_abi_doctor.Status.{
  AbiStatus, bad_version, not_canonical, bad_byte_order, bad_enum, limit_exceeded, truncated,
  trailing_bytes, digest_mismatch,
}
use arrow_abi_doctor.Cursor.{
  AbiCur, fail, check, need, position, cur_u8, cur_u16, cur_u32, cur_zeros,
}
use arrow_abi_doctor.Cursor.Monad.{M, ◌>>=◌, value, pure}
use arrow_abi_doctor.Cursor.Sound.{proceed-some}
use arrow_abi_doctor.Cursor.Loads.{own}
use arrow_abi_doctor.Decode.{AbiDec, on_cur}
use arrow_abi_doctor.Decode.SectionSteps.{cur_of}
use arrow_abi_doctor.Sha256.{abi_sha256}
use arrow_abi_doctor.Fill.{mem_eq}
use arrow_abi_doctor.Model.{class_c, limit_total_size}
use arrow_abi_doctor.Case.{header_size, id_bytes, bom}
use arrow_abi_doctor.Case.Read.{
  put_part, dec_body, Parts, dec_header, narrow, within, dec_section, dec_sections,
}
use arrow_abi_doctor.Case.Sections.{end_section-some}

module _ {S : Type 0} (cur : S → AbiCur) where
  -- A step that gives a value ends without a failure: always, or when none came before it.
  pub record Live {A : Type 0} (m : M S A) : Type 0 where
    pub ends : (s : S) (a : A) → (m s).0 ≡ some a → (cur (m s).1).err ≡ none

  pub record Stays {A : Type 0} (m : M S A) : Type 0 where
    pub ends : (s : S) (a : A) → (cur s).err ≡ none → (m s).0 ≡ some a → (cur (m s).1).err ≡ none

  Live-Stays : {A : Type 0} {m : M S A} → Live m → Stays m
  Live-Stays t = record { ends = λ s a live h. t.ends s a h }

  Live-last : {A B : Type 0} (m : M S A) {f : A → M S B} → ((a : A) → Live (f a)) → Live (m >>= f)
  Live-last m {f} t = record {
    ends =
        λ s b h. let (a, p, q) = proceed-some (m s) f h in rw q ((t a).ends (m s).1 b (rw q at h));
  }

  Live-then :
      {A B : Type 0} {m : M S A} {f : A → M S B} → Live m → ((a : A) → Stays (f a)) → Live (m >>= f)
  Live-then {m} {f} t u = record {
    ends = λ s b h.
        let (a, p, q) = proceed-some (m s) f h in
        rw q ((u a).ends (m s).1 b (t.ends s a p) (rw q at h));
  }

  Live-if : {A : Type 0} (b : Bool) {x y : M S A} → Live x → Live y → Live (if b then x else y)
  Live-if true hx hy = hx
  Live-if false hx hy = hy

  Stays-if : {A : Type 0} (b : Bool) {x y : M S A} → Stays x → Stays y → Stays (if b then x else y)
  Stays-if true hx hy = hx
  Stays-if false hx hy = hy

  Stays-pure : {A : Type 0} (a : A) → Stays (pure a)
  Stays-pure a = record { ends = λ s b live h. live }

fail-Live : {A : Type 0} (st : AbiStatus) (at : ℕ) → Live own (fail {A = A} st at)
unfolding fail
fail-Live st at = record { ends = λ s a h. cc }

dec_fail-Live : {A : Type 0} (st : AbiStatus) (at : ℕ) → Live cur_of (on_cur (fail {A = A} st at))
unfolding fail
dec_fail-Live st at = record { ends = λ s a h. cc }

check-Live : Live own check
unfolding check
check-Live = record { ends = λ s a h. ground arith }

within-Live : {A : Type 0} (size : ℕ) (m : M AbiDec A) → Live cur_of (within size m)
unfolding within
within-Live size m = record {
  ends = λ d a h.
      let (_, live, _, after) =
        end_section-some (d.cur.pos + size) (drop size d.cur.rest) (m (narrow size d)) a h in
      rw after live;
}

section-Live : (arena : ℕ → ℕ → Bool) (prev : ℕ) → Live cur_of (dec_section arena prev)
unfolding dec_section
section-Live arena prev = Live-last cur_of (on_cur (value position)) λ sec_at.
    Live-last cur_of (on_cur (value cur_u16)) λ tag.
      Live-last cur_of (on_cur (value cur_u16)) λ sver.
        Live-last cur_of (on_cur (value cur_u32)) λ size. Live-last cur_of (on_cur check) λ _.
          Live-if cur_of (not (sver == 1)) (dec_fail-Live bad_version (sec_at + 2)) (
            Live-if cur_of (leb tag prev) (dec_fail-Live not_canonical sec_at) (
              Live-last cur_of (on_cur (need size)) λ _.
                Live-then cur_of (within-Live size (dec_body arena tag sec_at))
                  λ s. Stays-pure cur_of (tag, s)))

pub sections-Stays :
    (arena : ℕ → ℕ → Bool) (n prev : ℕ) (ps : Parts) → Stays cur_of (dec_sections arena n prev ps)
unfolding dec_sections
sections-Stays arena zero prev ps = Stays-pure cur_of ps
sections-Stays arena (suc n) prev ps =
    Live-Stays cur_of
      (Live-then cur_of (section-Live arena prev) λ r. sections-Stays arena n r.0 (put_part r.1 ps))

pub header-Live : (bs : List ℕ) → Live own (dec_header bs)
unfolding dec_header
header-Live bs = Live-last own (value cur_u16) λ ver.
    Live-if own (not (ver == 1)) (fail-Live bad_version 4) (
      Live-last own (value cur_u16) λ size.
        Live-if own (not (size == header_size)) (fail-Live bad_version 6) (
          Live-last own (value cur_u32) λ order.
            Live-if own (not (order == bom)) (fail-Live bad_byte_order 8) (
              Live-last own (value cur_u8) λ cls.
                Live-if own (ltb class_c cls) (fail-Live bad_enum 12) (
                  Live-last own (cur_zeros 3) λ _. Live-last own (value cur_u32) λ count.
                    Live-last own (value cur_u32)
                      λ total. Live-then own check-Live λ _. checked cls count total))))
  where
    refused : {A : Type 0} (st : AbiStatus) (at : ℕ) → Stays own (fail {A = A} st at)
    refused st at = Live-Stays own (fail-Live st at)

    checked :
        (cls count total : ℕ)
        → Stays own {A = ℕ × ℕ × ℕ} (
            if ltb limit_total_size total
            then fail limit_exceeded 20
            else if ltb total header_size
            then fail truncated 20
            else if ltb (length bs) total
            then fail truncated 20
            else if ltb total (length bs)
            then fail trailing_bytes total
            else if not (mem_eq (take id_bytes (abi_sha256 (drop header_size bs))) (drop 24 bs))
            then fail digest_mismatch 24
            else pure (cls, count, total))
    checked cls count total =
        Stays-if own (ltb limit_total_size total) (refused limit_exceeded 20) (
          Stays-if own (ltb total header_size) (refused truncated 20) (
            Stays-if own (ltb (length bs) total) (refused truncated 20) (
              Stays-if own (ltb total (length bs)) (refused trailing_bytes total) (
                Stays-if own
                  (not (mem_eq (take id_bytes (abi_sha256 (drop header_size bs))) (drop 24 bs)))
                  (refused digest_mismatch 24) (Stays-pure own (cls, count, total))))))
