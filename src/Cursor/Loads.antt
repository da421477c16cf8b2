-- ===== src/Cursor/Loads.antt =====
-- The integer accessors of libabi/src/bytes.c: what each takes from the input.
use mathlib.Core.Path.{subst}
use arrow_abi_doctor.Base.{
  ℕ, zero, suc, ◌^◌, ◌≤◌, ◌<◌, ◌≡◌, refl, sym, ap, arith, List, [], ◌∷◌, none, some, length,
  length-take, take, drop, take-append-drop, Option-cases, inl, inr, get_or,
}
use arrow_abi_doctor.Bytes.{AreBytes, store_u16, store_u32, store_u64, load_u16, load_u32, load_u64}
use arrow_abi_doctor.Bytes.LittleEndian
use arrow_abi_doctor.Status.{AbiStatus, AbiError}
use arrow_abi_doctor.Cursor.{
  AbiCur, advance, cur_fail, fail, check, need, load_or_zero, cur_u8, cur_u16, cur_u32, cur_u64,
}
use arrow_abi_doctor.Cursor.Monad.{M, value}
use arrow_abi_doctor.Cursor.Sound.{Keeps, Sound, Step}

abbrev pub own : AbiCur → AbiCur
own c = c

pub drop-AreBytes : (n : ℕ) (bs : List ℕ) → AreBytes bs → AreBytes (drop n bs)
drop-AreBytes zero bs h = h
drop-AreBytes (suc n) [] h = h
drop-AreBytes (suc n) (b ∷ bs) h = drop-AreBytes n bs h.1

-- A step that leaves the input where it is.
pub Keeps-still :
    {A : Type 0} {m : M AbiCur A}
    → ((c : AbiCur) → (m c).1.rest ≡ c.rest)
    → ((c : AbiCur) (e : AbiError) → c.err ≡ some e → (m c).1.err ≡ some e)
    → Keeps own m
Keeps-still still sticky = record {
  bytes = λ c h. subst AreBytes (sym (still c)) h;
  sticky = sticky;
}

pub fail-Keeps : {A : Type 0} (st : AbiStatus) (at : ℕ) → Keeps own (fail {A = A} st at)
unfolding fail cur_fail
fail-Keeps st at = Keeps-still (λ c. ground arith) (λ c e h. ground arith)

pub check-Keeps : Keeps own check
unfolding check
check-Keeps = Keeps-still (λ c. ground arith) (λ c e h. ground arith)

pub need-Keeps : (n : ℕ) → Keeps own (need n)
unfolding need cur_fail
need-Keeps n = Keeps-still (λ c. ground arith) (λ c e h. ground arith)

-- What `need` lets pass.
pub need_passes :
    (n : ℕ) (c : AbiCur)
    → (need n c).0 ≡ some tt
    → (c.err ≡ none) × (n ≤ length c.rest) × ((need n c).1 ≡ c)
unfolding need fail cur_fail
need_passes n c h = ground arith

pub load_took :
    (n : ℕ) (load : List ℕ → ℕ) (c : AbiCur)
    → (load_or_zero n load (need n c)).1.err ≡ none
    → (c.err ≡ none)
      × (n ≤ length c.rest)
      × (load_or_zero n load (need n c) ≡ (load c.rest, advance n c))
unfolding need fail cur_fail
load_took n load c h = ground arith

load_failed :
    (n : ℕ) (load : List ℕ → ℕ) (c : AbiCur) (e : AbiError)
    → c.err ≡ some e
    → load_or_zero n load (need n c) ≡ (0, c)
unfolding need
load_failed n load c e h = ground arith

load-Keeps : (n : ℕ) (load : List ℕ → ℕ) → Keeps own (value (λ c. load_or_zero n load (need n c)))
unfolding need fail cur_fail
load-Keeps n load = record {
  bytes = λ c h.
      let drops = drop-AreBytes n c.rest h in
      elim (Option-cases (load_or_zero n load (need n c)).1.err) [
        | inl live ↦
            let (_, _, e) = load_took n load c live in subst (λ r. AreBytes r.1.rest) (sym e) drops
        | inr (x, failed) ↦ subst AreBytes {x = c.rest} (ground arith) h
      ];
  sticky = λ c e h. rw (load_failed n load c e h) h;
}

-- A load gives a value whose stored form is what it took.
load-Sound :
    (n : ℕ) (load : List ℕ → ℕ) (store : ℕ → List ℕ) (bound : ℕ)
    → ((p : List ℕ) → AreBytes p → n ≤ length p → (store (load p) ≡ take n p) × (load p < bound))
    → Sound own (value (λ c. load_or_zero n load (need n c))) (λ v bs. (bs ≡ store v) × (v < bound))
load-Sound n load store bound inverse = record {
  reads = λ c v ab h e.
      let (live, le, same) = load_took n load c e in
      let (stored, small) = inverse c.rest ab le in
      let loaded : v ≡ load c.rest = cc (ap (λ (r : ℕ × AbiCur). r.0) same) in
      (
        take n c.rest,
        record {
          live = live;
          bytes = rw same (sym (take-append-drop n c.rest));
          moved = rw (same, length-take n c.rest le);
        },
        (rw loaded (sym stored), rw loaded small),
      );
}

inverse_u8 :
    (p : List ℕ) → AreBytes p → 1 ≤ length p → (get_or p 0 0 ∷ [] ≡ take 1 p) × (get_or p 0 0 < 256)
inverse_u8 [] ab h = absurd (omega arith)
inverse_u8 (a ∷ r) ab h = (refl, ab.0)

inverse_u16 :
    (p : List ℕ)
    → AreBytes p
    → 2 ≤ length p
    → (store_u16 (load_u16 p) ≡ take 2 p) × (load_u16 p < 2 ^ 16)
inverse_u16 [] ab h = absurd (omega arith)
inverse_u16 (a ∷ []) ab h = absurd (omega arith)
inverse_u16 (a ∷ b ∷ r) ab h = LittleEndian.store-load_u16 a b r ab.0 ab.1.0

inverse_u32 :
    (p : List ℕ)
    → AreBytes p
    → 4 ≤ length p
    → (store_u32 (load_u32 p) ≡ take 4 p) × (load_u32 p < 2 ^ 32)
inverse_u32 [] ab h = absurd (omega arith)
inverse_u32 (a ∷ []) ab h = absurd (omega arith)
inverse_u32 (a ∷ b ∷ []) ab h = absurd (omega arith)
inverse_u32 (a ∷ b ∷ c ∷ []) ab h = absurd (omega arith)
inverse_u32 (a ∷ b ∷ c ∷ d ∷ r) ab h =
    LittleEndian.store-load_u32 a b c d r (omega arith) (omega arith) (omega arith) (omega arith)

inverse_u64 :
    (p : List ℕ)
    → AreBytes p
    → 8 ≤ length p
    → (store_u64 (load_u64 p) ≡ take 8 p) × (load_u64 p < 2 ^ 64)
inverse_u64 (a ∷ b ∷ c ∷ d ∷ e ∷ f ∷ g ∷ k ∷ r) ab h =
    LittleEndian.store-load_u64 a b c d e f g k r (omega arith)
inverse_u64 _ ab h = absurd (omega arith)

-- Each accessor takes the stored form of the value that it gives.
pub u8-Step : Step own (value cur_u8) (λ v bs. (bs ≡ v ∷ []) × (v < 256))
unfolding cur_u8
u8-Step = record {
  keeps = load-Keeps 1 (λ p. get_or p 0 0);
  sound = load-Sound 1 (λ p. get_or p 0 0) (λ v. v ∷ []) 256 inverse_u8;
}

pub u16-Step : Step own (value cur_u16) (λ v bs. (bs ≡ store_u16 v) × (v < 2 ^ 16))
unfolding cur_u16
u16-Step = record {
  keeps = load-Keeps 2 load_u16;
  sound = load-Sound 2 load_u16 store_u16 (2 ^ 16) inverse_u16;
}

pub u32-Step : Step own (value cur_u32) (λ v bs. (bs ≡ store_u32 v) × (v < 2 ^ 32))
unfolding cur_u32
u32-Step = record {
  keeps = load-Keeps 4 load_u32;
  sound = load-Sound 4 load_u32 store_u32 (2 ^ 32) inverse_u32;
}

pub u64-Step : Step own (value cur_u64) (λ v bs. (bs ≡ store_u64 v) × (v < 2 ^ 64))
unfolding cur_u64
u64-Step = record {
  keeps = load-Keeps 8 load_u64;
  sound = load-Sound 8 load_u64 store_u64 (2 ^ 64) inverse_u64;
}
