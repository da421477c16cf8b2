-- ===== src/Fill/Runs.antt =====
-- The maximal runs of a byte string, by structural recursion: what the scans of libabi/src/fill.c find.
use arrow_abi_doctor.Base.{
  ℕ, zero, suc, ◌<◌, ◌≤◌, ◌≡◌, refl, sym, ap, ◌∙◌, arith, List, [], ◌∷◌, ◌++◌, Option, none, some,
  false, Bool-cases, inl, inr, length, replicate, drop, ◌==◌, ==_self, ==_iff, if◌then◌else◌,
}
use arrow_abi_doctor.Fill.{scan_run, same_as_prev}

-- A length and a value.
abbrev pub Run : Type 0
Run = ℕ × ℕ

abbrev pub expand : List Run → List ℕ
expand [] = []
expand ((n, v) ∷ rs) = replicate n v ++ expand rs

-- A byte joins the first run if it has its value, and begins one of its own if not.
unfoldable pub extend : ℕ → List Run → List Run
extend b [] = (1, b) ∷ []
extend b ((n, v) ∷ rs) = if v == b then (suc n, b) ∷ rs else (1, b) ∷ (n, v) ∷ rs

unfoldable pub runs : List ℕ → List Run
unfolding extend
runs [] = []
runs (b ∷ bs) = extend b (runs bs)

-- No run is empty, and no two neighbours share a value; `prev` is the value before the first.
abbrev pub AreMaximal : Option ℕ → List Run → Type 0
AreMaximal prev [] = Unit {0}
AreMaximal prev ((n, v) ∷ rs) = (0 < n) × (same_as_prev prev v ≡ false) × AreMaximal (some v) rs

extend_new :
    (v n w : ℕ) (rs : List Run)
    → same_as_prev (some v) w ≡ false
    → extend v ((n, w) ∷ rs) ≡ (1, v) ∷ (n, w) ∷ rs
unfolding extend same_as_prev
extend_new v n w rs h = rw h

extend-same : (v n : ℕ) (rs : List Run) → extend v ((n, v) ∷ rs) ≡ (suc n, v) ∷ rs
unfolding extend
extend-same v n rs = rw (==_self v)

-- A first byte in front of runs that begin with another value.
extend_front : (v : ℕ) (rs : List Run) → AreMaximal (some v) rs → extend v rs ≡ (1, v) ∷ rs
extend_front v [] h = unfold extend in refl
extend_front v ((n, w) ∷ rs) h = extend_new v n w rs h.1

runs-replicate :
    (k v : ℕ) (bs : List ℕ) (rs : List Run)
    → runs bs ≡ rs
    → AreMaximal (some v) rs
    → runs (replicate (suc k) v ++ bs) ≡ (suc k, v) ∷ rs
unfolding runs
runs-replicate zero v bs rs e h = rw e (extend_front v rs h)
runs-replicate (suc k) v bs rs e h = rw (runs-replicate k v bs rs e h) (extend-same v (suc k) rs)

-- The runs of what maximal runs stand for are those runs.
pub runs-expand : (prev : Option ℕ) (rs : List Run) → AreMaximal prev rs → runs (expand rs) ≡ rs
runs-expand prev [] h = unfold runs in refl
runs-expand prev ((zero, v) ∷ rs) h = absurd (omega (arith, h.0))
runs-expand prev ((suc k, v) ∷ rs) h =
    runs-replicate k v (expand rs) rs (runs-expand (some v) rs h.2) h.2

expand-extend : (b : ℕ) (rs : List Run) → expand (extend b rs) ≡ b ∷ expand rs
unfolding extend
expand-extend b [] = refl
expand-extend b ((n, v) ∷ rs) = elim (Bool-cases (v == b)) [
  | inl e ↦ let same : v ≡ b = (==_iff v b).0 e in rw (e, same)
  | inr e ↦ rw e
]

pub expand-runs : (bs : List ℕ) → expand (runs bs) ≡ bs
unfolding runs
expand-runs [] = refl
expand-runs (b ∷ bs) = expand-extend b (runs bs) ∙ rw (expand-runs bs)

-- The first run of a byte string is what the scan counts, and the scan goes on behind it.
pub runs_scan :
    (b : ℕ) (bs : List ℕ)
    → runs (b ∷ bs) ≡ (suc (scan_run b bs), b) ∷ runs (drop (scan_run b bs) bs)
unfolding runs scan_run same_as_prev
runs_scan b [] = refl
runs_scan b (x ∷ bs) = elim (Bool-cases (x == b)) [
  | inl e ↦
      let same : x ≡ b = (==_iff x b).0 e in
      rw (e, same) (ap (extend b) (runs_scan b bs) ∙ extend-same b (suc (scan_run b bs)) _)
  | inr e ↦
      let ih = runs_scan x bs in
      rw e (
        ap (extend b) ih ∙ extend_new b (suc (scan_run x bs)) x _ e ∙ ap (λ t. (1, b) ∷ t) (sym ih))
]

extend-AreMaximal : (b : ℕ) (rs : List Run) → AreMaximal none rs → AreMaximal none (extend b rs)
unfolding extend same_as_prev
extend-AreMaximal b [] h = (omega arith, refl, tt)
extend-AreMaximal b ((n, v) ∷ rs) h = elim (Bool-cases (v == b)) [
  | inl e ↦ let same : v ≡ b = (==_iff v b).0 e in rw e (omega arith, refl, rw (← same) h.2)
  | inr e ↦ rw e (omega arith, refl, (h.0, e, h.2))
]

pub runs-AreMaximal : (bs : List ℕ) → AreMaximal none (runs bs)
unfolding runs
runs-AreMaximal [] = tt
runs-AreMaximal (b ∷ bs) = extend-AreMaximal b (runs bs) (runs-AreMaximal bs)

pub scan_run-le : (v : ℕ) (bs : List ℕ) → scan_run v bs ≤ length bs
unfolding scan_run
scan_run-le v [] = omega arith
scan_run-le v (b ∷ bs) = ground (arith, scan_run-le v bs)
