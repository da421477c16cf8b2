-- ===== src/Base/Prefixes.antt =====
-- A prefix of a list that grows at its end.
use Prim.Native.Nat.{ℕ, zero, suc}
use mathlib.Core.Path.{◌≡◌, refl, ap, ◌∙◌}
use mathlib.Core.Bool.{true, false}
use mathlib.Core.List.{List, [], ◌∷◌, ◌++◌}
use mathlib.Core.Logic.{inl, inr}
use native.Mathlib.Omega.{arith}
use arrow_abi_doctor.Base.Tests.{Bool-cases, ltb, ltb-false, lt→ltb, if◌then◌else◌}
use arrow_abi_doctor.Base.Lists.{length, take}

pub take-snoc {ℓ} :
    {A : Type ℓ} (k : ℕ) (xs : List A) (a : A)
    → take k (xs ++ (a ∷ [])) ≡ (if ltb (length xs) k then take k xs ++ (a ∷ []) else take k xs)
take-snoc zero xs a = simp (ltb-false (length xs) 0 (omega arith)) refl
take-snoc (suc zero) [] a = refl
take-snoc (suc (suc k)) [] a = simp (lt→ltb 0 (suc (suc k)) (omega arith)) refl
take-snoc (suc k) (x ∷ xs) a = elim (Bool-cases (ltb (length xs) k)) [
  | inl h ↦
      let h' : ltb (suc (length xs)) (suc k) ≡ true = ground arith in
      simp h' (ap (λ t. x ∷ t) (take-snoc k xs a ∙ simp h refl))
  | inr h ↦
      let h' : ltb (suc (length xs)) (suc k) ≡ false = ground arith in
      simp h' (ap (λ t. x ∷ t) (take-snoc k xs a ∙ simp h refl))
]
