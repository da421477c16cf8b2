-- ===== src/Accounts/Build.antt =====
-- What a call of the instrumented allocator gives is counted.
pub mod Schema
pub mod Array
use arrow_abi_doctor.Base.{
  ℕ, ◌+◌, ◌%◌, ◌^◌, ◌<◌, ◌≡◌, refl, arith, Bool, true, false, Option, none, some, ◌==◌, ltb,
  if◌then◌else◌, is_some, if_cases, Bool-cases, inl, inr, ==_iff,
}
use arrow_abi_doctor.Reconstruct.Observer.{Block, Rec, obs_alloc, obs_alloc_aligned}
use arrow_abi_doctor.Reconstruct.Build.{alloc_slots}
use arrow_abi_doctor.Accounts.{Measure, bytes, blocks, weight_of, Balanced}
use arrow_abi_doctor.Accounts.Release.{Balanced-of}

module _ (malloc : ℕ → ℕ → Option ℕ) where
  pub obs_alloc_aligned-Balanced :
      (m : Measure) (x size align : ℕ) (r : Rec)
      → Balanced m x r
      → Balanced m
          (x + weight_of m (obs_alloc_aligned malloc size align r).0)
          (obs_alloc_aligned malloc size align r).1
  unfolding obs_alloc_aligned
  obs_alloc_aligned-Balanced bytes x size align r h = ground arith
  obs_alloc_aligned-Balanced blocks x size align r h = ground arith

  pub obs_alloc-Balanced :
      (m : Measure) (x size : ℕ) (r : Rec)
      → Balanced m x r
      → Balanced m (x + weight_of m (obs_alloc malloc size r).0) (obs_alloc malloc size r).1
  unfolding obs_alloc
  obs_alloc-Balanced m x size r h = obs_alloc_aligned-Balanced m x size 8 r h

  pub alloc_slots-Balanced :
      (m : Measure) (x slots : ℕ) (r : Rec)
      → Balanced m x r
      → Balanced m (x + weight_of m (alloc_slots malloc slots r).1) (alloc_slots malloc slots r).2
  unfolding alloc_slots
  alloc_slots-Balanced m x slots r h =
      if_cases {A = Bool × Option Block × Rec} (λ t. Balanced m (x + weight_of m t.1) t.2)
        (slots == 0) _ _ (λ _. Balanced-of m r (omega arith) h) (λ _. obs_alloc-Balanced m x _ r h)

  -- A missing array of pointers that is no failure is one of no slots.
  pub alloc_slots-none :
      (slots : ℕ) (r : Rec)
      → (alloc_slots malloc slots r).0 ≡ true
      → (alloc_slots malloc slots r).1 ≡ none
      → slots ≡ 0
  unfolding alloc_slots
  alloc_slots-none slots r room e = elim (Bool-cases (slots == 0)) [
    | inl z ↦ (==_iff slots 0).0 z
    | inr z ↦ absurd (ground arith)
  ]

  -- A failure gives no block.
  pub alloc_slots-fails :
      (m : Measure) (slots : ℕ) (r : Rec)
      → (alloc_slots malloc slots r).0 ≡ false
      → weight_of m (alloc_slots malloc slots r).1 ≡ 0
  unfolding alloc_slots
  alloc_slots-fails m slots r refusal = elim (Bool-cases (slots == 0)) [
    | inl z ↦ simp z refl
    | inr z ↦ ground arith
  ]
