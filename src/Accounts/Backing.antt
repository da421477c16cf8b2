-- ===== src/Accounts/Backing.antt =====
-- The backing allocations of libabi/src/reconstruct.c are counted as they are made.
use arrow_abi_doctor.Base.{
  ℕ, ◌+◌, ◌*◌, ◌≤◌, ◌⊎◌, ==_iff, ◌≡◌, ◌∙◌, arith, List, [], ◌∷◌, ◌++◌, Bool, true, false, Option,
  none, some, length, ◌==◌, if◌then◌else◌, is_some, if_cases, elim_cases, inl, inr,
}
use arrow_abi_doctor.Model.{AbiAllocation}
use arrow_abi_doctor.Reconstruct.Observer.{Block, Rec, hdr_size, obs_alloc, obs_alloc_aligned}
use arrow_abi_doctor.Reconstruct.Build.{pointer_size}
use arrow_abi_doctor.Reconstruct.State.{new_rec}
use arrow_abi_doctor.Reconstruct.Lifetime.{alloc_each, alloc_backing}
use arrow_abi_doctor.Accounts.{Measure, bytes, blocks, weight, weights, Balanced}
use arrow_abi_doctor.Accounts.Release.{Balanced-of}
use arrow_abi_doctor.Accounts.Build.{obs_alloc_aligned-Balanced}

weights-append :
    (m : Measure) (bs : List Block) (b : Block)
    → weights m (bs ++ (b ∷ [])) ≡ weights m bs + weight m b
unfolding weights
weights-append m [] b = omega arith
weights-append m (c ∷ bs) b = omega (arith, weights-append m bs b)

keep-Balanced :
    (m : Measure) (x : ℕ) (b : Block) (r : Rec)
    → r.buffers_freed ≡ false
    → Balanced m (x + weight m b) r
    → Balanced m x (record r { allocations = r.allocations ++ (b ∷ []) })
keep-Balanced bytes x b r e h = ground (arith, weights-append bytes r.allocations b)
keep-Balanced blocks x b r e h = ground (arith, weights-append blocks r.allocations b)

module _ (malloc : ℕ → ℕ → Option ℕ) (little : Bool) where
  obs_alloc_aligned-buffers_freed :
      (size align : ℕ) (r : Rec)
      → (obs_alloc_aligned malloc size align r).1.buffers_freed ≡ r.buffers_freed
  unfolding obs_alloc_aligned
  obs_alloc_aligned-buffers_freed size align r = ground arith

  obs_alloc-buffers_freed :
      (size : ℕ) (r : Rec) → (obs_alloc malloc size r).1.buffers_freed ≡ r.buffers_freed
  unfolding obs_alloc
  obs_alloc-buffers_freed size r = obs_alloc_aligned-buffers_freed size 8 r

  alloc_each-Balanced :
      (m : Measure) (x : ℕ) (allocs : List AbiAllocation) (r : Rec)
      → r.buffers_freed ≡ false
      → Balanced m x r
      → Balanced m x (alloc_each malloc little allocs r).1
  unfolding alloc_each
  alloc_each-Balanced m x [] r e h = h
  alloc_each-Balanced m x (a ∷ rest) r e h =
      let size = if a.size_bytes == 0 then 1 else a.size_bytes in
      let h₁ = obs_alloc_aligned-Balanced malloc m x size a.alignment r h in
      let e₁ = obs_alloc_aligned-buffers_freed size a.alignment r ∙ e in
      elim_cases {B = Bool × Rec} (λ t. Balanced m x t.1)
        (obs_alloc_aligned malloc size a.alignment r).0 _ _ (λ n. Balanced-of m _ (ground arith) h₁)
        (λ b n.
          alloc_each-Balanced m x rest _ e₁
            (keep-Balanced m x b _ e₁ (Balanced-of m _ (ground arith) h₁)))

  -- The array of pointers of a new reconstruction, once it is there.
  first_block-Balanced :
      (m : Measure) (size n : ℕ) (b : Block)
      → let r = record new_rec { alloc_count = n } in
        (obs_alloc malloc size r).0 ≡ some b
        → Balanced m 0 (record (obs_alloc malloc size r).1 { alloc_data = some b })
  unfolding obs_alloc obs_alloc_aligned weights
  first_block-Balanced bytes size n b e = ground arith
  first_block-Balanced blocks size n b e = ground arith

empty-Balanced : (m : Measure) (n : ℕ) → n ≡ 0 → Balanced m 0 (record new_rec { alloc_count = n })
unfolding weights
empty-Balanced bytes n e = ground arith
empty-Balanced blocks n e = ground arith

-- The array of pointers to the allocations could be had, if there are any.
abbrev pub HasPointers : (ℕ → ℕ → Option ℕ) → List AbiAllocation → Type 0
HasPointers malloc allocs =
    (length allocs ≡ 0)
    ⊎ ((length allocs ≤ 4096)
        × (is_some (malloc 0 (length allocs * pointer_size + 8 + hdr_size)) ≡ true))

module _ (malloc : ℕ → ℕ → Option ℕ) (little : Bool) where
  no_pointers :
      (allocs : List AbiAllocation)
      → (length allocs == 0) ≡ false
      → HasPointers malloc allocs
      → (obs_alloc malloc
          (length allocs * pointer_size)
          (record new_rec { alloc_count = length allocs })).0
        ≡ none
      → ⊥
  unfolding obs_alloc obs_alloc_aligned
  no_pointers allocs ne (inl z) e = ground arith
  no_pointers allocs ne (inr (small, some_block)) e = ground arith

  abbrev pub Backs : Measure → List AbiAllocation → Bool × Rec → Type 0
  Backs m allocs t = (t.0 ≡ true) ⊎ HasPointers malloc allocs → Balanced m 0 t.1

  pub alloc_backing-Backs :
      (m : Measure) (allocs : List AbiAllocation)
      → Backs m allocs (alloc_backing malloc little allocs new_rec)
  unfolding alloc_backing weights
  alloc_backing-Backs m allocs =
      if_cases (Backs m allocs) (length allocs == 0) _ _
        (λ z _. empty-Balanced m (length allocs) ((==_iff (length allocs) 0).0 z))
        λ ne.
          let r₀ = record new_rec { alloc_count = length allocs } in
          elim_cases (Backs m allocs) (obs_alloc malloc (length allocs * pointer_size) r₀).0 _ _
            (λ e h. elim h [ inl t ↦ absurd (cc) | inr g ↦ absurd (no_pointers allocs ne g e) ])
            (λ b e _.
              alloc_each-Balanced malloc little m 0 allocs _
                (obs_alloc-buffers_freed malloc little _ r₀)
                (first_block-Balanced malloc little m (length allocs * pointer_size) (length allocs)
                  b e))
