-- ===== src/Accounts/Build/Array.antt =====
-- What `build_array` allocates is held by the array that it returns, finished or not.
use arrow_abi_doctor.Base.{
  ℕ, zero, suc, ◌+◌, ◌-◌, ◌≡◌, refl, arith, List, Bool, true, false, Option, none, some, length,
  elim_cases, elim_test,
}
use arrow_abi_doctor.Model.{
  ArrayFields, AbiArrayNode, ArrayChildren, ArrayDictionary, array_node, array_count,
}
use arrow_abi_doctor.Reconstruct.Observer.{Block, Rec, obs_alloc}
use arrow_abi_doctor.Reconstruct.Structs.{ArrowArray, ArraySlots, ArrayLink, null_arrays}
use arrow_abi_doctor.Reconstruct.Build.{
  priv_size, array_size, alloc_slots, priv_in, max_u32, child_path, index_leaf, dict_leaf,
}
use arrow_abi_doctor.Reconstruct.Build.Array.{
  Begun, begin_array, array_array, build_array, build_array_slots, build_array_dictionary,
}
use arrow_abi_doctor.Accounts.{
  Measure, weight, weight_of, Balanced, array_holds, array_array_holds, array_slots_hold,
  array_link_holds,
}
use arrow_abi_doctor.Accounts.Release.{Balanced-of}
use arrow_abi_doctor.Accounts.Build.{
  obs_alloc-Balanced, alloc_slots-Balanced, alloc_slots-none, alloc_slots-fails,
}

module _ (malloc : ℕ → ℕ → Option ℕ) where
  begin_array-Balanced :
      (m : Measure) (x : ℕ) (f : ArrayFields) (b : Block) (root : Bool) (path : List ℕ) (r : Rec)
      → Balanced m (x + weight m b) r
      → let s = begin_array malloc f (priv_in b root path) r in
        Balanced m (x + (weight m s.priv.block + weight_of m s.body.buffers)) s.rec
  unfolding begin_array
  begin_array-Balanced m x f b root path r h =
      let slots = max_u32 f.n_buffers (length f.buffers) in
      let a = alloc_slots malloc slots r in
      let h₁ = alloc_slots-Balanced malloc m _ slots r h in
      elim_test
        (λ (s : Begun). Balanced m (x + (weight m s.priv.block + weight_of m s.body.buffers)) s.rec)
        a.0 _ _
        (λ refusal. Balanced-of m _ (omega (arith, alloc_slots-fails malloc m slots r refusal)) h₁)
        (λ _. Balanced-of m _ (omega arith) h₁)

pub null_arrays-hold : (m : Measure) (n : ℕ) → array_slots_hold m (null_arrays n) ≡ 0
unfolding null_arrays array_slots_hold
null_arrays-hold m zero = refl
null_arrays-hold m (suc n) = null_arrays-hold m n

-- The result of `build_array`: what the structure holds is all that was allocated for it.
abbrev pub BuildsArray : Measure → ℕ → Bool × ArrowArray × Rec → Type 0
BuildsArray m x t = Balanced m (x + array_holds m t.1) t.2

abbrev BuildsSlots : Measure → ℕ → Bool × ArraySlots × Rec → Type 0
BuildsSlots m x t = Balanced m (x + array_slots_hold m t.1) t.2

abbrev BuildsLink : Measure → ℕ → Bool × ArrayLink × Rec → Type 0
BuildsLink m x t = Balanced m (x + array_link_holds m t.1) t.2

array_array-holds :
    (m : Measure) (a : Option Block) (slots : ArraySlots)
    → (a ≡ none → array_slots_hold m slots ≡ 0)
    → array_array_holds m (array_array a slots) ≡ weight_of m a + array_slots_hold m slots
unfolding array_array_holds
array_array-holds m none slots h = omega (arith, h refl)
array_array-holds m (some b) slots h = refl

module _ (malloc : ℕ → ℕ → Option ℕ) where
  no_array_slots-hold :
      (m : Measure) (path : List ℕ) (n : ℕ) (cs : ArrayChildren) (r r' : Rec)
      → let slots = max_u32 n (array_count cs) in
        (alloc_slots malloc slots r).0 ≡ true
        → (alloc_slots malloc slots r).1 ≡ none
        → array_slots_hold m (build_array_slots malloc path 0 slots cs r').1 ≡ 0
  unfolding build_array_slots
  no_array_slots-hold m path n ArrayChildren.nil r r' room e = null_arrays-hold m _
  no_array_slots-hold m path n (ArrayChildren.cons c cs) r r' room e =
      let z = alloc_slots-none malloc (max_u32 n (array_count cs + 1)) r room e in
      absurd (ground arith)

module _ (malloc : ℕ → ℕ → Option ℕ) where
  mutual
    unfolding build_array build_array_slots build_array_dictionary array_holds array_array_holds
        array_slots_hold array_link_holds

    pub build_array-holds :
        (m : Measure) (x : ℕ) (path : List ℕ) (root : Bool) (n : AbiArrayNode) (r : Rec)
        → Balanced m x r
        → BuildsArray m x (build_array malloc path root n r)
    build_array-holds m x path root (array_node f cs d) r h =
        let h₀ = obs_alloc-Balanced malloc m x priv_size r h in
        elim_cases (BuildsArray m x) (obs_alloc malloc priv_size r).0 _ _
          (λ e. Balanced-of m _ (ground arith) h₀)
          λ b e.
            let s = begin_array malloc f (priv_in b root path) (obs_alloc malloc priv_size r).1 in
            let h₁ =
              begin_array-Balanced malloc m x f b root path _ (Balanced-of m _ (ground arith) h₀) in
            let slots = max_u32 f.n_children (array_count cs) in
            let h₂ = alloc_slots-Balanced malloc m _ slots s.rec h₁ in
            let a = alloc_slots malloc slots s.rec in
            let h₃ = build_array_slots-holds m _ path 0 slots cs a.2 h₂ in
            let ss = build_array_slots malloc path 0 slots cs a.2 in
            let h₄ = build_array_dictionary-holds m _ path d ss.2 h₃ in
            elim_test (BuildsArray m x) s.good _ _ (λ _. Balanced-of m _ (omega arith) h₁)
              λ _.
                elim_test (BuildsArray m x) a.0 _ _
                  (λ refusal.
                    Balanced-of m _ (omega (arith, alloc_slots-fails malloc m slots s.rec refusal))
                      h₂)
                  λ room.
                    let sum =
                      array_array-holds m a.1 ss.1
                        (no_array_slots-hold malloc m path f.n_children cs s.rec a.2 room) in
                    elim_test (BuildsArray m x) ss.0 _ _
                      (λ _. Balanced-of m _ (omega (arith, sum)) h₃)
                      (λ _. Balanced-of m _ (omega (arith, sum)) h₄)

    build_array_slots-holds :
        (m : Measure) (x : ℕ) (path : List ℕ) (i left : ℕ) (ns : ArrayChildren) (r : Rec)
        → Balanced m x r
        → BuildsSlots m x (build_array_slots malloc path i left ns r)
    build_array_slots-holds m x path i left ArrayChildren.nil r h =
        Balanced-of m r (omega (arith, null_arrays-hold m left)) h
    build_array_slots-holds m x path i left (ArrayChildren.cons n ns) r h =
        let h₀ = obs_alloc-Balanced malloc m x array_size r h in
        elim_cases (BuildsSlots m x) (obs_alloc malloc array_size r).0 _ _
          (λ e. Balanced-of m _ (ground (arith, null_arrays-hold m left)) h₀)
          λ b e.
            let r₀ = (obs_alloc malloc array_size r).1 in
            let sub = child_path path (index_leaf i) in
            let h₁ =
              build_array-holds m (x + weight m b) sub false n r₀
                (Balanced-of m _ (ground arith) h₀) in
            let c = build_array malloc sub false n r₀ in
            let h₂ = build_array_slots-holds m _ path (suc i) (left - 1) ns c.2 h₁ in
            elim_test (BuildsSlots m x) c.0 _ _
              (λ _. Balanced-of m _ (omega (arith, null_arrays-hold m (left - 1))) h₁)
              (λ _. Balanced-of m _ (omega arith) h₂)

    build_array_dictionary-holds :
        (m : Measure) (x : ℕ) (path : List ℕ) (d : ArrayDictionary) (r : Rec)
        → Balanced m x r
        → BuildsLink m x (build_array_dictionary malloc path d r)
    build_array_dictionary-holds m x path ArrayDictionary.absent r h =
        Balanced-of m r (omega arith) h
    build_array_dictionary-holds m x path (ArrayDictionary.present n) r h =
        let h₀ = obs_alloc-Balanced malloc m x array_size r h in
        elim_cases (BuildsLink m x) (obs_alloc malloc array_size r).0 _ _
          (λ e. Balanced-of m _ (ground arith) h₀)
          (λ b e.
            let r₀ = (obs_alloc malloc array_size r).1 in
            Balanced-of m _ (omega arith) (
              build_array-holds m (x + weight m b) (child_path path dict_leaf) false n r₀
                (Balanced-of m _ (ground arith) h₀)))
