-- ===== src/Builder/Limits.antt =====
-- What the calls of the builder of libabi/src/case.c keep: vectors within their memory and the limits.
use arrow_abi_doctor.Base.{
  ℕ, zero, suc, ◌*◌, ◌^◌, ◌<◌, ◌≤◌, ◌≡◌, refl, ap, arith, List, [], ◌∷◌, Bool, true, Option, none,
  some, length, length-append, get_elem?, All, is_some, ltb, leb, if_cases,
}
use mathlib.Core.Path.{subst}
use arrow_abi_doctor.Model.{
  AbiAllocation, AbiBufferView, AbiOp, limit_alloc_count, limit_alloc_bytes, limit_alignment,
  limit_op_count, limit_tree_nodes, op_max, role_max,
}
use arrow_abi_doctor.Validate.{abi_is_pow2_u32}
use arrow_abi_doctor.Arena.{AbiArena, abi_arena_alloc}
use arrow_abi_doctor.Builder.{
  AbiVec, push, SchemaCell, ArrayCell, Builder, update_at, abi_vec_grow, next_capacity,
}

-- A vector holds no more than it has memory for, and has memory for no more than its limit.
abbrev pub IsVec {ℓ} : {A : Type ℓ} → ℕ → AbiVec A → Type 0
IsVec limit v = (length v.items ≤ v.capacity) × (v.capacity ≤ limit)

-- A vector grown: the items stay, and on success there is a place for one more.
abbrev pub Grown {ℓ} : {A : Type ℓ} → ℕ → AbiVec A → Bool × AbiVec A × AbiArena → Type ℓ
Grown limit v (good, v', a) =
    (v'.items ≡ v.items) × IsVec limit v' × (good ≡ true → length v.items < v'.capacity)

next_capacity-bounds :
    (limit n count : ℕ)
    → limit < 2 ^ 31
    → n ≤ limit
    → n ≤ count
    → count ≤ n
    → count < limit
    → (count < next_capacity limit n) × (next_capacity limit n ≤ limit)
next_capacity-bounds limit n count h w p q less = ground arith

pub abi_vec_grow-Grown {ℓ} :
    {A : Type ℓ} (malloc : ℕ → ℕ → Option ℕ) (elem align limit : ℕ) (v : AbiVec A) (a : AbiArena)
    → limit < 2 ^ 31
    → IsVec limit v
    → Grown limit v (abi_vec_grow malloc elem align limit v a)
unfolding abi_vec_grow
abi_vec_grow-Grown malloc elem align limit v a h (w, w') =
    let n = next_capacity limit v.capacity in
    let answer = abi_arena_alloc malloc (elem * n) align a in
    if_cases (Grown limit v) (ltb (length v.items) v.capacity) _ _
      (λ room. (refl, (w, w'), λ _. ground arith))
      λ full.
        if_cases (Grown limit v) (leb limit (length v.items)) _ _
          (λ _. (refl, (w, w'), λ e. absurd (cc)))
          λ less.
            let (more, within) =
              next_capacity-bounds limit v.capacity (length v.items) h w' (ground arith) w
                (ground arith) in
            if_cases (Grown limit v) (is_some answer.0) _ _
              (λ _. (refl, (omega arith, within), λ _. more))
              (λ _. (refl, (w, w'), λ e. absurd (cc)))

pub push-IsVec {ℓ} :
    {A : Type ℓ} (limit : ℕ) (x : A) (v : AbiVec A)
    → length v.items < v.capacity
    → v.capacity ≤ limit
    → IsVec limit (push x v)
push-IsVec limit x v h w = (omega (arith, length-append v.items (x ∷ []), h), w)

pub All-update {ℓ κ} :
    {A : Type ℓ} (P : A → Type κ) (f : A → A) (i : ℕ) (xs : List A)
    → ((x : A) → P x → P (f x))
    → All P xs
    → All P (update_at i f xs)
unfolding update_at
All-update P f i [] keep h = h
All-update P f zero (x ∷ xs) keep (hx, h) = (keep x hx, h)
All-update P f (suc i) (x ∷ xs) keep (hx, h) = (hx, All-update P f i xs keep h)

pub All-get {ℓ κ} :
    {A : Type ℓ} (P : A → Type κ) (i : ℕ) (xs : List A) (x : A)
    → All P xs
    → get_elem? xs i ≡ some x
    → P x
All-get P i [] x h e = absurd (cc)
All-get P zero (y ∷ xs) x (hy, h) e =
    subst P (ap (λ (o : Option _). elim o [ none ↦ y | some z ↦ z ]) e) hy
All-get P (suc i) (y ∷ xs) x (hy, h) e = All-get P i xs x h e

abbrev pub IsAllocation : AbiAllocation → Type 0
IsAllocation a =
    (a.size_bytes ≤ limit_alloc_bytes)
    × (a.alignment ≤ limit_alignment)
    × (abi_is_pow2_u32 a.alignment ≡ true)

abbrev pub IsSchemaCell : SchemaCell → Type 0
IsSchemaCell n = IsVec limit_tree_nodes n.metadata × IsVec limit_tree_nodes n.children

abbrev pub IsArrayCell : ArrayCell → Type 0
IsArrayCell n =
    IsVec limit_tree_nodes n.buffers
    × All (λ (v : AbiBufferView). v.role ≤ role_max) n.buffers.items
    × IsVec limit_tree_nodes n.children

-- At most 4096 allocations of at most 16 MiB, aligned to a power of two up to 4096; at most 4096
-- operations of known codes; at most 4096 metadata pairs, children and views of known roles in a node.
unfoldable pub AreBounded :
    AbiVec AbiAllocation → AbiVec AbiOp → List SchemaCell → List ArrayCell → Type 0
AreBounded allocations ops schemas arrays =
    (IsVec limit_alloc_count allocations × All IsAllocation allocations.items)
    × (IsVec limit_op_count ops × All (λ (op : AbiOp). op.code ≤ op_max) ops.items)
    × All IsSchemaCell schemas
    × All IsArrayCell arrays

abbrev pub IsBounded : Builder → Type 0
IsBounded b = AreBounded b.allocations b.ops b.schemas b.arrays
