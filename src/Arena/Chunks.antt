-- ===== src/Arena/Chunks.antt =====
-- What libabi/src/arena.c hands out overlaps nothing that it handed out before.
use arrow_abi_doctor.Base.{
  ℕ, suc, zero, ◌+◌, ◌-◌, ◌*◌, ◌^◌, ◌<◌, ◌≤◌, ◌≡◌, refl, ◌∙◌, ◌⊎◌, inl, inr, sym, ap, arith, List,
  [], ◌∷◌, Option, none, some, ltb, not, ◌==◌, if◌then◌else◌, if_cases, elim_cases, ◌/◌,
}
use mathlib.Core.Path.{subst}
use native.Mathlib.Nat.{pow-le-pow_right, pow-succ', mul_assoc, mul-suc}
use arrow_abi_doctor.Base.Masks.{pow-pos, round_up-bounds}
use arrow_abi_doctor.Arena.{
  AbiArenaChunk, AbiArena, next_off, from_head, chunk_capacity, add_chunk, alloc_aligned,
  abi_arena_alloc, abi_is_pow2, chunk_size, min_chunk,
}

-- `n` bytes at `at`.
pub record Span : Type 0 where
  pub at : ℕ
  pub n : ℕ

abbrev pub Apart : Span → Span → Type 0
Apart s t = (s.at + s.n ≤ t.at) ⊎ (t.at + t.n ≤ s.at)

abbrev pub whole : AbiArenaChunk → Span
whole c = record { at = c.data_at; n = c.capacity }

-- Inside what the chunk has given.
abbrev pub Given : Span → AbiArenaChunk → Type 0
Given s c = (c.data_at ≤ s.at) × (s.at + s.n ≤ c.data_at + c.used)

-- Inside what some chunk has given.
unfoldable pub Held : Span → List AbiArenaChunk → Type 0
Held s [] = ⊥
Held s (c ∷ cs) = Given s c ⊎ Held s cs

-- Beside every chunk.
unfoldable pub Beside : Span → List AbiArenaChunk → Type 0
Beside s [] = Unit
Beside s (c ∷ cs) = Apart s (whole c) × Beside s cs

-- Every chunk has given at most what it has, and no two overlap.
unfoldable pub IsLaidOut : List AbiArenaChunk → Type 0
unfolding Beside
IsLaidOut [] = Unit
IsLaidOut (c ∷ cs) =
    (c.used ≤ c.capacity) × (c.capacity ≤ 2 ^ 63) × Beside (whole c) cs × IsLaidOut cs

-- What is held is apart from a span beside the chunks, and from all inside that.
Held-Apart :
    (s t : Span) (cs : List AbiArenaChunk) (at n : ℕ)
    → IsLaidOut cs
    → Held s cs
    → Beside t cs
    → t.at ≤ at
    → at + n ≤ t.at + t.n
    → Apart s (record { at = at; n = n })
unfolding IsLaidOut Held Beside
Held-Apart s t [] at n w h b p q = elim h [ ]
Held-Apart s t (c ∷ cs) at n (u, _, _, _) (inl g) (inl b, _) p q = inr (omega arith)
Held-Apart s t (c ∷ cs) at n (u, _, _, _) (inl g) (inr b, _) p q = inl (omega arith)
Held-Apart s t (c ∷ cs) at n (_, _, _, w) (inr h) (_, b) p q = Held-Apart s t cs at n w h b p q

-- What the arena gives: it is held from now on, what was held stays so, and the two are apart.
pub record Served (s : Span) (before after : List AbiArenaChunk) : Type 0 where
  pub laid_out : IsLaidOut after
  pub held : Held s after
  pub kept : (t : Span) → Held t before → Held t after
  pub apart : (t : Span) → Held t before → Apart t s

head_facts :
    (size align : ℕ) (c : AbiArenaChunk) (older : List AbiArenaChunk) (at : ℕ)
    (after : List AbiArenaChunk)
    → from_head size align (c ∷ older) ≡ some (at, after)
    → (next_off c.used align + size ≤ c.capacity)
      × (at ≡ c.data_at + next_off c.used align)
      × (after ≡ record c { used = next_off c.used align + size } ∷ older)
unfolding from_head
head_facts size align c older at after e = ground arith

from_head-Served :
    (size k : ℕ) (cs : List AbiArenaChunk) (at : ℕ) (after : List AbiArenaChunk)
    → k ≤ 63
    → IsLaidOut cs
    → from_head size (2 ^ k) cs ≡ some (at, after)
    → Served (record { at = at; n = size }) cs after
unfolding from_head IsLaidOut Held Beside
from_head-Served size k [] at after h w e = absurd (ground arith)
from_head-Served size k (c ∷ older) at after h (u, m, b, w) e =
    let off = next_off c.used (2 ^ k) in
    let small : 2 ^ k ≤ 2 ^ 63 = pow-le-pow_right (omega arith) h in
    let (_, above, below) = round_up-bounds k c.used (omega arith) (omega arith) in
    let (fits, here, then_) = head_facts size (2 ^ k) c older at after e in
    subst (Served (record { at = at; n = size }) (c ∷ older)) (sym then_) (record {
      laid_out = (omega arith, m, b, w);
      held = inl (omega arith, omega arith);
      kept = λ t given. elim given [ inl g ↦ inl (omega arith, omega arith) | inr o ↦ inr o ];
      apart = λ t given. elim given [
        | inl g ↦ inl (omega arith)
        | inr o ↦ Held-Apart t (whole c) older at size w o b (omega arith) (omega arith)
      ];
    })

-- A request for `size` bytes: when it succeeds, it has served them.
abbrev Serves : ℕ → List AbiArenaChunk → Option ℕ × AbiArena → Type 0
Serves size before (answer, a) =
    (at : ℕ) → answer ≡ some at → Served (record { at = at; n = size }) before a.chunks

-- `malloc` gives no byte of a chunk.
abbrev pub IsFresh : (ℕ → ℕ → Option ℕ) → AbiArena → Type 0
IsFresh malloc a =
    (n base : ℕ)
    → malloc (a.calls + 1) n ≡ some base
    → Beside (record { at = base; n = n }) a.chunks

add_chunk-Serves :
    (malloc : ℕ → ℕ → Option ℕ) (size n : ℕ) (a : AbiArena)
    → size ≤ n
    → n ≤ 2 ^ 63
    → IsLaidOut a.chunks
    → IsFresh malloc a
    → Serves size a.chunks (add_chunk malloc size n a)
unfolding add_chunk IsLaidOut Held Beside
add_chunk-Serves malloc size n a fits small w fresh =
    elim_cases (Serves size a.chunks) (malloc a.calls chunk_size) _ _ (λ _ at e. absurd (cc))
      λ ch _.
        elim_cases (Serves size a.chunks) (malloc (a.calls + 1) n) _ _ (λ _ at e. absurd (cc))
          λ base given at e.
            let here : base ≡ at = ground arith in
            record {
              laid_out = (fits, small, fresh n base given, w);
              held = inl (omega arith, omega arith);
              kept = λ t h. inr h;
              apart = λ t h.
                  Held-Apart t (record { at = base; n = n }) a.chunks at size w h
                    (fresh n base given) (omega arith) (omega arith);
            }

below : (n p : ℕ) → 0 < p → n ≤ n * p
below n zero h = absurd (omega arith)
below n (suc p) h = omega (arith, mul-suc n p)

-- A capacity is 2 ^ 63 after some doublings, so it stays below.
chunk_capacity-bounds :
    (fuel want n doublings got : ℕ)
    → n * 2 ^ doublings ≡ 2 ^ 63
    → chunk_capacity fuel want n ≡ some got
    → (want ≤ got) × (got ≤ 2 ^ 63)
unfolding chunk_capacity
chunk_capacity-bounds zero want n d got power e = absurd (ground arith)
chunk_capacity-bounds (suc fuel) want n zero got power e = ground arith
chunk_capacity-bounds (suc fuel) want n (suc d) got power e =
    let Bounded : Option ℕ → Type 0 = λ r. r ≡ some got → (want ≤ got) × (got ≤ 2 ^ 63) in
    let power' : n * 2 * 2 ^ d ≡ 2 ^ 63 =
      mul_assoc n 2 (2 ^ d) ∙ ap (λ (x : ℕ). n * x) (sym (pow-succ' 2 d)) ∙ power in
    if_cases Bounded (not (ltb n want)) _ _
      (λ b h. ground (arith, below n (2 ^ suc d) (pow-pos (suc d))))
      (λ b.
        if_cases Bounded (ltb ((2 ^ 64 - 1) / 2) n) _ _ (λ b' h. absurd (cc))
          (λ b' h. chunk_capacity-bounds fuel want (n * 2) d got power' h))
      e

alloc_aligned-Serves :
    (malloc : ℕ → ℕ → Option ℕ) (size k : ℕ) (a : AbiArena)
    → k ≤ 63
    → IsLaidOut a.chunks
    → IsFresh malloc a
    → Serves size a.chunks (alloc_aligned malloc size (2 ^ k) a)
unfolding alloc_aligned
alloc_aligned-Serves malloc size k a h w fresh =
    elim_cases (Serves size a.chunks) (from_head size (2 ^ k) a.chunks) _ _
      (λ _.
        if_cases (Serves size a.chunks) (ltb (2 ^ 64 - 1 - 2 ^ k) size) _ _ (λ _ at e. absurd (cc))
          λ _.
            elim_cases (Serves size a.chunks) (chunk_capacity 65 (size + 2 ^ k) min_chunk) _ _
              (λ _ at e. absurd (cc))
              (λ n got.
                let (enough, small) =
                  chunk_capacity-bounds 65 (size + 2 ^ k) min_chunk 51 n refl got in
                add_chunk-Serves malloc size n a (omega arith) small w fresh))
      (λ r given at e.
        let same : some r ≡ some (at, r.1) = ground arith in
        from_head-Served size k a.chunks at r.1 h w (given ∙ same))

-- An arena whose chunks do not overlap, and a `malloc` that gives no byte twice: the bytes that
-- abi_arena_alloc gives, one at least, for an alignment that is a power of two, lie in what a chunk has
-- given and overlap nothing that was given before; all that stays given, and the chunks stay laid out.
pub abi_arena_alloc-Served :
    (malloc : ℕ → ℕ → Option ℕ) (size k : ℕ) (a : AbiArena) (at : ℕ)
    → k ≤ 63
    → IsLaidOut a.chunks
    → IsFresh malloc a
    → (abi_arena_alloc malloc size (2 ^ k) a).0 ≡ some at
    → Served
        (record { at = at; n = if size == 0 then 1 else size })
        a.chunks
        (abi_arena_alloc malloc size (2 ^ k) a).1.chunks
unfolding abi_arena_alloc
abi_arena_alloc-Served malloc size k a at h w fresh e =
    let n : ℕ = if size == 0 then 1 else size in
    let same : (if 2 ^ k == 0 then 1 else 2 ^ k) ≡ 2 ^ k = ground (arith, pow-pos k) in
    let arrived : Serves n a.chunks
        (if not (abi_is_pow2 (2 ^ k)) then (none, a) else alloc_aligned malloc n (2 ^ k) a) =
      if_cases (Serves n a.chunks) (not (abi_is_pow2 (2 ^ k))) _ _ (λ _ at' e'. absurd (cc))
        (λ _. alloc_aligned-Serves malloc n k a h w fresh) in
    subst
      (λ (align : ℕ).
        Serves n a.chunks
          (if not (abi_is_pow2 align) then (none, a) else alloc_aligned malloc n align a))
      (sym same) arrived at e
