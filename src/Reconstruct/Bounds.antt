-- ===== src/Reconstruct/Bounds.antt =====
-- The blocks of libabi/src/reconstruct.c lie inside what `malloc` gave, aligned as asked.
use arrow_abi_doctor.Base.{ℕ, ◌+◌, ◌%◌, ◌^◌, ◌<◌, ◌≤◌, ◌≡◌, arith, Option, some}
use arrow_abi_doctor.Base.Masks.{pow-pos, round_up-bounds}
use arrow_abi_doctor.Reconstruct.Observer.{Block, Rec, hdr_size, aligned_at, obs_alloc_aligned}

where_placed :
    (malloc : ℕ → ℕ → Option ℕ) (size align : ℕ) (r : Rec) (b : Block)
    → 0 < align
    → (obs_alloc_aligned malloc size align r).0 ≡ some b
    → (malloc r.mallocs (size + align + hdr_size) ≡ some b.base)
      × (b.addr ≡ aligned_at align (b.base + hdr_size))
unfolding obs_alloc_aligned
where_placed malloc size align r b pos e = ground arith

-- A block that is handed out is aligned, its header fits in front of it and its bytes behind it, inside
-- the bytes that `malloc` gave. The alignment is a power of two, and what `malloc` gives ends within the
-- address space.
pub obs_alloc_aligned-bounds :
    (malloc : ℕ → ℕ → Option ℕ) (size k : ℕ) (r : Rec) (b : Block)
    → k < 64
    → ((base : ℕ)
        → malloc r.mallocs (size + 2 ^ k + hdr_size) ≡ some base
        → base + (size + 2 ^ k + hdr_size) ≤ 2 ^ 64)
    → (obs_alloc_aligned malloc size (2 ^ k) r).0 ≡ some b
    → (malloc r.mallocs (size + 2 ^ k + hdr_size) ≡ some b.base)
      × (b.addr % 2 ^ k ≡ 0)
      × (b.base + hdr_size ≤ b.addr)
      × (b.addr + size ≤ b.base + (size + 2 ^ k + hdr_size))
obs_alloc_aligned-bounds malloc size k r b h space e =
    let (given, at) = where_placed malloc size (2 ^ k) r b (pow-pos k) e in
    let (aligned, above, below) =
      round_up-bounds k (b.base + hdr_size) (omega arith) (omega (arith, space b.base given)) in
    (given, rw at aligned, omega (arith, at, above), omega (arith, at, below))
