-- ===== src/Arena.antt =====
-- The arena of libabi/src/arena.c: chunks, newest first, from which memory is handed out upwards.
pub mod Chunks
use arrow_abi_doctor.Base.{
  ℕ, suc, zero, ◌+◌, ◌-◌, ◌*◌, ◌/◌, ◌%◌, ◌^◌, List, [], ◌∷◌, ◌&&◌, Bool, not, Option, none, some,
  ltb, leb, ◌==◌, bit_and, if◌then◌else◌,
}

pub record AbiArenaChunk : Type 0 where
  pub data_at : ℕ
  pub capacity : ℕ
  pub used : ℕ

-- The chunks from `head` on. `calls` counts the requests to the C library.
pub record AbiArena : Type 0 where
  pub chunks : List AbiArenaChunk
  pub used_total : ℕ
  pub calls : ℕ

-- Behind `abi_arena_new`.
abbrev pub new_arena : AbiArena
new_arena = record { chunks = []; used_total = 0; calls = 0 }

-- ABI_ARENA_MIN_CHUNK, and `sizeof(AbiArenaChunk)` on a 64-bit host.
abbrev pub min_chunk : ℕ
min_chunk = 4096

abbrev pub chunk_size : ℕ
chunk_size = 32

abbrev pub abi_is_pow2 : ℕ → Bool
abi_is_pow2 v = not (v == 0) && (bit_and v (v - 1) == 0)

-- `(used + align - 1) & ~(align - 1)`
abbrev pub next_off : ℕ → ℕ → ℕ
next_off used align = bit_and (used + align - 1) (2 ^ 64 - align)

-- The newest chunk gives the bytes when they fit behind what it has given: where, and the chunks.
unfoldable pub from_head : ℕ → ℕ → List AbiArenaChunk → Option (ℕ × List AbiArenaChunk)
from_head size align [] = none
from_head size align (c ∷ older) =
    let off = next_off c.used align in
    if leb off c.capacity && leb size (c.capacity - off)
    then some (c.data_at + off, record c { used = off + size } ∷ older)
    else none

-- `while (cap < want)`; `none` is the return of NULL.
unfoldable pub chunk_capacity : ℕ → ℕ → ℕ → Option ℕ
chunk_capacity zero want cap = none
chunk_capacity (suc fuel) want cap =
    let rest = chunk_capacity fuel want (cap * 2) in
    if not (ltb cap want) then some cap else if ltb ((2 ^ 64 - 1) / 2) cap then none else rest

-- `malloc` answers its call of a number for a size, as `calloc` does.
module _ (malloc : ℕ → ℕ → Option ℕ) where
  -- A chunk of `cap` bytes, of which the first `size` are given.
  unfoldable pub add_chunk : ℕ → ℕ → AbiArena → Option ℕ × AbiArena
  add_chunk size cap a = elim (malloc a.calls chunk_size) [
    | none ↦ (none, record a { calls = a.calls + 1 })
    | some ch ↦ elim (malloc (a.calls + 1) cap) [
      | none ↦ (none, record a { calls = a.calls + 2 })
      | some base ↦ (
        some base,
        record {
          chunks = record { data_at = base; capacity = cap; used = size } ∷ a.chunks;
          used_total = (a.used_total + size) % 2 ^ 64;
          calls = a.calls + 2;
        },
      )
    ]
  ]

  unfoldable pub alloc_aligned : ℕ → ℕ → AbiArena → Option ℕ × AbiArena
  unfolding from_head chunk_capacity add_chunk
  alloc_aligned size align a = elim (from_head size align a.chunks) [
    | some (at, chunks) ↦
        (some at, record a { chunks = chunks; used_total = (a.used_total + size) % 2 ^ 64 })
    | none ↦
        if ltb (2 ^ 64 - 1 - align) size
        then (none, a)
        else elim (chunk_capacity 65 (size + align) min_chunk) [
          | none ↦ (none, a)
          | some cap ↦ add_chunk size cap a
        ]
  ]

  -- A request for no bytes takes one.
  unfoldable pub abi_arena_alloc : ℕ → ℕ → AbiArena → Option ℕ × AbiArena
  unfolding alloc_aligned
  abi_arena_alloc size align a =
      let align' : ℕ = if align == 0 then 1 else align in
      if not (abi_is_pow2 align')
      then (none, a)
      else alloc_aligned (if size == 0 then 1 else size) align' a
