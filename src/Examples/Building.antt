-- ===== src/Examples/Building.antt =====
-- The arena and the builder at concrete inputs.
use arrow_abi_doctor.Base.{
  ◌≤◌, ◌<◌, ◌≡◌, true, false, min, ℕ, ◌+◌, ◌*◌, ◌^◌, refl, inr, arith, List, [], ◌∷◌, Option, none,
  some,
}
use arrow_abi_doctor.Arena.{
  AbiArenaChunk, AbiArena, abi_arena_alloc, alloc_aligned, from_head, chunk_capacity, add_chunk,
}
use arrow_abi_doctor.Arena.Chunks.{Served, IsLaidOut, Beside, IsFresh, abi_arena_alloc-Served}
use arrow_abi_doctor.Builder.{Builder, store_cstr, store_bytes, abi_arena_bytes}
use arrow_abi_doctor.Builder.Case.{abi_case_new, zeroed_case}
use arrow_abi_doctor.Builder.Limits.{IsBounded}
use arrow_abi_doctor.Builder.Calls.{Call, perform_all}
use arrow_abi_doctor.Builder.Bounded.{built-IsBounded}
use arrow_abi_doctor.Status.{limit_exceeded}
use arrow_abi_doctor.Model.{limit_total_size}
use arrow_abi_doctor.Builder.File.{abi_read_file, file_bytes, not_read, abi_read_file-Reads}

-- Every request is granted, each in a place of its own.
abbrev heap : ℕ → ℕ → Option ℕ
heap n size = some (67108864 * (n + 1))

abbrev chunk : AbiArenaChunk
chunk = record { data_at = 134217728; capacity = 4096; used = 100 }

abbrev arena : AbiArena
arena = record { chunks = chunk ∷ []; used_total = 100; calls = 2 }

arena_IsLaidOut : IsLaidOut arena.chunks
unfolding IsLaidOut Beside
arena_IsLaidOut = (omega arith, omega arith, tt, tt)

arena_IsFresh : IsFresh heap arena
unfolding Beside
arena_IsFresh n base e = (inr (ground arith), tt)

-- The request does not fit behind the 100 bytes, so a chunk of 8192 bytes is added.
abi_arena_alloc-Served_example :
    Served
      (record { at = 268435456; n = 5000 })
      arena.chunks
      (abi_arena_alloc heap 5000 (2 ^ 3) arena).1.chunks
unfolding abi_arena_alloc alloc_aligned from_head chunk_capacity add_chunk
abi_arena_alloc-Served_example =
    abi_arena_alloc-Served heap 5000 3 arena 268435456 (omega arith) arena_IsLaidOut arena_IsFresh
      refl

new_case : Builder
unfolding abi_case_new abi_arena_alloc alloc_aligned from_head chunk_capacity add_chunk store_cstr
    store_bytes abi_arena_bytes
new_case = elim (abi_case_new heap 0) [ none ↦ zeroed_case heap 0 arena | some b ↦ b ]

abbrev calls : List Call
calls =
    Call.add_allocation (some (1 ∷ 2 ∷ 3 ∷ 4 ∷ [])) 4 8
    ∷ Call.schema_new (some (105 ∷ []))
    ∷ Call.array_new
    ∷ Call.array_add_null_buffer 0 0
    ∷ Call.array_add_buffer 0 1 0 0 4
    ∷ Call.set_schema (some 0)
    ∷ Call.set_array (some 0)
    ∷ Call.add_op 1 0 0
    ∷ Call.add_op 99 0 0
    ∷ []

built-IsBounded_example : IsBounded (perform_all heap calls new_case)
unfolding new_case abi_case_new abi_arena_alloc alloc_aligned from_head chunk_capacity add_chunk
    store_cstr store_bytes abi_arena_bytes
built-IsBounded_example = built-IsBounded heap 0 calls new_case refl

-- A reader that gives one byte at a time.
abbrev one_byte : ℕ → ℕ → ℕ
one_byte room left = min (min room left) 1

abi_read_file-Reads_example :
    (3 ≤ limit_total_size
      → abi_read_file (λ n. true) one_byte false (7 ∷ 8 ∷ 9 ∷ []) ≡ file_bytes (7 ∷ 8 ∷ 9 ∷ []))
    × (limit_total_size < 3
        → abi_read_file (λ n. true) one_byte false (7 ∷ 8 ∷ 9 ∷ []) ≡ not_read limit_exceeded)
abi_read_file-Reads_example =
    abi_read_file-Reads (λ n. true) one_byte (λ n. refl)
      (λ room left. (ground arith, ground arith, λ p q. ground arith)) (7 ∷ 8 ∷ 9 ∷ [])
