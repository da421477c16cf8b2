-- ===== src/Reconstruct/Observer.antt =====
-- The observer of libabi/include/abi/reconstruct.h and the instrumented allocator of
-- libabi/src/reconstruct.c. A path is the bytes before its NUL, a flag is a Bool, and `event_count` is
-- the length of `events`.
use arrow_abi_doctor.Base.{
  ℕ, ◌+◌, ◌-◌, ◌%◌, ◌^◌, List, [], ◌∷◌, ◌++◌, Bool, Option, none, some, length, take, ltb, leb,
  ◌==◌, if◌then◌else◌, bit_and,
}

pub data AbiEventKind : Type 0 where
  schema_exported : AbiEventKind
  array_exported : AbiEventKind
  schema_release_enter : AbiEventKind
  schema_release_exit : AbiEventKind
  array_release_enter : AbiEventKind
  array_release_exit : AbiEventKind
  violation_child_released_by_consumer : AbiEventKind
  harness_released : AbiEventKind
  schema_moved : AbiEventKind
  array_moved : AbiEventKind
  schema_imported : AbiEventKind
  array_imported : AbiEventKind
  schema_returned : AbiEventKind
  array_returned : AbiEventKind
  stream_exported : AbiEventKind
  stream_moved : AbiEventKind
  stream_imported : AbiEventKind
  stream_returned : AbiEventKind
  stream_release_enter : AbiEventKind
  stream_release_exit : AbiEventKind
  stream_eof : AbiEventKind

pub record AbiEvent : Type 0 where
  pub seq : ℕ
  pub kind : AbiEventKind
  pub depth : ℕ
  pub by_consumer : Bool
  pub path : List ℕ
  pub addr : ℕ

pub record AbiAllocStats : Type 0 where
  pub bytes_allocated : ℕ
  pub bytes_freed : ℕ
  pub blocks_allocated : ℕ
  pub blocks_freed : ℕ

pub record AbiObserver : Type 0 where
  pub events : List AbiEvent
  pub events_dropped : ℕ
  pub next_seq : ℕ
  pub alloc : AbiAllocStats
  pub release_depth : ℕ
  pub violations : ℕ

-- ABI_EVENT_PATH_MAX and ABI_MAX_EVENTS.
abbrev pub event_path_max : ℕ
event_path_max = 24

abbrev pub max_events : ℕ
max_events = 1024

-- A block that was handed out, with the AbiAllocHdr in front of it: the address of the first byte,
-- what `malloc` returned, and the size.
pub record Block : Type 0 where
  pub addr : ℕ
  pub base : ℕ
  pub size : ℕ
  pub magic : ℕ

abbrev pub alloc_magic : ℕ
alloc_magic = 0xAB1CA5E0D0C704

-- What the callbacks read and write of an AbiReconstruction, and the calls of `malloc` so far.
pub record Rec : Type 0 where
  -- The array of `alloc_count` pointers, and those in it that are not NULL.
  pub alloc_data : Option Block
  pub allocations : List Block
  pub alloc_count : ℕ
  pub buffers_freed : Bool
  pub harness_releasing : Bool
  pub obs : AbiObserver
  pub mallocs : ℕ
  -- Whether the code has read through a NULL pointer, which the process does not survive.
  pub null_read : Bool

-- The body of `obs_event`.
unfoldable pub note : AbiEventKind → List ℕ → Bool → ℕ → AbiObserver → AbiObserver
note kind path by_consumer addr o =
    if leb max_events (length o.events)
    then record o { events_dropped = (o.events_dropped + 1) % 2 ^ 32 }
    else record o {
      events =
          o.events
          ++ (record {
            seq = o.next_seq;
            kind = kind;
            depth = o.release_depth % 256;
            by_consumer = by_consumer;
            path = take (event_path_max - 1) path;
            addr = addr;
          }
              ∷ []);
      next_seq = (o.next_seq + 1) % 2 ^ 32;
    }

unfoldable pub obs_event : AbiEventKind → List ℕ → Bool → ℕ → Rec → Rec
unfolding note
obs_event kind path by_consumer addr r = record r { obs = note kind path by_consumer addr r.obs }

-- `r->obs.release_depth++` and `--`.
abbrev pub deeper : Rec → Rec
deeper r = record r { obs = record r.obs { release_depth = (r.obs.release_depth + 1) % 2 ^ 32 } }

abbrev pub shallower : Rec → Rec
shallower r = record r {
  obs = record r.obs { release_depth = (r.obs.release_depth + 2 ^ 32 - 1) % 2 ^ 32 };
}

-- `sizeof(AbiAllocHdr)`
abbrev pub hdr_size : ℕ
hdr_size = 24

abbrev pub counted : ℕ → AbiAllocStats → AbiAllocStats
counted size s = record s {
  bytes_allocated = (s.bytes_allocated + size) % 2 ^ 64;
  blocks_allocated = (s.blocks_allocated + 1) % 2 ^ 64;
}

abbrev pub uncounted : ℕ → AbiAllocStats → AbiAllocStats
uncounted size s = record s {
  bytes_freed = (s.bytes_freed + size) % 2 ^ 64;
  blocks_freed = (s.blocks_freed + 1) % 2 ^ 64;
}

-- `(start + align - 1) & ~(align - 1)`; the complement in 64 bits is `2 ^ 64 - align`.
abbrev pub aligned_at : ℕ → ℕ → ℕ
aligned_at align start = bit_and (start + align - 1) (2 ^ 64 - align)

-- `malloc` answers its call of a number for a size.
module _ (malloc : ℕ → ℕ → Option ℕ) where
  unfoldable pub obs_alloc_aligned : ℕ → ℕ → Rec → Option Block × Rec
  obs_alloc_aligned size alignment r =
      let align : ℕ = if alignment == 0 then 1 else alignment in
      if ltb (2 ^ 64 - 1 - align - hdr_size) size
      then (none, r)
      else elim (malloc r.mallocs (size + align + hdr_size)) [
        | none ↦ (none, record r { mallocs = r.mallocs + 1 })
        | some base ↦ (
          some (record {
            addr = aligned_at align (base + hdr_size);
            base = base;
            size = size;
            magic = alloc_magic;
          }),
          record r {
            obs = record r.obs { alloc = counted size r.obs.alloc };
            mallocs = r.mallocs + 1;
          },
        )
      ]

  -- The block is zeroed, so what is stored in it starts as NULL.
  unfoldable pub obs_alloc : ℕ → Rec → Option Block × Rec
  unfolding obs_alloc_aligned
  obs_alloc size r = obs_alloc_aligned size 8 r

-- NULL is `none`.
unfoldable pub obs_free : Option Block → Rec → Rec
obs_free none r = r
obs_free (some b) r =
    if b.magic == alloc_magic
    then record r { obs = record r.obs { alloc = uncounted b.size r.obs.alloc } }
    else r
