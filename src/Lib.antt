-- ===== src/Lib.antt =====
-- arrow-abi-doctor: the `.abicase` library, libabi.
--
-- libabi stores a test case for the Arrow C Data Interface as a canonical byte string, the `.abicase`
-- file, validates it, makes live structures of it, hands those to a consumer by the case's call
-- sequence, and judges what the consumer did from an event log. The parts meet as follows: the encoder
-- and the decoder share the buffer, the cursor, the fill encodings and the digest; both run the
-- validation; the reconstruction builds the structures of a case and counts and logs what happens to
-- them; the executor drives it and the consumer; the lifecycle verdict reads the log.
--
-- Which file models what, by the paths of the repository:
--   Base               lists, Boolean tests and bits that the other files share
--   Bytes              libabi/src/abi_internal.h: abi_store_u16 to abi_u64_to_i64
--   Status, Model      libabi/include/abi/abicase.h: status codes and the data model
--   Buffer, Cursor     libabi/src/bytes.c: AbiBuf with its writers, AbiCur with its readers
--   Fill               libabi/src/fill.c: abi_fill_choose, abi_fill_write, abi_fill_read
--   Encode             libabi/src/encode.c: the section writers
--   Decode             libabi/src/decode.c: the section readers (Schema and Array for the trees)
--   Sha256             libabi/src/sha256.c: the digest
--   Validate           libabi/src/validate.c: abi_case_validate
--   Case               Write is abi_case_encode and the identities, Read is abi_case_decode
--   Arena              libabi/src/arena.c: abi_arena_alloc; Chunks is about what it gives
--   Builder            libabi/src/case.c: Case, Schema and Array are the calls on each; Calls are
--                      sequences of them, Limits, CaseCalls, SchemaCalls, ArrayCalls and Bounded what
--                      they keep; File is abi_read_file
--   Reconstruct        libabi/src/reconstruct.c. Observer: the log and the instrumented allocator, with
--                      libabi/include/abi/reconstruct.h. Structs: libabi/include/abi/arrow_abi.h.
--                      Release, Build, Export, Stream, Lifetime: the functions, in its order; Bounds
--   Accounts           the allocation counters of reconstruct.c against the blocks that are held
--   Callseq            libabi/src/callseq.c with libabi/include/abi/callseq.h: abi_callseq_run in Run,
--                      the operations in Ops and Stream; Trace, Fixed, Moves, Ending and Refusals are
--                      about the course of a run, what it keeps and what is live
--   NullConsumer       adapters/null/null_worker.c: the callbacks of the null consumer
--   Lifecycle          libabi/src/lifecycle.c: abi_lifecycle_verify; Blame and Discipline against the
--                      legal lives of a structure, Verdict against the list of all findings by
--                      libabi/include/abi/lifecycle.h
--   Format             docs/abicase-format.md: the bytes of every part, the specification
--   Examples           the properties at concrete inputs
-- Functions keep the names of the source without the prefix `abi_` where the file is about one part.
--
-- How the state corresponds. An AbiBuf is its written bytes, capacity and failure flag; a writer is a
-- function of it, and `then_write` is the source's `&&`. An AbiCur is its position, the bytes up to
-- `size` and the first error; a reader that may leave the function early is a step of the monad M,
-- and `value` is a load that goes on after a failure with zero, as the source does. AbiDec adds the
-- node and view budgets. A vector with its count is a list, a pointer that may be NULL an Option. A
-- 32-bit or 64-bit sum keeps its wrap-around where it can occur.
--
-- The builder's nodes are a store: a pointer to one is its number, so a node that is changed after it
-- was attached changes for its parent too. The case that the encoder and the reconstruction read is a
-- tree. An ArrowSchema or ArrowArray is a tree that owns its blocks. A block is the header that the
-- allocator writes in front of it; the bytes behind that are not kept. `release` and `private_data`, which are
-- set and cleared together, are one Option. A callback gets the address of its structure beside the
-- structure. `null_read` records a read through a NULL pointer, where the process would end. The
-- executor's memory is World: the reconstruction and where the base structures were moved; a consumer
-- is a record of callbacks over World and a state of its own. A reconstruction that failed is given
-- with what its cleanup has made of it.
--
-- What the C library decides is a parameter: `realloc` and `malloc` say whether a block of a size is
-- granted, in Reconstruct, Arena and Builder also where it is, by the number of the call; `calloc`
-- likewise; `fread` says how many bytes a call gives; `room` is where the reconstruction itself is put;
-- `arena` whether the case's arena gives so many bytes at a position, `fresh` whether a new case gets
-- its memory. An AbiBytes is never NULL. `little` is the host's byte order and `enabled` the build
-- option ABI_ENABLE_USE_AFTER_RELEASE. The host has 64-bit pointers.
--
-- Bounds and fuel. The capacity loop of abi_buf_reserve has 65 rounds: 64 doublings pass SIZE_MAX. The
-- tree readers have ABI_LIMIT_TREE_DEPTH + 1 levels, which end where the source reports the depth.
-- The capacity loop of abi_arena_alloc has 65 rounds, the loop of abi_read_file one more than the file
-- has bytes. The loop over whole blocks of SHA-256, the run scans and the run writer have as many
-- rounds as bytes. Building and releasing recurse on the trees and need no fuel.
--
-- Not modelled: the text of error messages, abi_buf_reset, abi_arena_free, the digest of imported
-- structures (digest.c), which reads the foreign memory behind the pointers;
-- abi_reconstruction_print_log, the opening and writing of files; the tools, the adapters other than
-- the null consumer, the coordinator and the vendored nanoarrow.
pub mod Base
pub mod Bytes
pub mod Status
pub mod Buffer
pub mod Cursor
pub mod Fill
pub mod Model
pub mod Format
pub mod Encode
pub mod Decode
pub mod Arena
pub mod Builder
pub mod Reconstruct
pub mod Accounts
pub mod Callseq
pub mod NullConsumer
pub mod Lifecycle
pub mod Validate
pub mod Sha256
pub mod Case
pub mod Examples
