-- ===== src/Reconstruct.antt =====
-- Reconstruction, libabi/src/reconstruct.c: the structures of a case, their release callbacks, the event
-- log and the allocation counters.
pub mod Observer
pub mod Structs
pub mod Release
pub mod Build
pub mod Export
pub mod State
pub mod Stream
pub mod Lifetime
pub mod Bounds
