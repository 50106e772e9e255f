-- ===== src/Snapshot.antt =====
-- The v3 exact index file (src/core/storage/exact_index_v3): its format, its writer and its reader.
pub mod Codec
pub mod Format
pub mod Writer
pub mod Reader
pub mod Sorted
pub mod Search
pub mod Layout
pub mod Written
pub mod Decoded
pub mod Contents
pub mod RoundTrip
pub mod Corrupt
