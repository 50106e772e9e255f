-- ===== src/Runtime.antt =====
-- Shared state of the running server: Gate limits concurrent joins (src/core/join_concurrency.rs), and
-- ResponseCache keeps the responses of saved operations (src/server/response_cache.rs).
pub mod Gate
pub mod Served
pub mod ResponseCache
pub mod Cached
