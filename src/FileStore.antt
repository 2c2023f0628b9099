-- ===== src/FileStore.antt =====
-- internal/core/file_vector_store.go: vectors in one append-only file of records.
pub mod Codec
pub mod RoundTrip
pub mod Rebuild
pub mod Log
pub mod Torn
pub mod Read
pub mod Reopen
pub mod HotCache
pub mod Write
pub mod Compact
pub mod Open
