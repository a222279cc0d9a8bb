-- ===== src/Indexer.antt =====
-- fastdata-indexer: the services that fill the database.
pub mod Retry
pub mod OrderId
pub mod Rows
pub mod Fastfs
pub mod Buckets
pub mod RedisDb
pub mod Kv
pub mod Blocks
pub mod SuffixFetcher
mod Tests
