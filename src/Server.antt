-- ===== src/Server.antt =====
-- fastkv-server: the HTTP API over the stored key-value entries.
pub mod Errors
pub mod Validate
pub mod Cursor
pub mod Page
pub mod Json
pub mod Tree
pub mod Prefix
pub mod Throttle
pub mod Action
pub mod Models
pub mod RedisDb
pub mod Handlers
pub mod Startup
pub mod ScyllaDb
mod Tests
