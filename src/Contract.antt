-- ===== src/Contract.antt =====
-- contract/src/lib.rs: the key manager that runs in the OutLayer enclave.
pub mod Types
pub mod Runtime
pub mod Crypto
pub mod Membership
pub mod Handlers
mod Tests
