-- ===== src/Crypto.antt =====
-- crates/common/src/crypto: digests, the three kinds of keys, and keys recovered from signatures.
pub mod Digest
pub mod Core
pub mod Recovery
pub mod Instance
mod Tests
