-- ===== src/Protocol.antt =====
-- libraries/protocol: what a transaction says and who has to sign it.
pub mod Names
pub mod Authority
pub mod SignState
pub mod Verify
pub mod Asset
pub mod Operations
pub mod Merkle
pub mod Version
