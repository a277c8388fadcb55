-- ===== src/Disperser.antt =====
-- Package disperser: the blob's status, key and metadata (disperser/disperser.go).
pub mod Status
pub mod BlobKey
pub mod KeyCache
pub mod Metadata
pub mod Hashes
