-- ===== src/Core/Data.antt =====
-- core/data.go: blobs, their headers and commitments. Byte slices and strings are lists of bytes,
-- and fixed arrays ([32]byte) too. A nil slice and an empty one are the same list.
use g_da_client.Common.{ℕ, List, Bytes}

pub record SecurityParam : Type 0 where
  pub quorum_id : ℕ
  pub adversary_threshold : ℕ
  pub quorum_threshold : ℕ
  pub quorum_rate : ℕ

pub record QuorumResult : Type 0 where
  pub quorum_id : ℕ
  pub percent_signed : ℕ

pub record BlobRequestHeader : Type 0 where
  pub security_params : List SecurityParam
  pub account_id : Bytes

-- `content` is the field `Data`.
pub record Blob : Type 0 where
  pub request_header : BlobRequestHeader
  pub content : Bytes

pub record BlobQuorumInfo : Type 0 where
  pub security_param : SecurityParam
  pub chunk_length : ℕ

pub record BlobHeader : Type 0 where
  pub commitment_root : Bytes
  pub blob_length : ℕ

-- A point of G1 is opaque here: the curve arithmetic is a third-party library, so a commitment is
-- kept as the bytes that it serializes to.
pub record BlobCommitments : Type 0 where
  pub erasure_commitment : Bytes
  pub storage_root : Bytes
  pub encoded_data : Bytes
  pub encoded_slice : List Bytes
