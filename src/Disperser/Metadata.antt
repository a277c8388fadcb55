-- ===== src/Disperser/Metadata.antt =====
-- disperser/disperser.go: what is kept about a blob.
use g_da_client.Common.{
  ℕ, Bool, true, false, ◌&&◌, not, Option, none, some, List, Bytes, Map, Result, ok, err, ◌==◌,
  if◌then◌else◌,
}
use g_da_client.Core.{BlobRequestHeader, QuorumResult, BlobQuorumInfo}
use g_da_client.Disperser.Status.{
  BlobStatus, confirmed, finalized, Error, missing_confirmation_info, status_eq,
}
use g_da_client.Disperser.BlobKey.{BlobKey}

pub record RequestMetadata : Type 0 where
  pub header : BlobRequestHeader
  pub blob_size : ℕ
  pub requested_at : ℕ

pub record ConfirmationInfo : Type 0 where
  pub batch_header_hash : Bytes
  pub blob_index : ℕ
  pub blob_count : ℕ
  pub signatory_record_hash : Bytes
  pub reference_block_number : ℕ
  pub batch_root : Bytes
  pub blob_inclusion_proof : Bytes
  pub commitment_root : Bytes
  pub data_root : Bytes
  pub epoch : ℕ
  pub quorum_id : ℕ
  pub blob_length : ℕ
  pub batch_id : ℕ
  pub submission_txn_hash : Bytes
  pub confirmation_txn_hash : Bytes
  pub confirmation_block_number : ℕ
  pub fee : Bytes
  pub quorum_results : Map ℕ QuorumResult
  pub blob_quorum_infos : List BlobQuorumInfo

-- `none` is a nil pointer.
pub record BlobMetadata : Type 0 where
  pub blob_hash : Bytes
  pub metadata_hash : Bytes
  pub blob_status : BlobStatus
  pub expiry : ℕ
  pub num_retries : ℕ
  pub request_metadata : Option RequestMetadata
  pub confirmation_info : Option ConfirmationInfo

unfoldable pub get_blob_key : BlobMetadata → BlobKey
get_blob_key m = record { blob_hash = m.blob_hash; metadata_hash = m.metadata_hash }

unfoldable pub is_confirmed : BlobMetadata → Result Error Bool
is_confirmed m =
    if not (m.blob_status == confirmed) && not (m.blob_status == finalized)
    then ok false
    else elim m.confirmation_info [ none ↦ err missing_confirmation_info | some _ ↦ ok true ]
