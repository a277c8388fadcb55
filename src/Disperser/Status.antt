-- ===== src/Disperser/Status.antt =====
-- disperser/disperser.go and disperser/apiserver/server.go: blob statuses, and the statuses of the
-- gRPC interface.
pub mod RoundTrip
use g_da_client.Common.{ℕ, Bool, true, false, ◌≡◌, ◌↔◌, Result, ok, err, Comparable, nat_beq, arith}

-- errors.go, and the errors that are built where they arise.
pub data Error : Type 0 where
  blob_not_found memory_db_is_full key_not_found : Error
  invalid_metadata_key missing_confirmation_info : Error
  unexpected_status unknown_status : Error
  -- a Go panic: a nil pointer is followed
  nil_dereference : Error
  -- a Go panic: an index is out of range
  index_out_of_range : Error
  -- the encoded blob store
  not_requested not_encoded : Error
  -- the encoding streamer: the encoder failed; there is nothing to make a batch of
  encoding_failed no_encoded_results : Error
  -- the slice signer
  no_signed_results epoch_mismatch no_signers failed_aggregate_signatures : Error
  -- the confirmer: a transaction has no hash; no blob of a batch could be updated
  empty_transaction_hash confirmation_not_updated : Error
  -- the key-value store
  database_not_found invalid_expiration_key unexpected_eof deadline_exceeded : Error
  -- the API server
  blob_too_large blob_empty request_ratelimited empty_request_id no_client_address : Error
  -- code that is called, such as the chain's, reports an error
  call_failed : Error

-- `other n` is the number 5 + n, which no constant names.
pub data BlobStatus : Type 0 where
  processing confirmed failed finalized insufficient_signatures : BlobStatus
  other : ℕ → BlobStatus

unfoldable pub status_beq : BlobStatus → BlobStatus → Bool
status_beq processing processing = true
status_beq confirmed confirmed = true
status_beq failed failed = true
status_beq finalized finalized = true
status_beq insufficient_signatures insufficient_signatures = true
status_beq (other m) (other n) = nat_beq m n
status_beq _ _ = false

pub status_beq_iff : (a b : BlobStatus) → (status_beq a b ≡ true) ↔ (a ≡ b)
unfolding status_beq
status_beq_iff processing b = ground arith
status_beq_iff confirmed b = ground arith
status_beq_iff failed b = ground arith
status_beq_iff finalized b = ground arith
status_beq_iff insufficient_signatures b = ground arith
status_beq_iff (other m) b = ground arith

instance abbrev pub status_eq : Comparable BlobStatus
status_eq = record { same = status_beq; decides = status_beq_iff }

-- The enumeration of api/proto/disperser/disperser.proto; `undefined` is a number that it lacks.
pub data PbStatus : Type 0 where
  unknown processing confirmed failed finalized insufficient_signatures : PbStatus
  undefined : ℕ → PbStatus

unfoldable pub from_blob_status_proto : PbStatus → Result Error BlobStatus
from_blob_status_proto PbStatus.unknown = err unexpected_status
from_blob_status_proto PbStatus.processing = ok BlobStatus.processing
from_blob_status_proto PbStatus.confirmed = ok BlobStatus.confirmed
from_blob_status_proto PbStatus.failed = ok BlobStatus.failed
from_blob_status_proto PbStatus.finalized = ok BlobStatus.finalized
from_blob_status_proto _ = err unknown_status

unfoldable pub get_response_status : BlobStatus → PbStatus
get_response_status BlobStatus.processing = PbStatus.processing
get_response_status BlobStatus.confirmed = PbStatus.confirmed
get_response_status BlobStatus.failed = PbStatus.failed
get_response_status BlobStatus.finalized = PbStatus.finalized
get_response_status BlobStatus.insufficient_signatures = PbStatus.insufficient_signatures
get_response_status (other n) = PbStatus.unknown
