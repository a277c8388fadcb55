-- ===== src/Disperser/Status/RoundTrip.antt =====
-- Statuses that are sent to a client and read back by one.
use g_da_client.Common.{ℕ, ◌≡◌, ◌≢◌, ok, err, refl}
use g_da_client.Disperser.Status.{
  unknown_status, unexpected_status, BlobStatus, from_blob_status_proto, get_response_status,
}

-- A status that is sent is read back, but for InsufficientSignatures, which the reader does not know;
-- a number that no status has is sent as UNKNOWN, which the reader refuses.
from_blob_status_proto-get_response_status :
    (s : BlobStatus)
    → (s ≢ BlobStatus.insufficient_signatures
        → ((n : ℕ) → s ≢ BlobStatus.other n)
        → from_blob_status_proto (get_response_status s) ≡ ok s)
      × (s ≡ BlobStatus.insufficient_signatures
          → from_blob_status_proto (get_response_status s) ≡ err unknown_status)
      × ((n : ℕ)
          → s ≡ BlobStatus.other n
          → from_blob_status_proto (get_response_status s) ≡ err unexpected_status)
unfolding from_blob_status_proto get_response_status
from_blob_status_proto-get_response_status BlobStatus.processing = (λ a b. refl, λ e. cc, λ n e. cc)
from_blob_status_proto-get_response_status BlobStatus.confirmed = (λ a b. refl, λ e. cc, λ n e. cc)
from_blob_status_proto-get_response_status BlobStatus.failed = (λ a b. refl, λ e. cc, λ n e. cc)
from_blob_status_proto-get_response_status BlobStatus.finalized = (λ a b. refl, λ e. cc, λ n e. cc)
from_blob_status_proto-get_response_status BlobStatus.insufficient_signatures =
    (λ a b. absurd (a refl), λ e. refl, λ n e. cc)
from_blob_status_proto-get_response_status (BlobStatus.other m) =
    (λ a b. absurd (b m refl), λ e. cc, λ n e. refl)
