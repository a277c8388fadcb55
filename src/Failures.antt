-- ===== src/Failures.antt =====
-- What the batcher, the slice signer and the confirmer do with the blobs of a batch that failed:
-- `handleFailure`, which disperser/batcher has three times, and the loops that drop the blobs whose
-- retries are used up. A blob's metadata is what its pointer shows when the handler starts; no blob
-- is in a batch twice.
pub mod Entries
use g_da_client.Common.{
  ℕ, Bool, true, false, Option, none, some, List, [], ◌∷◌, Result, ok, err, if◌then◌else◌, ◌≡◌,
}
use g_da_client.Disperser.Status.{Error, nil_dereference, BlobStatus, failed, status_beq}
use g_da_client.Disperser.Metadata.{BlobMetadata, get_blob_key}
use g_da_client.MemoryDb.{MemoryDb, handle_blob_failure, remove_blob}
use g_da_client.MemoryDb.Queries.{get_blob_metadata}
use g_da_client.EncodedStore.{EncodedBlobStore, delete_encoding_result}

-- `handleFailure`: its callers drop the errors that it collects. The size of each blob goes to the
-- metrics, which panics where there is no request.
unfoldable pub handle_failure : List BlobMetadata → ℕ → MemoryDb → Result Error MemoryDb
handle_failure [] max_retries q = ok q
handle_failure (m ∷ ms) max_retries q = elim m.request_metadata [
  | none ↦ err nil_dereference
  | some _ ↦ handle_failure ms max_retries (handle_blob_failure m max_retries q).0
]

-- Is the blob in the store, with status Failed?
unfoldable pub has_failed : BlobMetadata → MemoryDb → Bool
has_failed m q = elim (get_blob_metadata (get_blob_key m) q) [
  | err _ ↦ false
  | ok current ↦ status_beq current.blob_status failed
]

-- The loop after a failed dispatch: failed blobs leave both stores.
unfoldable pub drop_failed :
    List BlobMetadata → MemoryDb → EncodedBlobStore → Result Error (MemoryDb × EncodedBlobStore)
drop_failed [] q e = ok (q, e)
drop_failed (m ∷ ms) q e =
    let kept = drop_failed ms q e in
    if has_failed m q
    then elim (delete_encoding_result (get_blob_key m) e) [
      | err x ↦ err x
      | ok e' ↦ drop_failed ms (remove_blob m q) e'
    ]
    else kept
