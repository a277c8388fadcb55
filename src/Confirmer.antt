-- ===== src/Confirmer.antt =====
-- disperser/batcher/confirmer.go: submitted batches wait for their transaction, and their blobs are
-- then marked as confirmed. The receipt of a transaction is a parameter.
pub mod Blobs
pub mod Entries
pub mod Missing
pub mod Done
pub mod Confirmed
pub mod Proofs
use g_da_client.Common.{
  ℕ, ◌+◌, ◌%◌, ◌^◌, Bool, true, false, Option, none, some, List, [], ◌∷◌, ◌++◌, Bytes, Result, ok,
  err, ◌>>=◌, length, replicate, str_beq, nat_beq, if◌then◌else◌, ◌≡◌,
}
use g_da_client.Core.{BlobHeader, BlobCommitments}
use g_da_client.Disperser.Status.{
  Error, index_out_of_range, nil_dereference, empty_transaction_hash, confirmation_not_updated,
}
use g_da_client.Disperser.Metadata.{BlobMetadata, ConfirmationInfo, get_blob_key}
use g_da_client.MemoryDb.{MemoryDb, mark_blob_confirmed}
use g_da_client.EncodedStore.{EncodedBlobStore, delete_encoding_result, delete_batching_status}
use g_da_client.SliceSigner.Pending.{
  Batch, BatchCommitRootSubmission, SliceSigner, remove_signed_blob, remove_batching_status,
}
use g_da_client.Finalizer.{max_hash}
use g_da_client.Failures.{handle_failure}
use g_da_client.Batcher.{Batcher, BatchInfo}

-- `putPendingBatches` is the append in HandleSignedBatch; `getPendingBatch` takes the first.
unfoldable pub get_pending_batch :
    {Sig Pk : Type 0} → Batcher Sig Pk → Option (BatchInfo Sig Pk) × Batcher Sig Pk
get_pending_batch b = elim b.to_confirm [
  | [] ↦ (none, b)
  | info ∷ rest ↦ (some info, record b { to_confirm = rest })
]

-- `waitForReceipt`; `receipt` is the block number of a transaction that is mined in time.
unfoldable pub wait_for_receipt : (Bytes → Result Error ℕ) → Bytes → Result Error ℕ
wait_for_receipt receipt tx_hash =
    if str_beq tx_hash (replicate 32 0)
    then err empty_transaction_hash
    else do n ← receipt tx_hash; ok (n % 2 ^ 32)

-- `serializeProof` of batcher.go
unfoldable pub serialize_proof : List Bytes → Bytes
serialize_proof [] = []
serialize_proof (hash ∷ hashes) = hash ++ serialize_proof hashes

-- What is the same for all blobs of a batch.
pub record Confirmation : Type 0 where
  pub header_hash : Bytes
  pub batch_root : Bytes
  pub epoch : ℕ
  pub quorum_id : ℕ
  pub batch_id : ℕ
  pub submission_txn_hash : Bytes
  pub tx_hash : Bytes
  pub block_number : ℕ

abbrev pub confirmation_of :
    {Sig Pk : Type 0} → Bytes → ℕ → BatchCommitRootSubmission Sig Pk → Confirmation
confirmation_of tx_hash block_number item = record {
  header_hash = item.header_hash;
  batch_root = item.batch.batch_root;
  epoch = item.epoch;
  quorum_id = item.quorum_id;
  batch_id = item.ts;
  submission_txn_hash = item.batch.tx_hash;
  tx_hash = tx_hash;
  block_number = block_number;
}

-- The `ConfirmationInfo` of the blob at an index; fields that the code leaves out are zero.
unfoldable pub confirmation_info :
    Confirmation → ℕ → List Bytes → BlobHeader → BlobCommitments → ConfirmationInfo
confirmation_info c index proof header blob = record {
  batch_header_hash = c.header_hash;
  blob_index = index % 2 ^ 32;
  blob_count = 0;
  signatory_record_hash = replicate 32 0;
  reference_block_number = 0;
  batch_root = c.batch_root;
  blob_inclusion_proof = serialize_proof proof;
  commitment_root = header.commitment_root;
  data_root = blob.storage_root;
  epoch = c.epoch;
  quorum_id = c.quorum_id;
  blob_length = header.blob_length % 2 ^ 32;
  batch_id = c.batch_id % 2 ^ 32;
  submission_txn_hash = c.submission_txn_hash;
  confirmation_txn_hash = c.tx_hash;
  confirmation_block_number = c.block_number;
  fee = [];
  quorum_results = [];
  blob_quorum_infos = [];
}

-- The blobs of a batch with what stands at their index in the other slices; where one of those is
-- shorter, the access panics.
unfoldable pub with_index :
    Confirmation
    → ℕ
    → List BlobMetadata
    → List (List Bytes)
    → List BlobHeader
    → List BlobCommitments
    → Result Error (List (BlobMetadata × ConfirmationInfo))
with_index c index [] proofs headers blobs = ok []
with_index c index (m ∷ ms) (proof ∷ proofs) (header ∷ headers) (blob ∷ blobs) = do
  rest ← with_index c (index + 1) ms proofs headers blobs
  ok ((m, confirmation_info c index proof header blob) ∷ rest)
with_index c index (m ∷ ms) proofs headers blobs = err index_out_of_range

-- The loop over the blobs: what could not be updated is to be retried. The request is read for the
-- metrics, whatever came of the update.
unfoldable pub confirm_blobs :
    List (BlobMetadata × ConfirmationInfo)
    → MemoryDb
    → EncodedBlobStore
    → Result Error (List BlobMetadata × MemoryDb × EncodedBlobStore)
confirm_blobs [] q e = ok ([], q, e)
confirm_blobs ((m, info) ∷ rest) q e =
    let (q', result) = mark_blob_confirmed m info q in
    let skipped = confirm_blobs rest q' e in
    elim m.request_metadata [
      | none ↦ err nil_dereference
      | some _ ↦ elim result [
        | err _ ↦ do (retry, q2, e2) ← skipped; ok (m ∷ retry, q2, e2)
        | ok _ ↦ elim (delete_encoding_result (get_blob_key m) e) [
          | err x ↦ err x
          | ok e' ↦ confirm_blobs rest q' e'
        ]
      ]
    ]

-- The failures of a batch, if there are any.
abbrev pub retry_failed : List BlobMetadata → ℕ → MemoryDb → Result Error MemoryDb
retry_failed [] max_retries q = ok q
retry_failed (m ∷ ms) max_retries q = handle_failure (m ∷ ms) max_retries q

-- Were there blobs, and could none be updated?
abbrev pub none_updated : List BlobMetadata → List BlobMetadata → Bool
none_updated [] ms = false
none_updated (m ∷ retry) ms = nat_beq (length (m ∷ retry)) (length ms)

module _ {Sig Pk : Type 0} (max_retries : ℕ) where
  -- One batch; the flag says that none of its blobs could be updated, so that ConfirmBatch returns.
  unfoldable pub confirm_item :
      Bytes
      → ℕ
      → BatchCommitRootSubmission Sig Pk
      → Batcher Sig Pk
      → Result Error (Batcher Sig Pk × Bool)
  confirm_item tx_hash block_number item b = do
    blobs ←
        with_index (confirmation_of tx_hash block_number item) 0 item.batch.blob_metadata
          item.proofs item.batch.blob_headers item.batch.encoded_blobs
    (retry, q, e) ← confirm_blobs blobs b.queue b.encoded_blobstore
    q' ← retry_failed retry max_retries q
    ok (
        if none_updated retry item.batch.blob_metadata
        then (record b { queue = q'; encoded_blobstore = e }, true)
        else (
          record b {
            queue = q';
            encoded_blobstore = delete_batching_status item.ts e;
            slice_signer = remove_signed_blob item.ts b.slice_signer;
          },
          false,
        ))

  unfoldable pub confirm_items :
      Bytes
      → ℕ
      → List (BatchCommitRootSubmission Sig Pk)
      → Batcher Sig Pk
      → Result Error (Batcher Sig Pk × Bool)
  confirm_items tx_hash block_number [] b = ok (b, false)
  confirm_items tx_hash block_number (item ∷ items) b =
      elim (confirm_item tx_hash block_number item b) [
        | err x ↦ err x
        | ok (b', stopped) ↦ elim stopped [
          | true ↦ ok (b', true)
          | false ↦ confirm_items tx_hash block_number items b'
        ]
      ]

  -- The loop where the transaction was not confirmed.
  unfoldable pub fail_all :
      List (BatchCommitRootSubmission Sig Pk) → MemoryDb → Result Error MemoryDb
  fail_all [] q = ok q
  fail_all (item ∷ items) q = do
    q' ← handle_failure item.batch.blob_metadata max_retries q
    fail_all items q'

  -- `ConfirmBatch` with its transaction and block: after the batches the signer releases them, but
  -- not where the loop has returned early.
  unfoldable pub confirm_all :
      Bytes → ℕ → BatchInfo Sig Pk → Batcher Sig Pk → Result Error (Batcher Sig Pk × Option Error)
  confirm_all tx_hash block_number info b = elim (confirm_items tx_hash block_number info.items b) [
    | err x ↦ err x
    | ok (b', stopped) ↦ elim stopped [
      | true ↦ ok (b', some confirmation_not_updated)
      | false ↦
          ok (
            record b' { slice_signer = remove_batching_status info.signed_ts b'.slice_signer },
            none,
          )
    ]
  ]

  unfoldable pub confirm_batch :
      (Bytes → Result Error ℕ)
      → BatchInfo Sig Pk
      → Batcher Sig Pk
      → Result Error (Batcher Sig Pk × Option Error)
  confirm_batch receipt info b = elim info.tx_hash [
    | none ↦ confirm_all max_hash 0 info b
    | some tx_hash ↦ elim (wait_for_receipt receipt tx_hash) [
      | ok block_number ↦ confirm_all tx_hash block_number info b
      | err x ↦ do
        q ← fail_all info.items b.queue
        ok (
          record b {
            queue = q;
            slice_signer = remove_batching_status info.signed_ts b.slice_signer;
          },
          some x,
        )
    ]
  ]
