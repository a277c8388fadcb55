-- ===== src/Batcher/Signing.antt =====
-- disperser/batcher/slice_signer.go with the blob store and the encoded results: a batch whose
-- transaction is final is to be signed, and a batch that is not signed is given up. What the chain
-- says of a transaction and of the signers are parameters.
pub mod GiveUp
pub mod Quorums
pub mod NewBlobs
pub mod Finalized
use g_da_client.Common.{
  ℕ, zero, suc, ◌+◌, Bool, true, false, not, Option, none, some, List, [], ◌∷◌, ◌++◌, Bytes,
  bytes_eq, Map, Result, ok, err, ◌>>=◌, lookup, insert, replicate, nat_beq, str_beq, if◌then◌else◌,
}
use g_da_client.Core.{BlobCommitments}
use g_da_client.Disperser.Status.{
  Error, empty_transaction_hash, epoch_mismatch, no_signers, failed_aggregate_signatures,
}
use g_da_client.Disperser.Hashes.{signer_blob_hash}
use g_da_client.Disperser.KeyCache.{BlobKeyCache, contains}
use g_da_client.EncodedStore.{delete_batching_status}
use g_da_client.Failures.{handle_failure, drop_failed}
use g_da_client.SliceSigner.Aggregate.{CommitRootSubmission}
use g_da_client.SliceSigner.Pending.{SignInfo, SliceSigner, add_submission, retry_signing}
use g_da_client.Batcher.{Batcher}

-- `contract.DataUploadEvent`
pub record DataUploadEvent : Type 0 where
  pub data_root : Bytes
  pub epoch : ℕ
  pub quorum_id : ℕ

-- `waitForReceipt`; `receipt` has the events of a transaction that is final.
unfoldable pub wait_for_events :
    (Bytes → Result Error (List DataUploadEvent)) → Bytes → Result Error (List DataUploadEvent)
wait_for_events receipt tx_hash =
    if str_beq tx_hash (replicate 32 0) then err empty_transaction_hash else receipt tx_hash

-- The loop that compares each epoch with the one before.
unfoldable pub epochs_agree : ℕ → List DataUploadEvent → Bool
epochs_agree epoch [] = true
epochs_agree epoch (event ∷ events) =
    let rest = epochs_agree event.epoch events in if nat_beq event.epoch epoch then rest else false

-- The first loop of `getSigners`: the slices of each address, and the addresses in order.
unfoldable pub group_slices :
    List Bytes → ℕ → Map Bytes (List ℕ) → List Bytes → Map Bytes (List ℕ) × List Bytes
group_slices [] index slices unique = (slices, unique)
group_slices (address ∷ addresses) index slices unique = elim (lookup address slices) [
  | none ↦
      group_slices addresses (index + 1) (insert address (index ∷ []) slices)
        (unique ++ address ∷ [])
  | some indexes ↦
      group_slices addresses (index + 1) (insert address (indexes ++ index ∷ []) slices) unique
]

-- `getSigners` up to the keys of the signers: `get_quorum` and `get_signer` are calls of the contract.
unfoldable pub get_signers :
    {Signer : Type 0}
    → (ℕ → ℕ → Result Error (List Bytes))
    → (List Bytes → Result Error (List Signer))
    → ℕ
    → ℕ
    → Result Error (Map Bytes (List ℕ) × List Signer)
get_signers get_quorum get_signer epoch quorum_id = elim (get_quorum epoch quorum_id) [
  | err x ↦ err x
  | ok [] ↦ err no_signers
  | ok (first ∷ others) ↦
      let (slices, unique) = group_slices (first ∷ others) 0 [] [] in
      do signers ← get_signer unique; ok (slices, signers)
]

-- The blobs that the cache does not have for the epoch and the quorum, by their places.
unfoldable pub new_blobs_from :
    (Bytes → Bytes) → BlobKeyCache → ℕ → ℕ → ℕ → List BlobCommitments → List ℕ
new_blobs_from keccak cache epoch quorum_id index [] = []
new_blobs_from keccak cache epoch quorum_id index (blob ∷ blobs) =
    let rest = new_blobs_from keccak cache epoch quorum_id (index + 1) blobs in
    if contains cache (signer_blob_hash keccak blob.storage_root epoch quorum_id)
    then rest
    else index ∷ rest

module _ {Sig Pk : Type 0} (max_retries : ℕ) where
  -- A failure for every blob of the batch, and its results are released.
  unfoldable pub release_failed :
      SignInfo → Option Error → Batcher Sig Pk → Result Error (Batcher Sig Pk × Option Error)
  release_failed info failure b = do
    q ← handle_failure info.batch.blob_metadata max_retries b.queue
    ok (
      record b {
        queue = q;
        encoded_blobstore = delete_batching_status info.ts b.encoded_blobstore;
      },
      failure,
    )

  -- `waitBatchTxFinalized`. Where there is no event, no error is returned.
  unfoldable pub wait_batch_tx_finalized :
      {Signer : Type 0}
      → (Bytes → Bytes)
      → BlobKeyCache
      → (Bytes → Result Error (List DataUploadEvent))
      → (ℕ → ℕ → Result Error (List Bytes))
      → (List Bytes → Result Error (List Signer))
      → SignInfo
      → Batcher Sig Pk
      → Result Error (Batcher Sig Pk × Option Error)
  wait_batch_tx_finalized keccak cache receipt get_quorum get_signer info b =
      elim (wait_for_events receipt info.batch.tx_hash) [
        | err x ↦ release_failed info (some x) b
        | ok [] ↦ release_failed info none b
        | ok (event ∷ events) ↦
            if not (epochs_agree event.epoch events)
            then release_failed info (some epoch_mismatch) b
            else elim (get_signers get_quorum get_signer event.epoch event.quorum_id) [
              | err x ↦ release_failed info (some x) b
              | ok _ ↦ ok (
                record b {
                  slice_signer = record b.slice_signer {
                    pending_batches_to_sign =
                        b.slice_signer.pending_batches_to_sign
                        ++ (record info {
                          epoch = event.epoch;
                          quorum_id = event.quorum_id;
                          new_blobs =
                              new_blobs_from keccak cache event.epoch event.quorum_id 0
                                info.batch.encoded_blobs;
                        })
                          ∷ [];
                  };
                },
                none,
              )
            ]
      ]

  -- The end of `aggregateSignature` for a batch that is out of retries.
  unfoldable pub give_up_signing : SignInfo → Batcher Sig Pk → Result Error (Batcher Sig Pk)
  give_up_signing info b = do
    q ← handle_failure info.batch.blob_metadata max_retries b.queue
    (q', e) ← drop_failed info.batch.blob_metadata q b.encoded_blobstore
    ok (record b { queue = q'; encoded_blobstore = delete_batching_status info.ts e })

  -- The end of `aggregateSignature`, with the submissions where the signatures are enough.
  unfoldable pub finish_signing :
      ℕ
      → SignInfo
      → Option (List (CommitRootSubmission Sig Pk))
      → Batcher Sig Pk
      → Result Error (Batcher Sig Pk × Option Error)
  finish_signing max_sign info (some submissions) b =
      ok (record b { slice_signer = add_submission info submissions b.slice_signer }, none)
  finish_signing max_sign info none b =
      let (exhausted, s) = retry_signing info max_sign b.slice_signer in
      let given_up = give_up_signing info (record b { slice_signer = s }) in
      if exhausted
      then (do b' ← given_up; ok (b', some failed_aggregate_signatures))
      else ok (record b { slice_signer = s }, none)
