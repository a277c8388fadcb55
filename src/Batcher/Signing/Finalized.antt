-- ===== src/Batcher/Signing/Finalized.antt =====
-- `waitBatchTxFinalized` (disperser/batcher/slice_signer.go) in its outcomes.
use g_da_client.Common.{
  ℕ, Option, none, some, List, [], ◌∷◌, ◌++◌, Bytes, bytes_eq, nat_eq, Result, ok, err, lookup, ◌≡◌,
  ◌⊎◌,
}
use g_da_client.Disperser.Status.{Error, epoch_mismatch}
use g_da_client.Disperser.BlobKey.{BlobKey, key_eq}
use g_da_client.Disperser.KeyCache.{BlobKeyCache}
use g_da_client.EncodedStore.Stages.{IsReleasedFrom}
use g_da_client.Failures.Entries.{find_key, counted_in}
use g_da_client.SliceSigner.Pending.{SignInfo}
use g_da_client.Batcher.{Batcher}
use g_da_client.Batcher.Signing.NewBlobs.{AreNew}
use g_da_client.Batcher.Signing.{DataUploadEvent, wait_for_events, get_signers}

-- Every event is of the epoch.
abbrev pub AllOf : ℕ → List DataUploadEvent → Type 0
AllOf epoch [] = Unit
AllOf epoch (event ∷ events) = (event.epoch ≡ epoch) × AllOf epoch events

-- Why a batch is not to be signed, with the error that is reported: its transaction fails, or has no
-- event, its events are of different epochs, or the signers are not known.
abbrev pub IsRefused :
    {Signer : Type 0}
    → (Bytes → Result Error (List DataUploadEvent))
    → (ℕ → ℕ → Result Error (List Bytes))
    → (List Bytes → Result Error (List Signer))
    → SignInfo
    → Option Error
    → Type 0
IsRefused receipt get_quorum get_signer info failure =
    let found = wait_for_events receipt info.batch.tx_hash in
    ((x : Error) × (found ≡ err x) × (failure ≡ some x))
    ⊎ (((found ≡ ok []) × (failure ≡ none))
        ⊎ ((event : DataUploadEvent) × (events : List DataUploadEvent) × (found
              ≡ ok (event ∷ events))
            × (((¬ AllOf event.epoch events) × (failure ≡ some epoch_mismatch))
                ⊎ ((x : Error) × (get_signers get_quorum get_signer event.epoch event.quorum_id
                      ≡ err x)
                    × (failure ≡ some x)))))

module _ {Sig Pk : Type 0} (max_retries : ℕ) where
  -- The batch is given back: a failure is counted for its blobs, and its results are released.
  abbrev pub IsReleased : SignInfo → Batcher Sig Pk → Batcher Sig Pk → Type 0
  IsReleased info b b' =
      ((j : BlobKey)
        → lookup j b'.queue.metadata
          ≡ counted_in max_retries (find_key j info.batch.blob_metadata)
              (lookup j b.queue.metadata))
      × IsReleasedFrom info.ts b.encoded_blobstore b'.encoded_blobstore
      × (b'.slice_signer ≡ b.slice_signer)

  -- The batch waits to be signed, as the last, for the epoch of all its events and the quorum of the
  -- first, with the blobs that are new in it.
  abbrev pub IsToSign :
      (Bytes → Bytes)
      → BlobKeyCache
      → DataUploadEvent
      → List DataUploadEvent
      → SignInfo
      → Batcher Sig Pk
      → Batcher Sig Pk
      → Type 0
  IsToSign keccak cache event events info b b' =
      (places : List ℕ) × AllOf event.epoch events
      × AreNew keccak cache event.epoch event.quorum_id info.batch.encoded_blobs places
      × (b' ≡ record b {
        slice_signer = record b.slice_signer {
          pending_batches_to_sign =
              b.slice_signer.pending_batches_to_sign
              ++ (record info {
                epoch = event.epoch;
                quorum_id = event.quorum_id;
                new_blobs = places;
              })
                ∷ [];
        };
      })
