-- ===== src/Batcher.antt =====
-- disperser/batcher/batcher.go: the two handlers, over the blob store, the encoding streamer's
-- results and the slice signer. A batch that is sent to the signer or to the confirmer is in their
-- queue: the channels have no buffer, and the receiver does nothing else. Header hashes, inclusion
-- proofs and what the dispatcher returns are parameters.
pub mod Single
pub mod Dispatch
pub mod Signed
pub mod Signing
use g_da_client.Common.{
  ℕ, ◌/◌, Bool, true, false, Option, none, some, List, [], ◌∷◌, ◌++◌, Bytes, Result, ok, err, ◌>>=◌,
  length, ltb, if◌then◌else◌, ◌≡◌,
}
use g_da_client.Core.{BlobHeader}
use g_da_client.Disperser.Status.{Error, index_out_of_range, no_signed_results, call_failed}
use g_da_client.Disperser.Metadata.{BlobMetadata, get_blob_key}
use g_da_client.MemoryDb.{MemoryDb, remove_blob}
use g_da_client.EncodedStore.{
  EncodedBlobStore, EncodingResult, delete_encoding_result, delete_batching_status,
}
use g_da_client.Streamer.{create_batch}
use g_da_client.SliceSigner.Aggregate.{CommitRootSubmission}
use g_da_client.SliceSigner.Pending.{
  Batch, SignInfo, BatchCommitRootSubmission, SliceSigner, put_pending_batches,
  get_commit_root_submission_batch, remove_signed_blob, remove_batching_status,
}
use g_da_client.Failures.{handle_failure, has_failed, drop_failed}

-- `BatchInfo`: its parallel slices are the list of the submissions. `tx_hash` is nil where nothing
-- was submitted.
pub record BatchInfo (Sig Pk : Type 0) : Type 0 where
  pub items : List (BatchCommitRootSubmission Sig Pk)
  pub signed_ts : ℕ
  pub tx_hash : Option Bytes

-- What the handlers change: `Queue`, the streamer's store, the signer, the confirmer's queue.
pub record Batcher (Sig Pk : Type 0) : Type 0 where
  pub queue : MemoryDb
  pub encoded_blobstore : EncodedBlobStore
  pub slice_signer : SliceSigner Sig Pk
  pub to_confirm : List (BatchInfo Sig Pk)

-- What the handlers call and is no code of theirs: `BatchHeader.SetBatchRoot` and
-- `GetBatchHeaderHash`, `GetBlobHeaderHash` with `GenerateProof`, and the dispatcher.
pub record Services (Sig Pk : Type 0) : Type 0 where
  pub set_batch_root : List BlobHeader → Result Error Bytes
  pub batch_header_hash : Bytes → Result Error Bytes
  pub inclusion_proof : List BlobHeader → BlobHeader → Result Error (List Bytes)
  pub disperse_batch : Bytes → Batch → Result Error Bytes
  pub submit_aggregate_signatures : List (CommitRootSubmission Sig Pk) → Result Error Bytes

-- The loop that makes the proofs, one for each metadata; a header that is missing is an error.
unfoldable pub make_proofs :
    (BlobHeader → Result Error (List Bytes))
    → List BlobMetadata
    → List BlobHeader
    → Result Error (List (List Bytes))
make_proofs prove [] headers = ok []
make_proofs prove (m ∷ ms) [] = err index_out_of_range
make_proofs prove (m ∷ ms) (header ∷ headers) = do
  proof ← prove header
  proofs ← make_proofs prove ms headers
  ok (proof ∷ proofs)

-- The header hash and the proofs, before the batch is dispatched.
unfoldable pub prepare :
    {Sig Pk : Type 0} → Services Sig Pk → Batch → Result Error (Bytes × List (List Bytes))
prepare services batch = do
  header_hash ← services.batch_header_hash batch.batch_root
  proofs ←
      make_proofs (services.inclusion_proof batch.blob_headers) batch.blob_metadata
        batch.blob_headers
  ok (header_hash, proofs)

module _ {Sig Pk : Type 0} (services : Services Sig Pk) (max_retries : ℕ) where
  -- The blobs of a batch that could not be dispatched: those that have failed already are dropped,
  -- and then a failure is counted for all.
  unfoldable pub give_up : Batch → Batcher Sig Pk → Result Error (Batcher Sig Pk)
  give_up batch b = do
    (q, e) ← drop_failed batch.blob_metadata b.queue b.encoded_blobstore
    q' ← handle_failure batch.blob_metadata max_retries q
    ok (record b { queue = q'; encoded_blobstore = e })

  -- `HandleSingleBatch` from the batch on: the state, and the error that is returned, if any.
  unfoldable pub dispatch_batch :
      Batch → ℕ → Batcher Sig Pk → Result Error (Batcher Sig Pk × Option Error)
  dispatch_batch batch ts b = elim (prepare services batch) [
    | err x ↦ do
      q ← handle_failure batch.blob_metadata max_retries b.queue
      ok (record b { queue = q }, some x)
    | ok (header_hash, proofs) ↦ elim (services.disperse_batch header_hash batch) [
      | err x ↦ do b' ← give_up batch b; ok (b', some x)
      | ok tx_hash ↦ ok (
        record b {
          slice_signer =
              put_pending_batches
                (record {
                  header_hash = header_hash;
                  batch = record batch { tx_hash = tx_hash };
                  ts = ts;
                  proofs = proofs;
                  reties = 0;
                  epoch = 0;
                  quorum_id = 0;
                  new_blobs = [];
                })
                b.slice_signer;
        },
        none,
      )
    ]
  ]

  -- `HandleSingleBatch`. `order` is the order of the results in their map.
  unfoldable pub handle_single_batch :
      List (Bytes × EncodingResult)
      → ℕ
      → Batcher Sig Pk
      → Result Error (Batcher Sig Pk × Option Error)
  handle_single_batch order ts b =
      elim (create_batch services.set_batch_root order ts b.encoded_blobstore) [
        | err x ↦ err x
        | ok (e, made) ↦ elim made [
          | err x ↦ ok (record b { encoded_blobstore = e }, some x)
          | ok batch ↦ dispatch_batch batch ts (record b { encoded_blobstore = e })
        ]
      ]

  -- A round of the loop in `Start`: after an error the results are released.
  unfoldable pub single_batch_round :
      List (Bytes × EncodingResult)
      → ℕ
      → Batcher Sig Pk
      → Result Error (Batcher Sig Pk × Option Error)
  single_batch_round order ts b = elim (handle_single_batch order ts b) [
    | err x ↦ err x
    | ok (b', failure) ↦ elim failure [
      | none ↦ ok (b', none)
      | some x ↦
          ok (
            record b' { encoded_blobstore = delete_batching_status ts b'.encoded_blobstore },
            some x,
          )
    ]
  ]
