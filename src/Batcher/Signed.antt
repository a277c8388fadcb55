-- ===== src/Batcher/Signed.antt =====
-- `HandleSignedBatch` of disperser/batcher/batcher.go.
pub mod Released
pub mod Counted
pub mod Submitted
use g_da_client.Common.{
  ℕ, ◌/◌, Option, none, some, List, [], ◌∷◌, ◌++◌, Bytes, Result, ok, err, ◌>>=◌, length, ltb,
  if◌then◌else◌,
}
use g_da_client.Disperser.Status.{Error, no_signed_results}
use g_da_client.Disperser.Metadata.{BlobMetadata, get_blob_key}
use g_da_client.MemoryDb.{remove_blob}
use g_da_client.EncodedStore.{delete_encoding_result, delete_batching_status}
use g_da_client.SliceSigner.Aggregate.{CommitRootSubmission}
use g_da_client.SliceSigner.Pending.{
  BatchCommitRootSubmission, get_commit_root_submission_batch, remove_signed_blob,
  remove_batching_status,
}
use g_da_client.Failures.{handle_failure, has_failed}
use g_da_client.Batcher.{Batcher, Services}

-- The loop that joins the submissions of all batches.
unfoldable pub all_submissions :
    {Sig Pk : Type 0} → List (BatchCommitRootSubmission Sig Pk) → List (CommitRootSubmission Sig Pk)
all_submissions [] = []
all_submissions (item ∷ items) = item.submissions ++ all_submissions items

-- After a failed submission: the blobs of a batch that have failed leave all three stores.
unfoldable pub drop_signed :
    {Sig Pk : Type 0} → ℕ → List BlobMetadata → Batcher Sig Pk → Result Error (Batcher Sig Pk)
drop_signed ts [] b = ok b
drop_signed ts (m ∷ ms) b =
    let kept = drop_signed ts ms b in
    if has_failed m b.queue
    then elim (delete_encoding_result (get_blob_key m) b.encoded_blobstore) [
      | err x ↦ err x
      | ok e ↦ drop_signed ts ms (record b {
        queue = remove_blob m b.queue;
        encoded_blobstore = e;
        slice_signer = remove_signed_blob ts b.slice_signer;
      })
    ]
    else kept

-- The same loop's other parts: a failure is counted for every blob first, and the results of the
-- batch are released last.
unfoldable pub fail_items :
    {Sig Pk : Type 0}
    → ℕ
    → List (BatchCommitRootSubmission Sig Pk)
    → Batcher Sig Pk
    → Result Error (Batcher Sig Pk)
fail_items max_retries [] b = ok b
fail_items max_retries (item ∷ items) b = do
  q ← handle_failure item.batch.blob_metadata max_retries b.queue
  b' ← drop_signed item.ts item.batch.blob_metadata (record b { queue = q })
  fail_items max_retries items
      (record b' { encoded_blobstore = delete_batching_status item.ts b'.encoded_blobstore })

-- The size of a batch after a failure: half of what was submitted, at least 1.
unfoldable pub smaller_batch : ℕ → ℕ
smaller_batch n = if ltb 1 n then n / 2 else 1

-- `none`: there was nothing to submit.
unfoldable pub submit_all :
    {Sig Pk : Type 0}
    → Services Sig Pk
    → List (CommitRootSubmission Sig Pk)
    → Result Error (Option Bytes)
submit_all services [] = ok none
submit_all services (s ∷ ss) = do
  hash ← services.submit_aggregate_signatures (s ∷ ss)
  ok (some hash)

-- `HandleSignedBatch`. `order` is the order of the submissions in their map.
unfoldable pub handle_signed_batch :
    {Sig Pk : Type 0}
    → Services Sig Pk
    → ℕ
    → List (ℕ × BatchCommitRootSubmission Sig Pk)
    → ℕ
    → Batcher Sig Pk
    → Result Error (Batcher Sig Pk × Option Error)
handle_signed_batch services max_retries order signed_ts b =
    let (fetched, s) = get_commit_root_submission_batch order signed_ts b.slice_signer in
    elim fetched [
      | none ↦
          ok
            (record b { slice_signer = remove_batching_status signed_ts s }, some no_signed_results)
      | some items ↦ elim (submit_all services (all_submissions items)) [
        | err x ↦ do
          b' ← fail_items max_retries items (record b { slice_signer = s })
          ok (
            record b' {
              slice_signer = record (remove_batching_status signed_ts b'.slice_signer) {
                signed_batch_size = smaller_batch (length items);
              };
            },
            some x,
          )
        | ok tx_hash ↦ ok (
          record b {
            slice_signer = record s { signed_batch_size = 0 };
            to_confirm =
                b.to_confirm
                ++ record { items = items; signed_ts = signed_ts; tx_hash = tx_hash } ∷ [];
          },
          none,
        )
      ]
    ]
