-- ===== src/Tests/Submit.antt =====
-- The submission of signed batches on concrete inputs.
use g_da_client.Common.{ℕ, none, some, [], ◌∷◌, bytes_eq, nat_eq, lookup, insert, delete}
use g_da_client.SliceSigner.Aggregate.{CommitRootSubmission}
use g_da_client.SliceSigner.Pending.{
  BatchCommitRootSubmission, SliceSigner, new_encoded_slice_signer, fetch_signed,
  get_commit_root_submission_batch, remove_batching_status,
}
use g_da_client.Disperser.BlobKey.{BlobKey, key_eq}
use g_da_client.Batcher.{Batcher}
use g_da_client.Batcher.Signed.{all_submissions, submit_all, fail_items, handle_signed_batch}
use g_da_client.Tests.Batch.{batch, start}

program : Unit {0}
unfolding lookup insert delete fetch_signed get_commit_root_submission_batch remove_batching_status
    all_submissions submit_all fail_items handle_signed_batch
program = tt

abbrev root : CommitRootSubmission ℕ ℕ
root = record {
  data_root = 3 ∷ [];
  erasure_commitment = 4 ∷ [];
  epoch = 1;
  quorum_id = 0;
  quorum_bitmap = [];
  aggregate = none;
}

abbrev item : BatchCommitRootSubmission ℕ ℕ
item = record {
  submissions = root ∷ [];
  header_hash = 7 ∷ [];
  batch = batch;
  ts = 5;
  proofs = ((3 ∷ []) ∷ []) ∷ [];
  epoch = 1;
  quorum_id = 0;
}

abbrev signed : Batcher ℕ ℕ
signed = record start {
  slice_signer = record new_encoded_slice_signer {
    pending_submissions = (5, item) ∷ [];
    signed_blob_size = 1;
  };
}

abbrev fetched : SliceSigner ℕ ℕ
fetched = record signed.slice_signer {
  signed_batching = (5, 9) ∷ [];
  signed_batches = (9, 5 ∷ []) ∷ [];
}

abbrev submitted : Batcher ℕ ℕ
submitted = record signed {
  slice_signer = fetched;
  to_confirm = record { items = item ∷ []; signed_ts = 9; tx_hash = some (5 ∷ []) } ∷ [];
}
