-- ===== src/Tests/Confirm.antt =====
-- The confirmer on concrete inputs.
use g_da_client.Common.{
  ℕ, ◌≡◌, ◌≢◌, refl, some, true, false, List, [], ◌∷◌, Bytes, bytes_eq, nat_eq, ok, err, lookup,
  insert, delete, str_beq, add64, sub64, Result,
}
use g_da_client.Core.{BlobHeader}
use g_da_client.Disperser.Status.{Error, call_failed, status_beq}
use g_da_client.Disperser.BlobKey.{to_string, key_eq, key_beq}
use g_da_client.Disperser.Metadata.{BlobMetadata, ConfirmationInfo, get_blob_key, is_confirmed}
use g_da_client.MemoryDb.{
  new_blob_store, handle_blob_failure, increment_blob_retry_count, mark_blob_failed,
  mark_blob_confirmed, size_of,
}
use g_da_client.EncodedStore.{
  new_encoded_blob_store, get_request_id, get_chunks_size, delete_encoding_result,
  delete_batching_status, delete_all,
}
use g_da_client.Failures.{handle_failure}
use g_da_client.Failures.Entries.{find_key, counted_in}
use g_da_client.SliceSigner.Pending.{
  BatchCommitRootSubmission, new_encoded_slice_signer, remove_signed_blob, remove_batching_status,
  delete_signed,
}
use g_da_client.Batcher.{Batcher, BatchInfo, make_proofs}
use g_da_client.Confirmer.{
  serialize_proof, confirmation_info, confirmation_of, with_index, confirm_blobs, confirm_item,
  fail_all, confirm_batch, wait_for_receipt,
}
use g_da_client.Confirmer.Blobs.{AreAbsent, IsConfirmedBy}
use g_da_client.Confirmer.Done.{IsDone}
use g_da_client.Confirmer.Entries.{BlobEntries}
use g_da_client.Confirmer.Confirmed.{confirm_item_lem, confirm_batch-unconfirmed}
use g_da_client.Tests.Batch.{key, meta, encoding, batch, start}

program : Unit {0}
unfolding lookup insert delete str_beq key_beq to_string get_blob_key get_chunks_size add64 sub64
    handle_blob_failure increment_blob_retry_count mark_blob_failed mark_blob_confirmed is_confirmed
    delete_encoding_result delete_batching_status delete_all handle_failure remove_signed_blob
    remove_batching_status delete_signed serialize_proof confirmation_info with_index confirm_blobs
    confirm_item fail_all confirm_batch wait_for_receipt status_beq size_of make_proofs
program = tt

abbrev item : BatchCommitRootSubmission ℕ ℕ
item = record {
  submissions = [];
  header_hash = 7 ∷ [];
  batch = batch;
  ts = 5;
  proofs = ((3 ∷ []) ∷ []) ∷ [];
  epoch = 1;
  quorum_id = 2;
}

-- One batch that is submitted, and whose blob is in the blob store.
abbrev submitted : Batcher ℕ ℕ
submitted = record start {
  encoded_blobstore = record start.encoded_blobstore {
    batching = (get_request_id key, 5) ∷ [];
    batches = (5, get_request_id key ∷ []) ∷ [];
  };
  slice_signer = record new_encoded_slice_signer {
    pending_submissions = (5, item) ∷ [];
    signed_batching = (5, 9) ∷ [];
    signed_batches = (9, 5 ∷ []) ∷ [];
    signed_blob_size = 1;
  };
}

abbrev blob_info : ConfirmationInfo
blob_info =
    confirmation_info (confirmation_of (1 ∷ []) 70 item) 0 ((3 ∷ []) ∷ [])
      (record { commitment_root = 4 ∷ []; blob_length = 4 }) encoding.blob_commitments

abbrev entries : BlobEntries
entries = (meta, blob_info) ∷ []

abbrev prove : BlobHeader → Result Error (List Bytes)
prove header = ok ((3 ∷ []) ∷ [])

abbrev after : Batcher ℕ ℕ
after = record submitted {
  queue = (mark_blob_confirmed meta blob_info submitted.queue).0;
  encoded_blobstore = new_encoded_blob_store;
  slice_signer = record new_encoded_slice_signer { signed_batches = (9, 5 ∷ []) ∷ [] };
}

confirms : confirm_item 2 (1 ∷ []) 70 item submitted ≡ ok (after, false)
unfolding program
confirms = refl

indexed :
    with_index
      (confirmation_of (1 ∷ []) 70 item)
      0
      (meta ∷ [])
      item.proofs
      batch.blob_headers
      batch.encoded_blobs
    ≡ ok entries
unfolding program
indexed = refl

confirm_item_lem_example :
    IsConfirmedBy entries submitted.queue submitted.encoded_blobstore after.queue
      after.encoded_blobstore
    × (false ≡ true
        → (◌≢◌ {A = List BlobMetadata} (meta ∷ []) [])
          × AreAbsent (meta ∷ []) submitted.queue
          × (after.encoded_blobstore.batches ≡ submitted.encoded_blobstore.batches)
          × (after.slice_signer ≡ submitted.slice_signer))
    × (false ≡ false
        → (◌≢◌ {A = List BlobMetadata} (meta ∷ []) [] → ¬ AreAbsent (meta ∷ []) submitted.queue)
          × IsDone 5 submitted after)
confirm_item_lem_example =
    confirm_item_lem 2 (1 ∷ []) 70 item submitted after false entries indexed (refl, tt) confirms

abbrev sent_info : BatchInfo ℕ ℕ
sent_info = record { items = item ∷ []; signed_ts = 9; tx_hash = some (1 ∷ []) }

-- A node that never shows the transaction.
abbrev no_receipt : Bytes → Result Error ℕ
no_receipt tx_hash = err call_failed

abbrev failed_once : Batcher ℕ ℕ
failed_once = record submitted {
  queue = record (new_blob_store 100) { metadata = (key, record meta { num_retries = 1 }) ∷ [] };
  slice_signer = record new_encoded_slice_signer {
    pending_submissions = (5, item) ∷ [];
    signed_blob_size = 1;
  };
}

unconfirmed : confirm_batch 2 no_receipt sent_info submitted ≡ ok (failed_once, some call_failed)
unfolding program
unconfirmed = refl

unmined : wait_for_receipt no_receipt (1 ∷ []) ≡ err call_failed
unfolding program
unmined = refl

confirm_batch-unconfirmed_example :
    (some call_failed ≡ some call_failed)
    × (lookup key failed_once.queue.metadata
        ≡ counted_in 2 (find_key key (meta ∷ [])) (lookup key submitted.queue.metadata))
    × (failed_once.encoded_blobstore ≡ submitted.encoded_blobstore)
    × (failed_once.slice_signer ≡ remove_batching_status 9 submitted.slice_signer)
confirm_batch-unconfirmed_example =
    confirm_batch-unconfirmed 2 no_receipt (1 ∷ []) sent_info submitted failed_once
      (some call_failed) call_failed key refl unmined (refl, tt) unconfirmed
