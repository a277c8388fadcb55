-- ===== src/Tests/Sign.antt =====
-- Waiting for a batch's transaction, and giving up a batch, on concrete inputs.
use g_da_client.Common.{
  ℕ, ◌+◌, ◌++◌, ◌≡◌, refl, none, some, true, false, List, [], ◌∷◌, Bytes, bytes_eq, nat_eq, Result,
  ok, lookup, insert, delete, str_beq, be_bytes, sub64, add64, ltb,
}
use g_da_client.Disperser.Status.{Error, failed_aggregate_signatures, status_beq}
use g_da_client.Disperser.BlobKey.{BlobKey, key_eq, key_beq, to_string}
use g_da_client.Disperser.Metadata.{get_blob_key}
use g_da_client.MemoryDb.{
  new_blob_store, handle_blob_failure, increment_blob_retry_count, mark_blob_failed, remove_blob,
  size_of,
}
use g_da_client.MemoryDb.Queries.{get_blob_metadata}
use g_da_client.EncodedStore.{
  new_encoded_blob_store, delete_batching_status, delete_all, delete_encoding_result,
  get_chunks_size,
}
use g_da_client.Failures.{handle_failure, has_failed, drop_failed}
use g_da_client.Failures.Entries.{find_key, counted_in, dropped_in}
use g_da_client.SliceSigner.Pending.{SignInfo, retry_signing}
use g_da_client.Batcher.{Batcher}
use g_da_client.Batcher.Signing.{
  DataUploadEvent, wait_for_events, epochs_agree, group_slices, release_failed,
  wait_batch_tx_finalized, give_up_signing, finish_signing,
}
use g_da_client.Batcher.Signing.Quorums.{places_of, with_more, group_slices_eq}
use g_da_client.Batcher.Signing.GiveUp.{IsGivenBack, finish_signing_lem}
use g_da_client.Tests.Batch.{key, meta, batch, start}

program : Unit {0}
unfolding lookup insert delete str_beq key_beq to_string get_blob_key be_bytes sub64 add64
    handle_blob_failure increment_blob_retry_count mark_blob_failed remove_blob size_of
    get_blob_metadata delete_batching_status delete_all delete_encoding_result get_chunks_size
    handle_failure has_failed drop_failed retry_signing wait_for_events epochs_agree group_slices
    release_failed wait_batch_tx_finalized give_up_signing finish_signing status_beq
program = tt

group_slices_eq_example :
    lookup (1 ∷ []) (group_slices ((1 ∷ []) ∷ (2 ∷ []) ∷ (1 ∷ []) ∷ []) 0 [] []).0
    ≡ with_more none (places_of (1 ∷ []) 0 ((1 ∷ []) ∷ (2 ∷ []) ∷ (1 ∷ []) ∷ []))
group_slices_eq_example = group_slices_eq (1 ∷ []) ((1 ∷ []) ∷ (2 ∷ []) ∷ (1 ∷ []) ∷ [])

abbrev info : SignInfo
info = record {
  header_hash = 7 ∷ [];
  batch = record batch { tx_hash = 9 ∷ [] };
  ts = 5;
  proofs = [];
  reties = 1;
  epoch = 0;
  quorum_id = 0;
  new_blobs = [];
}

-- Two events of different epochs.
abbrev receipt : Bytes → Result Error (List DataUploadEvent)
receipt tx_hash = ok (
    record { data_root = 3 ∷ []; epoch = 1; quorum_id = 0 }
    ∷ record { data_root = 3 ∷ []; epoch = 2; quorum_id = 0 }
    ∷ [])

abbrev quorum : ℕ → ℕ → Result Error (List Bytes)
quorum epoch quorum_id = ok ((1 ∷ []) ∷ [])

abbrev signers : List Bytes → Result Error (List Bytes)
signers addresses = ok addresses

abbrev digest : Bytes → Bytes
digest bs = bs

abbrev counted_once : Batcher ℕ ℕ
counted_once = record start {
  queue = record (new_blob_store 100) { metadata = (key, record meta { num_retries = 1 }) ∷ [] };
}

-- A blob with no retries left, in a batch with none: it fails, and is dropped.
abbrev waiting : Batcher ℕ ℕ
waiting = record start {
  queue = record (new_blob_store 100) { metadata = (key, meta) ∷ []; size = 274 };
}

abbrev given_up : Batcher ℕ ℕ
given_up = record start { queue = new_blob_store 100; encoded_blobstore = new_encoded_blob_store }

gives_up : finish_signing 0 1 info none waiting ≡ ok (given_up, some failed_aggregate_signatures)
unfolding program
gives_up = refl

finish_signing_lem_example :
    (ltb 1 1 ≡ true
      → (some failed_aggregate_signatures ≡ none)
        × (given_up ≡ record waiting {
          slice_signer = record waiting.slice_signer {
            pending_batches_to_sign =
                waiting.slice_signer.pending_batches_to_sign
                ++ (record info { reties = info.reties + 1 }) ∷ [];
          };
        }))
    × (ltb 1 1 ≡ false
        → (some failed_aggregate_signatures ≡ some failed_aggregate_signatures)
          × ((j : BlobKey)
              → lookup j given_up.queue.metadata ≡ (
                  let mine = find_key j (meta ∷ []) in
                  dropped_in mine (counted_in 0 mine (lookup j waiting.queue.metadata))))
          × IsGivenBack info waiting.encoded_blobstore given_up.encoded_blobstore
          × (given_up.slice_signer ≡ waiting.slice_signer))
finish_signing_lem_example =
    finish_signing_lem 0 1 info waiting given_up (some failed_aggregate_signatures) (refl, tt)
      gives_up
