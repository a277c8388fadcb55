-- ===== src/Tests/Batch.antt =====
-- The batcher on concrete inputs: a batch that is dispatched, and one that cannot be.
use g_da_client.Common.{
  ℕ, ◌≡◌, refl, some, List, [], ◌∷◌, Bytes, bytes_eq, nat_eq, ok, err, lookup, insert, delete,
  str_beq, add64, sub64,
}
use g_da_client.Disperser.Status.{call_failed, failed, status_beq}
use g_da_client.Disperser.BlobKey.{BlobKey, to_string, key_eq, key_beq}
use g_da_client.Disperser.Metadata.{BlobMetadata, get_blob_key}
use g_da_client.MemoryDb.{
  new_blob_store, new_metadata, handle_blob_failure, increment_blob_retry_count, mark_blob_failed,
  remove_blob, size_of,
}
use g_da_client.MemoryDb.Queries.{get_blob_metadata}
use g_da_client.EncodedStore.{
  EncodingResult, new_encoded_blob_store, get_request_id, get_chunks_size, delete_encoding_result,
  get_new_encoding_results, fetch_from, delete_batching_status, delete_all,
}
use g_da_client.Failures.{handle_failure, has_failed, drop_failed}
use g_da_client.Failures.Entries.{find_key, counted_in, dropped_in}
use g_da_client.SliceSigner.Pending.{Batch, new_encoded_slice_signer, put_pending_batches}
use g_da_client.Streamer.{create_batch, make_batch, gather, values_of}
use g_da_client.Batcher.{
  Batcher, Services, make_proofs, prepare, give_up, dispatch_batch, handle_single_batch,
  single_batch_round,
}
use g_da_client.Batcher.Single.{SameBatches, single_batch_round-failed}
use g_da_client.Batcher.Dispatch.{give_up_lem}

program : Unit {0}
unfolding lookup insert delete str_beq key_beq to_string get_blob_key get_chunks_size add64 sub64
    handle_blob_failure increment_blob_retry_count mark_blob_failed remove_blob get_blob_metadata
    delete_encoding_result get_new_encoding_results fetch_from delete_batching_status delete_all
    handle_failure has_failed drop_failed put_pending_batches create_batch make_batch gather
    values_of make_proofs prepare give_up dispatch_batch handle_single_batch single_batch_round
    status_beq size_of
program = tt

abbrev pub key : BlobKey
key = record { blob_hash = 1 ∷ []; metadata_hash = 2 ∷ [] }

abbrev pub meta : BlobMetadata
meta =
    new_metadata key
      (record {
        request_header = record { security_params = []; account_id = [] };
        content = 8 ∷ [];
      })
      5

abbrev pub encoding : EncodingResult
encoding = record {
  blob_metadata = meta;
  reference_block_number = 0;
  blob_commitments = record {
    erasure_commitment = 4 ∷ [];
    storage_root = 3 ∷ [];
    encoded_data = [];
    encoded_slice = (1 ∷ 2 ∷ []) ∷ (3 ∷ 4 ∷ []) ∷ [];
  };
}

abbrev order : List (Bytes × EncodingResult)
order = (get_request_id key, encoding) ∷ []

-- A root, a proof and a transaction, made up for the test.
abbrev pub working : Services ℕ ℕ
working = record {
  set_batch_root = λ headers. ok (6 ∷ []);
  batch_header_hash = λ root. ok (7 ∷ root);
  inclusion_proof = λ headers header. ok ((3 ∷ []) ∷ []);
  disperse_batch = λ hash batch. ok (9 ∷ hash);
  submit_aggregate_signatures = λ submissions. ok (5 ∷ []);
}

abbrev broken : Services ℕ ℕ
broken = record working { disperse_batch = λ hash batch. err call_failed }

abbrev pub start : Batcher ℕ ℕ
start = record {
  queue = record (new_blob_store 100) { metadata = (key, meta) ∷ [] };
  encoded_blobstore = record new_encoded_blob_store { encoded = order; encoded_result_size = 4 };
  slice_signer = new_encoded_slice_signer;
  to_confirm = [];
}

abbrev counted_once : Batcher ℕ ℕ
counted_once = record start {
  queue = record (new_blob_store 100) { metadata = (key, record meta { num_retries = 1 }) ∷ [] };
}

unsent : single_batch_round broken 2 order 5 start ≡ ok (counted_once, some call_failed)
unfolding program
unsent = refl

single_batch_round-failed_example :
    SameBatches start.encoded_blobstore counted_once.encoded_blobstore
    × (counted_once.slice_signer ≡ start.slice_signer)
unfolding program
single_batch_round-failed_example =
    single_batch_round-failed broken 2 order 5 start counted_once call_failed (refl, tt) refl unsent

abbrev pub batch : Batch
batch = record {
  encoded_blobs = encoding.blob_commitments ∷ [];
  blob_metadata = meta ∷ [];
  blob_headers = record { commitment_root = 4 ∷ []; blob_length = 4 } ∷ [];
  batch_root = 6 ∷ [];
  tx_hash = [];
}

abbrev dispatched : Batcher ℕ ℕ
dispatched = record start {
  encoded_blobstore = record start.encoded_blobstore {
    batching = (get_request_id key, 5) ∷ [];
    batches = (5, get_request_id key ∷ []) ∷ [];
  };
  slice_signer = record new_encoded_slice_signer {
    pending_batches =
        (record {
          header_hash = 7 ∷ 6 ∷ [];
          batch = record batch { tx_hash = 9 ∷ 7 ∷ 6 ∷ [] };
          ts = 5;
          proofs = ((3 ∷ []) ∷ []) ∷ [];
          reties = 0;
          epoch = 0;
          quorum_id = 0;
          new_blobs = [];
        })
        ∷ [];
  };
}

-- A blob that was Failed before, and is dropped.
abbrev failing : Batcher ℕ ℕ
failing = record start {
  queue = record (new_blob_store 100) {
    metadata = (key, record meta { blob_status = failed }) ∷ [];
    size = 274;
  };
}

abbrev dropped : Batcher ℕ ℕ
dropped = record start { queue = new_blob_store 100; encoded_blobstore = new_encoded_blob_store }

gives_up : give_up broken 2 batch failing ≡ ok dropped
unfolding program
gives_up = refl

give_up_lem_example : lookup key dropped.queue.metadata ≡ (
    let mine = find_key key (meta ∷ []) in
    counted_in 2 mine (dropped_in mine (lookup key failing.queue.metadata)))
give_up_lem_example = give_up_lem broken 2 batch failing dropped key (refl, tt) gives_up
