-- ===== src/Tests/Encoded.antt =====
-- The encoded blob store on concrete inputs.
use g_da_client.Common.{
  ◌≤◌, ◌≡◌, refl, none, some, true, not, ◌&&◌, List, [], ◌∷◌, ◌++◌, Bytes, bytes_eq, nat_eq, ok,
  lookup, delete, insert, str_beq, ◌==◌, if◌then◌else◌, ◌≢◌, add64, sub64,
}
use g_da_client.Disperser.Status.{processing}
use g_da_client.Disperser.BlobKey.{BlobKey, to_string}
use g_da_client.Disperser.Metadata.{BlobMetadata, get_blob_key}
use g_da_client.EncodedStore.{
  EncodedBlobStore, EncodingResult, max_slice_size, new_encoded_blob_store, has, get_request_id,
  get_chunks_size, put_encoding_request, put_encoding_result, get_encoding_result,
  delete_encoding_result, get_new_encoding_results, delete_batching_status, has_encoding_requested,
  or_empty, fetch_from, delete_all,
}
use g_da_client.EncodedStore.Loop.{results, ids, SameResults}
use g_da_client.EncodedStore.Fetch.{total, is_among, AllSized, get_new_encoding_results_lem}
use g_da_client.EncodedStore.Calls.{
  Call, request, result, fetch, drop, release, run_calls, run_calls-IsAccounted,
  new_encoded_blob_store-IsAccounted,
}
use g_da_client.EncodedStore.Accounting.{IsAccounted}
use g_da_client.EncodedStore.Stages.{stage, Stage, stage-put_encoding_request}

program : Unit {0}
unfolding lookup delete insert str_beq to_string get_blob_key get_chunks_size put_encoding_request
    put_encoding_result get_encoding_result delete_encoding_result get_new_encoding_results
    delete_batching_status fetch_from delete_all has_encoding_requested add64 sub64
program = tt

abbrev key : BlobKey
key = record { blob_hash = 1 ∷ []; metadata_hash = 2 ∷ [] }

abbrev meta : BlobMetadata
meta = record {
  blob_hash = 1 ∷ [];
  metadata_hash = 2 ∷ [];
  blob_status = processing;
  expiry = 0;
  num_retries = 0;
  request_metadata = none;
  confirmation_info = none;
}

abbrev encoding : EncodingResult
encoding = record {
  blob_metadata = meta;
  reference_block_number = 0;
  blob_commitments = record {
    erasure_commitment = [];
    storage_root = 3 ∷ [];
    encoded_data = [];
    encoded_slice = (1 ∷ 2 ∷ []) ∷ (3 ∷ 4 ∷ []) ∷ [];
  };
}

encoding_sized : get_chunks_size encoding ≡ ok 4
unfolding program
encoding_sized = refl

abbrev waiting : EncodedBlobStore
waiting = record new_encoded_blob_store { requested = (get_request_id key, tt) ∷ [] }

abbrev holding : EncodedBlobStore
holding = record new_encoded_blob_store {
  encoded = (get_request_id key, encoding) ∷ [];
  batching = (get_request_id key, 5) ∷ [];
  batches = (5, get_request_id key ∷ []) ∷ [];
  encoded_result_size = 4;
}

abbrev ready : EncodedBlobStore
ready = record holding { batching = []; batches = [] }

abbrev order : List (Bytes × EncodingResult)
order = (get_request_id key, encoding) ∷ []

abbrev calls : List Call
calls = request key ∷ result encoding ∷ fetch order 5 ∷ release 5 ∷ drop key ∷ []

run_calls-IsAccounted_example : IsAccounted (run_calls calls new_encoded_blob_store)
run_calls-IsAccounted_example =
    run_calls-IsAccounted calls new_encoded_blob_store new_encoded_blob_store-IsAccounted

order_sized : AllSized order
order_sized = ((4, encoding_sized), tt)

fetched_one : get_new_encoding_results order 5 ready ≡ ok (encoding ∷ [], holding)
unfolding program
fetched_one = refl

get_new_encoding_results_lem_example :
    (fetched : List (Bytes × EncodingResult)) × (results fetched ≡ encoding ∷ [])
    × (total fetched ≤ max_slice_size)
    × ((k : Bytes)
        → lookup k holding.batching
          ≡ (if is_among k fetched then some 5 else lookup k ready.batching))
    × ((k : Bytes) → is_among k fetched ≡ true → lookup k ready.batching ≡ none)
    × (or_empty (lookup 5 holding.batches) ≡ or_empty (lookup 5 ready.batches) ++ ids fetched)
    × SameResults ready holding
    × (total order ≤ max_slice_size
        → (k : Bytes)
        → is_among k fetched ≡ is_among k order && not (has (lookup k ready.batching)))
get_new_encoding_results_lem_example =
    get_new_encoding_results_lem order 5 ready holding (encoding ∷ []) fetched_one

not_done : stage (get_request_id key) new_encoded_blob_store ≢ Stage.done
unfolding lookup
not_done e = cc

stage-put_encoding_request_example :
    stage (get_request_id key) (put_encoding_request key new_encoded_blob_store) ≡ (
      if get_request_id key == get_request_id key
      then Stage.requested
      else stage (get_request_id key) new_encoded_blob_store)
stage-put_encoding_request_example =
    stage-put_encoding_request key (get_request_id key) new_encoded_blob_store not_done

held_result : lookup (get_request_id key) holding.encoded ≡ some encoding
unfolding program
held_result = refl
