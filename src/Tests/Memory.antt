-- ===== src/Tests/Memory.antt =====
-- The in-memory store on concrete inputs.
use g_da_client.Common.{
  ℕ, suc, ◌+◌, ◌*◌, ◌-◌, ◌≤◌, ◌≡◌, ◌⊎◌, refl, none, some, List, [], ◌∷◌, Bytes, bytes_eq, ok,
  lookup, delete, insert, str_beq, add64, sub64, arith, ◌==◌, if◌then◌else◌, encode_to_string,
  format_uint,
}
use g_da_client.Core.{Blob}
use g_da_client.Core.Encoding.{max_blob_size}
use g_da_client.Disperser.Status.{BlobStatus, failed, status_beq}
use g_da_client.Disperser.BlobKey.{BlobKey, key_eq, key_beq}
use g_da_client.Disperser.Metadata.{BlobMetadata, ConfirmationInfo, get_blob_key, is_confirmed}
use g_da_client.Disperser.Hashes.{get_blob_hash, get_metadata_hash}
use g_da_client.MemoryDb.{
  MemoryDb, new_blob_store, size_of, remove_blob, store_blob, new_metadata, blob_key_of,
  mark_blob_confirmed, mark_blob_finalized, mark_blob_processing, mark_blob_failed,
  increment_blob_retry_count, handle_blob_failure,
}
use g_da_client.MemoryDb.Accounting.{IsAccounted}
use g_da_client.MemoryDb.Calls.{
  Call, store, remove, confirm, finalize, step, run, run-IsAccounted, new_blob_store-IsAccounted,
}
use g_da_client.MemoryDb.Contents.{or_else, store_blob_stores}
use g_da_client.MemoryDb.Capacity.{requests, refused_requests_leak}
use g_da_client.MemoryDb.Lifecycle.{failures, failures_exhaust}

program : Unit {0}
unfolding lookup delete insert str_beq key_beq status_beq get_blob_key is_confirmed get_blob_hash
    get_metadata_hash size_of remove_blob store_blob blob_key_of mark_blob_confirmed
    mark_blob_finalized mark_blob_processing mark_blob_failed increment_blob_retry_count
    handle_blob_failure add64 sub64 encode_to_string format_uint step run
program = tt

abbrev digest : Bytes → Bytes
digest bs = 7 ∷ []

abbrev blob : Blob
blob = record {
  request_header = record { security_params = []; account_id = [] };
  content = 1 ∷ 2 ∷ [];
}

abbrev key : BlobKey
key = blob_key_of digest blob 5

abbrev meta : BlobMetadata
meta = new_metadata key blob 5

abbrev empty : MemoryDb
empty = new_blob_store 100_000_000

abbrev info : ConfirmationInfo
info = record {
  batch_header_hash = 1 ∷ [];
  blob_index = 0;
  blob_count = 0;
  signatory_record_hash = [];
  reference_block_number = 0;
  batch_root = 2 ∷ [];
  blob_inclusion_proof = [];
  commitment_root = [];
  data_root = 3 ∷ [];
  epoch = 1;
  quorum_id = 0;
  blob_length = 2;
  batch_id = 9;
  submission_txn_hash = [];
  confirmation_txn_hash = [];
  confirmation_block_number = 4;
  fee = [];
  quorum_results = [];
  blob_quorum_infos = [];
}

stored_well : (store_blob digest blob 5 empty).2 ≡ none
unfolding program
stored_well = refl

abbrev calls : List Call
calls = store blob 5 ∷ confirm meta info ∷ finalize key ∷ remove meta ∷ []

run-IsAccounted_example : IsAccounted (run digest calls empty)
unfolding step
run-IsAccounted_example =
    run-IsAccounted digest calls empty (stored_well, (tt, (tt, (tt, tt))))
      (new_blob_store-IsAccounted 100_000_000)

store_blob_stores_example :
    let q' = (store_blob digest blob 5 empty).0 in
    (lookup key q'.metadata ≡ (
      if key == key
      then some (or_else (lookup key empty.metadata) meta)
      else lookup key empty.metadata))
    × (lookup (9 ∷ []) q'.blobs ≡ (
        if key.metadata_hash == (9 ∷ [])
        then some
            (or_else (lookup key.metadata_hash empty.blobs) (record { content = blob.content }))
        else lookup (9 ∷ []) empty.blobs))
    × ((q'.size ≤ empty.size_limit) ⊎ (q' ≡ empty))
store_blob_stores_example = store_blob_stores digest blob 5 empty key (9 ∷ []) stored_well

abbrev small : MemoryDb
small = new_blob_store 1000

refused_requests_leak_example :
    let q' = requests digest blob 5 (suc 2) small in
    (q'.blobs ≡ small.blobs)
    × (q'.metadata ≡ small.metadata)
    × (q'.size ≡ small.size + suc 2 * max_blob_size)
    × (IsAccounted q' → ⊥)
unfolding lookup
refused_requests_leak_example =
    refused_requests_leak digest blob 5 2 small (new_blob_store-IsAccounted 1000) refl (omega arith)
      (omega arith)

abbrev tight : MemoryDb
tight = new_blob_store max_blob_size

abbrev one : MemoryDb
one = record empty {
  metadata = (key, meta) ∷ [];
  blobs = (key.metadata_hash, record { content = blob.content }) ∷ [];
}

one_holds : lookup key one.metadata ≡ some meta
unfolding program
one_holds = refl

get_blob_key-meta : get_blob_key meta ≡ key
unfolding program
get_blob_key-meta = refl

failures_exhaust_example :
    ((n : ℕ) (j : BlobKey)
      → 0 + n ≤ 2
      → lookup j (failures n 2 key one).metadata
        ≡ (if key == j then some (record meta { num_retries = 0 + n }) else lookup j one.metadata))
    × ((j : BlobKey)
        → lookup j (failures (suc (2 - 0)) 2 key one).metadata ≡ (
            if key == j
            then some (record meta { num_retries = 2; blob_status = failed })
            else lookup j one.metadata))
failures_exhaust_example =
    failures_exhaust 2 key meta one one_holds get_blob_key-meta (omega arith) (omega arith)

confirmed_once :
    (mark_blob_confirmed meta info one).1
    ≡ ok (record meta { blob_status = BlobStatus.confirmed; confirmation_info = some info })
unfolding program
confirmed_once = refl
