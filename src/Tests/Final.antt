-- ===== src/Tests/Final.antt =====
-- The finalizer on concrete inputs.
use g_da_client.Common.{
  ◌-◌, ◌^◌, ◌≤◌, ◌≡◌, ◌≢◌, ◌↔◌, ◌==◌, refl, true, false, Bool, none, some, List, [], ◌∷◌, Bytes,
  bytes_eq, Result, ok, lookup, insert, delete, str_beq, arith,
}
use g_da_client.Core.{Blob}
use g_da_client.Disperser.Status.{Error, confirmed, finalized}
use g_da_client.Disperser.BlobKey.{BlobKey, key_eq, key_beq}
use g_da_client.Disperser.Metadata.{BlobMetadata, ConfirmationInfo, get_blob_key}
use g_da_client.Disperser.Hashes.{BlobRetrieveMetadata}
use g_da_client.Disperser.KeyCache.{fresh}
use g_da_client.MemoryDb.{MemoryDb, new_blob_store, new_metadata}
use g_da_client.Finalizer.{
  Receipt, found, update_finalized_block_number, finalize_blob, Entries, persist_confirmed_blobs,
  remove_all,
}
use g_da_client.Finalizer.Blocks.{IsFinal, HasStatus, update_wraps, finalize_blob_lem}
use g_da_client.Finalizer.Persist.{IsEntries, persist_confirmed_blobs_lem}

program : Unit {0}
unfolding lookup insert delete str_beq key_beq get_blob_key
program = tt

-- A chain of 10 blocks, with 64 to wait for.
update_wraps_example :
    let wrapped = update_finalized_block_number none (some 10) 64 0 in
    (2 ^ 64 - 64 ≤ wrapped) × (wrapped ≤ update_finalized_block_number (some 11) none 64 wrapped)
update_wraps_example = update_wraps 10 64 0 (some 11) none (omega arith) (omega arith) (omega arith)

abbrev key : BlobKey
key = record { blob_hash = 1 ∷ []; metadata_hash = 2 ∷ [] }

abbrev blob : Blob
blob = record {
  request_header = record { security_params = []; account_id = [] };
  content = 8 ∷ [];
}

abbrev info : ConfirmationInfo
info = record {
  batch_header_hash = 1 ∷ [];
  blob_index = 0;
  blob_count = 0;
  signatory_record_hash = [];
  reference_block_number = 0;
  batch_root = 2 ∷ [];
  blob_inclusion_proof = [];
  commitment_root = [];
  data_root = 3 ∷ [];
  epoch = 1;
  quorum_id = 0;
  blob_length = 2;
  batch_id = 9;
  submission_txn_hash = [];
  confirmation_txn_hash = 7 ∷ [];
  confirmation_block_number = 4;
  fee = [];
  quorum_results = [];
  blob_quorum_infos = [];
}

abbrev meta : BlobMetadata
meta = record (new_metadata key blob 5) { blob_status = confirmed; confirmation_info = some info }

abbrev db : MemoryDb
db = record (new_blob_store 100) {
  blobs = (2 ∷ [], record { content = 8 ∷ [] }) ∷ [];
  metadata = (key, meta) ∷ [];
}

-- Every transaction is in block 5.
abbrev receipt : Bytes → Receipt
receipt hash = found 5

held : lookup (get_blob_key meta) db.metadata ≡ some meta
unfolding program
held = refl

finalize_blob_lem_example :
    (q' : MemoryDb) × (marked : Bool) × (finalize_blob receipt 6 2 meta db ≡ ok (q', marked))
    × ((marked ≡ true) ↔ IsFinal receipt 6 info)
    × (marked ≡ true → HasStatus (get_blob_key meta) finalized q')
    × ((k : BlobKey)
        → (get_blob_key meta == k) ≡ false
        → lookup k q'.metadata ≡ lookup k db.metadata)
    × (q'.blobs ≡ db.blobs)
finalize_blob_lem_example = finalize_blob_lem receipt 6 2 meta meta info db held refl

abbrev digest : Bytes → Bytes
digest bs = 7 ∷ []

abbrev serialize : BlobRetrieveMetadata → Result Error Bytes
serialize m = ok m.data_root

-- A key-value store that keeps every batch.
abbrev store_batch : Entries → List Entries → Result Error (List Entries)
store_batch es kv = ok (es ∷ kv)

persist_confirmed_blobs_lem_example :
    let out = persist_confirmed_blobs digest serialize store_batch (meta ∷ []) fresh [] db in
    (out.1 ≡ none
      → (es : Entries) × IsEntries serialize db (meta ∷ []) es
        × (store_batch es [] ≡ ok out.0.1)
        × (out.0.2 ≡ remove_all (meta ∷ []) db))
    × (out.1 ≢ none → (out.0.1 ≡ []) × (out.0.2 ≡ db))
persist_confirmed_blobs_lem_example =
    persist_confirmed_blobs_lem digest serialize store_batch meta [] fresh [] db
