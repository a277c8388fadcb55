-- ===== src/MemoryDb.antt =====
-- disperser/common/memorydb/memorydb.go: the in-memory blob store. Each method runs under the
-- store's mutex, so it is one function from state to state. Pointers into the metadata map are
-- values here: an argument is what the pointer shows when the call is made.
pub mod Queries
pub mod Accounting
pub mod Calls
pub mod Contents
pub mod Capacity
pub mod Lifecycle
pub mod Listing
use g_da_client.Common.{
  ℕ, ◌+◌, ◌%◌, Bool, true, false, Option, none, some, List, [], ◌∷◌, Bytes, bytes_eq, Map, Result,
  ok, err, lookup, insert, delete, length, add64, sub64, u64_mod, ltb, if◌then◌else◌, ◌≡◌,
}
use g_da_client.Core.{Blob, BlobRequestHeader}
use g_da_client.Core.Encoding.{max_blob_size}
use g_da_client.Disperser.Status.{
  Error, blob_not_found, memory_db_is_full, nil_dereference, BlobStatus, processing, confirmed,
  failed, finalized,
}
use g_da_client.Disperser.BlobKey.{BlobKey, key_eq}
use g_da_client.Disperser.Metadata.{
  BlobMetadata, RequestMetadata, ConfirmationInfo, get_blob_key, is_confirmed,
}
use g_da_client.Disperser.Hashes.{get_blob_hash, get_metadata_hash}

-- `BlobHolder`: the `Data` field.
pub record BlobHolder : Type 0 where
  pub content : Bytes

-- `SharedBlobStore`
pub record MemoryDb : Type 0 where
  pub blobs : Map Bytes BlobHolder
  pub metadata : Map BlobKey BlobMetadata
  pub size_limit : ℕ
  pub size : ℕ

-- `NewBlobStore`
abbrev pub new_blob_store : ℕ → MemoryDb
new_blob_store limit = record { blobs = []; metadata = []; size_limit = limit; size = 0 }

request_size : Option RequestMetadata → ℕ
request_size none = 0
request_size (some r) = 16 + length r.header.account_id + 184

confirmation_size : Option ConfirmationInfo → ℕ
confirmation_size none = 0
confirmation_size (some c) =
    24
    + length c.batch_root
    + (24 + length c.blob_inclusion_proof)
    + (24 + length c.fee)
    + (24 + length c.commitment_root)
    + 172

-- `sizeOf`: each `+=` wraps at 2^64, so the sum is taken modulo 2^64.
unfoldable pub size_of : BlobMetadata → ℕ
unfolding request_size confirmation_size
size_of m =
    (16
      + length m.blob_hash
      + (16 + length m.metadata_hash)
      + 40
      + request_size m.request_metadata
      + confirmation_size m.confirmation_info)
    % u64_mod

drop_holder : Bytes → MemoryDb → MemoryDb
drop_holder hash q = elim (lookup hash q.blobs) [
  | none ↦ q
  | some _ ↦ record q { size = sub64 q.size max_blob_size; blobs = delete hash q.blobs }
]

drop_metadata : BlobKey → MemoryDb → MemoryDb
drop_metadata key q = elim (lookup key q.metadata) [
  | none ↦ q
  | some existing ↦ record q {
    size = sub64 q.size (size_of existing);
    metadata = delete key q.metadata;
  }
]

-- `RemoveBlob`; it returns no error.
unfoldable pub remove_blob : BlobMetadata → MemoryDb → MemoryDb
unfolding drop_holder drop_metadata
remove_blob m q = drop_metadata (get_blob_key m) (drop_holder m.metadata_hash q)

-- The first `if` of `StoreBlob`. The size is raised before it is compared, and stays raised.
store_holder : Bytes → Bytes → MemoryDb → MemoryDb × Option Error
store_holder hash content q = elim (lookup hash q.blobs) [
  | some _ ↦ (q, none)
  | none ↦
      let grown = add64 q.size max_blob_size in
      if ltb q.size_limit grown then (record q { size = grown }, some memory_db_is_full) else (
        record q { size = grown; blobs = insert hash (record { content = content }) q.blobs },
        none,
      )
]

-- The second `if`.
store_metadata : BlobKey → BlobMetadata → MemoryDb → MemoryDb × Option Error
store_metadata key m q = elim (lookup key q.metadata) [
  | some _ ↦ (q, none)
  | none ↦
      let grown = add64 q.size (size_of m) in
      if ltb q.size_limit grown
      then (record q { size = grown }, some memory_db_is_full)
      else (record q { size = grown; metadata = insert key m q.metadata }, none)
]

-- The metadata of a blob that has just been received.
abbrev pub new_metadata : BlobKey → Blob → ℕ → BlobMetadata
new_metadata key blob requested_at = record {
  blob_hash = key.blob_hash;
  metadata_hash = key.metadata_hash;
  blob_status = processing;
  expiry = 0;
  num_retries = 0;
  request_metadata = some (record {
    header = blob.request_header;
    blob_size = length blob.content;
    requested_at = requested_at;
  });
  confirmation_info = none;
}

unfoldable pub blob_key_of : (Bytes → Bytes) → Blob → ℕ → BlobKey
blob_key_of sha256 blob requested_at = record {
  blob_hash = get_blob_hash sha256 blob;
  metadata_hash = get_metadata_hash sha256 requested_at;
}

store_at : BlobKey → Blob → ℕ → MemoryDb → MemoryDb × Option Error
store_at key blob requested_at q =
    let (q', e) = store_holder key.metadata_hash blob.content q in
    elim e [
      | some full ↦ (q', some full)
      | none ↦ store_metadata key (new_metadata key blob requested_at) q'
    ]

-- `StoreBlob`: the key comes back beside an error too.
unfoldable pub store_blob :
    (Bytes → Bytes) → Blob → ℕ → MemoryDb → MemoryDb × BlobKey × Option Error
unfolding store_holder store_metadata store_at
store_blob sha256 blob requested_at q =
    let key = blob_key_of sha256 blob requested_at in
    let (q', e) = store_at key blob requested_at q in (q', key, e)

-- `MarkBlobConfirmed`. The entry that `GetBlobMetadata` has found is also the one whose size is
-- taken off, since the mutex is held throughout.
unfoldable pub mark_blob_confirmed :
    BlobMetadata → ConfirmationInfo → MemoryDb → MemoryDb × Result Error BlobMetadata
mark_blob_confirmed existing info q = elim (lookup (get_blob_key existing) q.metadata) [
  | none ↦ (q, err blob_not_found)
  | some refreshed ↦
      let m = record existing { blob_status = confirmed; confirmation_info = some info } in
      let grown = add64 (sub64 q.size (size_of refreshed)) (size_of m) in
      let q' = record q { size = grown; metadata = insert (get_blob_key existing) m q.metadata } in
      elim (is_confirmed refreshed) [ ok true ↦ (q, ok refreshed) | _ ↦ (q', ok m) ]
]

-- Change the entry of a key in place, or report that there is none.
abbrev update_entry : (BlobMetadata → BlobMetadata) → BlobKey → MemoryDb → MemoryDb × Option Error
update_entry f key q = elim (lookup key q.metadata) [
  | none ↦ (q, some blob_not_found)
  | some m ↦ (record q { metadata = insert key (f m) q.metadata }, none)
]

unfoldable pub mark_blob_finalized : BlobKey → MemoryDb → MemoryDb × Option Error
mark_blob_finalized = update_entry (λ m. record m { blob_status = finalized })

unfoldable pub mark_blob_processing : BlobKey → MemoryDb → MemoryDb × Option Error
mark_blob_processing = update_entry (λ m. record m { blob_status = processing })

unfoldable pub mark_blob_failed : BlobKey → MemoryDb → MemoryDb × Option Error
mark_blob_failed = update_entry (λ m. record m { blob_status = failed })

unfoldable pub increment_blob_retry_count : BlobMetadata → MemoryDb → MemoryDb × Option Error
increment_blob_retry_count existing =
    update_entry (λ m. record m { num_retries = add64 m.num_retries 1 }) (get_blob_key existing)

-- `HandleBlobFailure` reads the retries of the metadata that the caller holds.
unfoldable pub handle_blob_failure : BlobMetadata → ℕ → MemoryDb → MemoryDb × Option Error
unfolding increment_blob_retry_count mark_blob_failed
handle_blob_failure m max_retry q =
    if ltb m.num_retries max_retry
    then increment_blob_retry_count m q
    else mark_blob_failed (get_blob_key m) q
