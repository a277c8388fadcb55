-- ===== src/Failures/Entries.antt =====
-- What becomes of each entry of the blob store when a batch fails.
use g_da_client.Common.{
  ℕ, Bool, false, ◌||◌, Option, none, some, List, [], ◌∷◌, Bytes, bytes_eq, ok, lookup,
  lookup-insert, lookup-delete, ◌==◌, add64, ltb, if◌then◌else◌, ◌≡◌, arith, Option-cases,
  Result-cases, map, Bool-cases, inl, inr,
}
use g_da_client.Disperser.Status.{failed, status_beq}
use g_da_client.Disperser.BlobKey.{BlobKey, key_eq}
use g_da_client.Disperser.Metadata.{BlobMetadata, get_blob_key}
use g_da_client.MemoryDb.{
  MemoryDb, handle_blob_failure, increment_blob_retry_count, mark_blob_failed, remove_blob,
}
use g_da_client.MemoryDb.Queries.{get_blob_metadata}
use g_da_client.MemoryDb.Contents.{lookup-remove_blob}
use g_da_client.EncodedStore.{
  EncodedBlobStore, get_request_id, delete_encoding_result, get_chunks_size,
}
use g_da_client.Failures.{handle_failure, has_failed, drop_failed}

-- The blob of the list that has the key.
abbrev pub find_key : BlobKey → List BlobMetadata → Option BlobMetadata
find_key j [] = none
find_key j (m ∷ ms) = if get_blob_key m == j then some m else find_key j ms

-- No key is listed twice.
abbrev pub AreApart : List BlobMetadata → Type 0
AreApart [] = Unit
AreApart (m ∷ ms) = (find_key (get_blob_key m) ms ≡ none) × AreApart ms

-- A failure of `m`, counted on the entry that the store has.
abbrev pub counted : ℕ → BlobMetadata → BlobMetadata → BlobMetadata
counted max_retries m c =
    if ltb m.num_retries max_retries
    then record c { num_retries = add64 c.num_retries 1 }
    else record c { blob_status = failed }

abbrev pub counted_in : ℕ → Option BlobMetadata → Option BlobMetadata → Option BlobMetadata
counted_in max_retries none entry = entry
counted_in max_retries (some m) none = none
counted_in max_retries (some m) (some c) = some (counted max_retries m c)

handle_blob_failure-entry :
    (m : BlobMetadata) (max_retries : ℕ) (q : MemoryDb) (j : BlobKey)
    → lookup j (handle_blob_failure m max_retries q).0.metadata ≡ (
        if get_blob_key m == j
        then counted_in max_retries (some m) (lookup j q.metadata)
        else lookup j q.metadata)
unfolding handle_blob_failure increment_blob_retry_count mark_blob_failed
handle_blob_failure-entry m max_retries q j =
    elim (Option-cases (lookup (get_blob_key m) q.metadata)) [
      | inl gone ↦ ground (arith, key_eq.decides (get_blob_key m) j)
      | inr (c, here) ↦ ground (
        arith,
        key_eq.decides (get_blob_key m) j,
        lookup-insert (get_blob_key m) j (counted max_retries m c) q.metadata,
      )
    ]

-- `handleFailure` counts one failure for every blob that the store has, and touches no other.
pub handle_failure-entry :
    (ms : List BlobMetadata) (max_retries : ℕ) (q q' : MemoryDb) (j : BlobKey)
    → AreApart ms
    → handle_failure ms max_retries q ≡ ok q'
    → lookup j q'.metadata ≡ counted_in max_retries (find_key j ms) (lookup j q.metadata)
unfolding handle_failure
handle_failure-entry [] max_retries q q' j apart h = ground arith
handle_failure-entry (m ∷ ms) max_retries q q' j apart h = ground (
  arith,
  handle_failure-entry ms max_retries (handle_blob_failure m max_retries q).0 q' j apart.1,
  handle_blob_failure-entry m max_retries q j,
  key_eq.decides (get_blob_key m) j,
)

abbrev pub is_failed : Option BlobMetadata → Bool
is_failed none = false
is_failed (some c) = status_beq c.blob_status failed

abbrev pub dropped_in : Option BlobMetadata → Option BlobMetadata → Option BlobMetadata
dropped_in none entry = entry
dropped_in (some m) entry = if is_failed entry then none else entry

pub has_failed_iff :
    (m : BlobMetadata) (q : MemoryDb)
    → has_failed m q ≡ is_failed (lookup (get_blob_key m) q.metadata)
unfolding has_failed get_blob_metadata
has_failed_iff m q = ground arith

-- The loop after a failed dispatch takes exactly the blobs of the list that have failed out of the
-- blob store.
pub drop_failed-entry :
    (ms : List BlobMetadata) (q q' : MemoryDb) (e e' : EncodedBlobStore) (j : BlobKey)
    → AreApart ms
    → drop_failed ms q e ≡ ok (q', e')
    → lookup j q'.metadata ≡ dropped_in (find_key j ms) (lookup j q.metadata)
unfolding drop_failed
drop_failed-entry [] q q' e e' j apart h = ground arith
drop_failed-entry (m ∷ ms) q q' e e' j apart h = elim (Bool-cases (has_failed m q)) [
  | inr kept ↦ ground (
    arith,
    drop_failed-entry ms q q' e e' j apart.1,
    has_failed_iff m q,
    key_eq.decides (get_blob_key m) j,
  )
  | inl gone ↦ elim (Result-cases (delete_encoding_result (get_blob_key m) e)) [
    | inr (x, fails) ↦ absurd (ground arith)
    | inl (e1, fine) ↦ ground (
      arith,
      drop_failed-entry ms (remove_blob m q) q' e1 e' j apart.1,
      lookup-remove_blob m q j,
      has_failed_iff m q,
      key_eq.decides (get_blob_key m) j,
    )
  ]
]

pub delete_encoding_result-batching :
    (key : BlobKey) (e e' : EncodedBlobStore) (id : Bytes)
    → delete_encoding_result key e ≡ ok e'
    → ((get_request_id key == id) ≡ false → lookup id e'.batching ≡ lookup id e.batching)
      × (e'.batches ≡ e.batches)
unfolding delete_encoding_result
delete_encoding_result-batching key e e' id h =
    elim (Option-cases (lookup (get_request_id key) e.encoded)) [
      | inl gone ↦ ground arith
      | inr (r, here) ↦ elim (Result-cases (get_chunks_size r)) [
        | inr (x, fails) ↦ absurd (ground arith)
        | inl (n, sized) ↦ ground (arith, lookup-delete (get_request_id key) id e.batching)
      ]
    ]

-- The request of one of the keys.
abbrev pub is_asked : Bytes → List BlobKey → Bool
is_asked id [] = false
is_asked id (k ∷ ks) = (get_request_id k == id) || is_asked id ks

-- The results of other blobs stay in their batches, and no list of a batch changes.
pub drop_failed-batching :
    (ms : List BlobMetadata) (q q' : MemoryDb) (e e' : EncodedBlobStore) (id : Bytes)
    → drop_failed ms q e ≡ ok (q', e')
    → (is_asked id (map get_blob_key ms) ≡ false → lookup id e'.batching ≡ lookup id e.batching)
      × (e'.batches ≡ e.batches)
unfolding drop_failed
drop_failed-batching [] q q' e e' id h = ground arith
drop_failed-batching (m ∷ ms) q q' e e' id h = elim (Bool-cases (has_failed m q)) [
  | inr kept ↦ ground (arith, drop_failed-batching ms q q' e e' id)
  | inl gone ↦ elim (Result-cases (delete_encoding_result (get_blob_key m) e)) [
    | inr (x, fails) ↦ absurd (ground arith)
    | inl (e1, fine) ↦ ground (
      arith,
      drop_failed-batching ms (remove_blob m q) q' e1 e' id,
      delete_encoding_result-batching (get_blob_key m) e e1 id fine,
    )
  ]
]
