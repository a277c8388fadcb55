-- ===== src/MemoryDb/Accounting.antt =====
-- The `size` field against what the store holds.
use g_da_client.Common.{
  ℕ, ◌+◌, ◌%◌, ◌<◌, none, some, Bytes, bytes_eq, lookup, insert, add64, sub64, u64_mod, ltb, ◌≡◌,
  refl, Distinct, sum_of, sum_of-insert, sum_of-delete, insert-Distinct, delete-Distinct, arith,
  Option-cases, inl, inr, Bool-cases,
}
use g_da_client.Core.{Blob}
use g_da_client.Core.Encoding.{max_blob_size}
use g_da_client.Disperser.Status.{confirmed}
use g_da_client.Disperser.BlobKey.{BlobKey, key_eq}
use g_da_client.Disperser.Metadata.{BlobMetadata, ConfirmationInfo, get_blob_key}
use g_da_client.MemoryDb.{
  MemoryDb, BlobHolder, size_of, drop_holder, drop_metadata, remove_blob, store_holder,
  store_metadata, store_at, store_blob, new_metadata, blob_key_of, mark_blob_confirmed,
  update_entry, mark_blob_finalized, mark_blob_processing, mark_blob_failed,
  increment_blob_retry_count, handle_blob_failure,
}

-- Every blob counts as the largest, and every metadata as its estimate.
abbrev pub used : MemoryDb → ℕ
used q = sum_of (λ (h : BlobHolder). max_blob_size) q.blobs + sum_of size_of q.metadata

pub record IsAccounted (q : MemoryDb) : Type 0 where
  pub distinct_blobs : Distinct q.blobs
  pub distinct_metadata : Distinct q.metadata
  pub sized : q.size ≡ used q % u64_mod

pub size_of_bound : (m : BlobMetadata) → size_of m < u64_mod
unfolding size_of
size_of_bound m = omega arith

abbrev blob_size : BlobHolder → ℕ
blob_size h = max_blob_size

drop_holder-IsAccounted :
    (hash : Bytes) (q : MemoryDb) → IsAccounted q → IsAccounted (drop_holder hash q)
unfolding drop_holder sub64
drop_holder-IsAccounted hash q h = elim (Option-cases (lookup hash q.blobs)) [
  | inl gone ↦ ground arith
  | inr (v, here) ↦ ground (
    arith,
    delete-Distinct hash q.blobs h.distinct_blobs,
    sum_of-delete blob_size hash q.blobs h.distinct_blobs,
  )
]

drop_metadata-IsAccounted :
    (key : BlobKey) (q : MemoryDb) → IsAccounted q → IsAccounted (drop_metadata key q)
unfolding drop_metadata sub64
drop_metadata-IsAccounted key q h = elim (Option-cases (lookup key q.metadata)) [
  | inl gone ↦ ground arith
  | inr (v, here) ↦ ground (
    arith,
    delete-Distinct key q.metadata h.distinct_metadata,
    sum_of-delete size_of key q.metadata h.distinct_metadata,
    size_of_bound v,
  )
]

-- `RemoveBlob` keeps the accounts.
pub remove_blob-IsAccounted :
    (m : BlobMetadata) (q : MemoryDb) → IsAccounted q → IsAccounted (remove_blob m q)
unfolding remove_blob
remove_blob-IsAccounted m q h =
    drop_metadata-IsAccounted (get_blob_key m) _ (drop_holder-IsAccounted m.metadata_hash q h)

store_holder-IsAccounted :
    (hash content : Bytes) (q : MemoryDb)
    → IsAccounted q
    → (store_holder hash content q).1 ≡ none
    → IsAccounted (store_holder hash content q).0
unfolding store_holder add64
store_holder-IsAccounted hash content q h = ground (
  arith,
  insert-Distinct hash (record { content = content }) q.blobs h.distinct_blobs,
  sum_of-insert blob_size hash (record { content = content }) q.blobs h.distinct_blobs,
)

store_metadata-IsAccounted :
    (key : BlobKey) (m : BlobMetadata) (q : MemoryDb)
    → IsAccounted q
    → (store_metadata key m q).1 ≡ none
    → IsAccounted (store_metadata key m q).0
unfolding store_metadata add64
store_metadata-IsAccounted key m q h = ground (
  arith,
  insert-Distinct key m q.metadata h.distinct_metadata,
  sum_of-insert size_of key m q.metadata h.distinct_metadata,
)

store_at-IsAccounted :
    (key : BlobKey) (blob : Blob) (requested_at : ℕ) (q : MemoryDb)
    → IsAccounted q
    → (store_at key blob requested_at q).1 ≡ none
    → IsAccounted (store_at key blob requested_at q).0
unfolding store_at
store_at-IsAccounted key blob requested_at q h done =
    let m = new_metadata key blob requested_at in
    let held = store_holder-IsAccounted key.metadata_hash blob.content q h in
    let kept = store_metadata-IsAccounted key m (store_holder key.metadata_hash blob.content q).0 in
    elim (Option-cases (store_holder key.metadata_hash blob.content q).1) [
      | inl fine ↦ rw (fine, store_at) (kept (held fine) (ground arith))
      | inr (e, full) ↦ absurd (ground arith)
    ]

-- A `StoreBlob` that reports no error keeps the accounts.
pub store_blob-IsAccounted :
    (sha256 : Bytes → Bytes) (blob : Blob) (requested_at : ℕ) (q : MemoryDb)
    → IsAccounted q
    → (store_blob sha256 blob requested_at q).2 ≡ none
    → IsAccounted (store_blob sha256 blob requested_at q).0
unfolding store_blob
store_blob-IsAccounted sha256 blob requested_at q h done =
    store_at-IsAccounted (blob_key_of sha256 blob requested_at) blob requested_at q h done

abbrev replaced : BlobKey → BlobMetadata → BlobMetadata → MemoryDb → MemoryDb
replaced key old m q = record q {
  size = add64 (sub64 q.size (size_of old)) (size_of m);
  metadata = insert key m q.metadata;
}

replaced-IsAccounted :
    (key : BlobKey) (old m : BlobMetadata) (q : MemoryDb)
    → IsAccounted q
    → lookup key q.metadata ≡ some old
    → IsAccounted (replaced key old m q)
unfolding add64 sub64
replaced-IsAccounted key old m q h here = ground (
  arith,
  insert-Distinct key m q.metadata h.distinct_metadata,
  sum_of-insert size_of key m q.metadata h.distinct_metadata,
  size_of_bound old,
)

-- `MarkBlobConfirmed` keeps the accounts.
pub mark_blob_confirmed-IsAccounted :
    (existing : BlobMetadata) (info : ConfirmationInfo) (q : MemoryDb)
    → IsAccounted q
    → IsAccounted (mark_blob_confirmed existing info q).0
unfolding mark_blob_confirmed
mark_blob_confirmed-IsAccounted existing info q h =
    elim (Option-cases (lookup (get_blob_key existing) q.metadata)) [
      | inl gone ↦ rw (gone, mark_blob_confirmed) h
      | inr (old, here) ↦ ground (
        arith,
        replaced-IsAccounted (get_blob_key existing) old
            (record existing { blob_status = confirmed; confirmation_info = some info }) q h here,
      )
    ]

update_entry-IsAccounted :
    (f : BlobMetadata → BlobMetadata) (key : BlobKey) (q : MemoryDb)
    → ((m : BlobMetadata) → size_of (f m) ≡ size_of m)
    → IsAccounted q
    → IsAccounted (update_entry f key q).0
update_entry-IsAccounted f key q same h = elim (Option-cases (lookup key q.metadata)) [
  | inl gone ↦ ground arith
  | inr (v, here) ↦ ground (
    arith,
    same v,
    insert-Distinct key (f v) q.metadata h.distinct_metadata,
    sum_of-insert size_of key (f v) q.metadata h.distinct_metadata,
  )
]

module _ (q : MemoryDb) (h : IsAccounted q) where
  pub mark_blob_finalized-IsAccounted : (key : BlobKey) → IsAccounted (mark_blob_finalized key q).0
  unfolding mark_blob_finalized size_of
  mark_blob_finalized-IsAccounted key = update_entry-IsAccounted _ key q (λ m. refl) h

  pub mark_blob_processing-IsAccounted :
      (key : BlobKey) → IsAccounted (mark_blob_processing key q).0
  unfolding mark_blob_processing size_of
  mark_blob_processing-IsAccounted key = update_entry-IsAccounted _ key q (λ m. refl) h

  pub mark_blob_failed-IsAccounted : (key : BlobKey) → IsAccounted (mark_blob_failed key q).0
  unfolding mark_blob_failed size_of
  mark_blob_failed-IsAccounted key = update_entry-IsAccounted _ key q (λ m. refl) h

  pub increment_blob_retry_count-IsAccounted :
      (m : BlobMetadata) → IsAccounted (increment_blob_retry_count m q).0
  unfolding increment_blob_retry_count size_of
  increment_blob_retry_count-IsAccounted m =
      update_entry-IsAccounted _ (get_blob_key m) q (λ m. refl) h

  pub handle_blob_failure-IsAccounted :
      (m : BlobMetadata) (max_retry : ℕ) → IsAccounted (handle_blob_failure m max_retry q).0
  unfolding handle_blob_failure
  handle_blob_failure-IsAccounted m max_retry = elim (Bool-cases (ltb m.num_retries max_retry)) [
    | inl again ↦ rw again (increment_blob_retry_count-IsAccounted m)
    | inr over ↦ rw over (mark_blob_failed-IsAccounted (get_blob_key m))
  ]
