-- ===== src/MemoryDb/Contents.antt =====
-- What can be read after a blob is stored, and after it is removed.
use g_da_client.Common.{
  ℕ, ◌<◌, ◌≤◌, Option, none, some, Bytes, bytes_eq, lookup, insert, lookup-insert,
  lookup-insert_self, lookup-delete, delete-insert_absent, ◌==◌, add64, sub64, u64_mod,
  if◌then◌else◌, ◌≡◌, ap, ◌⊎◌, arith, ◌∙◌,
}
use g_da_client.Core.{Blob}
use g_da_client.Core.Encoding.{max_blob_size}
use g_da_client.Disperser.BlobKey.{BlobKey, key_eq}
use g_da_client.Disperser.Metadata.{BlobMetadata, get_blob_key}
use g_da_client.MemoryDb.{
  MemoryDb, BlobHolder, size_of, drop_holder, drop_metadata, remove_blob, store_holder,
  store_metadata, store_at, store_blob, new_metadata, blob_key_of,
}
use g_da_client.MemoryDb.Accounting.{size_of_bound}

abbrev pub or_else : {A : Type 0} → Option A → A → A
or_else none b = b
or_else (some a) b = a

module _ (key : BlobKey) (blob : Blob) (requested_at : ℕ) (q : MemoryDb) where
  -- The store as it is after a success.
  abbrev after_store : MemoryDb
  after_store = (store_at key blob requested_at q).0

  store_at_metadata :
      (j : BlobKey)
      → (store_at key blob requested_at q).1 ≡ none
      → lookup j after_store.metadata ≡ (
          if key == j
          then some (or_else (lookup key q.metadata) (new_metadata key blob requested_at))
          else lookup j q.metadata)
  unfolding store_at store_holder store_metadata
  store_at_metadata j done = ground (
    arith,
    lookup-insert key j (new_metadata key blob requested_at) q.metadata,
    key_eq.decides key j,
  )

  store_at_blobs :
      (hash : Bytes)
      → (store_at key blob requested_at q).1 ≡ none
      → lookup hash after_store.blobs ≡ (
          if key.metadata_hash == hash
          then some (or_else (lookup key.metadata_hash q.blobs) (record { content = blob.content }))
          else lookup hash q.blobs)
  unfolding store_at store_holder store_metadata
  store_at_blobs hash done = ground (
    arith,
    lookup-insert key.metadata_hash hash (record { content = blob.content }) q.blobs,
    bytes_eq.decides key.metadata_hash hash,
  )

  store_at_room :
      (store_at key blob requested_at q).1 ≡ none
      → (after_store.size ≤ q.size_limit) ⊎ (after_store ≡ q)
  unfolding store_at store_holder store_metadata
  store_at_room done = ground arith

  -- The store after a success, where neither map had an entry.
  abbrev stored : MemoryDb
  stored = record q {
    size = add64 (add64 q.size max_blob_size) (size_of (new_metadata key blob requested_at));
    blobs = insert key.metadata_hash (record { content = blob.content }) q.blobs;
    metadata = insert key (new_metadata key blob requested_at) q.metadata;
  }

  store_at_fresh :
      lookup key.metadata_hash q.blobs ≡ none
      → lookup key q.metadata ≡ none
      → (store_at key blob requested_at q).1 ≡ none
      → after_store ≡ stored
  unfolding store_at store_holder store_metadata
  store_at_fresh f g done = ground arith

  remove-stored :
      lookup key.metadata_hash q.blobs ≡ none
      → lookup key q.metadata ≡ none
      → q.size < u64_mod
      → remove_blob (new_metadata key blob requested_at) stored ≡ q
  unfolding remove_blob get_blob_key drop_metadata drop_holder add64 sub64
  remove-stored f g small =
      let m = new_metadata key blob requested_at in
      let holder : BlobHolder = record { content = blob.content } in
      ground (
        arith,
        lookup-insert_self key.metadata_hash holder q.blobs,
        lookup-insert_self key m q.metadata,
        delete-insert_absent key.metadata_hash holder q.blobs f,
        delete-insert_absent key m q.metadata g,
        size_of_bound m,
      )

module _ (sha256 : Bytes → Bytes) (blob : Blob) (requested_at : ℕ) (q : MemoryDb) where
  -- A `StoreBlob` that reports no error leaves, under its key, the metadata of a new request in
  -- status Processing (or what was there before), under its metadata hash the blob's bytes (or what
  -- was there before), every other entry as it was, and a size within the limit unless nothing changed.
  pub store_blob_stores :
      (j : BlobKey) (hash : Bytes)
      → (store_blob sha256 blob requested_at q).2 ≡ none
      → let key = blob_key_of sha256 blob requested_at in
        let q' = (store_blob sha256 blob requested_at q).0 in
        (lookup j q'.metadata ≡ (
          if key == j
          then some (or_else (lookup key q.metadata) (new_metadata key blob requested_at))
          else lookup j q.metadata))
        × (lookup hash q'.blobs ≡ (
            if key.metadata_hash == hash
            then some
                (or_else (lookup key.metadata_hash q.blobs) (record { content = blob.content }))
            else lookup hash q.blobs))
        × ((q'.size ≤ q.size_limit) ⊎ (q' ≡ q))
  unfolding store_blob
  store_blob_stores j hash done =
      let key = blob_key_of sha256 blob requested_at in
      (
        store_at_metadata key blob requested_at q j done,
        store_at_blobs key blob requested_at q hash done,
        store_at_room key blob requested_at q done,
      )

  -- `RemoveBlob` undoes a `StoreBlob` of a blob that was not held: the maps and the size are again
  -- what they were.
  remove_blob-store_blob :
      let key = blob_key_of sha256 blob requested_at in
      lookup key.metadata_hash q.blobs ≡ none
      → lookup key q.metadata ≡ none
      → q.size < u64_mod
      → (store_blob sha256 blob requested_at q).2 ≡ none
      → remove_blob (new_metadata key blob requested_at) (store_blob sha256 blob requested_at q).0
        ≡ q
  unfolding store_blob
  remove_blob-store_blob f g small done =
      let key = blob_key_of sha256 blob requested_at in
      ap (remove_blob (new_metadata key blob requested_at))
        (store_at_fresh key blob requested_at q f g done)
      ∙ remove-stored key blob requested_at q f g small

-- RemoveBlob takes the metadata of its blob out, and no other.
pub lookup-remove_blob :
    (m : BlobMetadata) (q : MemoryDb) (j : BlobKey)
    → lookup j (remove_blob m q).metadata
      ≡ (if get_blob_key m == j then none else lookup j q.metadata)
unfolding remove_blob drop_holder drop_metadata
lookup-remove_blob m q j =
    ground (arith, lookup-delete (get_blob_key m) j q.metadata, key_eq.decides (get_blob_key m) j)
