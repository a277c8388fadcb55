-- ===== src/MemoryDb/Capacity.antt =====
-- What a full store does to a request, and what the request does to the store.
use g_da_client.Common.{
  ℕ, zero, suc, ◌+◌, ◌*◌, ◌<◌, ◌≤◌, none, some, Bytes, bytes_eq, lookup, add64, u64_mod, ◌≡◌, arith,
  ap, ◌∙◌, subst, lookup-insert_self,
}
use g_da_client.Core.{Blob}
use g_da_client.Core.Encoding.{max_blob_size}
use g_da_client.Disperser.Status.{memory_db_is_full}
use g_da_client.Disperser.BlobKey.{key_eq}
use g_da_client.MemoryDb.{MemoryDb, store_blob, blob_key_of, size_of, new_metadata}
use g_da_client.MemoryDb.Accounting.{IsAccounted}

abbrev pub grown : ℕ → MemoryDb → MemoryDb
grown n q = record q { size = n }

module _ (sha256 : Bytes → Bytes) (blob : Blob) (t : ℕ) where
  abbrev hash : Bytes
  hash = (blob_key_of sha256 blob t).metadata_hash

  -- The state after the same request has been made `n` times, the last one outermost.
  pub requests : ℕ → MemoryDb → MemoryDb
  requests zero q = q
  requests (suc n) q = (store_blob sha256 blob t (requests n q)).0

  refuse :
      (q : MemoryDb)
      → lookup hash q.blobs ≡ none
      → q.size_limit < q.size + max_blob_size
      → q.size + max_blob_size < u64_mod
      → store_blob sha256 blob t q
        ≡ (grown (q.size + max_blob_size) q, blob_key_of sha256 blob t, some memory_db_is_full)
  unfolding store_blob add64
  refuse q absent full room = ground arith

  requests_grow :
      (n : ℕ) (q : MemoryDb)
      → lookup hash q.blobs ≡ none
      → q.size_limit < q.size + max_blob_size
      → q.size + n * max_blob_size < u64_mod
      → requests n q ≡ grown (q.size + n * max_blob_size) q
  unfolding requests
  requests_grow zero q absent full room = ground arith
  requests_grow (suc n) q absent full room =
      let ih = requests_grow n q absent full (omega arith) in
      let s = grown (q.size + n * max_blob_size) q in
      ap (λ x. (store_blob sha256 blob t x).0) ih
      ∙ ap (λ x. x.0) (refuse s absent (omega arith) (omega arith))
      ∙ ap (λ x. grown x q) (omega arith)

  -- A request that is refused for want of room is not undone: repeated `n + 1` times, against an
  -- accounted store, it leaves both maps alone, adds `n + 1` times the size of the largest blob to
  -- `size`, and the store is no longer accounted.
  pub refused_requests_leak :
      (n : ℕ) (q : MemoryDb)
      → IsAccounted q
      → lookup hash q.blobs ≡ none
      → q.size_limit < q.size + max_blob_size
      → q.size + suc n * max_blob_size < u64_mod
      → let q' = requests (suc n) q in
        (q'.blobs ≡ q.blobs)
        × (q'.metadata ≡ q.metadata)
        × (q'.size ≡ q.size + suc n * max_blob_size)
        × (IsAccounted q' → ⊥)
  refused_requests_leak n q h absent full room =
      let e = requests_grow (suc n) q absent full room in
      (
        ap (λ (x : MemoryDb). x.blobs) e,
        ap (λ (x : MemoryDb). x.metadata) e,
        ap (λ (x : MemoryDb). x.size) e,
        λ h'. not_accounted (subst IsAccounted e h'),
      )
    where
      not_accounted : IsAccounted (grown (q.size + suc n * max_blob_size) q) → ⊥
      not_accounted h' = omega (arith, h.sized, h'.sized)

  -- Where there is room for the blob and not for its metadata, the request is refused and its blob
  -- stays in the store with no metadata that would lead to it.
  refused_metadata_orphans :
      (q : MemoryDb)
      → lookup hash q.blobs ≡ none
      → lookup (blob_key_of sha256 blob t) q.metadata ≡ none
      → q.size + max_blob_size ≤ q.size_limit
      → q.size_limit
        < q.size + max_blob_size + size_of (new_metadata (blob_key_of sha256 blob t) blob t)
      → q.size_limit < u64_mod
      → q.size + max_blob_size + size_of (new_metadata (blob_key_of sha256 blob t) blob t) < u64_mod
      → let (q', key, e) = store_blob sha256 blob t q in
        (e ≡ some memory_db_is_full)
        × (lookup key q'.metadata ≡ none)
        × (lookup key.metadata_hash q'.blobs ≡ some (record { content = blob.content }))
  unfolding store_blob add64
  refused_metadata_orphans q absent fresh fits full l room =
      ground (arith, lookup-insert_self hash (record { content = blob.content }) q.blobs)
