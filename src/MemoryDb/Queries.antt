-- ===== src/MemoryDb/Queries.antt =====
-- The methods that only read. A `range` over a map visits the entries in an order that Go leaves
-- open; the order of the list stands for it.
use g_da_client.Common.{
  ℕ, Bool, false, ◌&&◌, Option, none, some, List, [], ◌∷◌, Bytes, bytes_eq, Map, Result, ok, err,
  lookup, insert, nat_eq, str_beq, nat_beq, if◌then◌else◌,
}
use g_da_client.Core.{Blob}
use g_da_client.Disperser.Status.{Error, blob_not_found, nil_dereference, BlobStatus, status_beq}
use g_da_client.Disperser.BlobKey.{BlobKey, key_eq}
use g_da_client.Disperser.Metadata.{BlobMetadata, get_blob_key}
use g_da_client.MemoryDb.{MemoryDb, BlobHolder}

abbrev pub or_not_found : {A : Type 0} → Option A → Result Error A
or_not_found none = err blob_not_found
or_not_found (some a) = ok a

unfoldable pub get_blob_metadata : BlobKey → MemoryDb → Result Error BlobMetadata
get_blob_metadata key q = or_not_found (lookup key q.metadata)

unfoldable pub get_blob_content : BlobMetadata → MemoryDb → Result Error Bytes
get_blob_content m q = elim (lookup m.metadata_hash q.blobs) [
  | none ↦ err blob_not_found
  | some holder ↦ ok holder.content
]

-- One round of the loop in `GetBlobsByMetadata`. Metadata with no request panics.
abbrev pub add_blob :
    BlobMetadata → Option BlobHolder → Map BlobKey Blob → Result Error (Map BlobKey Blob)
add_blob m none blobs = err blob_not_found
add_blob m (some holder) blobs = elim m.request_metadata [
  | none ↦ err nil_dereference
  | some request ↦ ok (
      insert (get_blob_key m) (record { request_header = request.header; content = holder.content })
        blobs)
]

unfoldable pub get_blobs_from :
    List BlobMetadata → MemoryDb → Map BlobKey Blob → Result Error (Map BlobKey Blob)
get_blobs_from [] q blobs = ok blobs
get_blobs_from (m ∷ ms) q blobs = elim (add_blob m (lookup m.metadata_hash q.blobs) blobs) [
  | err e ↦ err e
  | ok blobs' ↦ get_blobs_from ms q blobs'
]

unfoldable pub get_blobs_by_metadata :
    List BlobMetadata → MemoryDb → Result Error (Map BlobKey Blob)
unfolding get_blobs_from
get_blobs_by_metadata ms q = get_blobs_from ms q []

unfoldable pub select : (BlobMetadata → Bool) → Map BlobKey BlobMetadata → List BlobMetadata
select p [] = []
select p ((k, m) ∷ rest) = let others = select p rest in if p m then m ∷ others else others

unfoldable pub get_blob_metadata_by_status : BlobStatus → MemoryDb → List BlobMetadata
unfolding select
get_blob_metadata_by_status status q = select (λ m. status_beq m.blob_status status) q.metadata

abbrev pub in_batch : Bytes → BlobMetadata → Bool
in_batch hash m = elim m.confirmation_info [
  | none ↦ false
  | some c ↦ str_beq c.batch_header_hash hash
]

abbrev pub in_batch_at : Bytes → ℕ → BlobMetadata → Bool
in_batch_at hash index m = elim m.confirmation_info [
  | none ↦ false
  | some c ↦ str_beq c.batch_header_hash hash && nat_beq c.blob_index index
]

unfoldable pub get_all_blob_metadata_by_batch : Bytes → MemoryDb → List BlobMetadata
unfolding select
get_all_blob_metadata_by_batch hash q = select (in_batch hash) q.metadata

unfoldable pub find_metadata :
    (BlobMetadata → Bool) → Map BlobKey BlobMetadata → Result Error BlobMetadata
find_metadata p [] = err blob_not_found
find_metadata p ((k, m) ∷ rest) = if p m then ok m else find_metadata p rest

unfoldable pub get_metadata_in_batch : Bytes → ℕ → MemoryDb → Result Error BlobMetadata
unfolding find_metadata
get_metadata_in_batch hash index q = find_metadata (in_batch_at hash index) q.metadata
