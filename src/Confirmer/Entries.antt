-- ===== src/Confirmer/Entries.antt =====
-- What `MarkBlobConfirmed` makes of an entry of the blob store, for the confirmer
-- (disperser/batcher/confirmer.go).
use g_da_client.Common.{
  Bool, true, false, Option, none, some, List, [], ◌∷◌, bytes_eq, nat_eq, ok, err, lookup,
  lookup-insert, ◌==◌, ◌≡◌, arith, Option-cases, Result-cases, inl, inr, ◌⊎◌, if◌then◌else◌,
}
use g_da_client.Disperser.Status.{Error, confirmed, blob_not_found}
use g_da_client.Disperser.BlobKey.{BlobKey, key_eq}
use g_da_client.Disperser.Metadata.{BlobMetadata, ConfirmationInfo, get_blob_key, is_confirmed}
use g_da_client.MemoryDb.{MemoryDb, mark_blob_confirmed}
use g_da_client.EncodedStore.{has}

abbrev pub BlobEntries : Type 0
BlobEntries = List (BlobMetadata × ConfirmationInfo)

-- The blob of a batch that has the key, with its information.
abbrev pub find_entry : BlobKey → BlobEntries → Option (BlobMetadata × ConfirmationInfo)
find_entry j [] = none
find_entry j ((m, info) ∷ rest) = if get_blob_key m == j then some (m, info) else find_entry j rest

abbrev pub ApartEntries : BlobEntries → Type 0
ApartEntries [] = Unit
ApartEntries ((m, info) ∷ rest) = (find_entry (get_blob_key m) rest ≡ none) × ApartEntries rest

abbrev is_final : BlobMetadata → Bool
is_final c = elim (is_confirmed c) [ ok true ↦ true | _ ↦ false ]

-- What becomes of an entry of the store.
abbrev pub confirmed_in :
    Option (BlobMetadata × ConfirmationInfo) → Option BlobMetadata → Option BlobMetadata
confirmed_in none entry = entry
confirmed_in (some (m, info)) none = none
confirmed_in (some (m, info)) (some c) =
    if is_final c
    then some c
    else some (record m { blob_status = confirmed; confirmation_info = some info })

pub mark_blob_confirmed-entry :
    (m : BlobMetadata) (info : ConfirmationInfo) (q : MemoryDb) (j : BlobKey)
    → lookup j (mark_blob_confirmed m info q).0.metadata ≡ (
        if get_blob_key m == j
        then confirmed_in (some (m, info)) (lookup j q.metadata)
        else lookup j q.metadata)
unfolding mark_blob_confirmed
mark_blob_confirmed-entry m info q j = elim (Option-cases (lookup (get_blob_key m) q.metadata)) [
  | inl gone ↦ ground (arith, key_eq.decides (get_blob_key m) j)
  | inr (c, here) ↦ elim (Result-cases (is_confirmed c)) [
    | inr (x, odd) ↦ ground (
      arith,
      key_eq.decides (get_blob_key m) j,
      lookup-insert (get_blob_key m) j
          (record m { blob_status = confirmed; confirmation_info = some info }) q.metadata,
    )
    | inl (true, final) ↦ ground (arith, key_eq.decides (get_blob_key m) j)
    | inl (false, still) ↦ ground (
      arith,
      key_eq.decides (get_blob_key m) j,
      lookup-insert (get_blob_key m) j
          (record m { blob_status = confirmed; confirmation_info = some info }) q.metadata,
    )
  ]
]

-- The update reports an error exactly for a blob that the store does not have.
pub mark_blob_confirmed-found :
    (m : BlobMetadata) (info : ConfirmationInfo) (q : MemoryDb)
    → ((c : BlobMetadata) × ((mark_blob_confirmed m info q).1 ≡ ok c)
        × (has (lookup (get_blob_key m) q.metadata) ≡ true))
      ⊎ ((x : Error) × ((mark_blob_confirmed m info q).1 ≡ err x)
          × (lookup (get_blob_key m) q.metadata ≡ none))
unfolding mark_blob_confirmed
mark_blob_confirmed-found m info q = elim (Option-cases (lookup (get_blob_key m) q.metadata)) [
  | inl gone ↦ inr (blob_not_found, ground arith, gone)
  | inr (c, here) ↦ elim (Result-cases (is_confirmed c)) [
    | inr (x, odd) ↦ inl (
      record m { blob_status = confirmed; confirmation_info = some info },
      ground arith,
      ground arith,
    )
    | inl (true, final) ↦ inl (c, ground arith, ground arith)
    | inl (false, still) ↦ inl (
      record m { blob_status = confirmed; confirmation_info = some info },
      ground arith,
      ground arith,
    )
  ]
]
