-- ===== src/Finalizer/Persist.antt =====
-- `PersistConfirmedBlobs` of disperser/batcher/finalizer.go: what is stored before blobs are removed.
use g_da_client.Common.{
  none, some, List, [], ◌∷◌, Bytes, Result, ok, ◌≡◌, ◌≢◌, arith, Option-cases, Result-cases, inl,
  inr,
}
use g_da_client.Disperser.Status.{Error}
use g_da_client.Disperser.BlobKey.{to_string}
use g_da_client.Disperser.Metadata.{BlobMetadata, ConfirmationInfo, get_blob_key}
use g_da_client.Disperser.Hashes.{BlobRetrieveMetadata, retrieve_metadata_hash}
use g_da_client.Disperser.KeyCache.{BlobKeyCache, add}
use g_da_client.MemoryDb.{MemoryDb}
use g_da_client.MemoryDb.Queries.{get_blob_content}
use g_da_client.Finalizer.{
  Entries, no_entries, retrieve_metadata, collect_entries, remove_all, persist_confirmed_blobs,
}

-- The entries have, for each blob in order, its key, its serialized record, and the bytes that the
-- blob store holds for it.
abbrev pub IsEntries :
    (BlobRetrieveMetadata → Result Error Bytes) → MemoryDb → List BlobMetadata → Entries → Type 0
IsEntries serialize q [] es = es ≡ no_entries
IsEntries serialize q (m ∷ ms) es =
    (info : ConfirmationInfo) × (value : Bytes) × (content : Bytes) × (rest : Entries)
    × (m.confirmation_info ≡ some info)
    × (serialize (retrieve_metadata info) ≡ ok value)
    × (get_blob_content m q ≡ ok content)
    × IsEntries serialize q ms rest
    × (es ≡ record {
      keys = to_string (get_blob_key m) ∷ rest.keys;
      values = value ∷ rest.values;
      blobs = content ∷ rest.blobs;
    })

collect_entries-IsEntries :
    (keccak : Bytes → Bytes) (serialize : BlobRetrieveMetadata → Result Error Bytes) (q : MemoryDb)
    (ms : List BlobMetadata) (cache : BlobKeyCache) (es : Entries)
    → (collect_entries keccak serialize q ms cache).1 ≡ ok es
    → IsEntries serialize q ms es
unfolding collect_entries
collect_entries-IsEntries keccak serialize q [] cache es h = ground arith
collect_entries-IsEntries keccak serialize q (m ∷ ms) cache es h =
    elim (Option-cases m.confirmation_info) [
      | inl gone ↦ absurd (ground arith)
      | inr (info, there) ↦ elim (Result-cases (serialize (retrieve_metadata info))) [
        | inr (e, fails) ↦ absurd (ground arith)
        | inl (value, fine) ↦ elim (Result-cases (get_blob_content m q)) [
          | inr (e, fails) ↦ absurd (ground arith)
          | inl (content, held) ↦
              let learnt =
                add (retrieve_metadata_hash keccak (retrieve_metadata info)) info.epoch cache in
              elim (Result-cases (collect_entries keccak serialize q ms learnt).1) [
                | inr (e, fails) ↦ absurd (ground arith)
                | inl (rest, others) ↦ (
                  info,
                  value,
                  content,
                  rest,
                  there,
                  fine,
                  held,
                  collect_entries-IsEntries keccak serialize q ms learnt rest others,
                  ground arith,
                )
              ]
        ]
      ]
    ]

-- Blobs leave the blob store only when the key-value store has taken the key, the record and the
-- bytes of every one of them; after an error, both stores are as they were.
pub persist_confirmed_blobs_lem :
    {Kv : Type 0} (keccak : Bytes → Bytes) (serialize : BlobRetrieveMetadata → Result Error Bytes)
    (store_batch : Entries → Kv → Result Error Kv) (m : BlobMetadata) (ms : List BlobMetadata)
    (cache : BlobKeyCache) (kv : Kv) (q : MemoryDb)
    → let out = persist_confirmed_blobs keccak serialize store_batch (m ∷ ms) cache kv q in
      (out.1 ≡ none
        → (es : Entries) × IsEntries serialize q (m ∷ ms) es
          × (store_batch es kv ≡ ok out.0.1)
          × (out.0.2 ≡ remove_all (m ∷ ms) q))
      × (out.1 ≢ none → (out.0.1 ≡ kv) × (out.0.2 ≡ q))
unfolding persist_confirmed_blobs
persist_confirmed_blobs_lem keccak serialize store_batch m ms cache kv q =
    elim (Result-cases (collect_entries keccak serialize q (m ∷ ms) cache).1) [
      | inr (e, fails) ↦ (λ h. absurd (ground arith), λ h. ground arith)
      | inl (es, fine) ↦ elim (Result-cases (store_batch es kv)) [
        | inr (e, refused) ↦ (λ h. absurd (ground arith), λ h. ground arith)
        | inl (kv', stored) ↦ (
          λ h. (
            es,
            collect_entries-IsEntries keccak serialize q (m ∷ ms) cache es fine,
            ground arith,
            ground arith,
          ),
          λ h. absurd (ground arith),
        )
      ]
    ]
