-- ===== src/Finalizer.antt =====
-- disperser/batcher/finalizer.go: confirmed blobs become final, go to the key-value store, and leave
-- the blob store (the in-memory one here). The chain's answers, the codec of a record and the
-- key-value store are parameters.
pub mod Blocks
pub mod Persist
use g_da_client.Common.{
  ℕ, ◌%◌, ◌^◌, Bool, true, false, Option, none, some, List, [], ◌∷◌, Bytes, Map, Result, ok, err,
  ◌>>=◌, lookup, insert, replicate, sub64, ltb, if◌then◌else◌, str_beq, ◌≡◌,
}
use g_da_client.Disperser.Status.{Error, nil_dereference}
use g_da_client.Disperser.BlobKey.{BlobKey, key_eq, to_string}
use g_da_client.Disperser.Metadata.{BlobMetadata, ConfirmationInfo, get_blob_key}
use g_da_client.Disperser.Hashes.{BlobRetrieveMetadata, retrieve_metadata_hash}
use g_da_client.Disperser.KeyCache.{BlobKeyCache, add}
use g_da_client.MemoryDb.{MemoryDb, mark_blob_finalized, handle_blob_failure, remove_blob}
use g_da_client.MemoryDb.Queries.{get_blob_metadata, get_blob_content}

-- The number that `updateFinalizedBlockNumber` compares: `none` is an error of the node, for the
-- finalized block after all its attempts.
unfoldable pub block_number : Option ℕ → Option ℕ → ℕ → ℕ
block_number (some n) latest default_count = n
block_number none none default_count = 0
block_number none (some n) default_count = sub64 n default_count

-- `updateFinalizedBlockNumber`, on the field `latestFinalizedBlock`.
unfoldable pub update_finalized_block_number : Option ℕ → Option ℕ → ℕ → ℕ → ℕ
update_finalized_block_number finalized latest default_count known =
    let number = block_number finalized latest default_count in
    if ltb known number then number else known

-- What `getTransactionBlockNumber` returns.
pub data Receipt : Type 0 where
  found : ℕ → Receipt
  not_found failed : Receipt

-- `gcommon.MaxHash` of go-ethereum: 32 bytes of ones.
abbrev pub max_hash : Bytes
max_hash = replicate 32 255

-- The assignment to `ConfirmationBlockNumber`, through the pointer into the store.
abbrev pub set_block_number : BlobKey → BlobMetadata → ConfirmationInfo → ℕ → MemoryDb → MemoryDb
set_block_number key c info n q = record q {
  metadata =
      insert key
        (record c {
          confirmation_info = some (record info { confirmation_block_number = n % 2 ^ 32 });
        })
        q.metadata;
}

-- Is the blob final? The flag says that it was marked so.
abbrev pub mark_final : BlobKey → MemoryDb → MemoryDb × Bool
mark_final key q =
    let (q', e) = mark_blob_finalized key q in (q', elim e [ none ↦ true | some _ ↦ false ])

unfoldable pub finalize_at :
    (Bytes → Receipt)
    → ℕ
    → ℕ
    → BlobMetadata
    → BlobMetadata
    → ConfirmationInfo
    → MemoryDb
    → MemoryDb × Bool
finalize_at receipt finalized max_retries m c info q =
    let key = get_blob_key m in
    if ltb finalized info.confirmation_block_number
    then (q, false)
    else if str_beq info.confirmation_txn_hash max_hash
    then mark_final key q
    else elim (receipt info.confirmation_txn_hash) [
      | not_found ↦ ((handle_blob_failure m max_retries q).0, false)
      | failed ↦ (q, false)
      | found n ↦
          if ltb finalized n then (q, false) else mark_final key (set_block_number key c info n q)
    ]

-- The body of the loop in `FinalizeBlobs`.
unfoldable pub finalize_blob :
    (Bytes → Receipt) → ℕ → ℕ → BlobMetadata → MemoryDb → Result Error (MemoryDb × Bool)
finalize_blob receipt finalized max_retries m q = elim (get_blob_metadata (get_blob_key m) q) [
  | err _ ↦ ok (q, false)
  | ok c ↦ elim c.confirmation_info [
    | none ↦ err nil_dereference
    | some info ↦ ok (finalize_at receipt finalized max_retries m c info q)
  ]
]

-- The loop, with the blobs that were marked.
unfoldable pub finalize_all :
    (Bytes → Receipt)
    → ℕ
    → ℕ
    → List BlobMetadata
    → MemoryDb
    → Result Error (List BlobMetadata × MemoryDb)
finalize_all receipt finalized max_retries [] q = ok ([], q)
finalize_all receipt finalized max_retries (m ∷ ms) q =
    elim (finalize_blob receipt finalized max_retries m q) [
      | err e ↦ err e
      | ok (q1, marked) ↦ do
        (rest, q2) ← finalize_all receipt finalized max_retries ms q1
        ok (if marked then m ∷ rest else rest, q2)
    ]

-- What goes to the key-value store.
pub record Entries : Type 0 where
  pub keys : List Bytes
  pub values : List Bytes
  pub blobs : List Bytes

abbrev pub no_entries : Entries
no_entries = record { keys = []; values = []; blobs = [] }

abbrev pub retrieve_metadata : ConfirmationInfo → BlobRetrieveMetadata
retrieve_metadata info = record {
  data_root = info.data_root;
  epoch = info.epoch;
  quorum_id = info.quorum_id;
}

-- The first loop of `PersistConfirmedBlobs`: the key cache learns every blob on the way, also
-- when a later one fails.
unfoldable pub collect_entries :
    (Bytes → Bytes)
    → (BlobRetrieveMetadata → Result Error Bytes)
    → MemoryDb
    → List BlobMetadata
    → BlobKeyCache
    → BlobKeyCache × Result Error Entries
collect_entries keccak serialize q [] cache = (cache, ok no_entries)
collect_entries keccak serialize q (m ∷ ms) cache = elim m.confirmation_info [
  | none ↦ (cache, err nil_dereference)
  | some info ↦
      let learnt = add (retrieve_metadata_hash keccak (retrieve_metadata info)) info.epoch cache in
      let (known, others) = collect_entries keccak serialize q ms learnt in
      elim (serialize (retrieve_metadata info)) [
        | err e ↦ (learnt, err e)
        | ok value ↦ elim (get_blob_content m q) [
          | err e ↦ (learnt, err e)
          | ok content ↦ (
            known,
            do
              rest ← others
              ok (record {
                keys = to_string (get_blob_key m) ∷ rest.keys;
                values = value ∷ rest.values;
                blobs = content ∷ rest.blobs;
              }),
          )
        ]
      ]
]

unfoldable pub remove_all : List BlobMetadata → MemoryDb → MemoryDb
remove_all [] q = q
remove_all (m ∷ ms) q = remove_all ms (remove_blob m q)

-- `PersistConfirmedBlobs`; `store_batch` is the key-value store's `StoreMetadataBatch`.
unfoldable pub persist_confirmed_blobs :
    {Kv : Type 0}
    → (Bytes → Bytes)
    → (BlobRetrieveMetadata → Result Error Bytes)
    → (Entries → Kv → Result Error Kv)
    → List BlobMetadata
    → BlobKeyCache
    → Kv
    → MemoryDb
    → (BlobKeyCache × Kv × MemoryDb) × Option Error
persist_confirmed_blobs keccak serialize store_batch [] cache kv q = ((cache, kv, q), none)
persist_confirmed_blobs keccak serialize store_batch (m ∷ ms) cache kv q =
    let (known, entries) = collect_entries keccak serialize q (m ∷ ms) cache in
    elim entries [
      | err e ↦ ((known, kv, q), some e)
      | ok es ↦ elim (store_batch es kv) [
        | err e ↦ ((known, kv, q), some e)
        | ok kv' ↦ ((known, kv', remove_all (m ∷ ms) q), none)
      ]
    ]
