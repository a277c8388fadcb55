-- ===== src/MemoryDb/Calls.antt =====
-- Any sequence of calls on the in-memory store.
use g_da_client.Common.{ℕ, none, List, [], ◌∷◌, Bytes, bytes_eq, ◌≡◌, refl}
use g_da_client.Core.{Blob}
use g_da_client.Disperser.BlobKey.{BlobKey, key_eq}
use g_da_client.Disperser.Metadata.{BlobMetadata, ConfirmationInfo}
use g_da_client.MemoryDb.{
  MemoryDb, new_blob_store, remove_blob, store_blob, mark_blob_confirmed, mark_blob_finalized,
  mark_blob_processing, mark_blob_failed, increment_blob_retry_count, handle_blob_failure,
}
use g_da_client.MemoryDb.Accounting.{
  IsAccounted, remove_blob-IsAccounted, store_blob-IsAccounted, mark_blob_confirmed-IsAccounted,
  mark_blob_finalized-IsAccounted, mark_blob_processing-IsAccounted, mark_blob_failed-IsAccounted,
  increment_blob_retry_count-IsAccounted, handle_blob_failure-IsAccounted,
}

pub data Call : Type 0 where
  store : Blob → ℕ → Call
  remove : BlobMetadata → Call
  confirm : BlobMetadata → ConfirmationInfo → Call
  finalize process fail : BlobKey → Call
  retry : BlobMetadata → Call
  handle : BlobMetadata → ℕ → Call

module _ (sha256 : Bytes → Bytes) where
  unfoldable pub step : Call → MemoryDb → MemoryDb
  step (store blob t) q = (store_blob sha256 blob t q).0
  step (remove m) q = remove_blob m q
  step (confirm m info) q = (mark_blob_confirmed m info q).0
  step (finalize key) q = (mark_blob_finalized key q).0
  step (process key) q = (mark_blob_processing key q).0
  step (fail key) q = (mark_blob_failed key q).0
  step (retry m) q = (increment_blob_retry_count m q).0
  step (handle m max_retry) q = (handle_blob_failure m max_retry q).0

  unfoldable pub run : List Call → MemoryDb → MemoryDb
  unfolding step
  run [] q = q
  run (c ∷ cs) q = run cs (step c q)

  -- The call is not a `StoreBlob` that reports an error.
  abbrev pub Accepted : Call → MemoryDb → Type 0
  Accepted (store blob t) q = (store_blob sha256 blob t q).2 ≡ none
  Accepted c q = Unit

  abbrev pub AllAccepted : List Call → MemoryDb → Type 0
  AllAccepted [] q = Unit
  AllAccepted (c ∷ cs) q = Accepted c q × AllAccepted cs (step c q)

  step-IsAccounted :
      (c : Call) (q : MemoryDb) → Accepted c q → IsAccounted q → IsAccounted (step c q)
  unfolding step
  step-IsAccounted (store blob t) q a h = store_blob-IsAccounted sha256 blob t q h a
  step-IsAccounted (remove m) q a h = remove_blob-IsAccounted m q h
  step-IsAccounted (confirm m info) q a h = mark_blob_confirmed-IsAccounted m info q h
  step-IsAccounted (finalize key) q a h = mark_blob_finalized-IsAccounted q h key
  step-IsAccounted (process key) q a h = mark_blob_processing-IsAccounted q h key
  step-IsAccounted (fail key) q a h = mark_blob_failed-IsAccounted q h key
  step-IsAccounted (retry m) q a h = increment_blob_retry_count-IsAccounted q h m
  step-IsAccounted (handle m max_retry) q a h = handle_blob_failure-IsAccounted q h m max_retry

  -- From an accounted store, any calls of which no `StoreBlob` reports an error lead to a store whose
  -- `size` is again the sum over what it holds, modulo 2^64, with no key held twice.
  pub run-IsAccounted :
      (cs : List Call) (q : MemoryDb) → AllAccepted cs q → IsAccounted q → IsAccounted (run cs q)
  unfolding run
  run-IsAccounted [] q a h = h
  run-IsAccounted (c ∷ cs) q a h = run-IsAccounted cs (step c q) a.1 (step-IsAccounted c q a.0 h)

pub new_blob_store-IsAccounted : (limit : ℕ) → IsAccounted (new_blob_store limit)
new_blob_store-IsAccounted limit = record {
  distinct_blobs = tt;
  distinct_metadata = tt;
  sized = refl;
}
