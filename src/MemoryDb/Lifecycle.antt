-- ===== src/MemoryDb/Lifecycle.antt =====
-- Confirmation, and the count of failures, as the callers drive them.
use g_da_client.Common.{
  ℕ, zero, suc, ◌+◌, ◌-◌, ◌<◌, ◌≤◌, true, none, some, ok, lookup, lookup-insert, lookup-insert_self,
  ==_refl, ◌==◌, add64, u64_mod, ltb, if◌then◌else◌, ◌≡◌, refl, ◌∙◌, arith,
}
use g_da_client.Disperser.Status.{confirmed, failed, status_beq, status_eq}
use g_da_client.Disperser.BlobKey.{BlobKey, key_eq}
use g_da_client.Disperser.Metadata.{BlobMetadata, ConfirmationInfo, get_blob_key, is_confirmed}
use g_da_client.MemoryDb.{MemoryDb, mark_blob_confirmed, handle_blob_failure}

abbrev confirmed_as : BlobMetadata → ConfirmationInfo → BlobMetadata
confirmed_as m info = record m { blob_status = confirmed; confirmation_info = some info }

is_confirmed-confirmed_as :
    (m : BlobMetadata) (info : ConfirmationInfo) → is_confirmed (confirmed_as m info) ≡ ok true
unfolding is_confirmed status_beq
is_confirmed-confirmed_as m info = refl

-- The call returns metadata that the store then holds, and that is confirmed.
confirm_result :
    (m r : BlobMetadata) (info : ConfirmationInfo) (q : MemoryDb)
    → (mark_blob_confirmed m info q).1 ≡ ok r
    → (lookup (get_blob_key m) (mark_blob_confirmed m info q).0.metadata ≡ some r)
      × (is_confirmed r ≡ ok true)
unfolding mark_blob_confirmed
confirm_result m r info q h = ground (
  arith,
  lookup-insert_self (get_blob_key m) (confirmed_as m info) q.metadata,
  is_confirmed-confirmed_as m info,
)

confirm_held :
    (m r : BlobMetadata) (info : ConfirmationInfo) (q : MemoryDb)
    → lookup (get_blob_key m) q.metadata ≡ some r
    → is_confirmed r ≡ ok true
    → mark_blob_confirmed m info q ≡ (q, ok r)
unfolding mark_blob_confirmed
confirm_held m r info q h c = ground arith

-- A blob that has been confirmed stays as it was first confirmed: a later call with any other
-- information returns the first metadata and changes nothing.
mark_blob_confirmed_again :
    (m m' r : BlobMetadata) (info info' : ConfirmationInfo) (q : MemoryDb)
    → get_blob_key m' ≡ get_blob_key m
    → (mark_blob_confirmed m info q).1 ≡ ok r
    → let q' = (mark_blob_confirmed m info q).0 in mark_blob_confirmed m' info' q' ≡ (q', ok r)
mark_blob_confirmed_again m m' r info info' q same h =
    let (held, sure) = confirm_result m r info q h in
    let q' = (mark_blob_confirmed m info q).0 in confirm_held m' r info' q' (rw same held) sure

-- What one reported failure makes of the metadata.
abbrev pub after_failure : ℕ → BlobMetadata → BlobMetadata
after_failure max_retry m =
    if ltb m.num_retries max_retry
    then record m { num_retries = add64 m.num_retries 1 }
    else record m { blob_status = failed }

-- `n` failures, each reported with the metadata that the store then holds: the callers hold the
-- store's own pointers.
pub failures : ℕ → ℕ → BlobKey → MemoryDb → MemoryDb
failures zero max_retry key q = q
failures (suc n) max_retry key q =
    let q' = failures n max_retry key q in
    elim (lookup key q'.metadata) [ none ↦ q' | some m ↦ (handle_blob_failure m max_retry q').0 ]

handle_blob_failure_entry :
    (m : BlobMetadata) (max_retry : ℕ) (q : MemoryDb) (j : BlobKey)
    → lookup (get_blob_key m) q.metadata ≡ some m
    → lookup j (handle_blob_failure m max_retry q).0.metadata
      ≡ (if get_blob_key m == j then some (after_failure max_retry m) else lookup j q.metadata)
unfolding handle_blob_failure
handle_blob_failure_entry m max_retry q j h =
    ground (arith, lookup-insert (get_blob_key m) j (after_failure max_retry m) q.metadata)

abbrev retried : ℕ → BlobMetadata → BlobMetadata
retried n m = record m { num_retries = m.num_retries + n }

failures_step :
    (n max_retry : ℕ) (key j : BlobKey) (m : BlobMetadata) (q : MemoryDb)
    → lookup key (failures n max_retry key q).metadata ≡ some m
    → get_blob_key m ≡ key
    → lookup j (failures (suc n) max_retry key q).metadata ≡ (
        if key == j
        then some (after_failure max_retry m)
        else lookup j (failures n max_retry key q).metadata)
unfolding failures
failures_step n max_retry key j m q h k =
    rw (h, failures)
      (let e = handle_blob_failure_entry m max_retry (failures n max_retry key q) j (rw k h) in
        rw k at e)

after_failure-retried :
    (n max_retry : ℕ) (m : BlobMetadata)
    → m.num_retries + suc n ≤ max_retry
    → max_retry < u64_mod
    → after_failure max_retry (retried n m) ≡ retried (suc n) m
unfolding add64
after_failure-retried n max_retry m room small = ground arith

failures_count :
    (n max_retry : ℕ) (key j : BlobKey) (m : BlobMetadata) (q : MemoryDb)
    → lookup key q.metadata ≡ some m
    → get_blob_key m ≡ key
    → m.num_retries + n ≤ max_retry
    → max_retry < u64_mod
    → lookup j (failures n max_retry key q).metadata
      ≡ (if key == j then some (retried n m) else lookup j q.metadata)
unfolding failures get_blob_key
failures_count zero max_retry key j m q h k room small = ground (arith, key_eq.decides key j)
failures_count (suc n) max_retry key j m q h k room small =
    let ih = failures_count n max_retry key key m q h k (omega arith) small in
    let here = rw (==_refl key) at ih in
    rw (failures_step n max_retry key j (retried n m) q here k) (
      ground (
        arith,
        after_failure-retried n max_retry m room small,
        failures_count n max_retry key j m q h k (omega arith) small,
      ))

-- While the retries are not used up, each reported failure is counted and the blob's status stays;
-- the failure after the last retry marks it Failed. No other entry is touched.
pub failures_exhaust :
    (max_retry : ℕ) (key : BlobKey) (m : BlobMetadata) (q : MemoryDb)
    → lookup key q.metadata ≡ some m
    → get_blob_key m ≡ key
    → m.num_retries ≤ max_retry
    → max_retry < u64_mod
    → ((n : ℕ) (j : BlobKey)
        → m.num_retries + n ≤ max_retry
        → lookup j (failures n max_retry key q).metadata ≡ (
            if key == j
            then some (record m { num_retries = m.num_retries + n })
            else lookup j q.metadata))
      × ((j : BlobKey)
          → lookup j (failures (suc (max_retry - m.num_retries)) max_retry key q).metadata ≡ (
              if key == j
              then some (record m { num_retries = max_retry; blob_status = failed })
              else lookup j q.metadata))
unfolding get_blob_key
failures_exhaust max_retry key m q h k low small =
    let n = max_retry - m.num_retries in
    let count = λ (j : BlobKey). failures_count n max_retry key j m q h k (omega arith) small in
    let here = rw (==_refl key) at (count key) in
    (
      λ i j room. failures_count i max_retry key j m q h k room small,
      λ j. failures_step n max_retry key j (retried n m) q here k ∙ ground (arith, count j),
    )
