-- ===== src/Confirmer/Blobs.antt =====
-- What the loop over the blobs of a confirmed batch (disperser/batcher/confirmer.go) does to the blob
-- store and to the encoded results.
use g_da_client.Common.{
  All, ℕ, Bool, false, ◌&&◌, ◌||◌, Option, none, some, List, [], ◌∷◌, Bytes, bytes_eq, nat_eq, ok,
  lookup, lookup-delete, ◌==◌, ◌≡◌, refl, subst, arith, Option-cases, Result-cases, inl, inr,
  if◌then◌else◌, str_beq_iff,
}
use g_da_client.Disperser.BlobKey.{BlobKey, key_eq}
use g_da_client.Disperser.Metadata.{BlobMetadata, ConfirmationInfo, get_blob_key}
use g_da_client.MemoryDb.{
  MemoryDb, mark_blob_confirmed, handle_blob_failure, mark_blob_failed, increment_blob_retry_count,
}
use g_da_client.EncodedStore.{
  EncodedBlobStore, delete_encoding_result, get_request_id, get_chunks_size, has,
}
use g_da_client.Failures.{handle_failure}
use g_da_client.Confirmer.{confirm_blobs, retry_failed}
use g_da_client.Confirmer.Entries.{
  BlobEntries, find_entry, ApartEntries, confirmed_in, mark_blob_confirmed-entry,
  mark_blob_confirmed-found,
}

-- Does one of the blobs that the store has stand behind the request?
abbrev pub is_updated : Bytes → BlobEntries → MemoryDb → Bool
is_updated id [] q = false
is_updated id ((m, info) ∷ rest) q =
    ((get_request_id (get_blob_key m) == id) && has (lookup (get_blob_key m) q.metadata))
    || is_updated id rest q

-- Which blobs the store has, does not change.
is_updated-mark :
    (id : Bytes) (entries : BlobEntries) (m : BlobMetadata) (info : ConfirmationInfo) (q : MemoryDb)
    → is_updated id entries (mark_blob_confirmed m info q).0 ≡ is_updated id entries q
is_updated-mark id [] m info q = refl
is_updated-mark id ((n, other) ∷ rest) m info q =
    ground
      (arith, is_updated-mark id rest m info q, mark_blob_confirmed-entry m info q (get_blob_key n))

delete_encoding_result-encoded :
    (key : BlobKey) (e e' : EncodedBlobStore) (id : Bytes)
    → delete_encoding_result key e ≡ ok e'
    → lookup id e'.encoded ≡ (if get_request_id key == id then none else lookup id e.encoded)
unfolding delete_encoding_result
delete_encoding_result-encoded key e e' id h =
    elim (Option-cases (lookup (get_request_id key) e.encoded)) [
      | inl gone ↦ ground (arith, str_beq_iff (get_request_id key) id)
      | inr (r, here) ↦ elim (Result-cases (get_chunks_size r)) [
        | inr (x, fails) ↦ absurd (ground arith)
        | inl (n, sized) ↦ ground (arith, lookup-delete (get_request_id key) id e.encoded)
      ]
    ]

-- What the loop over the blobs of a batch does: each blob that the store has, and that is not yet
-- confirmed, is confirmed with its own information, no other entry changes, and the encoded results of exactly
-- the blobs that the store has are dropped. What is to be retried, the store does not have.
abbrev pub IsConfirmedBy :
    BlobEntries → MemoryDb → EncodedBlobStore → MemoryDb → EncodedBlobStore → Type 0
IsConfirmedBy entries q e q' e' =
    ((j : BlobKey)
      → lookup j q'.metadata ≡ confirmed_in (find_entry j entries) (lookup j q.metadata))
    × ((id : Bytes)
        → lookup id e'.encoded ≡ (if is_updated id entries q then none else lookup id e.encoded))

pub confirm_blobs-IsConfirmedBy :
    (entries : BlobEntries) (q q' : MemoryDb) (e e' : EncodedBlobStore) (retry : List BlobMetadata)
    → ApartEntries entries
    → confirm_blobs entries q e ≡ ok (retry, q', e')
    → IsConfirmedBy entries q e q' e'
unfolding confirm_blobs
confirm_blobs-IsConfirmedBy [] q q' e e' retry apart h = (λ j. ground arith, λ id. ground arith)
confirm_blobs-IsConfirmedBy ((m, info) ∷ rest) q q' e e' retry apart h =
    elim (Option-cases m.request_metadata) [
      | inl missing ↦ absurd (ground arith)
      | inr (request, there) ↦ elim (mark_blob_confirmed-found m info q) [
        | inr (x, fails, gone) ↦
            elim (Result-cases (confirm_blobs rest (mark_blob_confirmed m info q).0 e)) [
              | inr (y, panics) ↦ absurd (ground arith)
              | inl ((more, q2, e2), fine) ↦
                  let (entry, result) =
                    confirm_blobs-IsConfirmedBy rest (mark_blob_confirmed m info q).0 q2 e e2 more
                      apart.1 fine in
                  (
                    λ j. ground (
                      arith,
                      entry j,
                      mark_blob_confirmed-entry m info q j,
                      key_eq.decides (get_blob_key m) j,
                    ),
                    λ id. ground (arith, result id, is_updated-mark id rest m info q),
                  )
            ]
        | inl (c, works, found) ↦ elim (Result-cases (delete_encoding_result (get_blob_key m) e)) [
          | inr (y, panics) ↦ absurd (ground arith)
          | inl (e1, dropped) ↦
              let (entry, result) =
                confirm_blobs-IsConfirmedBy rest (mark_blob_confirmed m info q).0 q' e1 e' retry
                  apart.1 (ground arith) in
              (
                λ j. ground (
                  arith,
                  entry j,
                  mark_blob_confirmed-entry m info q j,
                  key_eq.decides (get_blob_key m) j,
                ),
                λ id. ground (
                  arith,
                  result id,
                  is_updated-mark id rest m info q,
                  delete_encoding_result-encoded (get_blob_key m) e e1 id dropped,
                ),
              )
        ]
      ]
    ]

confirmed_in-none : (x : Option (BlobMetadata × ConfirmationInfo)) → confirmed_in x none ≡ none
confirmed_in-none none = refl
confirmed_in-none (some (m, info)) = refl

abbrev pub AreAbsent : List BlobMetadata → MemoryDb → Type 0
AreAbsent ms q = All (λ m. lookup (get_blob_key m) q.metadata ≡ none) ms

pub confirm_blobs-AreAbsent :
    (entries : BlobEntries) (q q' : MemoryDb) (e e' : EncodedBlobStore) (retry : List BlobMetadata)
    → ApartEntries entries
    → confirm_blobs entries q e ≡ ok (retry, q', e')
    → AreAbsent retry q'
unfolding confirm_blobs
confirm_blobs-AreAbsent [] q q' e e' retry apart h =
    let none_left : [] ≡ retry = ground arith in subst (λ r. AreAbsent r q') none_left tt
confirm_blobs-AreAbsent ((m, info) ∷ rest) q q' e e' retry apart h =
    elim (Option-cases m.request_metadata) [
      | inl missing ↦ absurd (ground arith)
      | inr (request, there) ↦ elim (mark_blob_confirmed-found m info q) [
        | inr (x, fails, gone) ↦
            elim (Result-cases (confirm_blobs rest (mark_blob_confirmed m info q).0 e)) [
              | inr (y, panics) ↦ absurd (ground arith)
              | inl ((more, q2, e2), fine) ↦
                  let after = mark_blob_confirmed-entry m info q (get_blob_key m) in
                  let same : q2 ≡ q' = ground arith in
                  let all : m ∷ more ≡ retry = ground arith in
                  let entry =
                    (confirm_blobs-IsConfirmedBy rest (mark_blob_confirmed m info q).0 q2 e e2 more
                        apart.1 fine).0
                      (get_blob_key m) in
                  subst (λ q. AreAbsent retry q) same
                    (subst (λ r. AreAbsent r q2) all
                      (
                        ground (
                          arith,
                          entry,
                          after,
                          confirmed_in-none (find_entry (get_blob_key m) rest),
                        ),
                        confirm_blobs-AreAbsent rest (mark_blob_confirmed m info q).0 q2 e e2 more
                            apart.1 fine,
                      ))
            ]
        | inl (c, works, found) ↦ elim (Result-cases (delete_encoding_result (get_blob_key m) e)) [
          | inr (y, panics) ↦ absurd (ground arith)
          | inl (e1, dropped) ↦
              confirm_blobs-AreAbsent rest (mark_blob_confirmed m info q).0 q' e1 e' retry apart.1
                (ground arith)
        ]
      ]
    ]

handle_failure-absent :
    (ms : List BlobMetadata) (max_retries : ℕ) (q q' : MemoryDb)
    → AreAbsent ms q
    → handle_failure ms max_retries q ≡ ok q'
    → q ≡ q'
unfolding handle_failure handle_blob_failure mark_blob_failed increment_blob_retry_count
handle_failure-absent [] max_retries q q' absent h = ground arith
handle_failure-absent (m ∷ ms) max_retries q q' absent h =
    ground (arith, absent.0, handle_failure-absent ms max_retries q q' absent.1)

pub retry_failed-absent :
    (ms : List BlobMetadata) (max_retries : ℕ) (q q' : MemoryDb)
    → AreAbsent ms q
    → retry_failed ms max_retries q ≡ ok q'
    → q ≡ q'
retry_failed-absent [] max_retries q q' absent h = ground arith
retry_failed-absent (m ∷ ms) max_retries q q' absent h =
    handle_failure-absent (m ∷ ms) max_retries q q' absent h
