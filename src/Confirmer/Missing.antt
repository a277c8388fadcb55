-- ===== src/Confirmer/Missing.antt =====
-- When `ConfirmBatch` (disperser/batcher/confirmer.go) gives a batch up: where the blob store has none
-- of its blobs.
use g_da_client.Common.{
  ℕ, ◌+◌, ◌≤◌, true, false, List, [], ◌∷◌, Bytes, ok, lookup, length, bytes_eq, nat_eq, ◌≡◌, ◌≢◌,
  refl, ap, ◌∙◌, arith, Option-cases, Result-cases, inl, inr, if◌then◌else◌,
}
use g_da_client.Core.{BlobHeader, BlobCommitments}
use g_da_client.Disperser.BlobKey.{key_eq}
use g_da_client.Disperser.Metadata.{BlobMetadata, ConfirmationInfo, get_blob_key}
use g_da_client.MemoryDb.{MemoryDb, mark_blob_confirmed}
use g_da_client.EncodedStore.{EncodedBlobStore, delete_encoding_result, has}
use g_da_client.Failures.Entries.{delete_encoding_result-batching}
use g_da_client.Confirmer.{Confirmation, with_index, confirm_blobs, none_updated}
use g_da_client.Confirmer.Blobs.{AreAbsent}
use g_da_client.Confirmer.Entries.{
  BlobEntries, mark_blob_confirmed-entry, mark_blob_confirmed-found,
}

-- The blobs that the store does not have.
abbrev pub missing : BlobEntries → MemoryDb → List BlobMetadata
missing [] q = []
missing ((m, info) ∷ rest) q =
    let more = missing rest q in if has (lookup (get_blob_key m) q.metadata) then more else m ∷ more

missing-mark :
    (entries : BlobEntries) (m : BlobMetadata) (info : ConfirmationInfo) (q : MemoryDb)
    → missing entries (mark_blob_confirmed m info q).0 ≡ missing entries q
missing-mark [] m info q = refl
missing-mark ((n, other) ∷ rest) m info q =
    ground (arith, missing-mark rest m info q, mark_blob_confirmed-entry m info q (get_blob_key n))

-- What is to be retried is what the store does not have, and no list of a batch changes.
pub confirm_blobs-missing :
    (entries : BlobEntries) (q q' : MemoryDb) (e e' : EncodedBlobStore) (retry : List BlobMetadata)
    → confirm_blobs entries q e ≡ ok (retry, q', e')
    → (retry ≡ missing entries q) × (e'.batches ≡ e.batches)
unfolding confirm_blobs
confirm_blobs-missing [] q q' e e' retry h = (ground arith, ground arith)
confirm_blobs-missing ((m, info) ∷ rest) q q' e e' retry h =
    elim (Option-cases m.request_metadata) [
      | inl unknown ↦ absurd (ground arith)
      | inr (request, there) ↦ elim (mark_blob_confirmed-found m info q) [
        | inr (x, fails, gone) ↦
            elim (Result-cases (confirm_blobs rest (mark_blob_confirmed m info q).0 e)) [
              | inr (y, panics) ↦ absurd (ground arith)
              | inl ((more, q2, e2), fine) ↦
                  let (is, same) =
                    confirm_blobs-missing rest (mark_blob_confirmed m info q).0 q2 e e2 more fine in
                  (ground (arith, is, missing-mark rest m info q), ground (arith, same))
            ]
        | inl (c, works, found) ↦ elim (Result-cases (delete_encoding_result (get_blob_key m) e)) [
          | inr (y, panics) ↦ absurd (ground arith)
          | inl (e1, dropped) ↦
              let (is, same) =
                confirm_blobs-missing rest (mark_blob_confirmed m info q).0 q' e1 e' retry
                  (ground arith) in
              (
                ground (arith, is, missing-mark rest m info q),
                same ∙ (delete_encoding_result-batching (get_blob_key m) e e1 [] dropped).1,
              )
        ]
      ]
    ]

abbrev pub blobs_of : BlobEntries → List BlobMetadata
blobs_of [] = []
blobs_of ((m, info) ∷ rest) = m ∷ blobs_of rest

pub with_index-blobs_of :
    (c : Confirmation) (index : ℕ) (ms : List BlobMetadata) (proofs : List (List Bytes))
    (headers : List BlobHeader) (blobs : List BlobCommitments) (entries : BlobEntries)
    → with_index c index ms proofs headers blobs ≡ ok entries
    → ms ≡ blobs_of entries
unfolding with_index
with_index-blobs_of c index [] proofs headers blobs entries h =
    let is : [] ≡ entries = ground arith in ap blobs_of is
with_index-blobs_of c index (m ∷ ms) [] headers blobs entries h = absurd (ground arith)
with_index-blobs_of c index (m ∷ ms) (p ∷ proofs) [] blobs entries h = absurd (ground arith)
with_index-blobs_of c index (m ∷ ms) (p ∷ proofs) (header ∷ headers) [] entries h =
    absurd (ground arith)
with_index-blobs_of c index (m ∷ ms) (p ∷ proofs) (header ∷ headers) (blob ∷ blobs) entries h =
    elim (Result-cases (with_index c (index + 1) ms proofs headers blobs)) [
      | inr (x, fails) ↦ absurd (ground arith)
      | inl (rest, fine) ↦
          ground (arith, with_index-blobs_of c (index + 1) ms proofs headers blobs rest fine)
    ]

length-missing :
    (entries : BlobEntries) (q : MemoryDb) → length (missing entries q) ≤ length (blobs_of entries)
length-missing [] q = omega arith
length-missing ((m, info) ∷ rest) q = ground (arith, length-missing rest q)

missing-AreAbsent :
    (entries : BlobEntries) (q : MemoryDb)
    → length (missing entries q) ≡ length (blobs_of entries)
    → AreAbsent (blobs_of entries) q
missing-AreAbsent [] q h = tt
missing-AreAbsent ((m, info) ∷ rest) q h =
    elim (Option-cases (lookup (get_blob_key m) q.metadata)) [
      | inl gone ↦ (gone, missing-AreAbsent rest q (ground arith))
      | inr (c, here) ↦ absurd (ground (arith, length-missing rest q))
    ]

AreAbsent-missing :
    (entries : BlobEntries) (q : MemoryDb)
    → AreAbsent (blobs_of entries) q
    → missing entries q ≡ blobs_of entries
AreAbsent-missing [] q h = refl
AreAbsent-missing ((m, info) ∷ rest) q h = ground (arith, AreAbsent-missing rest q h.1, h.0)

none_updated-length :
    (retry ms : List BlobMetadata) → none_updated retry ms ≡ true → length retry ≡ length ms
none_updated-length [] ms h = absurd (ground arith)
none_updated-length (n ∷ retry) ms h = ground arith

-- The test for giving up: there are blobs, and the store has none of them.
pub none_updated_iff :
    (entries : BlobEntries) (q : MemoryDb)
    → (none_updated (missing entries q) (blobs_of entries) ≡ true
        → (blobs_of entries ≢ []) × AreAbsent (blobs_of entries) q)
      × (none_updated (missing entries q) (blobs_of entries) ≡ false
          → blobs_of entries ≢ []
          → ¬ AreAbsent (blobs_of entries) q)
none_updated_iff [] q = (λ h. absurd (ground arith), λ h some_blob absent. some_blob refl)
none_updated_iff ((m, info) ∷ rest) q = (
  λ h. (
    λ e. absurd (ground arith),
    missing-AreAbsent ((m, info) ∷ rest) q
        (none_updated-length (missing ((m, info) ∷ rest) q) (m ∷ blobs_of rest) h),
  ),
  λ h some_blob absent. absurd (ground (arith, AreAbsent-missing rest q absent.1, absent.0)),
)
