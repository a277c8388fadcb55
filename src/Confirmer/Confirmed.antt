-- ===== src/Confirmer/Confirmed.antt =====
-- What a confirmed batch leaves in the blob store and in the encoded results
-- (disperser/batcher/confirmer.go).
use g_da_client.Common.{
  ℕ, Bool, true, false, ◌≢◌, Option, some, List, [], ◌∷◌, ◌++◌, Bytes, bytes_eq, nat_eq, Result, ok,
  err, ◌>>=◌, lookup, ◌≡◌, refl, sym, ap, subst, ◌∙◌, arith, Option-cases, Result-cases, Bool-cases,
  inl, inr,
}
use g_da_client.Disperser.Status.{Error}
use g_da_client.Disperser.BlobKey.{BlobKey, key_eq}
use g_da_client.Disperser.Metadata.{BlobMetadata}
use g_da_client.MemoryDb.{MemoryDb, handle_blob_failure}
use g_da_client.EncodedStore.{delete_batching_status}
use g_da_client.Failures.{handle_failure}
use g_da_client.Failures.Entries.{AreApart, find_key, counted_in, handle_failure-entry}
use g_da_client.SliceSigner.Pending.{
  BatchCommitRootSubmission, remove_batching_status, remove_signed_blob,
}
use g_da_client.Batcher.{Batcher, BatchInfo}
use g_da_client.Confirmer.{
  with_index, confirm_blobs, retry_failed, none_updated, confirmation_of, confirm_item, fail_all,
  confirm_batch, wait_for_receipt,
}
use g_da_client.Confirmer.Blobs.{
  AreAbsent, IsConfirmedBy, confirm_blobs-IsConfirmedBy, confirm_blobs-AreAbsent,
  retry_failed-absent,
}
use g_da_client.Confirmer.Entries.{BlobEntries, ApartEntries}
use g_da_client.Confirmer.Done.{IsDone, delete_batching_status-IsDone}
use g_da_client.Confirmer.Missing.{
  missing, blobs_of, confirm_blobs-missing, with_index-blobs_of, none_updated_iff,
}

module _ {Sig Pk : Type 0} (max_retries : ℕ) where
  -- A batch of distinct blobs whose transaction is confirmed: each blob that the store has, and that is not yet
  -- confirmed, is confirmed with the information made for it, and no other entry changes; the
  -- encoded results of exactly the blobs that the store has are dropped. The loop stops only where
  -- there are blobs and the store has none of them, and then every batch is listed as before, and the
  -- signer is as it was; otherwise it goes on, which with blobs means that the store has one,
  -- and the batch is gone from the encoded results and from the signer, every blob that it lists is in
  -- no batch, and no other batch or submission has changed.
  pub confirm_item_lem :
      (tx_hash : Bytes) (block_number : ℕ) (item : BatchCommitRootSubmission Sig Pk)
      (b b' : Batcher Sig Pk) (stopped : Bool) (entries : BlobEntries)
      → with_index
          (confirmation_of tx_hash block_number item)
          0
          item.batch.blob_metadata
          item.proofs
          item.batch.blob_headers
          item.batch.encoded_blobs
        ≡ ok entries
      → ApartEntries entries
      → confirm_item max_retries tx_hash block_number item b ≡ ok (b', stopped)
      → IsConfirmedBy entries b.queue b.encoded_blobstore b'.queue b'.encoded_blobstore
        × (stopped ≡ true
            → (item.batch.blob_metadata ≢ [])
              × AreAbsent item.batch.blob_metadata b.queue
              × (b'.encoded_blobstore.batches ≡ b.encoded_blobstore.batches)
              × (b'.slice_signer ≡ b.slice_signer))
        × (stopped ≡ false
            → (item.batch.blob_metadata ≢ [] → ¬ AreAbsent item.batch.blob_metadata b.queue)
              × IsDone item.ts b b')
  unfolding confirm_item delete_batching_status
  confirm_item_lem tx_hash block_number item b b' stopped entries made apart h =
      elim (Result-cases (confirm_blobs entries b.queue b.encoded_blobstore)) [
        | inr (y, panics) ↦ absurd (ground arith)
        | inl ((retry, q, e), fine) ↦ elim (Result-cases (retry_failed retry max_retries q)) [
          | inr (y, panics) ↦ absurd (ground arith)
          | inl (q', well) ↦
              let same =
                retry_failed-absent retry max_retries q q'
                  (confirm_blobs-AreAbsent entries b.queue q b.encoded_blobstore e retry apart fine)
                  well in
              let done =
                confirm_blobs-IsConfirmedBy entries b.queue q b.encoded_blobstore e retry apart
                  fine in
              let (left_over, batches) =
                confirm_blobs-missing entries b.queue q b.encoded_blobstore e retry fine in
              let blobs =
                with_index-blobs_of (confirmation_of tx_hash block_number item) 0
                  item.batch.blob_metadata item.proofs item.batch.blob_headers
                  item.batch.encoded_blobs entries made in
              let test : none_updated retry item.batch.blob_metadata
                  ≡ none_updated (missing entries b.queue) (blobs_of entries) =
                ap (λ r. none_updated r item.batch.blob_metadata) left_over
                ∙ ap (none_updated (missing entries b.queue)) blobs in
              let (gives_up, goes_on) = none_updated_iff entries b.queue in
              elim (Bool-cases (none_updated retry item.batch.blob_metadata)) [
                | inl all ↦
                    let is : record b { queue = q'; encoded_blobstore = e } ≡ b' = ground arith in
                    (
                      subst
                          (λ b'.
                            IsConfirmedBy entries b.queue b.encoded_blobstore b'.queue
                              b'.encoded_blobstore)
                          is
                          (subst (λ q. IsConfirmedBy entries b.queue b.encoded_blobstore q e) same
                            done),
                      λ gave_up.
                          let (some_blob, absent) = gives_up (sym test ∙ all) in
                          (
                            λ e. some_blob (sym blobs ∙ e),
                            subst (λ ms. AreAbsent ms b.queue) (sym blobs) absent,
                            ap (λ b. b.encoded_blobstore.batches) (sym is) ∙ batches,
                            ap (λ b. b.slice_signer) (sym is),
                          ),
                      λ went_on. absurd (ground arith),
                    )
                | inr some_updated ↦
                    let is : record b {
                      queue = q';
                      encoded_blobstore = delete_batching_status item.ts e;
                      slice_signer = remove_signed_blob item.ts b.slice_signer;
                    }
                        ≡ b' =
                      ground arith in
                    (
                      subst
                          (λ b'.
                            IsConfirmedBy entries b.queue b.encoded_blobstore b'.queue
                              b'.encoded_blobstore)
                          is
                          (subst (λ q. IsConfirmedBy entries b.queue b.encoded_blobstore q e) same
                            done),
                      λ gave_up. absurd (ground arith),
                      λ went_on. (
                        λ some_blob absent.
                            goes_on (sym test ∙ some_updated) (λ e. some_blob (blobs ∙ e))
                              (subst (λ ms. AreAbsent ms b.queue) blobs absent),
                        subst (IsDone item.ts b) is
                            (delete_batching_status-IsDone item.ts q' e b batches),
                      ),
                    )
              ]
        ]
      ]

-- The metadata of all batches.
abbrev pub all_metadata :
    {Sig Pk : Type 0} → List (BatchCommitRootSubmission Sig Pk) → List BlobMetadata
all_metadata [] = []
all_metadata (item ∷ items) = item.batch.blob_metadata ++ all_metadata items

handle_failure-append :
    (ms ns : List BlobMetadata) (max_retries : ℕ) (q : MemoryDb)
    → handle_failure (ms ++ ns) max_retries q
      ≡ (do q' ← handle_failure ms max_retries q; handle_failure ns max_retries q')
unfolding handle_failure
handle_failure-append [] ns max_retries q = refl
handle_failure-append (m ∷ ms) ns max_retries q = elim (Option-cases m.request_metadata) [
  | inl missing ↦ ground arith
  | inr (request, there) ↦
      rw (there, handle_failure)
        (handle_failure-append ms ns max_retries (handle_blob_failure m max_retries q).0)
]

fail_all_eq :
    {Sig Pk : Type 0} (max_retries : ℕ) (items : List (BatchCommitRootSubmission Sig Pk))
    (q : MemoryDb)
    → fail_all max_retries items q ≡ handle_failure (all_metadata items) max_retries q
unfolding fail_all handle_failure
fail_all_eq max_retries [] q = refl
fail_all_eq max_retries (item ∷ items) q =
    elim (Result-cases (handle_failure item.batch.blob_metadata max_retries q)) [
      | inr (x, panics) ↦
          rw (handle_failure-append item.batch.blob_metadata (all_metadata items) max_retries q)
            (ground arith)
      | inl (q', fine) ↦
          rw (handle_failure-append item.batch.blob_metadata (all_metadata items) max_retries q)
            (rw (fine, fail_all) (fail_all_eq max_retries items q'))
    ]

module _ {Sig Pk : Type 0} (max_retries : ℕ) where
  -- Batches of distinct blobs whose transaction is not confirmed: the error is reported, one failure is counted for
  -- every blob of theirs that the store has, and for no other; the results stay encoded and in their
  -- batches, and the signer releases the submissions.
  pub confirm_batch-unconfirmed :
      (receipt : Bytes → Result Error ℕ) (tx_hash : Bytes) (info : BatchInfo Sig Pk)
      (b b' : Batcher Sig Pk) (failure : Option Error) (x : Error) (j : BlobKey)
      → info.tx_hash ≡ some tx_hash
      → wait_for_receipt receipt tx_hash ≡ err x
      → AreApart (all_metadata info.items)
      → confirm_batch max_retries receipt info b ≡ ok (b', failure)
      → (failure ≡ some x)
        × (lookup j b'.queue.metadata
            ≡ counted_in max_retries
                (find_key j (all_metadata info.items))
                (lookup j b.queue.metadata))
        × (b'.encoded_blobstore ≡ b.encoded_blobstore)
        × (b'.slice_signer ≡ remove_batching_status info.signed_ts b.slice_signer)
  unfolding confirm_batch
  confirm_batch-unconfirmed receipt tx_hash info b b' failure x j sent unmined apart h =
      elim (Result-cases (fail_all max_retries info.items b.queue)) [
        | inr (y, panics) ↦ absurd (ground arith)
        | inl (q, fine) ↦
            let is : record b {
              queue = q;
              slice_signer = remove_batching_status info.signed_ts b.slice_signer;
            }
                ≡ b' =
              ground arith in
            (
              ground arith,
              ap (λ b. lookup j b.queue.metadata) (sym is)
                  ∙ handle_failure-entry (all_metadata info.items) max_retries b.queue q j apart
                      (sym (fail_all_eq max_retries info.items b.queue) ∙ fine),
              ap (λ b. b.encoded_blobstore) (sym is),
              ap (λ b. b.slice_signer) (sym is),
            )
      ]
