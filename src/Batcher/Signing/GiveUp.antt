-- ===== src/Batcher/Signing/GiveUp.antt =====
-- A batch that does not get its signatures, or whose transaction fails (disperser/batcher/slice_signer.go).
use g_da_client.Common.{
  ℕ, ◌+◌, true, false, Option, none, some, [], ◌∷◌, ◌++◌, Bytes, map, ◌==◌, if◌then◌else◌, bytes_eq,
  nat_eq, ok, lookup, ltb, ◌≡◌, subst, ap, sym, ◌∙◌, arith, Result-cases, inl, inr,
}
use g_da_client.Disperser.Status.{Error, failed_aggregate_signatures}
use g_da_client.Disperser.BlobKey.{BlobKey, key_eq}
use g_da_client.Disperser.Metadata.{get_blob_key}
use g_da_client.MemoryDb.{MemoryDb}
use g_da_client.EncodedStore.{EncodedBlobStore, delete_batching_status, or_empty}
use g_da_client.EncodedStore.Stages.{is_listed, delete_batching_status_lem}
use g_da_client.Failures.{handle_failure, drop_failed}
use g_da_client.Failures.Entries.{
  AreApart, find_key, counted_in, dropped_in, handle_failure-entry, drop_failed-entry, is_asked,
  drop_failed-batching,
}
use g_da_client.SliceSigner.Pending.{SignInfo, retry_signing}
use g_da_client.Batcher.{Batcher}
use g_da_client.Batcher.Signing.{give_up_signing, finish_signing}

-- The batch has given its blobs back: each that it lists is in no batch, no other blob of another
-- batch is touched, and the batch is gone, while the other batches are as they were.
abbrev pub IsGivenBack : SignInfo → EncodedBlobStore → EncodedBlobStore → Type 0
IsGivenBack info e e' =
    ((id : Bytes)
      → is_listed id (or_empty (lookup info.ts e.batches)) ≡ true
      → lookup id e'.batching ≡ none)
    × ((id : Bytes)
        → is_listed id (or_empty (lookup info.ts e.batches)) ≡ false
        → is_asked id (map get_blob_key info.batch.blob_metadata) ≡ false
        → lookup id e'.batching ≡ lookup id e.batching)
    × ((t : ℕ) → lookup t e'.batches ≡ (if info.ts == t then none else lookup t e.batches))

drop_failed-IsGivenBack :
    (info : SignInfo) (q q' : MemoryDb) (e e' : EncodedBlobStore)
    → drop_failed info.batch.blob_metadata q e ≡ ok (q', e')
    → IsGivenBack info e (delete_batching_status info.ts e')
drop_failed-IsGivenBack info q q' e e' h =
    let same = (drop_failed-batching info.batch.blob_metadata q q' e e' [] h).1 in
    let lists = λ (id : Bytes). ap (λ m. is_listed id (or_empty (lookup info.ts m))) same in
    (
      λ id listed. ground (arith, (delete_batching_status_lem info.ts info.ts id e').0, lists id),
      λ id other unasked. ground (
        arith,
        (delete_batching_status_lem info.ts info.ts id e').0,
        lists id,
        (drop_failed-batching info.batch.blob_metadata q q' e e' id h).0,
      ),
      λ t.
          (delete_batching_status_lem info.ts t [] e').1
          ∙ ap (λ m. if info.ts == t then none else lookup t m) same,
    )

module _ {Sig Pk : Type 0} (max_retries max_sign : ℕ) where
  give_up_signing_lem :
      (info : SignInfo) (b b' : Batcher Sig Pk)
      → AreApart info.batch.blob_metadata
      → give_up_signing max_retries info b ≡ ok b'
      → ((j : BlobKey)
          → lookup j b'.queue.metadata ≡ (
              let mine = find_key j info.batch.blob_metadata in
              dropped_in mine (counted_in max_retries mine (lookup j b.queue.metadata))))
        × IsGivenBack info b.encoded_blobstore b'.encoded_blobstore
        × (b'.slice_signer ≡ b.slice_signer)
  unfolding give_up_signing
  give_up_signing_lem info b b' apart h =
      elim (Result-cases (handle_failure info.batch.blob_metadata max_retries b.queue)) [
        | inr (x, fails) ↦ absurd (ground arith)
        | inl (q, fine) ↦
            elim (Result-cases (drop_failed info.batch.blob_metadata q b.encoded_blobstore)) [
              | inr (x, fails) ↦ absurd (ground arith)
              | inl ((q', e), well) ↦
                  let is : record b {
                    queue = q';
                    encoded_blobstore = delete_batching_status info.ts e;
                  }
                      ≡ b' =
                    ground arith in
                  (
                    λ j.
                        ap (λ b. lookup j b.queue.metadata) (sym is)
                        ∙ drop_failed-entry info.batch.blob_metadata q q' b.encoded_blobstore e j
                            apart well
                        ∙ ap (dropped_in (find_key j info.batch.blob_metadata)) (
                            handle_failure-entry info.batch.blob_metadata max_retries b.queue q j
                              apart fine),
                    subst (λ b'. IsGivenBack info b.encoded_blobstore b'.encoded_blobstore) is
                        (drop_failed-IsGivenBack info q q' b.encoded_blobstore e well),
                    ap (λ b. b.slice_signer) (sym is),
                  )
            ]
      ]

  -- A batch of distinct blobs that lacks signatures: while it has retries left, it waits to be signed
  -- again, as the last and with one retry more, and nothing else changes. After that the error is
  -- reported, a failure is counted for each of its blobs, those that are then Failed are gone from
  -- the blob store, and no other entry of it is touched; every blob that the batch lists is in no
  -- batch, blobs that are neither listed nor of the batch are in the batch they were in, and of the
  -- batches only this one is gone.
  pub finish_signing_lem :
      (info : SignInfo) (b b' : Batcher Sig Pk) (failure : Option Error)
      → AreApart info.batch.blob_metadata
      → finish_signing max_retries max_sign info none b ≡ ok (b', failure)
      → (ltb info.reties max_sign ≡ true
          → (failure ≡ none)
            × (b' ≡ record b {
              slice_signer = record b.slice_signer {
                pending_batches_to_sign =
                    b.slice_signer.pending_batches_to_sign
                    ++ (record info { reties = info.reties + 1 }) ∷ [];
              };
            }))
        × (ltb info.reties max_sign ≡ false
            → (failure ≡ some failed_aggregate_signatures)
              × ((j : BlobKey)
                  → lookup j b'.queue.metadata ≡ (
                      let mine = find_key j info.batch.blob_metadata in
                      dropped_in mine (counted_in max_retries mine (lookup j b.queue.metadata))))
              × IsGivenBack info b.encoded_blobstore b'.encoded_blobstore
              × (b'.slice_signer ≡ b.slice_signer))
  unfolding finish_signing retry_signing
  finish_signing_lem info b b' failure apart h = (
    λ more. (ground arith, ground arith),
    λ exhausted. elim (Result-cases (give_up_signing max_retries info b)) [
      | inr (x, fails) ↦ absurd (ground arith)
      | inl (b1, fine) ↦
          let is : b1 ≡ b' = ground arith in
          let given_up = give_up_signing_lem info b b' apart (fine ∙ ap ok is) in
          (ground arith, given_up.0, given_up.1, given_up.2)
    ],
  )
