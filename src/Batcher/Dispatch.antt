-- ===== src/Batcher/Dispatch.antt =====
-- A batch that is dispatched, or cannot be (`HandleSingleBatch` of disperser/batcher/batcher.go).
use g_da_client.Common.{
  ℕ, false, none, some, [], Bytes, bytes_eq, nat_eq, ok, lookup, map, ◌≡◌, refl, subst, arith,
  Result-cases, inl, inr,
}
use g_da_client.Disperser.Status.{Error}
use g_da_client.Disperser.BlobKey.{BlobKey, key_eq}
use g_da_client.Disperser.Metadata.{get_blob_key}
use g_da_client.Failures.{handle_failure, drop_failed}
use g_da_client.Failures.Entries.{
  is_asked, drop_failed-batching, AreApart, find_key, counted_in, dropped_in, handle_failure-entry,
  drop_failed-entry,
}
use g_da_client.SliceSigner.Pending.{Batch, SignInfo, put_pending_batches}
use g_da_client.Batcher.{Batcher, Services, prepare, give_up, dispatch_batch}

module _ {Sig Pk : Type 0} (services : Services Sig Pk) (max_retries : ℕ) where
  -- What is left of a batch of distinct blobs that could not be dispatched: of its blobs, those that
  -- the store had as Failed before are gone, and every other has one more failure; all other blobs
  -- are untouched.
  pub give_up_lem :
      (batch : Batch) (b b' : Batcher Sig Pk) (j : BlobKey)
      → AreApart batch.blob_metadata
      → give_up services max_retries batch b ≡ ok b'
      → lookup j b'.queue.metadata ≡ (
          let mine = find_key j batch.blob_metadata in
          counted_in max_retries mine (dropped_in mine (lookup j b.queue.metadata)))
  unfolding give_up
  give_up_lem batch b b' j apart h =
      elim (Result-cases (drop_failed batch.blob_metadata b.queue b.encoded_blobstore)) [
        | inr (x, fails) ↦ absurd (ground arith)
        | inl ((q, e), fine) ↦
            elim (Result-cases (handle_failure batch.blob_metadata max_retries q)) [
              | inr (x, fails) ↦ absurd (ground arith)
              | inl (q', well) ↦ ground (
                arith,
                handle_failure-entry batch.blob_metadata max_retries q q' j apart well,
                drop_failed-entry batch.blob_metadata b.queue q b.encoded_blobstore e j apart fine,
              )
            ]
      ]

  -- A failed dispatch leaves the signer alone, and the batches in the store, but for the blobs of
  -- the batch.
  abbrev IsDispatchFailure : Batch → Batcher Sig Pk → Batcher Sig Pk → Type 0
  IsDispatchFailure batch b b' =
      (b'.slice_signer ≡ b.slice_signer)
      × (b'.encoded_blobstore.batches ≡ b.encoded_blobstore.batches)
      × ((id : Bytes)
          → is_asked id (map get_blob_key batch.blob_metadata) ≡ false
          → lookup id b'.encoded_blobstore.batching ≡ lookup id b.encoded_blobstore.batching)

  give_up-batching :
      (batch : Batch) (b b' : Batcher Sig Pk)
      → give_up services max_retries batch b ≡ ok b'
      → IsDispatchFailure batch b b'
  unfolding give_up
  give_up-batching batch b b' h =
      elim (Result-cases (drop_failed batch.blob_metadata b.queue b.encoded_blobstore)) [
        | inr (x, fails) ↦ absurd (ground arith)
        | inl ((q, e), fine) ↦
            elim (Result-cases (handle_failure batch.blob_metadata max_retries q)) [
              | inr (x, fails) ↦ absurd (ground arith)
              | inl (q', well) ↦
                  let is : record b { queue = q'; encoded_blobstore = e } ≡ b' = ground arith in
                  subst (IsDispatchFailure batch b) is (
                    refl,
                    (drop_failed-batching batch.blob_metadata b.queue q b.encoded_blobstore e []
                        fine).1,
                    λ id.
                        (drop_failed-batching batch.blob_metadata b.queue q b.encoded_blobstore e id
                          fine).0,
                  )
            ]
      ]

  pub dispatch_batch-failed :
      (batch : Batch) (ts : ℕ) (b b' : Batcher Sig Pk) (x : Error)
      → dispatch_batch services max_retries batch ts b ≡ ok (b', some x)
      → IsDispatchFailure batch b b'
  unfolding dispatch_batch
  dispatch_batch-failed batch ts b b' x h = elim (Result-cases (prepare services batch)) [
    | inr (y, unready) ↦
        elim (Result-cases (handle_failure batch.blob_metadata max_retries b.queue)) [
          | inr (z, fails) ↦ absurd (ground arith)
          | inl (q, well) ↦
              let is : record b { queue = q } ≡ b' = ground arith in
              subst (IsDispatchFailure batch b) is (refl, refl, λ id other. refl)
        ]
    | inl ((hash, proofs), ready) ↦ elim (Result-cases (services.disperse_batch hash batch)) [
      | inl (tx, sent) ↦ absurd (ground arith)
      | inr (y, unsent) ↦ elim (Result-cases (give_up services max_retries batch b)) [
        | inr (z, fails) ↦ absurd (ground arith)
        | inl (b1, well) ↦ give_up-batching batch b b' (ground arith)
      ]
    ]
  ]

  -- A dispatched batch waits at the signer, as the last, with its proofs and its hash.
  abbrev pub IsSent : Batch → ℕ → Batcher Sig Pk → Batcher Sig Pk → Type 0
  IsSent batch ts b b' =
      (info : SignInfo) × (b' ≡ record b { slice_signer = put_pending_batches info b.slice_signer })
      × (info.ts ≡ ts)
      × (info.batch.blob_metadata ≡ batch.blob_metadata)
      × (prepare services batch ≡ ok (info.header_hash, info.proofs))
      × (services.disperse_batch info.header_hash batch ≡ ok info.batch.tx_hash)

  pub dispatch_batch-IsSent :
      (batch : Batch) (ts : ℕ) (b b' : Batcher Sig Pk)
      → dispatch_batch services max_retries batch ts b ≡ ok (b', none)
      → IsSent batch ts b b'
  unfolding dispatch_batch
  dispatch_batch-IsSent batch ts b b' h = elim (Result-cases (prepare services batch)) [
    | inr (y, unready) ↦
        elim (Result-cases (handle_failure batch.blob_metadata max_retries b.queue)) [
          | inr (z, fails) ↦ absurd (ground arith)
          | inl (q, well) ↦ absurd (ground arith)
        ]
    | inl ((hash, proofs), ready) ↦ elim (Result-cases (services.disperse_batch hash batch)) [
      | inl (tx, sent) ↦ (
        record {
          header_hash = hash;
          batch = record batch { tx_hash = tx };
          ts = ts;
          proofs = proofs;
          reties = 0;
          epoch = 0;
          quorum_id = 0;
          new_blobs = [];
        },
        ground arith,
        refl,
        refl,
        ready,
        sent,
      )
      | inr (y, unsent) ↦ elim (Result-cases (give_up services max_retries batch b)) [
        | inr (z, fails) ↦ absurd (ground arith)
        | inl (b1, well) ↦ absurd (ground arith)
      ]
    ]
  ]
