-- ===== src/Batcher/Signed/Counted.antt =====
-- What the batches that could not be submitted leave behind (`HandleSignedBatch` of
-- disperser/batcher/batcher.go) in the blob store.
use g_da_client.Common.{
  ℕ, none, some, Option, List, [], ◌∷◌, ◌++◌, bytes_eq, nat_eq, ok, lookup, ◌≡◌, refl, ap, sym, ◌∙◌,
  arith, Bool-cases, Result-cases, Option-cases, inl, inr,
}
use g_da_client.Disperser.BlobKey.{BlobKey, key_eq}
use g_da_client.Disperser.Metadata.{BlobMetadata, get_blob_key}
use g_da_client.MemoryDb.{remove_blob}
use g_da_client.MemoryDb.Contents.{lookup-remove_blob}
use g_da_client.EncodedStore.{delete_encoding_result, delete_batching_status}
use g_da_client.Failures.{handle_failure, has_failed}
use g_da_client.Failures.Entries.{
  AreApart, find_key, counted_in, dropped_in, handle_failure-entry, has_failed_iff,
}
use g_da_client.SliceSigner.Pending.{BatchCommitRootSubmission, remove_signed_blob}
use g_da_client.Batcher.{Batcher}
use g_da_client.Batcher.Signed.{drop_signed, fail_items}
use g_da_client.Confirmer.Confirmed.{all_metadata}

abbrev or_else : Option BlobMetadata → Option BlobMetadata → Option BlobMetadata
or_else none other = other
or_else (some m) other = some m

find_key-append :
    (j : BlobKey) (ms ns : List BlobMetadata)
    → find_key j (ms ++ ns) ≡ or_else (find_key j ms) (find_key j ns)
find_key-append j [] ns = refl
find_key-append j (m ∷ ms) ns = ground (arith, find_key-append j ms ns)

AreApart-append :
    (ms ns : List BlobMetadata)
    → AreApart (ms ++ ns)
    → AreApart ms
      × AreApart ns
      × ((j : BlobKey) (m : BlobMetadata) → find_key j ms ≡ some m → find_key j ns ≡ none)
AreApart-append [] ns h = (tt, h, λ j m here. absurd (ground arith))
AreApart-append (m ∷ ms) ns h =
    let (front, back, apart) = AreApart-append ms ns h.1 in
    (
      (ground (arith, h.0, find_key-append (get_blob_key m) ms ns), front),
      back,
      λ j n here. ground (
        arith,
        apart j n,
        h.0,
        find_key-append (get_blob_key m) ms ns,
        key_eq.decides (get_blob_key m) j,
      ),
    )

-- A failure is counted, and what is then Failed is dropped.
abbrev pub failed_in : ℕ → Option BlobMetadata → Option BlobMetadata → Option BlobMetadata
failed_in max_retries mine entry = dropped_in mine (counted_in max_retries mine entry)

module _ {Sig Pk : Type 0} where
  drop_signed-entry :
      (ts : ℕ) (ms : List BlobMetadata) (b b' : Batcher Sig Pk) (j : BlobKey)
      → AreApart ms
      → drop_signed ts ms b ≡ ok b'
      → lookup j b'.queue.metadata ≡ dropped_in (find_key j ms) (lookup j b.queue.metadata)
  unfolding drop_signed
  drop_signed-entry ts [] b b' j apart h = ground arith
  drop_signed-entry ts (m ∷ ms) b b' j apart h = elim (Bool-cases (has_failed m b.queue)) [
    | inr kept ↦ ground (
      arith,
      drop_signed-entry ts ms b b' j apart.1,
      has_failed_iff m b.queue,
      key_eq.decides (get_blob_key m) j,
    )
    | inl gone ↦ elim (Result-cases (delete_encoding_result (get_blob_key m) b.encoded_blobstore)) [
      | inr (x, fails) ↦ absurd (ground arith)
      | inl (e, fine) ↦
          let b1 = record b {
            queue = remove_blob m b.queue;
            encoded_blobstore = e;
            slice_signer = remove_signed_blob ts b.slice_signer;
          } in
          let later = drop_signed-entry ts ms b1 b' j apart.1 (ground arith) in
          ground (
            arith,
            later,
            lookup-remove_blob m b.queue j,
            has_failed_iff m b.queue,
            key_eq.decides (get_blob_key m) j,
          )
    ]
  ]

  -- A failure is counted for every blob of the batches, and those that are then Failed are dropped.
  pub fail_items-entry :
      (max_retries : ℕ) (items : List (BatchCommitRootSubmission Sig Pk)) (b b' : Batcher Sig Pk)
      (j : BlobKey)
      → AreApart (all_metadata items)
      → fail_items max_retries items b ≡ ok b'
      → lookup j b'.queue.metadata
        ≡ failed_in max_retries (find_key j (all_metadata items)) (lookup j b.queue.metadata)
  unfolding fail_items
  fail_items-entry max_retries [] b b' j apart h = ground arith
  fail_items-entry max_retries (item ∷ items) b b' j apart h =
      let ms = item.batch.blob_metadata in
      let (front, back, once) = AreApart-append ms (all_metadata items) apart in
      elim (Result-cases (handle_failure ms max_retries b.queue)) [
        | inr (x, fails) ↦ absurd (ground arith)
        | inl (q, fine) ↦ elim (Result-cases (drop_signed item.ts ms (record b { queue = q }))) [
          | inr (x, fails) ↦ absurd (ground arith)
          | inl (b1, well) ↦
              let b2 = record b1 {
                encoded_blobstore = delete_batching_status item.ts b1.encoded_blobstore;
              } in
              let later : lookup j b'.queue.metadata
                  ≡ failed_in max_retries (find_key j (all_metadata items))
                      (lookup j b1.queue.metadata) =
                fail_items-entry max_retries items b2 b' j back (ground arith) in
              let mine : lookup j b1.queue.metadata
                  ≡ failed_in max_retries (find_key j ms) (lookup j b.queue.metadata) =
                drop_signed-entry item.ts ms (record b { queue = q }) b1 j front well
                ∙ ap (dropped_in (find_key j ms))
                    (handle_failure-entry ms max_retries b.queue q j front fine) in
              let joined = find_key-append j ms (all_metadata items) in
              elim (Option-cases (find_key j ms)) [
                | inl other ↦
                    later
                    ∙ ap (failed_in max_retries (find_key j (all_metadata items)))
                        (mine ∙ ap (λ f. failed_in max_retries f (lookup j b.queue.metadata)) other)
                    ∙ ap (λ f. failed_in max_retries f (lookup j b.queue.metadata))
                        (sym (joined ∙ ap (λ f. or_else f (find_key j (all_metadata items))) other))
                | inr (m, here) ↦
                    later
                    ∙ ap (λ f. failed_in max_retries f (lookup j b1.queue.metadata)) (once j m here)
                    ∙ mine
                    ∙ ap (λ f. failed_in max_retries f (lookup j b.queue.metadata))
                        (here
                          ∙ sym
                              (joined ∙ ap (λ f. or_else f (find_key j (all_metadata items))) here))
              ]
        ]
      ]
