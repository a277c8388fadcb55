-- ===== src/Batcher/Signed/Released.antt =====
-- What the batches that could not be submitted leave behind (`HandleSignedBatch` of
-- disperser/batcher/batcher.go) in the encoded results and at the signer.
use g_da_client.Common.{
  ℕ, Bool, true, false, ◌||◌, none, List, [], ◌∷◌, Bytes, bytes_eq, nat_eq, ok, All, map, lookup,
  lookup-delete, ◌==◌, if◌then◌else◌, ◌≡◌, refl, ap, ◌∙◌, arith, Bool-cases, Result-cases,
  Option-cases, inl, inr,
}
use g_da_client.Disperser.BlobKey.{BlobKey}
use g_da_client.Disperser.Metadata.{BlobMetadata, get_blob_key}
use g_da_client.MemoryDb.{MemoryDb, remove_blob}
use g_da_client.EncodedStore.{
  EncodedBlobStore, delete_encoding_result, delete_batching_status, get_request_id, get_chunks_size,
  or_empty,
}
use g_da_client.EncodedStore.Stages.{is_listed, delete_batching_status_lem}
use g_da_client.Failures.{handle_failure, has_failed}
use g_da_client.Failures.Entries.{is_asked, delete_encoding_result-batching}
use g_da_client.SliceSigner.Pending.{BatchCommitRootSubmission, SliceSigner, remove_signed_blob}
use g_da_client.Batcher.{Batcher}
use g_da_client.Batcher.Signed.{drop_signed, fail_items}

delete_encoding_result-free :
    (key : BlobKey) (e e' : EncodedBlobStore) (id : Bytes)
    → delete_encoding_result key e ≡ ok e'
    → lookup id e.batching ≡ none
    → lookup id e'.batching ≡ none
unfolding delete_encoding_result
delete_encoding_result-free key e e' id h free =
    elim (Option-cases (lookup (get_request_id key) e.encoded)) [
      | inl gone ↦ ground arith
      | inr (r, here) ↦ elim (Result-cases (get_chunks_size r)) [
        | inr (x, fails) ↦ absurd (ground arith)
        | inl (n, sized) ↦ ground (arith, lookup-delete (get_request_id key) id e.batching)
      ]
    ]

remove_signed_blob-free :
    {Sig Pk : Type 0} (ts key : ℕ) (s : SliceSigner Sig Pk)
    → ((remove_signed_blob ts s).signed_batches ≡ s.signed_batches)
      × (lookup key s.signed_batching ≡ none
          → lookup key (remove_signed_blob ts s).signed_batching ≡ none)
unfolding remove_signed_blob
remove_signed_blob-free ts key s = elim (Option-cases (lookup ts s.pending_submissions)) [
  | inl gone ↦ ground arith
  | inr (r, here) ↦ ground (arith, lookup-delete ts key s.signed_batching)
]

-- Nothing joins a batch, here or at the signer, and nothing new waits at the confirmer.
abbrev pub NoneJoins : {Sig Pk : Type 0} → Batcher Sig Pk → Batcher Sig Pk → Type 0
NoneJoins b b' =
    ((id : Bytes)
      → lookup id b.encoded_blobstore.batching ≡ none
      → lookup id b'.encoded_blobstore.batching ≡ none)
    × ((key : ℕ)
        → lookup key b.slice_signer.signed_batching ≡ none
        → lookup key b'.slice_signer.signed_batching ≡ none)
    × (b'.slice_signer.signed_batches ≡ b.slice_signer.signed_batches)
    × (b'.to_confirm ≡ b.to_confirm)

NoneJoins-then :
    {Sig Pk : Type 0} (b b1 b2 : Batcher Sig Pk) → NoneJoins b b1 → NoneJoins b1 b2 → NoneJoins b b2
NoneJoins-then b b1 b2 (i, j, k, l) (i', j', k', l') =
    (λ id free. i' id (i id free), λ key free. j' key (j key free), k' ∙ k, l' ∙ l)

-- Some batch of the list has the blob among its results.
abbrev pub is_held :
    {Sig Pk : Type 0} → Bytes → List (BatchCommitRootSubmission Sig Pk) → EncodedBlobStore → Bool
is_held id [] e = false
is_held id (item ∷ items) e =
    is_listed id (or_empty (lookup item.ts e.batches)) || is_held id items e

-- The blob is one of the batches'.
abbrev pub is_of : {Sig Pk : Type 0} → Bytes → List (BatchCommitRootSubmission Sig Pk) → Bool
is_of id [] = false
is_of id (item ∷ items) = is_asked id (map get_blob_key item.batch.blob_metadata) || is_of id items

is_held-delete :
    {Sig Pk : Type 0} (id : Bytes) (ts : ℕ) (items : List (BatchCommitRootSubmission Sig Pk))
    (e e' : EncodedBlobStore)
    → ((t : ℕ) → lookup t e'.batches ≡ (if ts == t then none else lookup t e.batches))
    → is_listed id (or_empty (lookup ts e.batches)) ≡ false
    → is_held id items e' ≡ is_held id items e
is_held-delete id ts [] e e' h out = refl
is_held-delete id ts (item ∷ items) e e' h out =
    ground (arith, h item.ts, is_held-delete id ts items e e' h out, nat_eq.decides ts item.ts)

module _ {Sig Pk : Type 0} where
  drop_signed_lem :
      (ts : ℕ) (ms : List BlobMetadata) (b b' : Batcher Sig Pk)
      → drop_signed ts ms b ≡ ok b'
      → NoneJoins b b'
        × (b'.encoded_blobstore.batches ≡ b.encoded_blobstore.batches)
        × ((id : Bytes)
            → is_asked id (map get_blob_key ms) ≡ false
            → lookup id b'.encoded_blobstore.batching ≡ lookup id b.encoded_blobstore.batching)
  unfolding drop_signed
  drop_signed_lem ts [] b b' h = (
    (λ id free. ground arith, λ key free. ground arith, ground arith, ground arith),
    ground arith,
    λ id other. ground arith,
  )
  drop_signed_lem ts (m ∷ ms) b b' h = elim (Bool-cases (has_failed m b.queue)) [
    | inr kept ↦
        let (joins, batches, same) = drop_signed_lem ts ms b b' (ground arith) in
        (joins, batches, λ id other. same id (ground arith))
    | inl gone ↦ elim (Result-cases (delete_encoding_result (get_blob_key m) b.encoded_blobstore)) [
      | inr (x, fails) ↦ absurd (ground arith)
      | inl (e, fine) ↦
          let b1 = record b {
            queue = remove_blob m b.queue;
            encoded_blobstore = e;
            slice_signer = remove_signed_blob ts b.slice_signer;
          } in
          let (joins, batches, same) = drop_signed_lem ts ms b1 b' (ground arith) in
          let dropped = λ (id : Bytes).
            delete_encoding_result-batching (get_blob_key m) b.encoded_blobstore e id fine in
          (
            NoneJoins-then b b1 b'
                (
                  λ id free.
                      delete_encoding_result-free (get_blob_key m) b.encoded_blobstore e id fine
                        free,
                  λ key free. (remove_signed_blob-free ts key b.slice_signer).1 free,
                  (remove_signed_blob-free ts 0 b.slice_signer).0,
                  refl,
                )
                joins,
            batches ∙ (dropped []).1,
            λ id other. same id (ground arith) ∙ (dropped id).0 (ground arith),
          )
    ]
  ]

  -- One batch of the loop.
  fail_items_step :
      (max_retries : ℕ) (item : BatchCommitRootSubmission Sig Pk)
      (items : List (BatchCommitRootSubmission Sig Pk)) (b b' : Batcher Sig Pk)
      → fail_items max_retries (item ∷ items) b ≡ ok b'
      → (q : MemoryDb) × (b1 : Batcher Sig Pk) × (drop_signed item.ts item.batch.blob_metadata
            (record b { queue = q })
          ≡ ok b1)
        × (fail_items max_retries items (record b1 {
          encoded_blobstore = delete_batching_status item.ts b1.encoded_blobstore;
        })
            ≡ ok b')
  unfolding fail_items
  fail_items_step max_retries item items b b' h =
      elim (Result-cases (handle_failure item.batch.blob_metadata max_retries b.queue)) [
        | inr (x, fails) ↦ absurd (ground arith)
        | inl (q, fine) ↦
            elim (Result-cases
              (drop_signed item.ts item.batch.blob_metadata (record b { queue = q }))) [
                | inr (x, fails) ↦ absurd (ground arith)
                | inl (b1, well) ↦ (q, b1, well, ground arith)
              ]
      ]

  -- The results of the batches are released: none of the batches is left, every blob that one of
  -- them lists is in no batch, and a blob that is neither listed nor of a batch is in the batch it
  -- was in.
  abbrev pub AreReleased :
      List (BatchCommitRootSubmission Sig Pk) → EncodedBlobStore → EncodedBlobStore → Type 0
  AreReleased items e e' =
      All (λ item. lookup item.ts e'.batches ≡ none) items
      × ((id : Bytes) → is_held id items e ≡ true → lookup id e'.batching ≡ none)
      × ((id : Bytes)
          → is_held id items e ≡ false
          → is_of id items ≡ false
          → lookup id e'.batching ≡ lookup id e.batching)

  pub fail_items-AreReleased :
      (max_retries : ℕ) (items : List (BatchCommitRootSubmission Sig Pk)) (b b' : Batcher Sig Pk)
      → fail_items max_retries items b ≡ ok b'
      → NoneJoins b b'
        × AreReleased items b.encoded_blobstore b'.encoded_blobstore
        × ((t : ℕ)
            → lookup t b.encoded_blobstore.batches ≡ none
            → lookup t b'.encoded_blobstore.batches ≡ none)
  unfolding fail_items
  fail_items-AreReleased max_retries [] b b' h = (
    (λ id free. ground arith, λ key free. ground arith, ground arith, ground arith),
    (tt, λ id held. absurd (ground arith), λ id unheld other. ground arith),
    λ t gone. ground arith,
  )
  fail_items-AreReleased max_retries (item ∷ items) b b' h =
      let (q, b1, dropped, more) = fail_items_step max_retries item items b b' h in
      let e2 = delete_batching_status item.ts b1.encoded_blobstore in
      let b2 = record b1 { encoded_blobstore = e2 } in
      let (joins, batches, same) =
        drop_signed_lem item.ts item.batch.blob_metadata (record b { queue = q }) b1 dropped in
      let (later, (gone, freed, kept), stays) =
        fail_items-AreReleased max_retries items b2 b' more in
      let left : (t : ℕ)
          → lookup t e2.batches
            ≡ (if item.ts == t then none else lookup t b.encoded_blobstore.batches) =
        λ t.
          (delete_batching_status_lem item.ts t [] b1.encoded_blobstore).1
          ∙ ap (λ m. if item.ts == t then none else lookup t m) batches in
      let here = λ (id : Bytes).
        (delete_batching_status_lem item.ts item.ts id b1.encoded_blobstore).0
        ∙ ap
            (λ m.
              if is_listed id (or_empty (lookup item.ts m))
              then none
              else lookup id b1.encoded_blobstore.batching)
            batches in
      let held_later =
        λ (id : Bytes). is_held-delete id item.ts items b.encoded_blobstore e2 left in
      (
        NoneJoins-then b b2 b'
            (λ id free. ground (arith, here id, joins.0 id free), joins.1, joins.2, joins.3) later,
        (
          (stays item.ts (ground (arith, left item.ts, nat_eq.decides item.ts item.ts)), gone),
          λ id held.
              elim (Bool-cases
                (is_listed id (or_empty (lookup item.ts b.encoded_blobstore.batches)))) [
                  | inl listed ↦ later.0 id (ground (arith, here id))
                  | inr out ↦ freed id (held_later id out ∙ ground arith)
                ],
          λ id unheld other.
              kept id (held_later id (ground arith) ∙ ground arith) (ground arith)
              ∙ ground (arith, here id, same id),
        ),
        λ t none_there. stays t (ground (arith, left t)),
      )
