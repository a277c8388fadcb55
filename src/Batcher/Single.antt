-- ===== src/Batcher/Single.antt =====
-- A round of `HandleSingleBatch` (disperser/batcher/batcher.go) in its outcomes.
use g_da_client.Common.{
  ℕ, false, none, some, List, [], Bytes, bytes_eq, nat_eq, ok, lookup, ◌≡◌, refl, ap, subst, ◌∙◌,
  arith, Result-cases, inl, inr,
}
use g_da_client.Disperser.Status.{Error}
use g_da_client.Disperser.BlobKey.{BlobKey, key_eq}
use g_da_client.EncodedStore.{EncodedBlobStore, EncodingResult, delete_batching_status, or_empty}
use g_da_client.EncodedStore.Stages.{is_listed, delete_batching_status_lem}
use g_da_client.Failures.Entries.{is_asked}
use g_da_client.Streamer.{create_batch}
use g_da_client.Streamer.Keys.{OwnIds, IsOpened, create_batch-IsOpened}
use g_da_client.Batcher.{Batcher, Services, dispatch_batch, handle_single_batch, single_batch_round}
use g_da_client.Batcher.Dispatch.{dispatch_batch-failed}

-- The two stores list the same batches, with the same blobs.
abbrev pub SameBatches : EncodedBlobStore → EncodedBlobStore → Type 0
SameBatches e e' =
    ((id : Bytes) → lookup id e'.batching ≡ lookup id e.batching)
    × ((t : ℕ) → lookup t e'.batches ≡ lookup t e.batches)

released :
    (ts : ℕ) (keys : List BlobKey) (e e1 e2 : EncodedBlobStore)
    → lookup ts e.batches ≡ none
    → IsOpened ts keys e e1
    → e2.batches ≡ e1.batches
    → ((id : Bytes) → is_asked id keys ≡ false → lookup id e2.batching ≡ lookup id e1.batching)
    → SameBatches e (delete_batching_status ts e2)
released ts keys e e1 e2 fresh (joined, others) same kept = (
  λ id. ground (
    arith,
    (delete_batching_status_lem ts ts id e2).0,
    ap (λ m. is_listed id (or_empty (lookup ts m))) same,
    joined id,
    kept id,
  ),
  λ t. ground (
    arith,
    (delete_batching_status_lem ts t [] e2).1,
    ap (λ m. lookup t m) same,
    others t,
    nat_eq.decides ts t,
  ),
)

module _ {Sig Pk : Type 0} (services : Services Sig Pk) (max_retries : ℕ) where
  -- A round that ends with an error leaves no trace in the batches: every blob is in the batch it
  -- was in before, if any, no batch is listed that was not, and the signer is as it was; where each
  -- result stands under its own request, and the time of the round names no batch yet.
  pub single_batch_round-failed :
      (order : List (Bytes × EncodingResult)) (ts : ℕ) (b b' : Batcher Sig Pk) (x : Error)
      → OwnIds order
      → lookup ts b.encoded_blobstore.batches ≡ none
      → single_batch_round services max_retries order ts b ≡ ok (b', some x)
      → SameBatches b.encoded_blobstore b'.encoded_blobstore × (b'.slice_signer ≡ b.slice_signer)
  unfolding single_batch_round handle_single_batch
  single_batch_round-failed order ts b b' x own fresh h =
      elim (Result-cases (create_batch services.set_batch_root order ts b.encoded_blobstore)) [
        | inr (y, panics) ↦ absurd (ground arith)
        | inl ((e, made), fine) ↦
            let (keys, opened, mine) =
              create_batch-IsOpened services.set_batch_root order ts b.encoded_blobstore e made own
                fresh fine in
            let b1 = record b { encoded_blobstore = e } in
            elim (Result-cases made) [
              | inr (y, none_made) ↦
                  let is : record b { encoded_blobstore = delete_batching_status ts e } ≡ b' =
                    ground arith in
                  subst
                    (λ b'.
                      SameBatches b.encoded_blobstore b'.encoded_blobstore
                      × (b'.slice_signer ≡ b.slice_signer))
                    is
                    (
                      released ts keys b.encoded_blobstore e e fresh opened refl (λ id other. refl),
                      refl,
                    )
              | inl (batch, is_made) ↦
                  elim (Result-cases (dispatch_batch services max_retries batch ts b1)) [
                    | inr (y, panics) ↦ absurd (ground arith)
                    | inl ((b2, none), sent) ↦ absurd (ground arith)
                    | inl ((b2, some y), unsent) ↦
                        let (signer, batches, kept) =
                          dispatch_batch-failed services max_retries batch ts b1 b2 y unsent in
                        let is : record b2 {
                          encoded_blobstore = delete_batching_status ts b2.encoded_blobstore;
                        }
                            ≡ b' =
                          ground arith in
                        subst
                          (λ b'.
                            SameBatches b.encoded_blobstore b'.encoded_blobstore
                            × (b'.slice_signer ≡ b.slice_signer))
                          is
                          (
                            released ts keys b.encoded_blobstore e b2.encoded_blobstore fresh opened
                                batches
                                (λ id other.
                                  kept id (ap (is_asked id) (mine batch is_made) ∙ other)),
                            signer,
                          )
                  ]
            ]
      ]
