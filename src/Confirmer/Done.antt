-- ===== src/Confirmer/Done.antt =====
-- How a confirmed batch (disperser/batcher/confirmer.go) leaves the encoded results and the signer.
use g_da_client.Common.{
  ℕ, true, none, [], Bytes, bytes_eq, nat_eq, lookup, lookup-delete, ◌==◌, if◌then◌else◌, ◌≡◌, ap,
  ◌∙◌, arith, Option-cases, inl, inr,
}
use g_da_client.Disperser.BlobKey.{key_eq}
use g_da_client.MemoryDb.{MemoryDb}
use g_da_client.EncodedStore.{EncodedBlobStore, delete_batching_status, or_empty}
use g_da_client.EncodedStore.Stages.{is_listed, delete_batching_status_lem}
use g_da_client.SliceSigner.Pending.{remove_signed_blob, SliceSigner}
use g_da_client.Batcher.{Batcher}

lookup-remove_signed_blob :
    {Sig Pk : Type 0} (ts t : ℕ) (s : SliceSigner Sig Pk)
    → lookup t (remove_signed_blob ts s).pending_submissions
      ≡ (if ts == t then none else lookup t s.pending_submissions)
unfolding remove_signed_blob
lookup-remove_signed_blob ts t s = elim (Option-cases (lookup ts s.pending_submissions)) [
  | inl gone ↦ ground (arith, nat_eq.decides ts t)
  | inr (r, there) ↦ ground (arith, lookup-delete ts t s.pending_submissions)
]

-- The batch of `ts` is gone, and what it lists is in no batch; the other batches are as they were.
abbrev pub IsDone : {Sig Pk : Type 0} → ℕ → Batcher Sig Pk → Batcher Sig Pk → Type 0
IsDone ts b b' =
    ((id : Bytes)
      → is_listed id (or_empty (lookup ts b.encoded_blobstore.batches)) ≡ true
      → lookup id b'.encoded_blobstore.batching ≡ none)
    × ((t : ℕ)
        → lookup t b'.encoded_blobstore.batches
          ≡ (if ts == t then none else lookup t b.encoded_blobstore.batches))
    × ((t : ℕ)
        → lookup t b'.slice_signer.pending_submissions
          ≡ (if ts == t then none else lookup t b.slice_signer.pending_submissions))

pub delete_batching_status-IsDone :
    {Sig Pk : Type 0} (ts : ℕ) (q : MemoryDb) (e : EncodedBlobStore) (b : Batcher Sig Pk)
    → e.batches ≡ b.encoded_blobstore.batches
    → IsDone ts b (record b {
      queue = q;
      encoded_blobstore = delete_batching_status ts e;
      slice_signer = remove_signed_blob ts b.slice_signer;
    })
delete_batching_status-IsDone ts q e b same = (
  λ id listed. ground (
    arith,
    (delete_batching_status_lem ts ts id e).0,
    ap (λ m. is_listed id (or_empty (lookup ts m))) same,
  ),
  λ t.
      (delete_batching_status_lem ts t [] e).1
      ∙ ap (λ m. if ts == t then none else lookup t m) same,
  λ t. lookup-remove_signed_blob ts t b.slice_signer,
)
