-- ===== src/Batcher/Signed/Submitted.antt =====
-- `HandleSignedBatch` (disperser/batcher/batcher.go) in its outcomes.
use g_da_client.Common.{ℕ, true, none, bytes_eq, nat_eq, lookup, ◌≡◌}
use g_da_client.Disperser.BlobKey.{BlobKey, key_eq}
use g_da_client.SliceSigner.Pending.{SliceSigner, or_empty}
use g_da_client.SliceSigner.Release.{is_listed}
use g_da_client.Batcher.{Batcher}

module _ {Sig Pk : Type 0} where
  -- The submissions that the first signer lists under `signed_ts` are in no batch at the second, where
  -- there is nothing under `signed_ts` any more.
  abbrev pub AreFree : ℕ → SliceSigner Sig Pk → SliceSigner Sig Pk → Type 0
  AreFree signed_ts s s' =
      (lookup signed_ts s'.signed_batches ≡ none)
      × ((key : ℕ)
          → is_listed key (or_empty (lookup signed_ts s.signed_batches)) ≡ true
          → lookup key s'.signed_batching ≡ none)
