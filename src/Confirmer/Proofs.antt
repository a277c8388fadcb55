-- ===== src/Confirmer/Proofs.antt =====
-- Which proof a confirmed blob gets: from `HandleSingleBatch` (disperser/batcher/batcher.go), which
-- makes the proofs, to the loop of `ConfirmBatch` (disperser/batcher/confirmer.go).
use g_da_client.Common.{ℕ, ◌+◌, ◌%◌, ◌^◌, List, ◌++◌, [], ◌∷◌, Bytes, Result, ok, ◌≡◌}
use g_da_client.Core.{BlobHeader, BlobCommitments}
use g_da_client.Disperser.Status.{Error}
use g_da_client.Disperser.Metadata.{BlobMetadata, ConfirmationInfo}
use g_da_client.Confirmer.{Confirmation}
use g_da_client.Confirmer.Entries.{BlobEntries}

-- The hashes of a proof, one after the other.
abbrev pub joined : List Bytes → Bytes
joined [] = []
joined (hash ∷ hashes) = hash ++ joined hashes

-- What a confirmed blob is to be found and checked by: its place, as 32 bits, and its proof, what
-- its header and its commitment say, and what is the same for all blobs of the batch.
abbrev pub IsConfirmation :
    Confirmation → ℕ → List Bytes → BlobHeader → BlobCommitments → ConfirmationInfo → Type 0
IsConfirmation c index proof header blob info =
    (info.blob_index ≡ index % 2 ^ 32)
    × (info.blob_inclusion_proof ≡ joined proof)
    × (info.commitment_root ≡ header.commitment_root)
    × (info.blob_length ≡ header.blob_length % 2 ^ 32)
    × (info.data_root ≡ blob.storage_root)
    × (info.batch_header_hash ≡ c.header_hash)
    × (info.batch_root ≡ c.batch_root)
    × (info.epoch ≡ c.epoch)
    × (info.quorum_id ≡ c.quorum_id)
    × (info.batch_id ≡ c.batch_id % 2 ^ 32)
    × (info.submission_txn_hash ≡ c.submission_txn_hash)
    × (info.confirmation_txn_hash ≡ c.tx_hash)
    × (info.confirmation_block_number ≡ c.block_number)

-- Each blob, in order, with its index and a proof of the header at that index.
abbrev pub AreProved :
    (BlobHeader → Result Error (List Bytes))
    → Confirmation
    → ℕ
    → List BlobMetadata
    → List BlobHeader
    → List BlobCommitments
    → BlobEntries
    → Type 0
AreProved prove c index [] headers blobs entries = entries ≡ []
AreProved prove c index (m ∷ ms) [] blobs entries = ⊥
AreProved prove c index (m ∷ ms) (header ∷ headers) [] entries = ⊥
AreProved prove c index (m ∷ ms) (header ∷ headers) (blob ∷ blobs) [] = ⊥
AreProved prove c index (m ∷ ms) (header ∷ headers) (blob ∷ blobs) ((n, info) ∷ entries) =
    (n ≡ m)
    × ((proof : List Bytes) × (prove header ≡ ok proof)
        × IsConfirmation c index proof header blob info)
    × AreProved prove c (index + 1) ms headers blobs entries
