-- ===== src/Batcher/Signing/NewBlobs.antt =====
-- Which blobs of a batch are to be signed (`waitBatchTxFinalized` of
-- disperser/batcher/slice_signer.go): those that the cache of blob keys does not have.
use g_da_client.Common.{
  ℕ, zero, suc, ◌+◌, ◌≤◌, none, some, List, [], ◌∷◌, Bytes, bytes_eq, lookup, In, get_elem?, ◌≡◌,
  ◌⊎◌, refl, sym, subst, arith, Option-cases, inl, inr,
}
use g_da_client.Core.{BlobCommitments}
use g_da_client.Disperser.Hashes.{signer_blob_hash}
use g_da_client.Disperser.KeyCache.{BlobKeyCache, contains}
use g_da_client.Batcher.Signing.{new_blobs_from}

-- The places in order, none twice.
abbrev pub AreRising : ℕ → List ℕ → Type 0
AreRising least [] = Unit
AreRising least (k ∷ ks) = (least ≤ k) × AreRising (suc k) ks

-- The cache has no key for the blob in the epoch and the quorum.
abbrev pub IsUncached : (Bytes → Bytes) → BlobKeyCache → ℕ → ℕ → BlobCommitments → Type 0
IsUncached keccak cache epoch quorum_id blob =
    lookup (signer_blob_hash keccak blob.storage_root epoch quorum_id) cache.keys ≡ none

abbrev pub IsNewAt : (Bytes → Bytes) → BlobKeyCache → ℕ → ℕ → List BlobCommitments → ℕ → Type 0
IsNewAt keccak cache epoch quorum_id blobs k =
    (blob : BlobCommitments) × (get_elem? blobs k ≡ some blob)
    × IsUncached keccak cache epoch quorum_id blob

-- The places are those of the blobs that the cache does not have: of all of these, and of no other.
abbrev pub AreNew : (Bytes → Bytes) → BlobKeyCache → ℕ → ℕ → List BlobCommitments → List ℕ → Type 0
AreNew keccak cache epoch quorum_id blobs places =
    AreRising 0 places
    × ((k : ℕ) → In k places → IsNewAt keccak cache epoch quorum_id blobs k)
    × ((k : ℕ) (blob : BlobCommitments)
        → get_elem? blobs k ≡ some blob
        → IsUncached keccak cache epoch quorum_id blob
        → In k places)

module _ (keccak : Bytes → Bytes) (cache : BlobKeyCache) (epoch quorum_id : ℕ) where
  abbrev places_from : ℕ → List BlobCommitments → List ℕ
  places_from index blobs = new_blobs_from keccak cache epoch quorum_id index blobs

  -- One blob more: its place is in front, or it is cached.
  places_from-cons :
      (index : ℕ) (blob : BlobCommitments) (blobs : List BlobCommitments)
      → (IsUncached keccak cache epoch quorum_id blob
          × (places_from index (blob ∷ blobs) ≡ index ∷ places_from (index + 1) blobs))
        ⊎ ((¬ IsUncached keccak cache epoch quorum_id blob)
            × (places_from index (blob ∷ blobs) ≡ places_from (index + 1) blobs))
  unfolding new_blobs_from contains
  places_from-cons index blob blobs =
      elim (Option-cases
        (lookup (signer_blob_hash keccak blob.storage_root epoch quorum_id) cache.keys)) [
          | inl new ↦ inl (new, ground arith)
          | inr (x, cached) ↦ inr (λ new. absurd (ground arith), ground arith)
        ]

  places_from-AreRising :
      (index least : ℕ) (blobs : List BlobCommitments)
      → least ≤ index
      → AreRising least (places_from index blobs)
  unfolding new_blobs_from
  places_from-AreRising index least [] h = tt
  places_from-AreRising index least (blob ∷ blobs) h = elim (places_from-cons index blob blobs) [
    | inl (new, is) ↦
        subst (AreRising least) (sym is)
          (h, places_from-AreRising (index + 1) (suc index) blobs (omega arith))
    | inr (cached, is) ↦
        subst (AreRising least) (sym is)
          (places_from-AreRising (index + 1) least blobs (omega arith))
  ]

  places_from-found :
      (index k : ℕ) (blobs : List BlobCommitments)
      → In k (places_from index blobs)
      → (i : ℕ) × (k ≡ index + i) × IsNewAt keccak cache epoch quorum_id blobs i
  unfolding new_blobs_from
  places_from-found index k [] i = elim i [ ]
  places_from-found index k (blob ∷ blobs) i =
      let later = places_from-found (index + 1) k blobs in
      elim (places_from-cons index blob blobs) [
        | inl (new, is) ↦ elim (subst (In k) is i) [
          | inl e ↦ (0, omega arith, (blob, refl, new))
          | inr j ↦ let found = later j in (suc found.0, omega (arith, found.1), found.2)
        ]
        | inr (cached, is) ↦
            let found = later (subst (In k) is i) in (suc found.0, omega (arith, found.1), found.2)
      ]

  In-places_from :
      (index i : ℕ) (blob : BlobCommitments) (blobs : List BlobCommitments)
      → get_elem? blobs i ≡ some blob
      → IsUncached keccak cache epoch quorum_id blob
      → In (index + i) (places_from index blobs)
  In-places_from index i blob [] there new = absurd (ground arith)
  In-places_from index zero blob (first ∷ blobs) there new =
      let same : first ≡ blob = ground arith in
      elim (places_from-cons index first blobs) [
        | inl (also, is) ↦ subst (In (index + 0)) (sym is) (inl (omega arith))
        | inr (cached, is) ↦
            absurd (cached (subst (IsUncached keccak cache epoch quorum_id) (sym same) new))
      ]
  In-places_from index (suc i) blob (first ∷ blobs) there new =
      let place : index + 1 + i ≡ index + suc i = omega arith in
      let later =
        subst (λ k. In k (places_from (index + 1) blobs)) place
          (In-places_from (index + 1) i blob blobs there new) in
      elim (places_from-cons index first blobs) [
        | inl (also, is) ↦ subst (In (index + suc i)) (sym is) (inr later)
        | inr (cached, is) ↦ subst (In (index + suc i)) (sym is) later
      ]

  pub new_blobs_from-AreNew :
      (blobs : List BlobCommitments)
      → AreNew keccak cache epoch quorum_id blobs (places_from 0 blobs)
  new_blobs_from-AreNew blobs = (
    places_from-AreRising 0 0 blobs (omega arith),
    λ k i.
        let found = places_from-found 0 k blobs i in
        let same : found.0 ≡ k = omega (arith, found.1) in
        subst (IsNewAt keccak cache epoch quorum_id blobs) same found.2,
    λ k blob there new.
        let same : 0 + k ≡ k = omega arith in
        subst (λ n. In n (places_from 0 blobs)) same (In-places_from 0 k blob blobs there new),
  )
