-- ===== src/SliceSigner/Aggregate.antt =====
-- `aggregateSignature` of disperser/batcher/slice_signer.go, up to what it submits.
use g_da_client.Common.{
  ℕ, ◌+◌, ◌*◌, ◌/◌, Bool, true, false, Option, none, some, List, [], ◌∷◌, Bytes, Result, ok, err,
  ◌>>=◌, length, take, ltb, if◌then◌else◌,
}
use g_da_client.Core.{BlobCommitments}
use g_da_client.Disperser.Status.{Error, index_out_of_range}
use g_da_client.SliceSigner.Bits.{Bitmap, make_bitmap, set_bit}

-- What the curve library offers: `(*Signature).Verify` and the two `Add`.
pub record Curve (Sig Pk : Type 0) : Type 0 where
  pub verify : Sig → Pk → Bytes → Bool
  pub add_signature : Sig → Sig → Sig
  pub add_key : Pk → Pk → Pk

-- `SignerState` with the key of its `SignerInfo`.
pub record SignerState (Pk : Type 0) : Type 0 where
  pub pk_g2 : Pk
  pub slice_indexes : List ℕ

-- What the loop keeps for one blob: an entry of `aggSigs` and `aggPubKeys` (nil together), of
-- `totalSliceCount`, `signedSliceCount` and `quorumBitmap`.
pub record Tally (Sig Pk : Type 0) : Type 0 where
  pub aggregate : Option (Sig × Pk)
  pub total_slice_count : ℕ
  pub signed_slice_count : ℕ
  pub quorum_bitmap : Bitmap

-- One of the new blobs of the batch, with its message and its tally.
pub record Signing (Sig Pk : Type 0) : Type 0 where
  pub data_root : Bytes
  pub erasure_commitment : Bytes
  pub message : Bytes
  pub slices : ℕ
  pub tally : Tally Sig Pk

-- `core.CommitRootSubmission`
pub record CommitRootSubmission (Sig Pk : Type 0) : Type 0 where
  pub data_root : Bytes
  pub erasure_commitment : Bytes
  pub epoch : ℕ
  pub quorum_id : ℕ
  pub quorum_bitmap : Bitmap
  pub aggregate : Option (Sig × Pk)

abbrev pub no_votes : {Sig Pk : Type 0} → Tally Sig Pk
no_votes = record {
  aggregate = none;
  total_slice_count = 0;
  signed_slice_count = 0;
  quorum_bitmap = [];
}

-- The first loop, for one blob; `get_hash` packs and digests the message. A root of less than 32
-- bytes panics.
unfoldable pub start_signing :
    {Sig Pk : Type 0}
    → (Bytes → ℕ → ℕ → Bytes → Result Error Bytes)
    → ℕ
    → ℕ
    → BlobCommitments
    → Result Error (Signing Sig Pk)
start_signing get_hash epoch quorum_id blob =
    let root = take 32 blob.storage_root in
    if ltb (length blob.storage_root) 32 then err index_out_of_range else do
      message ← get_hash root epoch quorum_id blob.erasure_commitment
      ok (record {
        data_root = root;
        erasure_commitment = blob.erasure_commitment;
        message = message;
        slices = length blob.encoded_slice;
        tally = no_votes;
      })

unfoldable pub set_bits : Bitmap → List ℕ → Result Error Bitmap
set_bits m [] = ok m
set_bits m (i ∷ is) = elim (set_bit m i) [ err e ↦ err e | ok m' ↦ set_bits m' is ]

module _ {Sig Pk : Type 0} (curve : Curve Sig Pk) where
  -- The two branches on `aggSigs[blobIdx] == nil`. Where the number of slices is no multiple of 8,
  -- the source raises `sliceSize` and not `bitmapLen`, so the bitmap has `slices / 8` bytes.
  unfoldable pub add_to_aggregate : Pk → Sig → ℕ → Tally Sig Pk → Tally Sig Pk
  add_to_aggregate key sig slices t = elim t.aggregate [
    | none ↦ record {
      aggregate = some (sig, key);
      total_slice_count = slices;
      signed_slice_count = 0;
      quorum_bitmap = make_bitmap (slices / 8);
    }
    | some (sum, keys) ↦ record t {
      aggregate = some (curve.add_signature sum sig, curve.add_key keys key);
    }
  ]

  -- A signature that has been verified.
  unfoldable pub count_signature :
      SignerState Pk → Sig → ℕ → Tally Sig Pk → Result Error (Tally Sig Pk)
  unfolding add_to_aggregate
  count_signature signer sig slices t =
      let joined = add_to_aggregate signer.pk_g2 sig slices t in
      do
        bitmap ← set_bits joined.quorum_bitmap signer.slice_indexes
        ok (record joined {
          signed_slice_count = joined.signed_slice_count + length signer.slice_indexes;
          quorum_bitmap = bitmap;
        })

  -- The body of the loop over the signatures of a reply: one that is not valid is passed over.
  unfoldable pub vote : SignerState Pk → Sig → Signing Sig Pk → Result Error (Signing Sig Pk)
  vote signer sig b = elim (curve.verify sig signer.pk_g2 b.message) [
    | false ↦ ok b
    | true ↦ do t ← count_signature signer sig b.slices b.tally; ok (record b { tally = t })
  ]

  -- The loop over the signatures of a reply: more of them than blobs panics.
  unfoldable pub vote_all :
      SignerState Pk → List Sig → List (Signing Sig Pk) → Result Error (List (Signing Sig Pk))
  vote_all signer [] bs = ok bs
  vote_all signer (sig ∷ sigs) [] = err index_out_of_range
  vote_all signer (sig ∷ sigs) (b ∷ bs) = do
    b' ← vote signer sig b
    bs' ← vote_all signer sigs bs
    ok (b' ∷ bs')

  -- The loop over the replies, in the order in which they arrive. `none` is an error of the signer.
  unfoldable pub collect :
      List (SignerState Pk × Option (List Sig))
      → List (Signing Sig Pk)
      → Result Error (List (Signing Sig Pk))
  collect [] bs = ok bs
  collect ((signer, none) ∷ replies) bs = collect replies bs
  collect ((signer, some sigs) ∷ replies) bs = elim (vote_all signer sigs bs) [
    | err e ↦ err e
    | ok bs' ↦ collect replies bs'
  ]

-- `math.Ceil(float64(n)*2/3)`, which is exact for any number of slices that fits in memory.
abbrev pub two_thirds : ℕ → ℕ
two_thirds n = (2 * n + 2) / 3

abbrev pub submission : {Sig Pk : Type 0} → ℕ → ℕ → Signing Sig Pk → CommitRootSubmission Sig Pk
submission epoch quorum_id b = record {
  data_root = b.data_root;
  erasure_commitment = b.erasure_commitment;
  epoch = epoch;
  quorum_id = quorum_id;
  quorum_bitmap = b.tally.quorum_bitmap;
  aggregate = b.tally.aggregate;
}

-- The last loop: a submission for every blob, or none at all if one blob lacks signatures.
unfoldable pub root_submissions :
    {Sig Pk : Type 0} → ℕ → ℕ → List (Signing Sig Pk) → Option (List (CommitRootSubmission Sig Pk))
root_submissions epoch quorum_id [] = some []
root_submissions epoch quorum_id (b ∷ bs) =
    let rest = root_submissions epoch quorum_id bs in
    if ltb b.tally.signed_slice_count (two_thirds b.tally.total_slice_count)
    then none
    else elim rest [ none ↦ none | some others ↦ some (submission epoch quorum_id b ∷ others) ]
