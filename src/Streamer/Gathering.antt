-- ===== src/Streamer/Gathering.antt =====
-- Which keys `CreateBatch` (disperser/batcher/encoding_streamer.go) gathers.
use mathlib.Core.List.{append_assoc, append-nil}
use g_da_client.Common.{
  ℕ, Option, none, some, List, [], ◌∷◌, ◌++◌, Bytes, bytes_eq, nat_eq, Map, Result, ok, lookup,
  lookup-insert, insert, map, ◌≡◌, ◌∙◌, arith, Option-cases, Result-cases, inl, inr,
}
use g_da_client.Core.{BlobCommitments, BlobHeader}
use g_da_client.Disperser.Status.{Error}
use g_da_client.Disperser.BlobKey.{BlobKey, key_eq, key_beq_iff}
use g_da_client.Disperser.Metadata.{BlobMetadata, get_blob_key}
use g_da_client.SliceSigner.Pending.{Batch}
use g_da_client.EncodedStore.{EncodingResult, get_chunks_size}
use g_da_client.Streamer.{Gathered, nothing_gathered, gather, values_of, batch_of, make_batch}
use g_da_client.Streamer.Batches.{key_of}

abbrev IsKeyed : Map BlobKey BlobMetadata → Type 0
IsKeyed m = (k : BlobKey) (v : BlobMetadata) → lookup k m ≡ some v → get_blob_key v ≡ k

IsKeyed-insert :
    (v : BlobMetadata) (m : Map BlobKey BlobMetadata)
    → IsKeyed m
    → IsKeyed (insert (get_blob_key v) v m)
IsKeyed-insert v m h k w found =
    ground (arith, lookup-insert (get_blob_key v) k v m, key_beq_iff (get_blob_key v) k, h k w)

-- The step of the loop of CreateBatch.
abbrev pub gathered : EncodingResult → ℕ → Gathered → Gathered
gathered r n g = record {
  blob_keys = g.blob_keys ++ key_of r ∷ [];
  encoded_blob_by_key = insert (key_of r) r.blob_commitments g.encoded_blob_by_key;
  blob_header_by_key =
      insert (key_of r)
        (record { commitment_root = r.blob_commitments.erasure_commitment; blob_length = n })
        g.blob_header_by_key;
  metadata_by_key = elim (lookup (key_of r) g.encoded_blob_by_key) [
    | none ↦ insert (key_of r) r.blob_metadata g.metadata_by_key
    | some _ ↦ g.metadata_by_key
  ];
}

IsKeyed-gathered :
    (old : Option BlobCommitments) (r : EncodingResult) (m : Map BlobKey BlobMetadata)
    → IsKeyed m
    → IsKeyed (elim old [ none ↦ insert (key_of r) r.blob_metadata m | some _ ↦ m ])
IsKeyed-gathered none r m h = IsKeyed-insert r.blob_metadata m h
IsKeyed-gathered (some c) r m h = h

no_metadata-IsKeyed : IsKeyed []
unfolding lookup
no_metadata-IsKeyed k v found = absurd (ground arith)

gather-IsKeyed :
    (rs : List EncodingResult) (g g' : Gathered)
    → IsKeyed g.metadata_by_key
    → gather rs g ≡ ok g'
    → IsKeyed g'.metadata_by_key × (g'.blob_keys ≡ g.blob_keys ++ map key_of rs)
unfolding gather
gather-IsKeyed [] g g' h out =
    (λ k v found. h k v (ground arith), ground (arith, append-nil g.blob_keys))
gather-IsKeyed (r ∷ rs) g g' h out = elim (Result-cases (get_chunks_size r)) [
  | inr (x, fails) ↦ absurd (ground arith)
  | inl (n, sized) ↦
      let (keyed, listed) =
        gather-IsKeyed rs (gathered r n g) g'
          (IsKeyed-gathered (lookup (key_of r) g.encoded_blob_by_key) r g.metadata_by_key h)
          (ground arith) in
      (keyed, listed ∙ append_assoc g.blob_keys (key_of r ∷ []) (map key_of rs))
]

values_of-IsKeyed :
    (ks : List BlobKey) (m : Map BlobKey BlobMetadata) (vs : List BlobMetadata)
    → IsKeyed m
    → values_of ks m ≡ ok vs
    → map get_blob_key vs ≡ ks
unfolding values_of
values_of-IsKeyed [] m vs h out = ground arith
values_of-IsKeyed (k ∷ ks) m vs h out = elim (Option-cases (lookup k m)) [
  | inl gone ↦ absurd (ground arith)
  | inr (v, here) ↦ elim (Result-cases (values_of ks m)) [
    | inr (x, fails) ↦ absurd (ground arith)
    | inl (rest, fine) ↦ ground (arith, values_of-IsKeyed ks m rest h, h k v)
  ]
]

-- The blobs of a batch that is made are those of the results, in order, also where a blob has two.
pub make_batch-keys :
    (set_batch_root : List BlobHeader → Result Error Bytes) (rs : List EncodingResult)
    (batch : Batch)
    → make_batch set_batch_root rs ≡ ok batch
    → map get_blob_key batch.blob_metadata ≡ map key_of rs
unfolding make_batch batch_of
make_batch-keys set_batch_root rs batch h = elim (Result-cases (gather rs nothing_gathered)) [
  | inr (x, fails) ↦ absurd (ground arith)
  | inl (g, fine) ↦
      let (keyed, listed) = gather-IsKeyed rs nothing_gathered g no_metadata-IsKeyed fine in
      values_of-IsKeyed g.blob_keys g.metadata_by_key batch.blob_metadata keyed (ground arith)
      ∙ listed
]
