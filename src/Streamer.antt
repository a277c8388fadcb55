-- ===== src/Streamer.antt =====
-- disperser/batcher/encoding_streamer.go: blobs go to the encoder, results come back, and batches
-- are made of them. The blob store is the in-memory one; the encoder and the Merkle tree are
-- parameters. What the notifier does with its mutex and channel is in Notifier.antt.
pub mod Requests
pub mod Batches
pub mod Keys
pub mod Gathering
use g_da_client.Common.{
  ℕ, ◌-◌, Bool, true, false, ◌&&◌, not, Option, none, some, List, [], ◌∷◌, ◌++◌, Bytes, Map, Result,
  ok, err, ◌>>=◌, lookup, insert, length, take, leb, ltb, if◌then◌else◌, ◌≡◌,
}
use g_da_client.Core.{Blob, BlobCommitments, BlobHeader}
use g_da_client.Disperser.Status.{
  Error, encoding_failed, no_encoded_results, index_out_of_range, nil_dereference,
}
use g_da_client.Disperser.BlobKey.{BlobKey, key_eq}
use g_da_client.Disperser.Metadata.{BlobMetadata, get_blob_key}
use g_da_client.MemoryDb.{MemoryDb}
use g_da_client.MemoryDb.Queries.{get_blobs_by_metadata}
use g_da_client.EncodedStore.{
  EncodedBlobStore, EncodingResult, EncodingResultOrStatus, encoded, failed, has_encoding_requested,
  put_encoding_request, delete_encoding_request, put_encoding_result, get_encoding_requesting_size,
  get_encoded_result_size, get_new_encoding_results, get_chunks_size,
}
use g_da_client.SliceSigner.Pending.{Batch}

-- What is submitted to the worker pool: the metadata, and the blob to encode (`none` is nil).
abbrev pub Job : Type 0
Job = BlobMetadata × Option Blob

-- The filter of `RequestEncoding`.
unfoldable pub keep_new : List BlobMetadata → EncodedBlobStore → List BlobMetadata
keep_new [] e = []
keep_new (m ∷ ms) e =
    let rest = keep_new ms e in
    if not (has_encoding_requested (get_blob_key m) e) then m ∷ rest else rest

-- `RequestEncodingForBlob`: the job is submitted, and then the request is recorded.
unfoldable pub request_encoding_for_blob :
    BlobMetadata → Option Blob → EncodedBlobStore → Job × EncodedBlobStore
request_encoding_for_blob m blob e = ((m, blob), put_encoding_request (get_blob_key m) e)

unfoldable pub request_all :
    List BlobMetadata → Map BlobKey Blob → EncodedBlobStore → List Job × EncodedBlobStore
request_all [] blobs e = ([], e)
request_all (m ∷ ms) blobs e =
    let (job, e1) = request_encoding_for_blob m (lookup (get_blob_key m) blobs) e in
    let (jobs, e2) = request_all ms blobs e1 in (job ∷ jobs, e2)

-- The metadata that were chosen: without any, nothing is done.
unfoldable pub request_chosen :
    List BlobMetadata → MemoryDb → EncodedBlobStore → Result Error (List Job × EncodedBlobStore)
request_chosen [] q e = ok ([], e)
request_chosen (m ∷ ms) q e = elim (get_blobs_by_metadata (m ∷ ms) q) [
  | err x ↦ err x
  | ok blobs ↦ ok (request_all (m ∷ ms) blobs e)
]

-- `RequestEncoding`. `processing` is what `GetBlobMetadataByStatus` listed; a negative room for
-- requests is 0, as the source treats both alike.
unfoldable pub request_encoding :
    ℕ
    → ℕ
    → List BlobMetadata
    → MemoryDb
    → EncodedBlobStore
    → Result Error (List Job × EncodedBlobStore)
unfolding request_chosen
request_encoding limit waiting processing q e =
    let room = limit - waiting - get_encoding_requesting_size e in
    request_chosen (take room (keep_new processing e)) q e

-- The closure that a worker runs; `encode` is the encoder's answer.
unfoldable pub run_job :
    (Bytes → Option BlobCommitments) → Job → Result Error EncodingResultOrStatus
run_job encode (m, none) = err nil_dereference
run_job encode (m, some blob) = elim (encode blob.content) [
  | none ↦ ok (failed m)
  | some commits ↦ ok (
      encoded
        (record { blob_metadata = m; reference_block_number = 0; blob_commitments = commits }))
]

-- `ProcessEncodedBlobs`: the store afterwards, and an error or whether the size has reached the
-- threshold of the notifier.
unfoldable pub process_encoded_blobs :
    ℕ → EncodingResultOrStatus → EncodedBlobStore → EncodedBlobStore × Result Error Bool
process_encoded_blobs threshold (failed m) e =
    (delete_encoding_request (get_blob_key m) e, err encoding_failed)
process_encoded_blobs threshold (encoded r) e = elim (put_encoding_result r e) [
  | err x ↦ (e, err x)
  | ok e' ↦ (e', ok (ltb 0 threshold && leb threshold (get_encoded_result_size e').1))
]

-- The maps that `CreateBatch` fills, and the keys in the order of the results.
pub record Gathered : Type 0 where
  pub blob_keys : List BlobKey
  pub encoded_blob_by_key : Map BlobKey BlobCommitments
  pub blob_header_by_key : Map BlobKey BlobHeader
  pub metadata_by_key : Map BlobKey BlobMetadata

-- The first loop of `CreateBatch`; a result with no slice panics.
unfoldable pub gather : List EncodingResult → Gathered → Result Error Gathered
gather [] g = ok g
gather (r ∷ rs) g =
    let key = get_blob_key r.blob_metadata in
    elim (get_chunks_size r) [
      | err x ↦ err x
      | ok n ↦ gather rs (record {
        blob_keys = g.blob_keys ++ key ∷ [];
        encoded_blob_by_key = insert key r.blob_commitments g.encoded_blob_by_key;
        blob_header_by_key =
            insert key
              (record { commitment_root = r.blob_commitments.erasure_commitment; blob_length = n })
              g.blob_header_by_key;
        metadata_by_key = elim (lookup key g.encoded_blob_by_key) [
          | none ↦ insert key r.blob_metadata g.metadata_by_key
          | some _ ↦ g.metadata_by_key
        ];
      })
    ]

-- The second loop: the values of the keys, in order.
unfoldable pub values_of : {V : Type 0} → List BlobKey → Map BlobKey V → Result Error (List V)
values_of [] m = ok []
values_of (k ∷ ks) m = elim (lookup k m) [
  | none ↦ err nil_dereference
  | some v ↦ do vs ← values_of ks m; ok (v ∷ vs)
]

abbrev pub nothing_gathered : Gathered
nothing_gathered = record {
  blob_keys = [];
  encoded_blob_by_key = [];
  blob_header_by_key = [];
  metadata_by_key = [];
}

-- The slices have one place for each key of `metadataByKey`, so that a
-- key that comes twice panics.
batch_of : (List BlobHeader → Result Error Bytes) → Gathered → Result Error Batch
batch_of set_batch_root g =
    if ltb (length g.metadata_by_key) (length g.blob_keys) then err index_out_of_range else do
      blobs ← values_of g.blob_keys g.encoded_blob_by_key
      headers ← values_of g.blob_keys g.blob_header_by_key
      metadata ← values_of g.blob_keys g.metadata_by_key
      root ← set_batch_root headers
      ok (record {
        encoded_blobs = blobs;
        blob_metadata = metadata;
        blob_headers = headers;
        batch_root = root;
        tx_hash = [];
      })

-- The batch of some results.
unfoldable pub make_batch :
    (List BlobHeader → Result Error Bytes) → List EncodingResult → Result Error Batch
unfolding batch_of
make_batch set_batch_root results = do
  g ← gather results nothing_gathered
  batch_of set_batch_root g

-- `CreateBatch`, with the store afterwards.
unfoldable pub create_batch :
    (List BlobHeader → Result Error Bytes)
    → List (Bytes × EncodingResult)
    → ℕ
    → EncodedBlobStore
    → Result Error (EncodedBlobStore × Result Error Batch)
create_batch set_batch_root order ts e = do
  (results, e') ← get_new_encoding_results order ts e
  ok (elim results [
    | [] ↦ (e', err no_encoded_results)
    | r ∷ rs ↦ (e', make_batch set_batch_root (r ∷ rs))
  ])
