-- ===== src/EncodedStore.antt =====
-- disperser/batcher/encoded_blob_store.go: which blobs are being encoded, the results, and which
-- results belong to a batch. Each method runs under the store's mutex.
pub mod Loop
pub mod Fetch
pub mod Accounting
pub mod Stages
pub mod Calls
use g_da_client.Common.{
  ℕ, ◌+◌, ◌*◌, Bool, true, false, ◌||◌, Option, none, some, List, [], ◌∷◌, ◌++◌, Bytes, bytes_eq,
  nat_eq, Map, Result, ok, err, ◌>>=◌, lookup, insert, delete, length, add64, sub64, ltb,
  if◌then◌else◌, ◌≡◌, arith,
}
use g_da_client.Core.{BlobCommitments}
use g_da_client.Disperser.Status.{Error, index_out_of_range, not_requested, not_encoded}
use g_da_client.Disperser.BlobKey.{BlobKey, to_string}
use g_da_client.Disperser.Metadata.{BlobMetadata, get_blob_key}

abbrev pub max_slice_size : ℕ
max_slice_size = 1_000_000_000

pub record EncodingResult : Type 0 where
  pub blob_metadata : BlobMetadata
  pub reference_block_number : ℕ
  pub blob_commitments : BlobCommitments

-- `EncodingResultOrStatus`: a result, or the metadata of a blob that was not encoded.
pub data EncodingResultOrStatus : Type 0 where
  encoded : EncodingResult → EncodingResultOrStatus
  failed : BlobMetadata → EncodingResultOrStatus

-- `encodedBlobStore`; a Go set is a map to the empty struct.
pub record EncodedBlobStore : Type 0 where
  pub requested : Map Bytes (Unit {0})
  pub encoded : Map Bytes EncodingResult
  pub batching : Map Bytes ℕ
  pub batches : Map ℕ (List Bytes)
  pub encoded_result_size : ℕ

abbrev pub new_encoded_blob_store : EncodedBlobStore
new_encoded_blob_store = record {
  requested = [];
  encoded = [];
  batching = [];
  batches = [];
  encoded_result_size = 0;
}

abbrev pub has : {V : Type 0} → Option V → Bool
has none = false
has (some _) = true

-- `getRequestID`
abbrev pub get_request_id : BlobKey → Bytes
get_request_id = to_string

abbrev pub id_of : EncodingResult → Bytes
id_of r = get_request_id (get_blob_key r.blob_metadata)

slices_size : List Bytes → Result Error ℕ
slices_size [] = err index_out_of_range
slices_size (s ∷ ss) = ok (length (s ∷ ss) * length s)

-- `getChunksSize`: the first slice is read for its length, which panics where there is none.
unfoldable pub get_chunks_size : EncodingResult → Result Error ℕ
unfolding slices_size
get_chunks_size r = slices_size r.blob_commitments.encoded_slice

-- The size of a result's chunks, 0 where they cannot be counted.
unfoldable pub chunks : EncodingResult → ℕ
chunks r = elim (get_chunks_size r) [ ok n ↦ n | err e ↦ 0 ]

pub chunks-ok : (r : EncodingResult) (n : ℕ) → get_chunks_size r ≡ ok n → chunks r ≡ n
unfolding chunks
chunks-ok r n h = ground arith

unfoldable pub put_encoding_request : BlobKey → EncodedBlobStore → EncodedBlobStore
put_encoding_request key e = record e { requested = insert (get_request_id key) tt e.requested }

unfoldable pub has_encoding_requested : BlobKey → EncodedBlobStore → Bool
has_encoding_requested key e =
    has (lookup (get_request_id key) e.requested) || has (lookup (get_request_id key) e.encoded)

unfoldable pub delete_encoding_request : BlobKey → EncodedBlobStore → EncodedBlobStore
delete_encoding_request key e = elim (lookup (get_request_id key) e.requested) [
  | none ↦ e
  | some _ ↦ record e { requested = delete (get_request_id key) e.requested }
]

-- The size is counted for a new result only.
counted_size : EncodingResult → EncodedBlobStore → Result Error ℕ
counted_size r e = elim (lookup (id_of r) e.encoded) [
  | some _ ↦ ok e.encoded_result_size
  | none ↦ do n ← get_chunks_size r; ok (add64 e.encoded_result_size n)
]

unfoldable pub put_encoding_result :
    EncodingResult → EncodedBlobStore → Result Error EncodedBlobStore
unfolding counted_size
put_encoding_result r e = elim (lookup (id_of r) e.requested) [
  | none ↦ err not_requested
  | some _ ↦ do
    size ← counted_size r e
    ok (record e {
      encoded_result_size = size;
      encoded = insert (id_of r) r e.encoded;
      requested = delete (id_of r) e.requested;
    })
]

-- `GetEncodingResult`; its quorum argument is not used.
unfoldable pub get_encoding_result : BlobKey → EncodedBlobStore → Result Error EncodingResult
get_encoding_result key e = elim (lookup (get_request_id key) e.encoded) [
  | none ↦ err not_encoded
  | some r ↦ ok r
]

-- The batch that lists the request is not told.
unfoldable pub delete_encoding_result : BlobKey → EncodedBlobStore → Result Error EncodedBlobStore
delete_encoding_result key e = elim (lookup (get_request_id key) e.encoded) [
  | none ↦ ok e
  | some r ↦ do
    n ← get_chunks_size r
    ok (record e {
      encoded = delete (get_request_id key) e.encoded;
      encoded_result_size = sub64 e.encoded_result_size n;
      batching = delete (get_request_id key) e.batching;
    })
]

abbrev pub or_empty : Option (List Bytes) → List Bytes
or_empty none = []
or_empty (some ids) = ids

-- The request joins the batch of `ts`.
abbrev pub join_batch : Bytes → ℕ → EncodedBlobStore → EncodedBlobStore
join_batch id ts e = record e {
  batching = insert id ts e.batching;
  batches = insert ts (or_empty (lookup ts e.batches) ++ id ∷ []) e.batches;
}

-- The loop of `GetNewEncodingResults` over the entries that are still to be visited. A result that
-- would pass the limit ends the loop.
unfoldable pub fetch_from :
    List (Bytes × EncodingResult)
    → ℕ
    → ℕ
    → EncodedBlobStore
    → Result Error (List EncodingResult × EncodedBlobStore)
fetch_from [] ts size e = ok ([], e)
fetch_from ((id, r) ∷ rest) ts size e = elim (lookup id e.batching) [
  | some _ ↦ fetch_from rest ts size e
  | none ↦ elim (get_chunks_size r) [
    | err x ↦ err x
    | ok n ↦
        let others = fetch_from rest ts (size + n) (join_batch id ts e) in
        elim (ltb max_slice_size (size + n)) [
          | true ↦ ok ([], e)
          | false ↦ do (rs, e') ← others; ok (r ∷ rs, e')
        ]
  ]
]

-- `GetNewEncodingResults`; a batch that is there is put back as it is. `order` is the order in which `range` visits the entries of `encoded`.
unfoldable pub get_new_encoding_results :
    List (Bytes × EncodingResult)
    → ℕ
    → EncodedBlobStore
    → Result Error (List EncodingResult × EncodedBlobStore)
get_new_encoding_results order ts e =
    let opened = record e { batches = insert ts (or_empty (lookup ts e.batches)) e.batches } in
    fetch_from order ts 0 opened

unfoldable pub delete_all : List Bytes → Map Bytes ℕ → Map Bytes ℕ
delete_all [] batching = batching
delete_all (id ∷ ids) batching = delete_all ids (delete id batching)

unfoldable pub delete_batching_status : ℕ → EncodedBlobStore → EncodedBlobStore
delete_batching_status ts e = record e {
  batching = delete_all (or_empty (lookup ts e.batches)) e.batching;
  batches = delete ts e.batches;
}

unfoldable pub get_encoded_result_size : EncodedBlobStore → ℕ × ℕ
get_encoded_result_size e = (length e.encoded, e.encoded_result_size)

unfoldable pub get_encoding_requesting_size : EncodedBlobStore → ℕ
get_encoding_requesting_size e = length e.requested
