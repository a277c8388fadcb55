-- ===== src/Tests/Stream.antt =====
-- The encoding streamer on concrete inputs.
use g_da_client.Common.{
  ◌≡◌, refl, some, List, [], ◌∷◌, Bytes, ok, Result, lookup, insert, delete, str_beq,
}
use g_da_client.Core.{Blob, BlobHeader}
use g_da_client.Disperser.Status.{Error}
use g_da_client.Disperser.BlobKey.{BlobKey, to_string, key_beq}
use g_da_client.Disperser.Metadata.{BlobMetadata, get_blob_key}
use g_da_client.MemoryDb.{MemoryDb, new_blob_store, new_metadata}
use g_da_client.MemoryDb.Queries.{get_blobs_by_metadata, get_blobs_from}
use g_da_client.EncodedStore.{
  EncodedBlobStore, EncodingResult, new_encoded_blob_store, has_encoding_requested, get_request_id,
  put_encoding_request, get_encoding_requesting_size, get_chunks_size,
}
use g_da_client.Streamer.{
  keep_new, request_encoding_for_blob, request_all, request_chosen, request_encoding, make_batch,
}
use g_da_client.Streamer.Requests.{Requested, request_encoding_lem}
use g_da_client.Streamer.Batches.{header_of, make_batch_lem}

program : Unit {0}
unfolding lookup insert delete str_beq key_beq to_string get_blob_key get_blobs_by_metadata
    get_blobs_from has_encoding_requested put_encoding_request get_encoding_requesting_size keep_new
    request_encoding_for_blob request_all request_chosen request_encoding get_chunks_size
program = tt

abbrev key : BlobKey
key = record { blob_hash = 1 ∷ []; metadata_hash = 2 ∷ [] }

abbrev blob : Blob
blob = record {
  request_header = record { security_params = []; account_id = [] };
  content = 8 ∷ [];
}

abbrev meta : BlobMetadata
meta = new_metadata key blob 5

abbrev db : MemoryDb
db = record (new_blob_store 100) { blobs = (2 ∷ [], record { content = 8 ∷ [] }) ∷ [] }

abbrev after : EncodedBlobStore
after = record new_encoded_blob_store { requested = (get_request_id key, tt) ∷ [] }

-- The blob that is listed twice is submitted twice, and recorded once.
requests_both :
    request_encoding 5 1 (meta ∷ meta ∷ []) db new_encoded_blob_store
    ≡ ok ((meta, some blob) ∷ (meta, some blob) ∷ [], after)
unfolding program
requests_both = refl

request_encoding_lem_example :
    Requested 5 1 new_encoded_blob_store ((meta, some blob) ∷ (meta, some blob) ∷ []) after
request_encoding_lem_example =
    request_encoding_lem 5 1 (meta ∷ meta ∷ []) db new_encoded_blob_store after
      ((meta, some blob) ∷ (meta, some blob) ∷ []) requests_both

abbrev encoding : EncodingResult
encoding = record {
  blob_metadata = meta;
  reference_block_number = 0;
  blob_commitments = record {
    erasure_commitment = 4 ∷ [];
    storage_root = 3 ∷ [];
    encoded_data = [];
    encoded_slice = (1 ∷ 2 ∷ []) ∷ (3 ∷ 4 ∷ []) ∷ [];
  };
}

encoding_sized : get_chunks_size encoding ≡ ok 4
unfolding program
encoding_sized = refl

-- The root of some headers, made up for the test.
abbrev root_of : List BlobHeader → Result Error Bytes
root_of headers = ok (6 ∷ [])

make_batch_lem_example :
    make_batch root_of (encoding ∷ [])
    ≡ ok (record {
      encoded_blobs = encoding.blob_commitments ∷ [];
      blob_metadata = meta ∷ [];
      blob_headers = header_of encoding ∷ [];
      batch_root = 6 ∷ [];
      tx_hash = [];
    })
make_batch_lem_example = make_batch_lem root_of (encoding ∷ []) ((4, encoding_sized), refl, tt)
