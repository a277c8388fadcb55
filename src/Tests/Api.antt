-- ===== src/Tests/Api.antt =====
-- The API server on concrete inputs.
use g_da_client.Common.{
  true, none, some, List, [], ◌∷◌, ◌++◌, Bytes, bytes_eq, Result, ok, err, lookup, insert, delete,
  str_beq, le_bytes, be_bytes, add64, encode_to_string, format_uint, if◌then◌else◌, ◌≡◌, refl, ap,
  arith,
}
use g_da_client.Disperser.Status.{Error, blob_not_found, request_ratelimited, call_failed, PbStatus}
use g_da_client.Disperser.BlobKey.{BlobKey, key_beq, to_string, parse_blob_key}
use g_da_client.Disperser.Hashes.{BlobRetrieveMetadata, get_blob_hash, get_metadata_hash}
use g_da_client.MemoryDb.{new_blob_store, store_blob, blob_key_of, size_of}
use g_da_client.MemoryDb.Queries.{get_blob_metadata}
use g_da_client.KvStore.{
  encode_records, encode_blob_header_key, encode_batch_expiration_key, batch_entries,
  store_metadata_batch,
}
use g_da_client.ApiServer.{
  DispersalServer, new_dispersal_server, interval, allow, get_rate_limiter, allow_client,
  get_blob_from_request, store_request, disperse_blob, get_blob_status, retrieve_blob,
}
use g_da_client.ApiServer.Rate.{allowed_times, IsSpaced, allowed_times-IsSpaced}
use g_da_client.ApiServer.Lifecycle.{
  get_blob_status-disperse_blob, get_blob_status-store_metadata_batch,
}
use g_da_client.Tests.Kv.{State, db, laws, write}

program : Unit {0}
unfolding lookup insert delete str_beq key_beq to_string parse_blob_key le_bytes be_bytes add64
    encode_to_string get_blob_hash get_metadata_hash store_blob blob_key_of size_of
    get_blob_metadata encode_records encode_blob_header_key encode_batch_expiration_key
    batch_entries store_metadata_batch interval allow get_rate_limiter allow_client
    get_blob_from_request store_request disperse_blob format_uint
program = tt

-- Three requests a minute: the second one of the client comes too soon.
allowed_times-IsSpaced_example : IsSpaced (interval 3) none (
    allowed_times
      (1 ∷ [])
      ((1 ∷ [], 5) ∷ (2 ∷ [], 6) ∷ (1 ∷ [], 7) ∷ (1 ∷ [], 30_000_000_000) ∷ [])
      (record { clients = []; max_requests = 3 }))
unfolding interval
allowed_times-IsSpaced_example =
    allowed_times-IsSpaced (1 ∷ []) 3
      ((1 ∷ [], 5) ∷ (2 ∷ [], 6) ∷ (1 ∷ [], 7) ∷ (1 ∷ [], 30_000_000_000) ∷ []) (omega arith)

-- A digest and a codec, made up for the test.
abbrev digest : Bytes → Bytes
digest bs = 9 ∷ []

abbrev retrieval : BlobRetrieveMetadata
retrieval = record { data_root = 4 ∷ []; epoch = 2; quorum_id = 1 }

abbrev serialize : BlobRetrieveMetadata → Result Error Bytes
serialize r = ok (7 ∷ [])

abbrev deserialize : Bytes → Result Error BlobRetrieveMetadata
deserialize bs = ok retrieval

abbrev server : DispersalServer State
server = new_dispersal_server (new_blob_store 100_000_000_000) []

abbrev new_key : BlobKey
new_key = blob_key_of digest (get_blob_from_request (8 ∷ [])) 5

abbrev received : DispersalServer State × Result Error (PbStatus × Bytes)
received = disperse_blob digest (ok (1 ∷ [])) 3 5 (8 ∷ []) server

replies : received.1 ≡ ok (PbStatus.processing, to_string new_key)
unfolding program
replies = refl

get_blob_status-disperse_blob_example :
    get_blob_status db deserialize true (to_string new_key) received.0
    ≡ ok (PbStatus.processing, none)
unfolding lookup
get_blob_status-disperse_blob_example =
    get_blob_status-disperse_blob db deserialize digest (ok (1 ∷ [])) 3 5 (8 ∷ []) true server
      received.0 PbStatus.processing (to_string new_key) refl (ap (λ x. (received.0, x)) replies)

abbrev request_id : Bytes
request_id = 1 ∷ b'-' ∷ 2 ∷ []

abbrev key : BlobKey
key = record { blob_hash = 1 ∷ []; metadata_hash = 2 ∷ [] }

parsed : parse_blob_key request_id ≡ ok key
unfolding program
parsed = refl

absent : get_blob_metadata key server.blob_store ≡ err blob_not_found
unfolding program
absent = refl

-- The blob is the second one of its batch.
abbrev ids : List Bytes
ids = (3 ∷ []) ∷ request_id ∷ []

abbrev metadatas : List Bytes
metadatas = (8 ∷ []) ∷ (7 ∷ []) ∷ []

abbrev blobs : List Bytes
blobs = (6 ∷ []) ∷ (5 ∷ 5 ∷ []) ∷ []

abbrev entries : List (Bytes × Bytes)
entries =
    (encode_blob_header_key (3 ∷ []), 8 ∷ [])
    ∷ (8 ∷ [], 6 ∷ [])
    ∷ (encode_blob_header_key request_id, 7 ∷ [])
    ∷ (7 ∷ [], 5 ∷ 5 ∷ [])
    ∷ []

abbrev expiry : Bytes × Bytes
expiry = (encode_batch_expiration_key 160, encode_records ids)

abbrev written : List Bytes
written =
    encode_blob_header_key (3 ∷ [])
    ∷ (8 ∷ [])
    ∷ encode_blob_header_key request_id
    ∷ (7 ∷ [])
    ∷ encode_batch_expiration_key 160
    ∷ []

abbrev full : State
full = write (entries ++ expiry ∷ []) []

stores : store_metadata_batch db 60 100 ids metadatas blobs [] ≡ ok (written, full)
unfolding program
stores = refl

get_blob_status-store_metadata_batch_example :
    (get_blob_status db deserialize true request_id (record server { kv_store = full })
      ≡ ok (PbStatus.finalized, some retrieval))
    × ((retrieve_blob db deserialize serialize
          (λ r. err call_failed)
          (ok (1 ∷ []))
          3
          retrieval
          (record server { kv_store = full })).1
        ≡ (if (allow_client (1 ∷ []) 3 server.read_rate_limiter_manager).0
            then ok (5 ∷ 5 ∷ [])
            else err request_ratelimited))
unfolding program
get_blob_status-store_metadata_batch_example =
    get_blob_status-store_metadata_batch db deserialize laws serialize (λ r. err call_failed) 60 100
      request_id retrieval 7 [] (5 ∷ 5 ∷ []) 1 ids metadatas blobs entries written server full key
      blob_not_found (1 ∷ []) 3 refl refl parsed absent (omega arith) refl refl refl refl
      (refl, (refl, (refl, (refl, (refl, tt))))) stores
