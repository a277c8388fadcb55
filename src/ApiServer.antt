-- ===== src/ApiServer.antt =====
-- disperser/apiserver/server.go: the three calls of the disperser, over the in-memory blob store and
-- the key-value store, and its own rate limiter. The client's address comes from the connection; the
-- codec of a record and the retriever are parameters.
pub mod Rate
pub mod Lifecycle
use g_da_client.Common.{
  ℕ, ◌-◌, ◌/◌, Bool, true, false, ◌&&◌, ◌||◌, not, Option, none, some, List, [], ◌∷◌, Bytes,
  bytes_eq, Map, Result, ok, err, lookup, insert, length, ltb, nat_beq, str_beq, if◌then◌else◌,
}
use g_da_client.Core.{Blob}
use g_da_client.Core.Encoding.{max_blob_size}
use g_da_client.Disperser.Status.{
  Error, blob_too_large, blob_empty, empty_request_id, request_ratelimited, nil_dereference,
  PbStatus, BlobStatus, get_response_status,
}
use g_da_client.Disperser.BlobKey.{BlobKey, to_string, parse_blob_key}
use g_da_client.Disperser.Metadata.{BlobMetadata, ConfirmationInfo, get_blob_key, is_confirmed}
use g_da_client.Disperser.Hashes.{BlobRetrieveMetadata}
use g_da_client.MemoryDb.{MemoryDb, store_blob}
use g_da_client.MemoryDb.Queries.{get_blob_metadata}
use g_da_client.KvStore.{Db, get_metadata, get_blob}

-- `TinyRateLimiter`: the time of the last request, in nanoseconds; `none` is the zero time, which is
-- longer ago than any interval.
pub record TinyRateLimiter : Type 0 where
  pub max_requests : ℕ
  pub last_request : Option ℕ

-- `time.Minute / MaxRequests`
unfoldable pub interval : ℕ → ℕ
interval max_requests = 60_000_000_000 / max_requests

-- `Allow` at the time `now`
unfoldable pub allow : ℕ → TinyRateLimiter → Bool × TinyRateLimiter
allow now limiter = elim limiter.last_request [
  | none ↦ (true, record limiter { last_request = some now })
  | some last ↦
      if ltb (now - last) (interval limiter.max_requests)
      then (false, limiter)
      else (true, record limiter { last_request = some now })
]

pub record ClientRateLimiterManager : Type 0 where
  pub clients : Map Bytes TinyRateLimiter
  pub max_requests : ℕ

-- `GetRateLimiter`; the limiter is shared with the map.
unfoldable pub get_rate_limiter : Bytes → ClientRateLimiterManager → TinyRateLimiter
get_rate_limiter client m = elim (lookup client m.clients) [
  | none ↦ record { max_requests = m.max_requests; last_request = none }
  | some limiter ↦ limiter
]

-- `GetRateLimiter(client).Allow()`
unfoldable pub allow_client : Bytes → ℕ → ClientRateLimiterManager → Bool × ClientRateLimiterManager
allow_client client now m =
    let (allowed, limiter) = allow now (get_rate_limiter client m) in
    (allowed, record m { clients = insert client limiter m.clients })

-- The parts of `DispersalServer` that its calls read and change.
pub record DispersalServer (S : Type 0) : Type 0 where
  pub blob_store : MemoryDb
  pub kv_store : S
  pub write_rate_limiter_manager : ClientRateLimiterManager
  pub read_rate_limiter_manager : ClientRateLimiterManager

-- `NewDispersalServer`
abbrev pub new_dispersal_server : {S : Type 0} → MemoryDb → S → DispersalServer S
new_dispersal_server blob_store kv_store = record {
  blob_store = blob_store;
  kv_store = kv_store;
  write_rate_limiter_manager = record { clients = []; max_requests = 3 };
  read_rate_limiter_manager = record { clients = []; max_requests = 20 };
}

-- `getBlobFromRequest`: the header keeps its zero value.
unfoldable pub get_blob_from_request : Bytes → Blob
get_blob_from_request content = record {
  request_header = record { security_params = []; account_id = [] };
  content = content;
}

-- The `StoreBlob` of `DisperseBlob`, and its reply.
unfoldable pub store_request :
    {S : Type 0}
    → (Bytes → Bytes)
    → Bytes
    → ℕ
    → DispersalServer S
    → DispersalServer S × Result Error (PbStatus × Bytes)
store_request sha256 content requested_at server =
    let (q, key, failure) =
      store_blob sha256 (get_blob_from_request content) requested_at server.blob_store in
    (
      record server { blob_store = q },
      elim failure [ some x ↦ err x | none ↦ ok (PbStatus.processing, to_string key) ],
    )

-- `DisperseBlob`; `origin` is what `GetClientAddress` returns, `now` is the time for the limiter, and
-- `requested_at` that of the request.
unfoldable pub disperse_blob :
    {S : Type 0}
    → (Bytes → Bytes)
    → Result Error Bytes
    → ℕ
    → ℕ
    → Bytes
    → DispersalServer S
    → DispersalServer S × Result Error (PbStatus × Bytes)
disperse_blob sha256 origin now requested_at content server =
    if ltb max_blob_size (length content)
    then (server, err blob_too_large)
    else if nat_beq (length content) 0
    then (server, err blob_empty)
    else elim origin [
      | err x ↦ (server, err x)
      | ok client ↦
          let (allowed, m) = allow_client client now server.write_rate_limiter_manager in
          let server' = record server { write_rate_limiter_manager = m } in
          if not allowed
          then (server', err request_ratelimited)
          else store_request sha256 content requested_at server'
    ]

abbrev zero_info : ConfirmationInfo
zero_info = record {
  batch_header_hash = [];
  blob_index = 0;
  blob_count = 0;
  signatory_record_hash = [];
  reference_block_number = 0;
  batch_root = [];
  blob_inclusion_proof = [];
  commitment_root = [];
  data_root = [];
  epoch = 0;
  quorum_id = 0;
  blob_length = 0;
  batch_id = 0;
  submission_txn_hash = [];
  confirmation_txn_hash = [];
  confirmation_block_number = 0;
  fee = [];
  quorum_results = [];
  blob_quorum_infos = [];
}

abbrev zero_metadata : BlobMetadata
zero_metadata = record {
  blob_hash = [];
  metadata_hash = [];
  blob_status = BlobStatus.processing;
  expiry = 0;
  num_retries = 0;
  request_metadata = none;
  confirmation_info = none;
}

-- The metadata that `GetBlobStatus` makes up from what the key-value store has.
unfoldable pub metadata_of : Option BlobRetrieveMetadata → BlobMetadata
metadata_of none = zero_metadata
metadata_of (some r) = record zero_metadata {
  blob_status = BlobStatus.finalized;
  confirmation_info =
      some (record zero_info { data_root = r.data_root; epoch = r.epoch; quorum_id = r.quorum_id });
}

-- The end of `GetBlobStatus`: the header of the reply is that of a confirmed blob only.
unfoldable pub status_reply : BlobMetadata → Result Error (PbStatus × Option BlobRetrieveMetadata)
status_reply m = elim (is_confirmed m) [
  | err x ↦ err x
  | ok false ↦ ok (get_response_status m.blob_status, none)
  | ok true ↦ elim m.confirmation_info [
    | none ↦ err nil_dereference
    | some info ↦ ok (
      get_response_status m.blob_status,
      some (record { data_root = info.data_root; epoch = info.epoch; quorum_id = info.quorum_id }),
    )
  ]
]

module _ {S : Type 0} (db : Db S) (deserialize : Bytes → Result Error BlobRetrieveMetadata) where
  -- `getMetadataFromKv`
  unfoldable pub get_metadata_from_kv : Bytes → S → Result Error (Option BlobRetrieveMetadata)
  get_metadata_from_kv key kv = elim (get_metadata db key kv) [
    | err x ↦ err x
    | ok [] ↦ ok none
    | ok (c ∷ cs) ↦ elim (deserialize (c ∷ cs)) [ err x ↦ err x | ok r ↦ ok (some r) ]
  ]

  -- The look into the key-value store; its errors are only logged.
  unfoldable pub from_kv : Bytes → S → BlobMetadata
  from_kv request_id kv = elim (get_metadata_from_kv request_id kv) [
    | err _ ↦ metadata_of none
    | ok found ↦ metadata_of found
  ]

  -- `GetBlobStatus`; `as_key` is `metadataHashAsBlobKey`.
  unfoldable pub get_blob_status :
      Bool → Bytes → DispersalServer S → Result Error (PbStatus × Option BlobRetrieveMetadata)
  get_blob_status as_key request_id server =
      if nat_beq (length request_id) 0
      then err empty_request_id
      else elim (parse_blob_key request_id) [
        | err x ↦ err x
        | ok key ↦ elim (get_blob_metadata key server.blob_store) [
          | err x ↦ if not as_key then err x else status_reply (from_kv request_id server.kv_store)
          | ok m ↦
              if not (str_beq (to_string (get_blob_key m)) request_id) && as_key
              then status_reply (from_kv request_id server.kv_store)
              else status_reply m
        ]
      ]

  -- `RetrieveBlob`; `retrieve` is the retriever's answer.
  unfoldable pub retrieve_blob :
      (BlobRetrieveMetadata → Result Error Bytes)
      → (BlobRetrieveMetadata → Result Error Bytes)
      → Result Error Bytes
      → ℕ
      → BlobRetrieveMetadata
      → DispersalServer S
      → DispersalServer S × Result Error Bytes
  retrieve_blob serialize retrieve origin now request server = elim origin [
    | err x ↦ (server, err x)
    | ok client ↦
        let (allowed, m) = allow_client client now server.read_rate_limiter_manager in
        let server' = record server { read_rate_limiter_manager = m } in
        if not allowed then (server', err request_ratelimited) else (
          server',
          elim (serialize request) [
            | err _ ↦ retrieve request
            | ok key ↦ elim (get_blob db key server.kv_store) [
              | err _ ↦ retrieve request
              | ok content ↦ ok content
            ]
          ],
        )
  ]
