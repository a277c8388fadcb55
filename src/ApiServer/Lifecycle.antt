-- ===== src/ApiServer/Lifecycle.antt =====
-- A blob's status and its bytes as a client sees them (disperser/apiserver/server.go): after it was
-- received, and after it went to the key-value store.
use g_da_client.Common.{
  ℕ, ◌+◌, ◌<◌, Bool, true, false, none, some, List, [], ◌∷◌, ◌++◌, Bytes, bytes_eq, Result, ok, err,
  Distinct, lookup, get_elem?, length, length-append, ltb, nat_beq, ==_refl, if◌then◌else◌, ◌≡◌,
  refl, ap, sym, ◌∙◌, arith, Bool-cases, Option-cases, Result-cases, inl, inr,
}
use g_da_client.Core.{Blob}
use g_da_client.Core.Encoding.{max_blob_size}
use g_da_client.Disperser.Status.{
  Error, request_ratelimited, PbStatus, get_response_status, status_beq,
}
use g_da_client.Disperser.BlobKey.{BlobKey, key_eq, to_string, parse_blob_key}
use g_da_client.Disperser.BlobKey.RoundTrip.{parse_blob_key_iff}
use g_da_client.Disperser.Metadata.{get_blob_key, is_confirmed}
use g_da_client.Disperser.Hashes.{
  BlobRetrieveMetadata, get_blob_hash, get_metadata_hash, encode_to_string-NoDash,
}
use g_da_client.MemoryDb.{MemoryDb, store_blob, blob_key_of, new_metadata}
use g_da_client.MemoryDb.Queries.{get_blob_metadata}
use g_da_client.MemoryDb.Contents.{store_blob_stores}
use g_da_client.KvStore.{
  Db, batch_entries, store_metadata_batch, encode_records, encode_batch_expiration_key,
}
use g_da_client.KvStore.Batches.{IsDb, AllServed-get_elem?, store_metadata_batch_lem}
use g_da_client.ApiServer.{
  DispersalServer, allow_client, get_blob_from_request, store_request, disperse_blob, metadata_of,
  status_reply, get_metadata_from_kv, from_kv, get_blob_status, retrieve_blob,
}

length-to_string : (key : BlobKey) → 0 < length (to_string key)
unfolding to_string
length-to_string key = omega (arith, length-append key.blob_hash (b'-' ∷ key.metadata_hash))

store_blob-key :
    (sha256 : Bytes → Bytes) (blob : Blob) (requested_at : ℕ) (q : MemoryDb)
    → (store_blob sha256 blob requested_at q).1 ≡ blob_key_of sha256 blob requested_at
unfolding store_blob
store_blob-key sha256 blob requested_at q = refl

status_reply-new :
    (key : BlobKey) (blob : Blob) (requested_at : ℕ)
    → status_reply (new_metadata key blob requested_at) ≡ ok (PbStatus.processing, none)
unfolding status_reply is_confirmed get_response_status status_beq
status_reply-new key blob requested_at = refl

status_reply-final :
    (r : BlobRetrieveMetadata)
    → status_reply (metadata_of (some r)) ≡ ok (PbStatus.finalized, some r)
unfolding status_reply metadata_of is_confirmed get_response_status status_beq
status_reply-final r = refl

module _ {S : Type 0} (db : Db S) (deserialize : Bytes → Result Error BlobRetrieveMetadata) where
  -- The key of a new blob is read back from its text.
  parse-blob_key_of :
      (sha256 : Bytes → Bytes) (blob : Blob) (requested_at : ℕ)
      → parse_blob_key (to_string (blob_key_of sha256 blob requested_at))
        ≡ ok (blob_key_of sha256 blob requested_at)
  unfolding blob_key_of get_blob_hash get_metadata_hash
  parse-blob_key_of sha256 blob requested_at =
      (parse_blob_key_iff _ (blob_key_of sha256 blob requested_at)).1
        (refl, encode_to_string-NoDash _, encode_to_string-NoDash _)

  status_of_new :
      (key : BlobKey) (blob : Blob) (requested_at : ℕ) (as_key : Bool) (server : DispersalServer S)
      → parse_blob_key (to_string key) ≡ ok key
      → lookup key server.blob_store.metadata ≡ some (new_metadata key blob requested_at)
      → get_blob_status db deserialize as_key (to_string key) server
        ≡ ok (PbStatus.processing, none)
  unfolding get_blob_status get_blob_metadata get_blob_key
  status_of_new key blob requested_at as_key server parsed here =
      let some_text : nat_beq (length (to_string key)) 0 ≡ false =
        ground (arith, length-to_string key) in
      ground (
        arith,
        parsed,
        here,
        ==_refl (to_string key),
        some_text,
        status_reply-new key blob requested_at,
      )

  status_of_stored :
      (sha256 : Bytes → Bytes) (requested_at : ℕ) (content : Bytes) (as_key : Bool)
      (server server' : DispersalServer S) (status : PbStatus) (request_id : Bytes)
      → lookup
          (blob_key_of sha256 (get_blob_from_request content) requested_at)
          server.blob_store.metadata
        ≡ none
      → store_request sha256 content requested_at server ≡ (server', ok (status, request_id))
      → get_blob_status db deserialize as_key request_id server' ≡ ok (status, none)
  unfolding store_request
  status_of_stored sha256 requested_at content as_key server server' status request_id fresh h =
      let blob = get_blob_from_request content in
      let key = blob_key_of sha256 blob requested_at in
      let stored = store_blob sha256 blob requested_at server.blob_store in
      elim (Option-cases stored.2) [
        | inr (x, fails) ↦ absurd (ground arith)
        | inl fine ↦
            let is : record server { blob_store = stored.0 } ≡ server' = ground arith in
            let said : PbStatus.processing ≡ status = ground arith in
            let text : to_string stored.1 ≡ request_id = ground arith in
            let same : stored.1 ≡ key = store_blob-key sha256 blob requested_at server.blob_store in
            let held : lookup key stored.0.metadata ≡ some (new_metadata key blob requested_at) =
              ground (
                arith,
                (store_blob_stores sha256 blob requested_at server.blob_store key [] fine).0,
                ==_refl key,
              ) in
            let server1 = record server { blob_store = stored.0 } in
            ap (get_blob_status db deserialize as_key request_id) (sym is)
            ∙ ap (λ t. get_blob_status db deserialize as_key t server1)
                (sym text ∙ ap to_string same)
            ∙ status_of_new key blob requested_at as_key server1
                (parse-blob_key_of sha256 blob requested_at) held
            ∙ ap (λ p. ok (p, none)) said
      ]

  -- A blob that was received, under a key that the blob store did not have, is in status PROCESSING
  -- for whoever asks with the request id of the reply.
  pub get_blob_status-disperse_blob :
      (sha256 : Bytes → Bytes) (origin : Result Error Bytes) (now requested_at : ℕ)
      (content : Bytes) (as_key : Bool) (server server' : DispersalServer S) (status : PbStatus)
      (request_id : Bytes)
      → lookup
          (blob_key_of sha256 (get_blob_from_request content) requested_at)
          server.blob_store.metadata
        ≡ none
      → disperse_blob sha256 origin now requested_at content server
        ≡ (server', ok (status, request_id))
      → get_blob_status db deserialize as_key request_id server' ≡ ok (status, none)
  unfolding disperse_blob store_request
  get_blob_status-disperse_blob sha256 origin now requested_at content as_key server server' status
        request_id fresh h =
      elim (Bool-cases (ltb max_blob_size (length content))) [
        | inl big ↦ absurd (ground arith)
        | inr fits ↦ elim (Bool-cases (nat_beq (length content) 0)) [
          | inl empty ↦ absurd (ground arith)
          | inr full ↦ elim (Result-cases origin) [
            | inr (x, unknown) ↦ absurd (ground arith)
            | inl (client, known) ↦
                let m = server.write_rate_limiter_manager in
                elim (Bool-cases (allow_client client now m).0) [
                  | inr refused ↦ absurd (ground arith)
                  | inl allowed ↦
                      status_of_stored sha256 requested_at content as_key
                        (record server {
                          write_rate_limiter_manager = (allow_client client now m).1;
                        })
                        server' status request_id fresh (ground arith)
                ]
          ]
        ]
      ]

  -- A blob that has gone to the key-value store, at any place of a batch that writes no key twice,
  -- and is no longer in the blob store: its status is FINALIZED, with the metadata of the record, where the records are used as keys; and a client
  -- that the limiter lets through retrieves its bytes by that metadata, without the retriever.
  pub get_blob_status-store_metadata_batch :
      (laws : IsDb db) (serialize retrieve : BlobRetrieveMetadata → Result Error Bytes)
      (time_to_expire now : ℕ) (request_id : Bytes) (r : BlobRetrieveMetadata) (c : ℕ)
      (cs content : Bytes) (i : ℕ) (keys metadatas blobs : List Bytes)
      (entries : List (Bytes × Bytes)) (written : List Bytes) (server : DispersalServer S) (kv : S)
      (key : BlobKey) (x : Error) (client : Bytes) (at_time : ℕ)
      → serialize r ≡ ok (c ∷ cs)
      → deserialize (c ∷ cs) ≡ ok r
      → parse_blob_key request_id ≡ ok key
      → get_blob_metadata key server.blob_store ≡ err x
      → 0 < length request_id
      → get_elem? keys i ≡ some request_id
      → get_elem? metadatas i ≡ some (c ∷ cs)
      → get_elem? blobs i ≡ some content
      → batch_entries keys metadatas blobs ≡ ok entries
      → Distinct (
          entries ++ (encode_batch_expiration_key (now + time_to_expire), encode_records keys) ∷ [])
      → store_metadata_batch db time_to_expire now keys metadatas blobs server.kv_store
        ≡ ok (written, kv)
      → (get_blob_status db deserialize true request_id (record server { kv_store = kv })
          ≡ ok (PbStatus.finalized, some r))
        × ((retrieve_blob db deserialize serialize retrieve
              (ok client)
              at_time
              r
              (record server { kv_store = kv })).1
            ≡ (if (allow_client client at_time server.read_rate_limiter_manager).0
                then ok content
                else err request_ratelimited))
  unfolding get_blob_status retrieve_blob from_kv get_metadata_from_kv
  get_blob_status-store_metadata_batch laws serialize retrieve time_to_expire now request_id r c cs
        content i keys metadatas blobs entries written server kv key x client at_time coded decoded
        parsed gone full own_key own_metadata own_blob made distinct h =
      let stored =
        store_metadata_batch_lem db laws time_to_expire now keys metadatas blobs entries written
          server.kv_store kv made distinct h in
      let served =
        AllServed-get_elem? db i keys metadatas blobs request_id (c ∷ cs) content kv own_key
          own_metadata own_blob stored.0 in
      let some_text : nat_beq (length request_id) 0 ≡ false = ground arith in
      (
        ground (arith, served.0, status_reply-final r, some_text),
        elim (Bool-cases (allow_client client at_time server.read_rate_limiter_manager).0) [
          | inl allowed ↦ ground (arith, served.1)
          | inr refused ↦ ground arith
        ],
      )
