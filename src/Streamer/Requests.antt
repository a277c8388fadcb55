-- ===== src/Streamer/Requests.antt =====
-- What `RequestEncoding` (disperser/batcher/encoding_streamer.go) submits.
use g_da_client.Common.{
  ℕ, zero, suc, ◌+◌, ◌-◌, ◌≤◌, true, false, List, [], ◌∷◌, Bytes, bytes_eq, Map, ok, insert, delete,
  lookup-insert, lookup-insert_self, length-take, subst, length, take, All, ◌≡◌, ◌≢◌, refl, arith,
  Result-cases, Bool-cases, inl, inr,
}
use g_da_client.Core.{Blob}
use g_da_client.Disperser.BlobKey.{BlobKey, key_eq}
use g_da_client.Disperser.Metadata.{BlobMetadata, get_blob_key}
use g_da_client.MemoryDb.{MemoryDb}
use g_da_client.MemoryDb.Queries.{get_blobs_by_metadata}
use g_da_client.EncodedStore.{
  EncodedBlobStore, get_request_id, has_encoding_requested, put_encoding_request,
  get_encoding_requesting_size,
}
use g_da_client.Streamer.{
  Job, keep_new, request_encoding_for_blob, request_all, request_chosen, request_encoding,
}

length-delete : {V : Type 0} (id : Bytes) (m : Map Bytes V) → length (delete id m) ≤ length m
unfolding delete
length-delete id [] = omega arith
length-delete id ((k, v) ∷ m) = ground (arith, length-delete id m)

-- Each request adds at most one to those that are outstanding.
request_all-size :
    (ms : List BlobMetadata) (blobs : Map BlobKey Blob) (e : EncodedBlobStore)
    → get_encoding_requesting_size (request_all ms blobs e).1
      ≤ get_encoding_requesting_size e + length ms
unfolding request_all request_encoding_for_blob put_encoding_request get_encoding_requesting_size
    insert
request_all-size [] blobs e = omega arith
request_all-size (m ∷ ms) blobs e =
    let id = get_request_id (get_blob_key m) in
    omega (
      arith,
      request_all-size ms blobs (put_encoding_request (get_blob_key m) e),
      length-delete id e.requested,
    )

length-request_all :
    (ms : List BlobMetadata) (blobs : Map BlobKey Blob) (e : EncodedBlobStore)
    → length (request_all ms blobs e).0 ≡ length ms
unfolding request_all request_encoding_for_blob
length-request_all [] blobs e = refl
length-request_all (m ∷ ms) blobs e =
    omega (arith, length-request_all ms blobs (put_encoding_request (get_blob_key m) e))

-- A request that was made stays made.
request_all-keeps :
    (key : BlobKey) (ms : List BlobMetadata) (blobs : Map BlobKey Blob) (e : EncodedBlobStore)
    → has_encoding_requested key e ≡ true
    → has_encoding_requested key (request_all ms blobs e).1 ≡ true
unfolding request_all request_encoding_for_blob put_encoding_request has_encoding_requested
request_all-keeps key [] blobs e h = h
request_all-keeps key (m ∷ ms) blobs e h =
    request_all-keeps key ms blobs (put_encoding_request (get_blob_key m) e) (
      ground (
        arith,
        lookup-insert (get_request_id (get_blob_key m)) (get_request_id key) tt e.requested,
      ))

has-put_encoding_request :
    (key : BlobKey) (e : EncodedBlobStore)
    → has_encoding_requested key (put_encoding_request key e) ≡ true
unfolding put_encoding_request has_encoding_requested
has-put_encoding_request key e =
    ground (arith, lookup-insert_self (get_request_id key) tt e.requested)

request_all-requested :
    (ms : List BlobMetadata) (blobs : Map BlobKey Blob) (e : EncodedBlobStore)
    → let out = request_all ms blobs e in
      All (λ j. has_encoding_requested (get_blob_key j.0) out.1 ≡ true) out.0
unfolding request_all request_encoding_for_blob
request_all-requested [] blobs e = tt
request_all-requested (m ∷ ms) blobs e =
    let e1 = put_encoding_request (get_blob_key m) e in
    (
      request_all-keeps (get_blob_key m) ms blobs e1 (has-put_encoding_request (get_blob_key m) e),
      request_all-requested ms blobs e1,
    )

request_all-All :
    (P : BlobMetadata → Type 0) (ms : List BlobMetadata) (blobs : Map BlobKey Blob)
    (e : EncodedBlobStore)
    → All P ms
    → All (λ j. P j.0) (request_all ms blobs e).0
unfolding request_all request_encoding_for_blob
request_all-All P [] blobs e h = tt
request_all-All P (m ∷ ms) blobs e h =
    (h.0, request_all-All P ms blobs (put_encoding_request (get_blob_key m) e) h.1)

take-All :
    (P : BlobMetadata → Type 0) (n : ℕ) (ms : List BlobMetadata) → All P ms → All P (take n ms)
take-All P zero ms h = tt
take-All P (suc n) [] h = tt
take-All P (suc n) (m ∷ ms) h = (h.0, take-All P n ms h.1)

keep_new-All :
    (ms : List BlobMetadata) (e : EncodedBlobStore)
    → All (λ m. has_encoding_requested (get_blob_key m) e ≡ false) (keep_new ms e)
unfolding keep_new
keep_new-All [] e = tt
keep_new-All (m ∷ ms) e = elim (Bool-cases (has_encoding_requested (get_blob_key m) e)) [
  | inl old ↦ rw (old, keep_new) (keep_new-All ms e)
  | inr new ↦ rw (new, keep_new) (new, keep_new-All ms e)
]

-- What a call has submitted and recorded.
abbrev pub Requested : ℕ → ℕ → EncodedBlobStore → List Job → EncodedBlobStore → Type 0
Requested limit waiting e jobs e' =
    All (λ j. has_encoding_requested (get_blob_key j.0) e ≡ false) jobs
    × All (λ j. has_encoding_requested (get_blob_key j.0) e' ≡ true) jobs
    × (jobs ≢ [] → waiting + get_encoding_requesting_size e' ≤ limit)
    × (jobs ≡ [] → e' ≡ e)

request_chosen_lem :
    (ms : List BlobMetadata) (limit waiting : ℕ) (q : MemoryDb) (e e' : EncodedBlobStore)
    (jobs : List Job)
    → All (λ m. has_encoding_requested (get_blob_key m) e ≡ false) ms
    → length ms ≤ limit - waiting - get_encoding_requesting_size e
    → request_chosen ms q e ≡ ok (jobs, e')
    → Requested limit waiting e jobs e'
unfolding request_chosen
request_chosen_lem [] limit waiting q e e' jobs new room h = ground arith
request_chosen_lem (m ∷ ms) limit waiting q e e' jobs new room h =
    elim (Result-cases (get_blobs_by_metadata (m ∷ ms) q)) [
      | inr (x, fails) ↦ absurd (ground arith)
      | inl (blobs, fine) ↦
          let out : request_all (m ∷ ms) blobs e ≡ (jobs, e') = ground arith in
          subst (λ o. Requested limit waiting e o.0 o.1) out
            (
              request_all-All _ (m ∷ ms) blobs e new,
              request_all-requested (m ∷ ms) blobs e,
              λ some_jobs. omega (arith, request_all-size (m ∷ ms) blobs e),
              λ no_jobs. absurd (ground (arith, length-request_all (m ∷ ms) blobs e)),
            )
    ]

-- A call that returns has submitted only blobs that were neither requested nor encoded, has
-- recorded each of them, and keeps the requests that are outstanding, with those that wait for a
-- worker, within the limit of the queue; with nothing submitted, nothing is recorded.
pub request_encoding_lem :
    (limit waiting : ℕ) (processing : List BlobMetadata) (q : MemoryDb) (e e' : EncodedBlobStore)
    (jobs : List Job)
    → request_encoding limit waiting processing q e ≡ ok (jobs, e')
    → Requested limit waiting e jobs e'
unfolding request_encoding
request_encoding_lem limit waiting processing q e e' jobs h =
    let room = limit - waiting - get_encoding_requesting_size e in
    let new = keep_new processing e in
    request_chosen_lem (take room new) limit waiting q e e' jobs
      (take-All _ room new (keep_new-All processing e)) (omega (arith, length-take room new)) h
