-- ===== src/MemoryDb/Listing.antt =====
-- The queries answer with exactly the entries that they ask for.
use g_da_client.Common.{
  Bool, true, Option, none, some, List, [], ◌∷◌, Bytes, bytes_eq, Map, ok, lookup, insert,
  lookup-insert, ◌==◌, ==_refl, str_beq_iff, if◌then◌else◌, ◌≡◌, refl, ◌↔◌, inl, inr, In, All,
  arith, Option-cases, Result-cases,
}
use g_da_client.Core.{Blob}
use g_da_client.Disperser.Status.{BlobStatus, status_beq, status_beq_iff}
use g_da_client.Disperser.BlobKey.{BlobKey, key_eq, key_beq_iff}
use g_da_client.Disperser.Metadata.{BlobMetadata, RequestMetadata, ConfirmationInfo, get_blob_key}
use g_da_client.MemoryDb.{MemoryDb, BlobHolder}
use g_da_client.MemoryDb.Queries.{
  add_blob, get_blobs_from, get_blobs_by_metadata, select, get_blob_metadata_by_status,
  get_all_blob_metadata_by_batch, in_batch,
}

-- The values of the metadata map.
abbrev pub values : Map BlobKey BlobMetadata → List BlobMetadata
values [] = []
values ((k, m) ∷ l) = m ∷ values l

select-In :
    (p : BlobMetadata → Bool) (m : BlobMetadata) (l : Map BlobKey BlobMetadata)
    → In m (select p l) ↔ (In m (values l) × (p m ≡ true))
unfolding select
select-In p m [] = (λ i. elim i [ ], λ h. elim h.0 [ ])
select-In p m ((k, x) ∷ l) = let ih = select-In p m l in (ground (arith, ih), ground (arith, ih))

-- The blob was confirmed in the batch.
abbrev pub IsInBatch : Bytes → BlobMetadata → Type 0
IsInBatch hash m =
    (c : ConfirmationInfo) × (m.confirmation_info ≡ some c) × (c.batch_header_hash ≡ hash)

in_batch→IsInBatch : (hash : Bytes) (m : BlobMetadata) → in_batch hash m ≡ true → IsInBatch hash m
in_batch→IsInBatch hash m h = elim (Option-cases m.confirmation_info) [
  | inl e ↦ absurd (ground arith)
  | inr (c, e) ↦ (c, e, ground (arith, str_beq_iff c.batch_header_hash hash))
]

IsInBatch→in_batch : (hash : Bytes) (m : BlobMetadata) → IsInBatch hash m → in_batch hash m ≡ true
IsInBatch→in_batch hash m (c, e, same) = ground (arith, str_beq_iff c.batch_header_hash hash)

-- The blobs of a batch are listed, all of them and no others.
In-get_all_blob_metadata_by_batch :
    (hash : Bytes) (m : BlobMetadata) (q : MemoryDb)
    → In m (get_all_blob_metadata_by_batch hash q) ↔ (In m (values q.metadata) × IsInBatch hash m)
unfolding get_all_blob_metadata_by_batch
In-get_all_blob_metadata_by_batch hash m q =
    let listed = select-In (in_batch hash) m q.metadata in
    (
      λ i. ((listed.0 i).0, in_batch→IsInBatch hash m (listed.0 i).1),
      λ h. listed.1 (h.0, IsInBatch→in_batch hash m h.1),
    )

-- The blobs of a status are listed, all of them and no others.
In-get_blob_metadata_by_status :
    (status : BlobStatus) (m : BlobMetadata) (q : MemoryDb)
    → In m (get_blob_metadata_by_status status q)
      ↔ (In m (values q.metadata) × (m.blob_status ≡ status))
unfolding get_blob_metadata_by_status
In-get_blob_metadata_by_status status m q =
    let listed = select-In (λ x. status_beq x.blob_status status) m q.metadata in
    let same = status_beq_iff m.blob_status status in
    (ground (arith, listed, same), ground (arith, listed, same))

-- The blob's bytes and its request are at hand.
abbrev pub IsServed : MemoryDb → BlobMetadata → Type 0
IsServed q m =
    (holder : BlobHolder) × (request : RequestMetadata) × (lookup m.metadata_hash q.blobs
      ≡ some holder)
    × (m.request_metadata ≡ some request)

-- The bytes that the result has for a blob, if any.
abbrev pub content_of : BlobKey → Map BlobKey Blob → Option Bytes
content_of key blobs = elim (lookup key blobs) [ none ↦ none | some b ↦ some b.content ]

abbrev pub held : BlobMetadata → MemoryDb → Option Bytes
held m q = elim (lookup m.metadata_hash q.blobs) [ none ↦ none | some h ↦ some h.content ]

add_blob_content :
    (x m : BlobMetadata) (q : MemoryDb) (start next : Map BlobKey Blob)
    → add_blob x (lookup x.metadata_hash q.blobs) start ≡ ok next
    → content_of (get_blob_key m) next
      ≡ (if get_blob_key x == get_blob_key m then held m q else content_of (get_blob_key m) start)
unfolding get_blob_key
add_blob_content x m q start next h = elim (Option-cases (lookup x.metadata_hash q.blobs)) [
  | inl gone ↦ absurd (ground arith)
  | inr (holder, here) ↦ elim (Option-cases x.request_metadata) [
    | inl lost ↦ absurd (ground arith)
    | inr (request, sent) ↦ ground (
      arith,
      key_beq_iff (get_blob_key x) (get_blob_key m),
      lookup-insert (get_blob_key x) (get_blob_key m)
          (record { request_header = request.header; content = holder.content }) start,
    )
  ]
]

get_blobs_from_keeps :
    (ms : List BlobMetadata) (q : MemoryDb) (start blobs : Map BlobKey Blob) (m : BlobMetadata)
    → get_blobs_from ms q start ≡ ok blobs
    → content_of (get_blob_key m) start ≡ held m q
    → content_of (get_blob_key m) blobs ≡ held m q
unfolding get_blobs_from
get_blobs_from_keeps [] q start blobs m h k = ground arith
get_blobs_from_keeps (x ∷ ms) q start blobs m h k =
    elim (Result-cases (add_blob x (lookup x.metadata_hash q.blobs) start)) [
      | inl (next, e) ↦
          get_blobs_from_keeps ms q next blobs m (rw (e, get_blobs_from) at h)
            (ground (arith, add_blob_content x m q start next e))
      | inr (e, failed) ↦ absurd (ground arith)
    ]

get_blobs_from_holds :
    (ms : List BlobMetadata) (q : MemoryDb) (start blobs : Map BlobKey Blob) (m : BlobMetadata)
    → get_blobs_from ms q start ≡ ok blobs
    → In m ms
    → content_of (get_blob_key m) blobs ≡ held m q
unfolding get_blobs_from
get_blobs_from_holds [] q start blobs m h i = elim i [ ]
get_blobs_from_holds (x ∷ ms) q start blobs m h i =
    elim (Result-cases (add_blob x (lookup x.metadata_hash q.blobs) start)) [
      | inl (next, e) ↦
          let rest = rw (e, get_blobs_from) at h in
          elim i [
            | inl same ↦
                get_blobs_from_keeps ms q next blobs m rest
                  (ground (arith, add_blob_content x m q start next e, ==_refl (get_blob_key x)))
            | inr later ↦ get_blobs_from_holds ms q next blobs m rest later
          ]
      | inr (e, failed) ↦ absurd (ground arith)
    ]

get_blobs_from_total :
    (ms : List BlobMetadata) (q : MemoryDb) (start : Map BlobKey Blob)
    → All (IsServed q) ms
    → (blobs : Map BlobKey Blob) × (get_blobs_from ms q start ≡ ok blobs)
unfolding get_blobs_from
get_blobs_from_total [] q start h = (start, refl)
get_blobs_from_total (x ∷ ms) q start (served, rest) =
    let (holder, request, here, sent) = served in
    let b : Blob = record { request_header = request.header; content = holder.content } in
    let next = insert (get_blob_key x) b start in
    let step : add_blob x (lookup x.metadata_hash q.blobs) start ≡ ok next = ground arith in
    rw (step, get_blobs_from) (get_blobs_from_total ms q next rest)

get_blobs_from-IsServed :
    (ms : List BlobMetadata) (q : MemoryDb) (start blobs : Map BlobKey Blob)
    → get_blobs_from ms q start ≡ ok blobs
    → All (IsServed q) ms
unfolding get_blobs_from
get_blobs_from-IsServed [] q start blobs h = tt
get_blobs_from-IsServed (x ∷ ms) q start blobs h =
    elim (Option-cases (lookup x.metadata_hash q.blobs)) [
      | inl gone ↦ absurd (ground arith)
      | inr (holder, here) ↦ elim (Option-cases x.request_metadata) [
        | inl lost ↦ absurd (ground arith)
        | inr (request, sent) ↦
            let b : Blob = record { request_header = request.header; content = holder.content } in
            let next = insert (get_blob_key x) b start in
            let step : add_blob x (lookup x.metadata_hash q.blobs) start ≡ ok next = ground arith in
            (
              (holder, request, here, sent),
              get_blobs_from-IsServed ms q next blobs (rw (step, get_blobs_from) at h),
            )
      ]
    ]

-- Fetching blobs succeeds exactly when every one has its bytes and its request in the store; the
-- result then has, under the key of each, the bytes that the store holds for it.
get_blobs_by_metadata_iff :
    (ms : List BlobMetadata) (q : MemoryDb)
    → (((blobs : Map BlobKey Blob) × (get_blobs_by_metadata ms q ≡ ok blobs)) ↔ All (IsServed q) ms)
      × ((blobs : Map BlobKey Blob) (m : BlobMetadata)
          → get_blobs_by_metadata ms q ≡ ok blobs
          → In m ms
          → content_of (get_blob_key m) blobs ≡ held m q)
unfolding get_blobs_by_metadata
get_blobs_by_metadata_iff ms q = (
  (λ r. get_blobs_from-IsServed ms q [] r.0 r.1, get_blobs_from_total ms q []),
  λ blobs m h i. get_blobs_from_holds ms q [] blobs m h i,
)
