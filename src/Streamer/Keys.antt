-- ===== src/Streamer/Keys.antt =====
-- Which blobs are in the batch that `CreateBatch` (disperser/batcher/encoding_streamer.go) makes.
use g_da_client.Common.{
  ℕ, true, false, none, some, List, [], ◌∷◌, ◌++◌, Bytes, bytes_eq, nat_eq, Result, ok, err, lookup,
  lookup-insert, lookup-insert_self, insert, map, ◌==◌, ◌≡◌, refl, ap, subst, ◌∙◌, arith,
  Result-cases, inl, inr, if◌then◌else◌,
}
use g_da_client.Core.{BlobHeader}
use g_da_client.Disperser.Status.{Error, no_encoded_results}
use g_da_client.Disperser.BlobKey.{BlobKey, key_eq}
use g_da_client.Disperser.Metadata.{get_blob_key}
use g_da_client.SliceSigner.Pending.{Batch}
use g_da_client.EncodedStore.{
  EncodedBlobStore, EncodingResult, get_new_encoding_results, id_of, or_empty,
}
use g_da_client.EncodedStore.Loop.{
  Fetched, done, skip, stop, take, results, ids, fetch_from-Fetched,
}
use g_da_client.EncodedStore.Fetch.{is_among, Fetched-batching, Fetched-fresh, Fetched-batches}
use g_da_client.Failures.Entries.{is_asked}
use g_da_client.EncodedStore.Stages.{is_listed}
use g_da_client.Streamer.{make_batch, create_batch}
use g_da_client.Streamer.Batches.{key_of}
use g_da_client.Streamer.Gathering.{make_batch-keys}

-- Each result stands under its own request, as in the map of the store.
abbrev pub OwnIds : List (Bytes × EncodingResult) → Type 0
OwnIds [] = Unit
OwnIds ((id, r) ∷ rest) = (id ≡ id_of r) × OwnIds rest

Fetched-OwnIds :
    {ts : ℕ} {order : List (Bytes × EncodingResult)} {size : ℕ} {e : EncodedBlobStore}
    {rs : List (Bytes × EncodingResult)} {e' : EncodedBlobStore}
    → Fetched ts order size e rs e'
    → OwnIds order
    → OwnIds rs
Fetched-OwnIds done h = tt
Fetched-OwnIds (skip t old way) h = Fetched-OwnIds way h.1
Fetched-OwnIds (stop n new sized over) h = tt
Fetched-OwnIds (take n new sized fits way) h = (h.0, Fetched-OwnIds way h.1)

Fetched-others :
    {ts : ℕ} {order : List (Bytes × EncodingResult)} {size : ℕ} {e : EncodedBlobStore}
    {rs : List (Bytes × EncodingResult)} {e' : EncodedBlobStore} (t : ℕ)
    → Fetched ts order size e rs e'
    → (ts == t) ≡ false
    → lookup t e'.batches ≡ lookup t e.batches
Fetched-others t done h = refl
Fetched-others t (skip u old way) h = Fetched-others t way h
Fetched-others t (stop n new sized over) h = refl
Fetched-others {ts} {e = e} t (take {id = id} n new sized fits way) h = ground (
  arith,
  Fetched-others t way h,
  lookup-insert ts t (or_empty (lookup ts e.batches) ++ id ∷ []) e.batches,
)

is_among_iff :
    (id : Bytes) (fetched : List (Bytes × EncodingResult))
    → OwnIds fetched
    → is_among id fetched ≡ is_asked id (map key_of (results fetched))
is_among_iff id [] h = refl
is_among_iff id ((own, r) ∷ rest) h = rw (h.0, is_among_iff id rest h.1) refl

-- What a fetch for a new batch has done to the store, for some list of the keys that it fetched.
abbrev pub IsOpened : ℕ → List BlobKey → EncodedBlobStore → EncodedBlobStore → Type 0
IsOpened ts keys e e' =
    ((id : Bytes)
      → (lookup id e'.batching ≡ (if is_asked id keys then some ts else lookup id e.batching))
        × (is_asked id keys ≡ true → lookup id e.batching ≡ none)
        × (is_listed id (or_empty (lookup ts e'.batches)) ≡ is_asked id keys))
    × ((t : ℕ) → (ts == t) ≡ false → lookup t e'.batches ≡ lookup t e.batches)

is_listed-ids :
    (id : Bytes) (fetched : List (Bytes × EncodingResult))
    → is_listed id (ids fetched) ≡ is_among id fetched
is_listed-ids id [] = refl
is_listed-ids id ((own, r) ∷ rest) = rw (is_listed-ids id rest) refl

pub get_new_encoding_results-IsOpened :
    (order : List (Bytes × EncodingResult)) (ts : ℕ) (e e' : EncodedBlobStore)
    (rs : List EncodingResult)
    → OwnIds order
    → lookup ts e.batches ≡ none
    → get_new_encoding_results order ts e ≡ ok (rs, e')
    → IsOpened ts (map key_of rs) e e'
unfolding get_new_encoding_results
get_new_encoding_results-IsOpened order ts e e' rs own fresh h =
    let opened = record e { batches = insert ts (or_empty (lookup ts e.batches)) e.batches } in
    let (fetched, same, way) = fetch_from-Fetched order ts 0 opened e' rs h in
    let among : (id : Bytes) → is_among id fetched ≡ is_asked id (map key_of rs) = λ id.
      is_among_iff id fetched (Fetched-OwnIds way own)
      ∙ ap (λ x. is_asked id (map key_of x)) same in
    let listed : or_empty (lookup ts e'.batches) ≡ ids fetched =
      Fetched-batches way
      ∙ ap (λ x. or_empty x ++ ids fetched)
          (lookup-insert_self ts (or_empty (lookup ts e.batches)) e.batches)
      ∙ ap (λ x. or_empty x ++ ids fetched) fresh in
    (
      λ id. (
        Fetched-batching id way ∙ ap (λ x. if x then some ts else lookup id e.batching) (among id),
        λ asked. Fetched-fresh id way (among id ∙ asked),
        ap (is_listed id) listed ∙ is_listed-ids id fetched ∙ among id,
      ),
      λ t other.
          Fetched-others t way other
          ∙ ground (arith, lookup-insert ts t (or_empty (lookup ts e.batches)) e.batches),
    )

-- A batch that is made is in the store, with its blobs, and nothing else has changed its batch;
-- where none is made, the fetched blobs are in the store's batch all the same.
pub create_batch-IsOpened :
    (set_batch_root : List BlobHeader → Result Error Bytes) (order : List (Bytes × EncodingResult))
    (ts : ℕ) (e e' : EncodedBlobStore) (made : Result Error Batch)
    → OwnIds order
    → lookup ts e.batches ≡ none
    → create_batch set_batch_root order ts e ≡ ok (e', made)
    → (keys : List BlobKey) × IsOpened ts keys e e'
      × ((batch : Batch) → made ≡ ok batch → map get_blob_key batch.blob_metadata ≡ keys)
unfolding create_batch
create_batch-IsOpened set_batch_root order ts e e' made own fresh h =
    elim (Result-cases (get_new_encoding_results order ts e)) [
      | inr (x, fails) ↦ absurd (ground arith)
      | inl ((rs, e1), fine) ↦ split rs e1 fine (chosen rs e1 fine)
    ]
  where
    outcome : List EncodingResult → EncodedBlobStore → EncodedBlobStore × Result Error Batch
    outcome [] e1 = (e1, err no_encoded_results)
    outcome (r ∷ more) e1 = (e1, make_batch set_batch_root (r ∷ more))

    chosen :
        (rs : List EncodingResult) (e1 : EncodedBlobStore)
        → get_new_encoding_results order ts e ≡ ok (rs, e1)
        → outcome rs e1 ≡ (e', made)
    chosen [] e1 fine = ground arith
    chosen (r ∷ more) e1 fine = ground arith

    split :
        (rs : List EncodingResult) (e1 : EncodedBlobStore)
        → get_new_encoding_results order ts e ≡ ok (rs, e1)
        → outcome rs e1 ≡ (e', made)
        → (keys : List BlobKey) × IsOpened ts keys e e'
          × ((batch : Batch) → made ≡ ok batch → map get_blob_key batch.blob_metadata ≡ keys)
    split [] e1 fine same = (
      [],
      subst (IsOpened ts [] e) (ap (λ x. x.0) same)
          (get_new_encoding_results-IsOpened order ts e e1 [] own fresh fine),
      λ batch is. absurd (ground arith),
    )
    split (r ∷ more) e1 fine same = (
      map key_of (r ∷ more),
      subst (IsOpened ts (map key_of (r ∷ more)) e) (ap (λ x. x.0) same)
          (get_new_encoding_results-IsOpened order ts e e1 (r ∷ more) own fresh fine),
      λ batch is. make_batch-keys set_batch_root (r ∷ more) batch (ap (λ x. x.1) same ∙ is),
    )
