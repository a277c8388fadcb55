-- ===== src/EncodedStore/Fetch.antt =====
-- What `GetNewEncodingResults` (disperser/batcher/encoded_blob_store.go) fetches.
use g_da_client.Common.{
  ℕ, ◌+◌, ◌≤◌, Bool, true, false, ◌||◌, none, some, List, [], ◌∷◌, ◌++◌, Bytes, bytes_eq, nat_eq,
  ok, lookup, insert, lookup-insert, lookup-insert_self, ◌&&◌, not, ltb, if◌then◌else◌, ◌≡◌, refl,
  ap, arith, Option-cases, Bool-cases, inl, inr, str_beq, str_beq_iff, sym, ◌∙◌,
}
use mathlib.Core.List.{append_assoc, append-nil}
use g_da_client.EncodedStore.{
  EncodedBlobStore, EncodingResult, max_slice_size, get_chunks_size, join_batch, or_empty,
  fetch_from, get_new_encoding_results, has, chunks,
}
use g_da_client.EncodedStore.Loop.{
  SameResults, Fetched, done, skip, stop, take, results, ids, fetch_from-Fetched,
}

-- The sizes of the results that were fetched, with what was counted before, stay within the limit.
pub total : List (Bytes × EncodingResult) → ℕ
total [] = 0
total ((id, r) ∷ rest) = chunks r + total rest

Fetched-total :
    {ts : ℕ} {order : List (Bytes × EncodingResult)} {size : ℕ} {e : EncodedBlobStore}
    {rs : List (Bytes × EncodingResult)} {e' : EncodedBlobStore}
    → Fetched ts order size e rs e'
    → size ≤ max_slice_size
    → size + total rs ≤ max_slice_size
unfolding total chunks
Fetched-total done h = omega arith
Fetched-total (skip t old way) h = Fetched-total way h
Fetched-total (stop n new sized over) h = omega arith
Fetched-total (take n new sized fits way) h = ground (arith, Fetched-total way fits)

-- Is the key among the fetched?
abbrev pub is_among : Bytes → List (Bytes × EncodingResult) → Bool
is_among key [] = false
is_among key ((id, r) ∷ rest) = str_beq id key || is_among key rest

pub Fetched-batching :
    {ts : ℕ} {order : List (Bytes × EncodingResult)} {size : ℕ} {e : EncodedBlobStore}
    {rs : List (Bytes × EncodingResult)} {e' : EncodedBlobStore} (key : Bytes)
    → Fetched ts order size e rs e'
    → lookup key e'.batching ≡ (if is_among key rs then some ts else lookup key e.batching)
Fetched-batching key done = refl
Fetched-batching key (skip t old way) = Fetched-batching key way
Fetched-batching key (stop n new sized over) = refl
Fetched-batching {ts} {e = e} key (take {id = id} n new sized fits way) =
    ground (arith, Fetched-batching key way, lookup-insert id key ts e.batching)

-- What was fetched was in no batch.
pub Fetched-fresh :
    {ts : ℕ} {order : List (Bytes × EncodingResult)} {size : ℕ} {e : EncodedBlobStore}
    {rs : List (Bytes × EncodingResult)} {e' : EncodedBlobStore} (key : Bytes)
    → Fetched ts order size e rs e'
    → is_among key rs ≡ true
    → lookup key e.batching ≡ none
Fetched-fresh key done h = cc
Fetched-fresh key (skip t old way) h = Fetched-fresh key way h
Fetched-fresh key (stop n new sized over) h = cc
Fetched-fresh {ts} {e = e} key (take {id = id} n new sized fits way) h =
    ground (arith, Fetched-fresh key way, lookup-insert id key ts e.batching, str_beq_iff id key)

pub Fetched-batches :
    {ts : ℕ} {order : List (Bytes × EncodingResult)} {size : ℕ} {e : EncodedBlobStore}
    {rs : List (Bytes × EncodingResult)} {e' : EncodedBlobStore}
    → Fetched ts order size e rs e'
    → or_empty (lookup ts e'.batches) ≡ or_empty (lookup ts e.batches) ++ ids rs
Fetched-batches done = sym (append-nil _)
Fetched-batches (skip t old way) = Fetched-batches way
Fetched-batches (stop n new sized over) = sym (append-nil _)
Fetched-batches {ts} {e = e} (take {id = id} {rs = rs} n new sized fits way) =
    let old = or_empty (lookup ts e.batches) in
    Fetched-batches way
    ∙ ap (λ x. or_empty x ++ ids rs) (lookup-insert_self ts (old ++ id ∷ []) e.batches)
    ∙ append_assoc old (id ∷ []) (ids rs)

Fetched-same :
    {ts : ℕ} {order : List (Bytes × EncodingResult)} {size : ℕ} {e : EncodedBlobStore}
    {rs : List (Bytes × EncodingResult)} {e' : EncodedBlobStore}
    → Fetched ts order size e rs e'
    → SameResults e e'
Fetched-same done = (refl, refl, refl)
Fetched-same (skip t old way) = Fetched-same way
Fetched-same (stop n new sized over) = (refl, refl, refl)
Fetched-same (take n new sized fits way) = Fetched-same way

-- With room for every entry, what is fetched is what was in no batch.
Fetched-all :
    {ts : ℕ} {order : List (Bytes × EncodingResult)} {size : ℕ} {e : EncodedBlobStore}
    {rs : List (Bytes × EncodingResult)} {e' : EncodedBlobStore} (key : Bytes)
    → Fetched ts order size e rs e'
    → size + total order ≤ max_slice_size
    → is_among key rs ≡ is_among key order && not (has (lookup key e.batching))
unfolding total chunks
Fetched-all key done h = refl
Fetched-all key (skip {id = id} {r = r} t old way) h =
    ground (arith, Fetched-all key way (omega arith), str_beq_iff id key)
Fetched-all key (stop {r = r} n new sized over) h = absurd (ground arith)
Fetched-all {ts} {e = e} key (take {id = id} {r = r} n new sized fits way) h = ground (
  arith,
  Fetched-all key way (ground arith),
  lookup-insert id key ts e.batching,
  str_beq_iff id key,
)

-- The loop does not panic where every size can be counted.
abbrev pub AllSized : List (Bytes × EncodingResult) → Type 0
AllSized [] = Unit
AllSized ((id, r) ∷ rest) = ((n : ℕ) × (get_chunks_size r ≡ ok n)) × AllSized rest

fetch_from_total :
    (order : List (Bytes × EncodingResult)) (ts size : ℕ) (e : EncodedBlobStore)
    → AllSized order
    → (out : List EncodingResult × EncodedBlobStore) × (fetch_from order ts size e ≡ ok out)
unfolding fetch_from
fetch_from_total [] ts size e h = (([], e), refl)
fetch_from_total ((id, r) ∷ rest) ts size e (sized, more) =
    elim (Option-cases (lookup id e.batching)) [
      | inr (t, old) ↦ rw (old, fetch_from) (fetch_from_total rest ts size e more)
      | inl new ↦ elim (Bool-cases (ltb max_slice_size (size + sized.0))) [
        | inl over ↦ (([], e), ground arith)
        | inr under ↦
            let (out, fine) = fetch_from_total rest ts (size + sized.0) (join_batch id ts e) more in
            ((r ∷ out.0, out.1), ground arith)
      ]
    ]

-- What a fetch that returns has done. It returned results whose chunks together are within the
-- limit, all of them from no batch before and in the batch of `ts` now; no other result changed its
-- batch; the list of the batch has grown by them, in order; requests, results and the size are
-- untouched. If all results together are within the limit, none that was free is left out.
pub get_new_encoding_results_lem :
    (order : List (Bytes × EncodingResult)) (ts : ℕ) (e e' : EncodedBlobStore)
    (rs : List EncodingResult)
    → get_new_encoding_results order ts e ≡ ok (rs, e')
    → (fetched : List (Bytes × EncodingResult)) × (results fetched ≡ rs)
      × (total fetched ≤ max_slice_size)
      × ((key : Bytes)
          → lookup key e'.batching
            ≡ (if is_among key fetched then some ts else lookup key e.batching))
      × ((key : Bytes) → is_among key fetched ≡ true → lookup key e.batching ≡ none)
      × (or_empty (lookup ts e'.batches) ≡ or_empty (lookup ts e.batches) ++ ids fetched)
      × SameResults e e'
      × (total order ≤ max_slice_size
          → (key : Bytes)
          → is_among key fetched ≡ is_among key order && not (has (lookup key e.batching)))
unfolding get_new_encoding_results
get_new_encoding_results_lem order ts e e' rs h =
    let before = or_empty (lookup ts e.batches) in
    let opened = record e { batches = insert ts before e.batches } in
    let (fetched, same, way) = fetch_from-Fetched order ts 0 opened e' rs h in
    (
      fetched,
      same,
      omega (arith, Fetched-total way (omega arith)),
      λ key. Fetched-batching key way,
      λ key. Fetched-fresh key way,
      Fetched-batches way
          ∙ ap (λ x. or_empty x ++ ids fetched) (lookup-insert_self ts before e.batches),
      Fetched-same way,
      λ room key. Fetched-all key way (omega arith),
    )

-- A fetch returns, with no panic, where every result has its slices.
get_new_encoding_results_total :
    (order : List (Bytes × EncodingResult)) (ts : ℕ) (e : EncodedBlobStore)
    → AllSized order
    → (out : List EncodingResult × EncodedBlobStore) × (get_new_encoding_results order ts e
        ≡ ok out)
unfolding get_new_encoding_results
get_new_encoding_results_total order ts e h = fetch_from_total order ts 0 _ h
