-- ===== src/EncodedStore/Loop.antt =====
-- The loop of `GetNewEncodingResults` (disperser/batcher/encoded_blob_store.go) as a relation.
use g_da_client.Common.{
  ℕ, ◌+◌, ◌<◌, ◌≤◌, none, some, List, [], ◌∷◌, Bytes, bytes_eq, nat_eq, ok, lookup, ltb, ◌≡◌, ap,
  arith, Option-cases, Result-cases, Bool-cases, inl, inr, ◌∙◌, subst,
}
use g_da_client.EncodedStore.{
  EncodedBlobStore, EncodingResult, max_slice_size, get_chunks_size, join_batch, fetch_from,
}

-- A batch changes neither the requests nor the results.
abbrev pub SameResults : EncodedBlobStore → EncodedBlobStore → Type 0
SameResults a b =
    (a.requested ≡ b.requested)
    × (a.encoded ≡ b.encoded)
    × (a.encoded_result_size ≡ b.encoded_result_size)

-- One way through the loop, by what became of each entry.
pub data Fetched (ts : ℕ)
    : List (Bytes × EncodingResult)
      → ℕ
      → EncodedBlobStore
      → List (Bytes × EncodingResult)
      → EncodedBlobStore
      → Type 0 where
  -- there is no entry left
  done : {size : ℕ} {e : EncodedBlobStore} → Fetched ts [] size e [] e
  -- the entry is in a batch already
  skip :
      {id : Bytes} {r : EncodingResult} {rest rs : List (Bytes × EncodingResult)} {size : ℕ}
      {e e' : EncodedBlobStore}
      → (t : ℕ) → lookup id e.batching ≡ some t
      → Fetched ts rest size e rs e'
      → Fetched ts ((id, r) ∷ rest) size e rs e'
  -- the entry would pass the limit
  stop :
      {id : Bytes} {r : EncodingResult} {rest : List (Bytes × EncodingResult)} {size : ℕ}
      {e : EncodedBlobStore}
      → (n : ℕ) → lookup id e.batching ≡ none
      → get_chunks_size r ≡ ok n
      → max_slice_size < size + n
      → Fetched ts ((id, r) ∷ rest) size e [] e
  -- the entry is fetched
  take :
      {id : Bytes} {r : EncodingResult} {rest rs : List (Bytes × EncodingResult)} {size : ℕ}
      {e e' : EncodedBlobStore}
      → (n : ℕ) → lookup id e.batching ≡ none
      → get_chunks_size r ≡ ok n
      → size + n ≤ max_slice_size
      → Fetched ts rest (size + n) (join_batch id ts e) rs e'
      → Fetched ts ((id, r) ∷ rest) size e ((id, r) ∷ rs) e'

abbrev pub results : List (Bytes × EncodingResult) → List EncodingResult
results [] = []
results ((id, r) ∷ rest) = r ∷ results rest

abbrev pub ids : List (Bytes × EncodingResult) → List Bytes
ids [] = []
ids ((id, r) ∷ rest) = id ∷ ids rest

abbrev pub Outcome :
    List (Bytes × EncodingResult)
    → ℕ
    → ℕ
    → EncodedBlobStore
    → List EncodingResult
    → EncodedBlobStore
    → Type 0
Outcome order ts size e rs e' =
    (fetched : List (Bytes × EncodingResult)) × (results fetched ≡ rs)
    × Fetched ts order size e fetched e'

-- What the loop returns, it returns by one of these ways.
pub fetch_from-Fetched :
    (order : List (Bytes × EncodingResult)) (ts size : ℕ) (e e' : EncodedBlobStore)
    (rs : List EncodingResult)
    → fetch_from order ts size e ≡ ok (rs, e')
    → Outcome order ts size e rs e'
unfolding fetch_from
fetch_from-Fetched [] ts size e e' rs h =
    let same : e ≡ e' = ground arith in
    let empty : [] ≡ rs = ground arith in
    ([], empty, subst (λ x. Fetched ts [] size e [] x) same done)
fetch_from-Fetched ((id, r) ∷ rest) ts size e e' rs h = elim (Option-cases (lookup id e.batching)) [
  | inr (t, old) ↦
      let (fetched, same, way) =
        fetch_from-Fetched rest ts size e e' rs (rw (old, fetch_from) at h) in
      (fetched, same, skip t old way)
  | inl new ↦ elim (Result-cases (get_chunks_size r)) [
    | inr (x, panic) ↦ absurd (ground arith)
    | inl (n, sized) ↦ elim (Bool-cases (ltb max_slice_size (size + n))) [
      | inl over ↦
          let same : e ≡ e' = ground arith in
          let empty : [] ≡ rs = ground arith in
          (
            [],
            empty,
            subst (λ x. Fetched ts ((id, r) ∷ rest) size e [] x) same
                (stop n new sized (ground arith)),
          )
      | inr under ↦
          let others = fetch_from rest ts (size + n) (join_batch id ts e) in
          elim (Result-cases others) [
            | inr (x, panic) ↦ absurd (ground arith)
            | inl ((rs2, e2), fine) ↦
                let (fetched, same, way) =
                  fetch_from-Fetched rest ts (size + n) (join_batch id ts e) e2 rs2 fine in
                let last : e2 ≡ e' = ground arith in
                let all : r ∷ rs2 ≡ rs = ground arith in
                (
                  (id, r) ∷ fetched,
                  ap (◌∷◌ r) same ∙ all,
                  subst (λ x. Fetched ts ((id, r) ∷ rest) size e ((id, r) ∷ fetched) x) last
                      (take n new sized (ground arith) way),
                )
          ]
    ]
  ]
]
