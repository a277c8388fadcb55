-- ===== src/EncodedStore/Accounting.antt =====
-- `encodedResultSize` against the results that are held.
use g_da_client.Common.{
  ℕ, ◌%◌, false, ◌&&◌, none, some, List, Bytes, bytes_eq, nat_eq, ok, lookup, insert, delete,
  lookup-insert, lookup-delete, add64, sub64, u64_mod, if◌then◌else◌, Distinct, sum_of,
  sum_of-insert, sum_of-delete, insert-Distinct, delete-Distinct, ◌≡◌, refl, arith, Option-cases,
  Result-cases, Bool-cases, inl, inr, str_beq_iff,
}
use g_da_client.Disperser.BlobKey.{BlobKey}
use g_da_client.EncodedStore.{
  EncodedBlobStore, EncodingResult, has, get_request_id, id_of, get_chunks_size,
  put_encoding_request, has_encoding_requested, delete_encoding_request, put_encoding_result,
  delete_encoding_result, get_new_encoding_results, delete_batching_status, chunks, chunks-ok,
}
use g_da_client.EncodedStore.Loop.{SameResults}
use g_da_client.EncodedStore.Fetch.{get_new_encoding_results_lem}

-- The store's size is the sum over its results, and no request is both waiting and done.
pub record IsAccounted (e : EncodedBlobStore) : Type 0 where
  pub distinct_requested : Distinct e.requested
  pub distinct_encoded : Distinct e.encoded
  pub disjoint : (id : Bytes) → has (lookup id e.requested) && has (lookup id e.encoded) ≡ false
  pub sized : e.encoded_result_size ≡ sum_of chunks e.encoded % u64_mod

-- As `RequestEncoding` calls it: only for a blob that is neither waiting nor done.
abbrev pub request_encoding : BlobKey → EncodedBlobStore → EncodedBlobStore
request_encoding key e = if has_encoding_requested key e then e else put_encoding_request key e

pub request_encoding-IsAccounted :
    (key : BlobKey) (e : EncodedBlobStore) → IsAccounted e → IsAccounted (request_encoding key e)
unfolding has_encoding_requested put_encoding_request
request_encoding-IsAccounted key e h = elim (Bool-cases (has_encoding_requested key e)) [
  | inl known ↦ rw known h
  | inr new ↦ rw new (record {
    distinct_requested = insert-Distinct (get_request_id key) tt e.requested h.distinct_requested;
    distinct_encoded = h.distinct_encoded;
    disjoint = λ id. ground (
      arith,
      h.disjoint id,
      lookup-insert (get_request_id key) id tt e.requested,
      str_beq_iff (get_request_id key) id,
    );
    sized = h.sized;
  })
]

pub delete_encoding_request-IsAccounted :
    (key : BlobKey) (e : EncodedBlobStore)
    → IsAccounted e
    → IsAccounted (delete_encoding_request key e)
unfolding delete_encoding_request
delete_encoding_request-IsAccounted key e h =
    elim (Option-cases (lookup (get_request_id key) e.requested)) [
      | inl gone ↦ rw (gone, delete_encoding_request) h
      | inr (_, here) ↦
          rw (here, delete_encoding_request)
            (record {
              distinct_requested =
                  delete-Distinct (get_request_id key) e.requested h.distinct_requested;
              distinct_encoded = h.distinct_encoded;
              disjoint = λ id.
                  ground (arith, h.disjoint id, lookup-delete (get_request_id key) id e.requested);
              sized = h.sized;
            })
    ]

-- The store with the result in place of the request.
abbrev with_result : EncodingResult → ℕ → EncodedBlobStore → EncodedBlobStore
with_result r n e = record e {
  encoded_result_size = add64 e.encoded_result_size n;
  encoded = insert (id_of r) r e.encoded;
  requested = delete (id_of r) e.requested;
}

put_encoding_result_inv :
    (r : EncodingResult) (e e' : EncodedBlobStore)
    → IsAccounted e
    → put_encoding_result r e ≡ ok e'
    → (n : ℕ) × (get_chunks_size r ≡ ok n)
      × (lookup (id_of r) e.encoded ≡ none)
      × (e' ≡ with_result r n e)
unfolding put_encoding_result
put_encoding_result_inv r e e' h done = elim (Result-cases (get_chunks_size r)) [
  | inl (n, size) ↦
      (n, size, ground (arith, h.disjoint (id_of r)), ground (arith, h.disjoint (id_of r)))
  | inr (x, panic) ↦ absurd (ground (arith, h.disjoint (id_of r)))
]

with_result-IsAccounted :
    (r : EncodingResult) (n : ℕ) (e : EncodedBlobStore)
    → IsAccounted e
    → get_chunks_size r ≡ ok n
    → lookup (id_of r) e.encoded ≡ none
    → IsAccounted (with_result r n e)
unfolding add64
with_result-IsAccounted r n e h size new = record {
  distinct_requested = delete-Distinct (id_of r) e.requested h.distinct_requested;
  distinct_encoded = insert-Distinct (id_of r) r e.encoded h.distinct_encoded;
  disjoint = λ id. ground (
    arith,
    h.disjoint id,
    lookup-delete (id_of r) id e.requested,
    lookup-insert (id_of r) id r e.encoded,
  );
  sized = ground (
    arith,
    h.sized,
    chunks-ok r n size,
    sum_of-insert chunks (id_of r) r e.encoded h.distinct_encoded,
  );
}

pub put_encoding_result-IsAccounted :
    (r : EncodingResult) (e e' : EncodedBlobStore)
    → IsAccounted e
    → put_encoding_result r e ≡ ok e'
    → IsAccounted e'
put_encoding_result-IsAccounted r e e' h done =
    let (n, size, new, same) = put_encoding_result_inv r e e' h done in
    rw same (with_result-IsAccounted r n e h size new)

abbrev without : Bytes → ℕ → EncodedBlobStore → EncodedBlobStore
without id n e = record e {
  encoded = delete id e.encoded;
  encoded_result_size = sub64 e.encoded_result_size n;
  batching = delete id e.batching;
}

without-IsAccounted :
    (id : Bytes) (r : EncodingResult) (n : ℕ) (e : EncodedBlobStore)
    → IsAccounted e
    → get_chunks_size r ≡ ok n
    → lookup id e.encoded ≡ some r
    → IsAccounted (without id n e)
unfolding sub64
without-IsAccounted id r n e h size here = record {
  distinct_requested = h.distinct_requested;
  distinct_encoded = delete-Distinct id e.encoded h.distinct_encoded;
  disjoint = λ j. ground (arith, h.disjoint j, lookup-delete id j e.encoded);
  sized =
      ground
        (arith, h.sized, chunks-ok r n size, sum_of-delete chunks id e.encoded h.distinct_encoded);
}

pub delete_encoding_result-IsAccounted :
    (key : BlobKey) (e e' : EncodedBlobStore)
    → IsAccounted e
    → delete_encoding_result key e ≡ ok e'
    → IsAccounted e'
unfolding delete_encoding_result
delete_encoding_result-IsAccounted key e e' h done =
    elim (Option-cases (lookup (get_request_id key) e.encoded)) [
      | inl gone ↦ let same : e' ≡ e = ground arith in rw same h
      | inr (r, here) ↦ elim (Result-cases (get_chunks_size r)) [
        | inl (n, size) ↦
            let same : e' ≡ without (get_request_id key) n e = ground arith in
            rw same (without-IsAccounted (get_request_id key) r n e h size here)
        | inr (x, panic) ↦ absurd (ground arith)
      ]
    ]

SameResults-IsAccounted : (a b : EncodedBlobStore) → SameResults a b → IsAccounted a → IsAccounted b
SameResults-IsAccounted a b (r, c, s) h = record {
  distinct_requested = rw r at h.distinct_requested;
  distinct_encoded = rw c at h.distinct_encoded;
  disjoint = λ id. ground (arith, h.disjoint id);
  sized = ground arith;
}

pub get_new_encoding_results-IsAccounted :
    (order : List (Bytes × EncodingResult)) (ts : ℕ) (e e' : EncodedBlobStore)
    (rs : List EncodingResult)
    → IsAccounted e
    → get_new_encoding_results order ts e ≡ ok (rs, e')
    → IsAccounted e'
get_new_encoding_results-IsAccounted order ts e e' rs h done =
    SameResults-IsAccounted e e' (get_new_encoding_results_lem order ts e e' rs done).6 h

pub delete_batching_status-IsAccounted :
    (ts : ℕ) (e : EncodedBlobStore) → IsAccounted e → IsAccounted (delete_batching_status ts e)
unfolding delete_batching_status
delete_batching_status-IsAccounted ts e h =
    SameResults-IsAccounted e (delete_batching_status ts e) (refl, refl, refl) h
