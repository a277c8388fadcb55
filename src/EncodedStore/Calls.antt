-- ===== src/EncodedStore/Calls.antt =====
-- Any sequence of calls on the encoded blob store.
use g_da_client.Common.{
  ℕ, refl, lookup, List, [], ◌∷◌, Bytes, bytes_eq, nat_eq, Result, ok, err, Result-cases, inl, inr,
}
use g_da_client.Disperser.Status.{Error}
use g_da_client.Disperser.BlobKey.{BlobKey}
use g_da_client.EncodedStore.{
  EncodedBlobStore, EncodingResult, new_encoded_blob_store, delete_encoding_request,
  put_encoding_result, delete_encoding_result, get_new_encoding_results, delete_batching_status,
}
use g_da_client.EncodedStore.Accounting.{
  IsAccounted, request_encoding, request_encoding-IsAccounted, delete_encoding_request-IsAccounted,
  put_encoding_result-IsAccounted, delete_encoding_result-IsAccounted,
  get_new_encoding_results-IsAccounted, delete_batching_status-IsAccounted,
}

pub data Call : Type 0 where
  request cancel drop : BlobKey → Call
  result : EncodingResult → Call
  fetch : List (Bytes × EncodingResult) → ℕ → Call
  release : ℕ → Call

-- A call that reports an error leaves the store as it was.
abbrev on_error : EncodedBlobStore → Result Error EncodedBlobStore → EncodedBlobStore
on_error e (ok e') = e'
on_error e (err x) = e

abbrev on_error_pair :
    EncodedBlobStore → Result Error (List EncodingResult × EncodedBlobStore) → EncodedBlobStore
on_error_pair e (ok (rs, e')) = e'
on_error_pair e (err x) = e

unfoldable pub step : Call → EncodedBlobStore → EncodedBlobStore
step (request key) e = request_encoding key e
step (cancel key) e = delete_encoding_request key e
step (drop key) e = on_error e (delete_encoding_result key e)
step (result r) e = on_error e (put_encoding_result r e)
step (fetch order ts) e = on_error_pair e (get_new_encoding_results order ts e)
step (release ts) e = delete_batching_status ts e

unfoldable pub run_calls : List Call → EncodedBlobStore → EncodedBlobStore
unfolding step
run_calls [] e = e
run_calls (c ∷ cs) e = run_calls cs (step c e)

step-IsAccounted : (c : Call) (e : EncodedBlobStore) → IsAccounted e → IsAccounted (step c e)
unfolding step
step-IsAccounted (request key) e h = request_encoding-IsAccounted key e h
step-IsAccounted (cancel key) e h = delete_encoding_request-IsAccounted key e h
step-IsAccounted (drop key) e h = elim (Result-cases (delete_encoding_result key e)) [
  | inl (e', done) ↦ rw done (delete_encoding_result-IsAccounted key e e' h done)
  | inr (x, failed) ↦ rw failed h
]
step-IsAccounted (result r) e h = elim (Result-cases (put_encoding_result r e)) [
  | inl (e', done) ↦ rw done (put_encoding_result-IsAccounted r e e' h done)
  | inr (x, failed) ↦ rw failed h
]
step-IsAccounted (fetch order ts) e h = elim (Result-cases (get_new_encoding_results order ts e)) [
  | inl ((rs, e'), done) ↦ rw done (get_new_encoding_results-IsAccounted order ts e e' rs h done)
  | inr (x, failed) ↦ rw failed h
]
step-IsAccounted (release ts) e h = delete_batching_status-IsAccounted ts e h

-- From an accounted store, whatever calls are made (requests as `RequestEncoding` makes them), the
-- recorded size is the sum over the results that are held, and no blob is both waiting and done.
pub run_calls-IsAccounted :
    (cs : List Call) (e : EncodedBlobStore) → IsAccounted e → IsAccounted (run_calls cs e)
unfolding run_calls
run_calls-IsAccounted [] e h = h
run_calls-IsAccounted (c ∷ cs) e h = run_calls-IsAccounted cs (step c e) (step-IsAccounted c e h)

pub new_encoded_blob_store-IsAccounted : IsAccounted new_encoded_blob_store
unfolding lookup
new_encoded_blob_store-IsAccounted = record {
  distinct_requested = tt;
  distinct_encoded = tt;
  disjoint = λ id. refl;
  sized = refl;
}
