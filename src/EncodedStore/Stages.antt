-- ===== src/EncodedStore/Stages.antt =====
-- A blob's way through the store: unknown, requested, encoded, unknown again.
use g_da_client.Common.{
  ℕ, Bool, true, false, ◌||◌, none, some, List, [], ◌∷◌, Bytes, bytes_eq, nat_eq, Map, ok, err,
  lookup, insert, delete, lookup-insert, lookup-delete, lookup-delete_self, ◌==◌, if◌then◌else◌,
  ◌≡◌, ◌≢◌, refl, arith, Option-cases, inl, inr, str_beq, str_beq_iff, add64, sub64,
  lookup-insert_self,
}
use g_da_client.Disperser.Status.{not_requested, not_encoded}
use g_da_client.Disperser.BlobKey.{BlobKey}
use g_da_client.Disperser.Metadata.{get_blob_key}
use g_da_client.EncodedStore.{
  EncodedBlobStore, EncodingResult, has, get_request_id, id_of, get_chunks_size,
  put_encoding_request, put_encoding_result, get_encoding_result, delete_encoding_result,
  delete_all, delete_batching_status, or_empty,
}

pub data Stage : Type 0 where
  unknown requested done : Stage

-- Where a request stands.
abbrev pub stage : Bytes → EncodedBlobStore → Stage
stage id e =
    if has (lookup id e.encoded)
    then done
    else if has (lookup id e.requested)
    then requested
    else unknown

-- A request is noted, and moves no other.
pub stage-put_encoding_request :
    (key : BlobKey) (id : Bytes) (e : EncodedBlobStore)
    → stage (get_request_id key) e ≢ done
    → stage id (put_encoding_request key e)
      ≡ (if get_request_id key == id then requested else stage id e)
unfolding put_encoding_request
stage-put_encoding_request key id e h = ground (
  arith,
  lookup-insert (get_request_id key) id tt e.requested,
  str_beq_iff (get_request_id key) id,
)

-- A result is taken exactly for a blob that has been requested; it is then read back, its blob is
-- done, and no other blob has moved. A result for any other blob is refused.
put_encoding_result_lem :
    (r : EncodingResult) (n : ℕ) (e : EncodedBlobStore)
    → get_chunks_size r ≡ ok n
    → (has (lookup (id_of r) e.requested) ≡ false → put_encoding_result r e ≡ err not_requested)
      × (has (lookup (id_of r) e.requested) ≡ true
          → (e' : EncodedBlobStore) × (put_encoding_result r e ≡ ok e')
            × (get_encoding_result (get_blob_key r.blob_metadata) e' ≡ ok r)
            × ((id : Bytes) → stage id e' ≡ (if id_of r == id then done else stage id e)))
unfolding put_encoding_result get_encoding_result
put_encoding_result_lem r n e sized = (ground arith, λ h. taken h (fresh_size h))
  where
    with : ℕ → EncodedBlobStore
    with size = record e {
      encoded_result_size = size;
      encoded = insert (id_of r) r e.encoded;
      requested = delete (id_of r) e.requested;
    }

    fresh_size :
        has (lookup (id_of r) e.requested) ≡ true
        → (size : ℕ) × (put_encoding_result r e ≡ ok (with size))
    fresh_size h = elim (Option-cases (lookup (id_of r) e.encoded)) [
      | inl new ↦ (add64 e.encoded_result_size n, ground arith)
      | inr (old, there) ↦ (e.encoded_result_size, ground arith)
    ]

    moved :
        (size : ℕ) (id : Bytes)
        → stage id (with size) ≡ (if id_of r == id then done else stage id e)
    moved size id =
        ground
          (arith, lookup-insert (id_of r) id r e.encoded, lookup-delete (id_of r) id e.requested)

    taken :
        has (lookup (id_of r) e.requested) ≡ true
        → ((size : ℕ) × (put_encoding_result r e ≡ ok (with size)))
        → (e' : EncodedBlobStore) × (put_encoding_result r e ≡ ok e')
          × (get_encoding_result (get_blob_key r.blob_metadata) e' ≡ ok r)
          × ((id : Bytes) → stage id e' ≡ (if id_of r == id then done else stage id e))
    taken h (size, stored) =
        (with size, stored, ground (arith, lookup-insert_self (id_of r) r e.encoded), moved size)

-- Dropping a result makes its blob unknown, if it was done and not requested again, takes it out of
-- its batch, and moves no other blob.
delete_encoding_result_lem :
    (key : BlobKey) (r : EncodingResult) (n : ℕ) (e : EncodedBlobStore)
    → lookup (get_request_id key) e.encoded ≡ some r
    → has (lookup (get_request_id key) e.requested) ≡ false
    → get_chunks_size r ≡ ok n
    → (e' : EncodedBlobStore) × (delete_encoding_result key e ≡ ok e')
      × (lookup (get_request_id key) e'.batching ≡ none)
      × (get_encoding_result key e' ≡ err not_encoded)
      × ((id : Bytes) → stage id e' ≡ (if get_request_id key == id then unknown else stage id e))
unfolding delete_encoding_result get_encoding_result
delete_encoding_result_lem key r n e here quiet sized = (
  record e {
    encoded = delete (get_request_id key) e.encoded;
    encoded_result_size = sub64 e.encoded_result_size n;
    batching = delete (get_request_id key) e.batching;
  },
  ground arith,
  lookup-delete_self (get_request_id key) e.batching,
  ground (arith, lookup-delete_self (get_request_id key) e.encoded),
  λ id.
      ground (
        arith,
        lookup-delete (get_request_id key) id e.encoded,
        str_beq_iff (get_request_id key) id,
      ),
)

abbrev pub is_listed : Bytes → List Bytes → Bool
is_listed id [] = false
is_listed id (x ∷ xs) = str_beq x id || is_listed id xs

lookup-delete_all :
    (id : Bytes) (ids : List Bytes) (batching : Map Bytes ℕ)
    → lookup id (delete_all ids batching) ≡ (if is_listed id ids then none else lookup id batching)
unfolding delete_all
lookup-delete_all id [] batching = refl
lookup-delete_all id (x ∷ xs) batching =
    ground (arith, lookup-delete_all id xs (delete x batching), lookup-delete x id batching)

-- Releasing a batch frees every blob that the batch lists, and no other, whichever batch the
-- blob is in by then; the batch is gone and the other batches are as they were.
pub delete_batching_status_lem :
    (ts t : ℕ) (id : Bytes) (e : EncodedBlobStore)
    → (lookup id (delete_batching_status ts e).batching
        ≡ (if is_listed id (or_empty (lookup ts e.batches)) then none else lookup id e.batching))
      × (lookup t (delete_batching_status ts e).batches
          ≡ (if ts == t then none else lookup t e.batches))
unfolding delete_batching_status
delete_batching_status_lem ts t id e =
    (lookup-delete_all id (or_empty (lookup ts e.batches)) e.batching, lookup-delete ts t e.batches)

-- The batch of `ts` is released: every blob that it lists is in no batch, every other blob is in the
-- batch it was in, the other batches are as they were, and so are the results and the requests.
abbrev pub IsReleasedFrom : ℕ → EncodedBlobStore → EncodedBlobStore → Type 0
IsReleasedFrom ts e e' =
    ((id : Bytes)
      → lookup id e'.batching
        ≡ (if is_listed id (or_empty (lookup ts e.batches)) then none else lookup id e.batching))
    × ((t : ℕ) → lookup t e'.batches ≡ (if ts == t then none else lookup t e.batches))
    × (e'.encoded ≡ e.encoded)
    × (e'.requested ≡ e.requested)

pub delete_batching_status-IsReleasedFrom :
    (ts : ℕ) (e : EncodedBlobStore) → IsReleasedFrom ts e (delete_batching_status ts e)
unfolding delete_batching_status
delete_batching_status-IsReleasedFrom ts e = (
  λ id. (delete_batching_status_lem ts ts id e).0,
  λ t. (delete_batching_status_lem ts t [] e).1,
  refl,
  refl,
)
