-- ===== src/KvStore.antt =====
-- disperser/store.go: the key-value store of finalized blobs, and its expiry. The database under it
-- (disperser/leveldb/leveldb.go, which passes on the calls of a third-party library) is an interface:
-- its operations, and the laws that a proof names. Times in seconds are not negative.
pub mod Keys
pub mod Records
pub mod Batches
pub mod Expiry
pub mod Scan
pub mod Rounds
pub mod Taken
pub mod Found
pub mod Kept
use g_da_client.Common.{
  ℕ, zero, suc, ◌+◌, ◌-◌, ◌^◌, Bool, true, false, not, List, [], ◌∷◌, ◌++◌, Bytes, Option, none,
  some, Result, ok, err, ◌>>=◌, le_bytes, of_le, be_bytes, of_be, length, take, drop, replicate,
  ltb, nat_beq, map, if◌then◌else◌,
}
use g_da_client.Disperser.Status.{
  Error, key_not_found, index_out_of_range, database_not_found, invalid_expiration_key,
  unexpected_eof, deadline_exceeded,
}

-- `DB` of disperser/db.go, on some state. An iterator is the list of what it visits.
pub record Db (S : Type 0) : Type 0 where
  pub put : Bytes → Bytes → S → Result Error S
  pub get : Bytes → S → Result Error Bytes
  pub delete_batch : List Bytes → S → Result Error S
  pub write_batch : List (Bytes × Bytes) → S → Result Error S
  pub new_iterator : Bytes → S → List (Bytes × Bytes)

abbrev pub blob_header_prefix : Bytes
blob_header_prefix =
    b'_' ∷ b'B' ∷ b'L' ∷ b'O' ∷ b'B' ∷ b'_' ∷ b'H' ∷ b'E' ∷ b'A' ∷ b'D' ∷ b'E' ∷ b'R' ∷ b'_' ∷ []

abbrev pub batch_expiration_prefix : Bytes
batch_expiration_prefix =
    b'_' ∷ b'E' ∷ b'X' ∷ b'P' ∷ b'I' ∷ b'R' ∷ b'A' ∷ b'T' ∷ b'I' ∷ b'O' ∷ b'N' ∷ b'_' ∷ []

-- `EncodeBatchExpirationKey`
unfoldable pub encode_batch_expiration_key : ℕ → Bytes
encode_batch_expiration_key expiration_time = batch_expiration_prefix ++ be_bytes 8 expiration_time

-- `DecodeBatchExpirationKey`, before the conversion to `int64`.
unfoldable pub decode_batch_expiration_key : Bytes → Result Error ℕ
decode_batch_expiration_key key =
    if nat_beq (length key) (length batch_expiration_prefix + 8)
    then ok (of_be 0 (drop (length key - 8) key))
    else err invalid_expiration_key

-- `EncodeBlobHeaderKey`
unfoldable pub encode_blob_header_key : Bytes → Bytes
encode_blob_header_key key = blob_header_prefix ++ key

-- The record of the keys of a batch: each with its length in front.
unfoldable pub encode_records : List Bytes → Bytes
encode_records [] = []
encode_records (key ∷ keys) = le_bytes 8 (length key) ++ (key ++ encode_records keys)

-- Has the time passed? A number from 2^63 on is a negative `int64`.
unfoldable pub is_expired : ℕ → ℕ → Bool
is_expired now t = if ltb t (2 ^ 63) then not (ltb now t) else true

-- The scan of `deleteNBlobs`: it passes over keys that cannot be decoded, ends at the first that has not
-- expired, and after `room` keys.
unfoldable pub scan : ℕ → ℕ → List (Bytes × Bytes) → List (Bytes × Bytes)
scan now room [] = []
scan now room ((key, value) ∷ rest) =
    let later = scan now room rest in
    let more = scan now (room - 1) rest in
    elim (decode_batch_expiration_key key) [
      | err _ ↦ later
      | ok t ↦
          if not (is_expired now t)
          then []
          else if nat_beq room 1
          then (key, value) ∷ []
          else (key, value) ∷ more
    ]

-- The loop of `StoreMetadataBatch`: the metadata of a blob is the key of its bytes.
unfoldable pub batch_entries :
    List Bytes → List Bytes → List Bytes → Result Error (List (Bytes × Bytes))
batch_entries [] metadatas blobs = ok []
batch_entries (key ∷ keys) (metadata ∷ metadatas) (blob ∷ blobs) = do
  rest ← batch_entries keys metadatas blobs
  ok ((encode_blob_header_key key, metadata) ∷ (metadata, blob) ∷ rest)
batch_entries (key ∷ keys) metadatas blobs = err index_out_of_range

module _ {S : Type 0} (db : Db S) where
  -- What is to be deleted for one key of a record; where it has no metadata, the empty key stands in its
  -- place.
  unfoldable pub keys_of : Bytes → S → Result Error (List Bytes)
  keys_of chunk s =
      let key = encode_blob_header_key chunk in
      elim (db.get key s) [
        | ok metadata ↦ ok (key ∷ metadata ∷ [])
        | err database_not_found ↦ ok (key ∷ [] ∷ [])
        | err x ↦ err x
      ]

  -- The loop over a record. `Read` fills what it can of a chunk, and reports the end only where nothing
  -- is left. Each round takes a length of 8 bytes, so that `fuel` is the length of the record. A length
  -- for which the allocation of the chunk would fail is not told from the others.
  unfoldable pub read_records : ℕ → Bytes → S → Result Error (List Bytes)
  read_records fuel [] s = ok []
  read_records zero (c ∷ cs) s = ok []
  read_records (suc fuel) (c ∷ cs) s =
      let rest = drop 8 (c ∷ cs) in
      let n = of_le (take 8 (c ∷ cs)) in
      let chunk = take n rest ++ replicate (n - length rest) 0 in
      let later = read_records fuel (drop n rest) s in
      if ltb (length (c ∷ cs)) 8
      then err unexpected_eof
      else if nat_beq (length rest) 0
      then ok []
      else elim (keys_of chunk s) [
        | err x ↦ err x
        | ok keys ↦ do others ← later; ok (keys ++ others)
      ]

  unfoldable pub read_all : List (Bytes × Bytes) → S → Result Error (List Bytes)
  read_all [] s = ok []
  read_all ((key, value) ∷ rows) s = do
    keys ← read_records (length value) value s
    others ← read_all rows s
    ok (keys ++ others)

  pub delete_rows : List (Bytes × Bytes) → S → Result Error (ℕ × S)
  delete_rows [] s = ok (0, s)
  delete_rows (row ∷ rows) s = do
    keys ← read_all (row ∷ rows) s
    s' ← db.delete_batch (map (λ r. r.0) (row ∷ rows) ++ keys) s
    ok (length (row ∷ rows), s')

  -- `deleteNBlobs`; an error is -1.
  unfoldable pub delete_n_blobs : ℕ → ℕ → S → Result Error (ℕ × S)
  unfolding delete_rows
  delete_n_blobs now num_batches s =
      delete_rows (scan now num_batches (db.new_iterator batch_expiration_prefix s)) s

  abbrev pub num_blobs_to_delete_atomically : ℕ
  num_blobs_to_delete_atomically = 8

  -- `DeleteExpiredEntries`, of which `rounds` rounds begin within the time limit: how many were deleted, and
  -- the error.
  unfoldable pub delete_expired_entries : ℕ → ℕ → ℕ → S → S × ℕ × Option Error
  delete_expired_entries now zero deleted s = (s, deleted, some deadline_exceeded)
  delete_expired_entries now (suc rounds) deleted s =
      elim (delete_n_blobs now num_blobs_to_delete_atomically s) [
        | err x ↦ (s, deleted, some x)
        | ok (zero, s') ↦ (s', deleted, none)
        | ok (suc n, s') ↦ delete_expired_entries now rounds (deleted + suc n) s'
      ]

  -- `StoreMetadata`
  unfoldable pub store_metadata : Bytes → Bytes → S → Result Error S
  store_metadata key value s = db.put (encode_blob_header_key key) value s

  -- `StoreMetadataBatch` at the time `now`, with the keys that were written.
  unfoldable pub store_metadata_batch :
      ℕ → ℕ → List Bytes → List Bytes → List Bytes → S → Result Error (List Bytes × S)
  store_metadata_batch time_to_expire now keys metadatas blobs s = do
    entries ← batch_entries keys metadatas blobs
    let rows =
        entries ++ (encode_batch_expiration_key (now + time_to_expire), encode_records keys) ∷ []
    s' ← db.write_batch rows s
    ok (map (λ r. r.0) rows, s')

  -- `GetBlob`
  unfoldable pub get_blob : Bytes → S → Result Error Bytes
  get_blob key s = elim (db.get key s) [
    | ok found ↦ ok found
    | err database_not_found ↦ err key_not_found
    | err x ↦ err x
  ]

  -- `GetMetadata`
  unfoldable pub get_metadata : Bytes → S → Result Error Bytes
  get_metadata key s = get_blob (encode_blob_header_key key) s

  -- `HasKey`
  unfoldable pub has_key : Bytes → S → Bool
  has_key key s = elim (db.get key s) [ err _ ↦ false | ok _ ↦ true ]

  -- `DeleteKeys`
  unfoldable pub delete_keys : List Bytes → S → Result Error S
  delete_keys keys s = db.delete_batch keys s
