-- ===== src/Tests/Kv.antt =====
-- The key-value store over a database that is a list, on concrete inputs.
use g_da_client.Common.{
  ℕ, ◌+◌, Bool, true, false, Option, none, some, List, [], ◌∷◌, ◌++◌, Bytes, bytes_eq, nat_eq, Map,
  Result, ok, err, In, All, lookup, insert, delete, lookup-insert, lookup-delete, take, length,
  str_beq, str_beq_iff, le_bytes, of_le, be_bytes, of_be, ◌==◌, if◌then◌else◌, ◌≡◌, ◌≢◌, refl, sym,
  ◌∙◌, ap, arith, inl, inr,
}
use g_da_client.Disperser.Status.{Error, database_not_found}
use g_da_client.KvStore.{
  Db, batch_expiration_prefix, encode_records, encode_blob_header_key, encode_batch_expiration_key,
  decode_batch_expiration_key, is_expired, scan, keys_of, read_records, read_all, delete_n_blobs,
  delete_expired_entries, batch_entries, store_metadata_batch, get_metadata, get_blob,
}
use g_da_client.KvStore.Records.{all_keys, IsRecordable, read_records-encode_records}
use g_da_client.KvStore.Batches.{IsDb, last_of, without, AllServed, store_metadata_batch_lem}
use g_da_client.KvStore.Rounds.{IsEnd, delete_expired_entries-IsEnd}
use g_da_client.KvStore.Found.{AreGone}
use g_da_client.KvStore.Expiry.{delete_n_blobs_lem}
use g_da_client.KvStore.Kept.{IsOther}
use g_da_client.KvStore.Scan.{Rows, expired}

program : Unit {0}
unfolding lookup insert delete str_beq le_bytes of_le be_bytes of_be encode_records
    encode_blob_header_key encode_batch_expiration_key decode_batch_expiration_key is_expired scan
    keys_of read_records read_all delete_n_blobs batch_entries store_metadata_batch get_metadata
    get_blob
program = tt

abbrev pub State : Type 0
State = Map Bytes Bytes

abbrev found : Option Bytes → Result Error Bytes
found none = err database_not_found
found (some v) = ok v

abbrev pub write : List (Bytes × Bytes) → State → State
write [] s = s
write ((k, v) ∷ rows) s = write rows (insert k v s)

abbrev remove : List Bytes → State → State
remove [] s = s
remove (k ∷ ks) s = remove ks (delete k s)

abbrev starts : Bytes → Bytes → Bool
starts [] key = true
starts (c ∷ cs) [] = false
starts (c ∷ cs) (d ∷ ds) = let rest = starts cs ds in if c == d then rest else false

abbrev with_prefix : Bytes → State → State
with_prefix p [] = []
with_prefix p ((k, v) ∷ s) =
    let rest = with_prefix p s in if starts p k then (k, v) ∷ rest else rest

abbrev pub db : Db State
db = record {
  put = λ k v s. ok (insert k v s);
  get = λ k s. found (lookup k s);
  delete_batch = λ ks s. ok (remove ks s);
  write_batch = λ rows s. ok (write rows s);
  new_iterator = with_prefix;
}

lookup-write :
    (key : Bytes) (rows : List (Bytes × Bytes)) (s : State)
    → lookup key (write rows s)
      ≡ (elim (last_of key rows) [ some v ↦ some v | none ↦ lookup key s ])
lookup-write key [] s = refl
lookup-write key ((k, v) ∷ rows) s =
    ground (arith, lookup-write key rows (insert k v s), lookup-insert k key v s)

lookup-remove_gone :
    (key : Bytes) (ks : List Bytes) (s : State)
    → lookup key s ≡ none
    → lookup key (remove ks s) ≡ none
lookup-remove_gone key [] s h = h
lookup-remove_gone key (k ∷ ks) s h =
    lookup-remove_gone key ks (delete k s) (ground (arith, lookup-delete k key s))

lookup-remove_listed :
    (key : Bytes) (ks : List Bytes) (s : State) → In key ks → lookup key (remove ks s) ≡ none
lookup-remove_listed key [] s i = elim i [ ]
lookup-remove_listed key (k ∷ ks) s (inl e) =
    lookup-remove_gone key ks (delete k s)
      (ground (arith, lookup-delete k key s, str_beq_iff k key))
lookup-remove_listed key (k ∷ ks) s (inr i) = lookup-remove_listed key ks (delete k s) i

lookup-remove_other :
    (key : Bytes) (ks : List Bytes) (s : State)
    → ¬ In key ks
    → lookup key (remove ks s) ≡ lookup key s
lookup-remove_other key [] s h = refl
lookup-remove_other key (k ∷ ks) s h =
    let apart : k ≢ key = λ e. h (inl (sym e)) in
    lookup-remove_other key ks (delete k s) (λ i. h (inr i))
    ∙ ground (arith, lookup-delete k key s, str_beq_iff k key, apart)

with_prefix-delete :
    (p k : Bytes) (s : State) → with_prefix p (delete k s) ≡ delete k (with_prefix p s)
unfolding delete
with_prefix-delete p k [] = refl
with_prefix-delete p k ((j, v) ∷ s) = ground (arith, with_prefix-delete p k s, str_beq_iff j k)

with_prefix-remove :
    (p : Bytes) (ks : List Bytes) (s : State)
    → with_prefix p (remove ks s) ≡ without ks (with_prefix p s)
with_prefix-remove p [] s = refl
with_prefix-remove p (k ∷ ks) s =
    with_prefix-remove p ks (delete k s) ∙ ap (without ks) (with_prefix-delete p k s)

pub laws : IsDb db
laws = record {
  written = λ rows s s' key value done last. ground (arith, lookup-write key rows s);
  not_written = λ rows s s' key done last. ground (arith, lookup-write key rows s);
  deleted = λ keys s s' key done i. ground (arith, lookup-remove_listed key keys s i);
  not_deleted = λ keys s s' key done i. ground (arith, lookup-remove_other key keys s i);
  left = λ keys s s' p done. ap (with_prefix p) (sym (ground arith)) ∙ with_prefix-remove p keys s;
}

abbrev keys : List Bytes
keys = (1 ∷ []) ∷ (2 ∷ 3 ∷ []) ∷ []

keys_fit : All IsRecordable keys
keys_fit = ((omega arith, omega arith), ((omega arith, omega arith), tt))

read_records-encode_records_example :
    read_records db 100 (encode_records keys) [] ≡ all_keys db keys []
unfolding program
read_records-encode_records_example =
    read_records-encode_records db 100 keys [] keys_fit (omega arith)

abbrev metadatas : List Bytes
metadatas = (7 ∷ []) ∷ (8 ∷ []) ∷ []

abbrev blobs : List Bytes
blobs = (5 ∷ 5 ∷ []) ∷ (6 ∷ []) ∷ []

abbrev entries : List (Bytes × Bytes)
entries =
    (encode_blob_header_key (1 ∷ []), 7 ∷ [])
    ∷ (7 ∷ [], 5 ∷ 5 ∷ [])
    ∷ (encode_blob_header_key (2 ∷ 3 ∷ []), 8 ∷ [])
    ∷ (8 ∷ [], 6 ∷ [])
    ∷ []

abbrev expiry : Bytes × Bytes
expiry = (encode_batch_expiration_key 160, encode_records keys)

abbrev written : List Bytes
written =
    encode_blob_header_key (1 ∷ [])
    ∷ (7 ∷ [])
    ∷ encode_blob_header_key (2 ∷ 3 ∷ [])
    ∷ (8 ∷ [])
    ∷ encode_batch_expiration_key 160
    ∷ []

abbrev full : State
full = write (entries ++ expiry ∷ []) []

stores : store_metadata_batch db 60 100 keys metadatas blobs [] ≡ ok (written, full)
unfolding program
stores = refl

store_metadata_batch_lem_example :
    AllServed db keys metadatas blobs full
    × (db.get (encode_batch_expiration_key (100 + 60)) full ≡ ok (encode_records keys))
unfolding program
store_metadata_batch_lem_example =
    store_metadata_batch_lem db laws 60 100 keys metadatas blobs entries written [] full refl
      (refl, (refl, (refl, (refl, (refl, tt))))) stores

abbrev rows : Rows
rows = (160, encode_records keys) ∷ []

deletes : delete_n_blobs db 200 8 full ≡ ok (1, [])
unfolding program
deletes = refl

listed :
    db.new_iterator batch_expiration_prefix full
    ≡ (encode_batch_expiration_key 160, encode_records keys) ∷ []
unfolding program
listed = refl

abbrev first : Bytes → ℕ
first [] = 0
first (c ∷ cs) = c

lookup-first :
    (k v : Bytes) (s : State) → All (λ r. first r.1 ≢ 95) s → lookup k s ≡ some v → first v ≢ 95
unfolding lookup
lookup-first k v [] h here = absurd (ground arith)
lookup-first k v ((j, w) ∷ s) h here = ground (arith, lookup-first k v s h.1, h.0)

found-some : (x : Option Bytes) (v : Bytes) → found x ≡ ok v → x ≡ some v
found-some none v h = absurd (ground arith)
found-some (some w) v h = ground arith

values_apart : All (λ r. first r.1 ≢ 95) full
unfolding program
values_apart = omega arith

-- No metadata is the key of a batch: each begins with another byte.
apart :
    (key : Bytes) (t : ℕ)
    → db.get (encode_blob_header_key key) full ≢ ok (encode_batch_expiration_key t)
unfolding encode_batch_expiration_key
apart key t e =
    lookup-first (encode_blob_header_key key) (encode_batch_expiration_key t) full values_apart
      (found-some _ _ e) refl

delete_n_blobs_lem_example :
    (1 ≡ length (take 8 (expired 200 rows)))
    × ((t : ℕ) (ks : List Bytes)
        → In (t, encode_records ks) (take 8 (expired 200 rows))
        → All IsRecordable ks
        → (db.get (encode_batch_expiration_key t) [] ≡ err database_not_found)
          × AreGone db ks full [])
    × ((t : ℕ) (value : Bytes)
        → In (t, value) rows
        → ((w : Bytes) → ¬ In (t, w) (take 8 (expired 200 rows)))
        → db.get (encode_batch_expiration_key t) [] ≡ db.get (encode_batch_expiration_key t) full)
    × ((x : Bytes) → IsOther db (take 8 (expired 200 rows)) full x → db.get x [] ≡ db.get x full)
delete_n_blobs_lem_example =
    delete_n_blobs_lem db laws 200 7 1 rows full [] listed (omega arith, omega arith, tt)
      ((keys, refl, keys_fit), tt) apart deletes

delete_expired_entries-IsEnd_example : IsEnd db laws 200 (delete_expired_entries db 200 2 0 full)
unfolding program
delete_expired_entries-IsEnd_example =
    delete_expired_entries-IsEnd db laws 200 0 1 full (omega arith)
