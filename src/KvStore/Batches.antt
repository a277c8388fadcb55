-- ===== src/KvStore/Batches.antt =====
-- Batches of the key-value store (disperser/store.go): what is stored is read back.
use g_da_client.Common.{
  ℕ, zero, suc, ◌+◌, Option, get_elem?, none, some, List, [], ◌∷◌, ◌++◌, Bytes, bytes_eq, ok, err,
  In, Distinct, lookup, delete, str_beq_iff, ◌==◌, ==_refl, if◌then◌else◌, ◌≡◌, refl, ap, subst,
  ◌∙◌, arith, Result-cases, inl, inr,
}
use g_da_client.Disperser.Status.{database_not_found}
use g_da_client.KvStore.{
  Db, encode_records, encode_blob_header_key, encode_batch_expiration_key, batch_entries,
  store_metadata_batch, get_metadata, get_blob,
}

-- The last value that is written under a key.
abbrev pub last_of : Bytes → List (Bytes × Bytes) → Option Bytes
last_of key [] = none
last_of key ((k, v) ∷ rest) = elim (last_of key rest) [
  | some w ↦ some w
  | none ↦ if k == key then some v else none
]

-- The rows whose keys are not deleted.
abbrev pub without : List Bytes → List (Bytes × Bytes) → List (Bytes × Bytes)
without [] rows = rows
without (k ∷ ks) rows = without ks (delete k rows)

-- What the database promises: a batch is written as a whole, later entries over earlier ones, and
-- deleted as a whole; no other key changes. An iterator visits what is left.
pub record IsDb {S : Type 0} (db : Db S) : Type 0 where
  pub written :
      (rows : List (Bytes × Bytes)) (s s' : S) (key value : Bytes)
      → db.write_batch rows s ≡ ok s'
      → last_of key rows ≡ some value
      → db.get key s' ≡ ok value
  pub not_written :
      (rows : List (Bytes × Bytes)) (s s' : S) (key : Bytes)
      → db.write_batch rows s ≡ ok s'
      → last_of key rows ≡ none
      → db.get key s' ≡ db.get key s
  pub deleted :
      (keys : List Bytes) (s s' : S) (key : Bytes)
      → db.delete_batch keys s ≡ ok s'
      → In key keys
      → db.get key s' ≡ err database_not_found
  pub not_deleted :
      (keys : List Bytes) (s s' : S) (key : Bytes)
      → db.delete_batch keys s ≡ ok s'
      → ¬ In key keys
      → db.get key s' ≡ db.get key s
  pub left :
      (keys : List Bytes) (s s' : S) (prefix : Bytes)
      → db.delete_batch keys s ≡ ok s'
      → db.new_iterator prefix s' ≡ without keys (db.new_iterator prefix s)

last_of-lookup :
    (key : Bytes) (rows : List (Bytes × Bytes)) → Distinct rows → last_of key rows ≡ lookup key rows
unfolding lookup
last_of-lookup key [] h = refl
last_of-lookup key ((k, v) ∷ rest) h =
    ground (arith, last_of-lookup key rest h.1, str_beq_iff k key)

In-lookup :
    (key value : Bytes) (rows : List (Bytes × Bytes))
    → Distinct rows
    → In (key, value) rows
    → lookup key rows ≡ some value
unfolding lookup
In-lookup key value [] h i = elim i [ ]
In-lookup key value ((k, v) ∷ rest) h (inl e) = ground (arith, ==_refl k)
In-lookup key value ((k, v) ∷ rest) h (inr i) =
    ground (arith, In-lookup key value rest h.1 i, str_beq_iff k key)

-- Each key leads to its metadata, and the metadata to the bytes of the blob.
abbrev pub AllServed : {S : Type 0} → Db S → List Bytes → List Bytes → List Bytes → S → Type 0
AllServed db [] metadatas blobs s = Unit
AllServed db (key ∷ keys) [] blobs s = ⊥
AllServed db (key ∷ keys) (metadata ∷ metadatas) [] s = ⊥
AllServed db (key ∷ keys) (metadata ∷ metadatas) (blob ∷ blobs) s =
    (get_metadata db key s ≡ ok metadata)
    × (get_blob db metadata s ≡ ok blob)
    × AllServed db keys metadatas blobs s

-- At every place.
pub AllServed-get_elem? :
    {S : Type 0} (db : Db S) (i : ℕ) (keys metadatas blobs : List Bytes) (key metadata blob : Bytes)
    (s : S)
    → get_elem? keys i ≡ some key
    → get_elem? metadatas i ≡ some metadata
    → get_elem? blobs i ≡ some blob
    → AllServed db keys metadatas blobs s
    → (get_metadata db key s ≡ ok metadata) × (get_blob db metadata s ≡ ok blob)
AllServed-get_elem? db i [] metadatas blobs key metadata blob s k m b h = absurd (ground arith)
AllServed-get_elem? db i (x ∷ keys) [] blobs key metadata blob s k m b h = absurd h
AllServed-get_elem? db i (x ∷ keys) (y ∷ metadatas) [] key metadata blob s k m b h = absurd h
AllServed-get_elem? db zero (x ∷ keys) (y ∷ metadatas) (z ∷ blobs) key metadata blob s k m b h =
    ground (arith, h.0, h.1)
AllServed-get_elem? db (suc i) (x ∷ keys) (y ∷ metadatas) (z ∷ blobs) key metadata blob s k m b h =
    AllServed-get_elem? db i keys metadatas blobs key metadata blob s k m b h.2

module _ {S : Type 0} (db : Db S) where
  served :
      (keys metadatas blobs : List Bytes) (entries : List (Bytes × Bytes)) (s : S)
      → batch_entries keys metadatas blobs ≡ ok entries
      → ((k v : Bytes) → In (k, v) entries → db.get k s ≡ ok v)
      → AllServed db keys metadatas blobs s
  unfolding batch_entries get_metadata get_blob
  served [] metadatas blobs entries s made found = tt
  served (key ∷ keys) [] blobs entries s made found = absurd (ground arith)
  served (key ∷ keys) (metadata ∷ metadatas) [] entries s made found = absurd (ground arith)
  served (key ∷ keys) (metadata ∷ metadatas) (blob ∷ blobs) entries s made found =
      elim (Result-cases (batch_entries keys metadatas blobs)) [
        | inr (x, fails) ↦ absurd (ground arith)
        | inl (rest, fine) ↦
            let all : (encode_blob_header_key key, metadata) ∷ (metadata, blob) ∷ rest ≡ entries =
              ground arith in
            let here =
              found (encode_blob_header_key key) metadata
                (subst (In (encode_blob_header_key key, metadata)) all (inl refl)) in
            let there = found metadata blob (subst (In (metadata, blob)) all (inr (inl refl))) in
            (
              ground arith,
              ground arith,
              served keys metadatas blobs rest s fine
                  (λ k v i. found k v (subst (In (k, v)) all (inr (inr i)))),
            )
      ]

  In-front : {A : Type 0} (x : A) (xs ys : List A) → In x xs → In x (xs ++ ys)
  In-front x [] ys i = elim i [ ]
  In-front x (y ∷ xs) ys (inl e) = inl e
  In-front x (y ∷ xs) ys (inr i) = inr (In-front x xs ys i)

  In-end : {A : Type 0} (x : A) (xs : List A) → In x (xs ++ x ∷ [])
  In-end x [] = inl refl
  In-end x (y ∷ xs) = inr (In-end x xs)

  -- A batch that is stored, and writes no key twice, is read back: every blob's metadata under its
  -- key, its bytes under the metadata, and the record of the batch under the time of its expiry,
  -- whatever was there before.
  pub store_metadata_batch_lem :
      (laws : IsDb db) (time_to_expire now : ℕ) (keys metadatas blobs : List Bytes)
      (entries : List (Bytes × Bytes)) (written : List Bytes) (s s' : S)
      → batch_entries keys metadatas blobs ≡ ok entries
      → Distinct (
          entries ++ (encode_batch_expiration_key (now + time_to_expire), encode_records keys) ∷ [])
      → store_metadata_batch db time_to_expire now keys metadatas blobs s ≡ ok (written, s')
      → AllServed db keys metadatas blobs s'
        × (db.get (encode_batch_expiration_key (now + time_to_expire)) s'
            ≡ ok (encode_records keys))
  unfolding store_metadata_batch
  store_metadata_batch_lem laws time_to_expire now keys metadatas blobs entries written s s' made
        distinct h =
      let last : Bytes × Bytes =
        (encode_batch_expiration_key (now + time_to_expire), encode_records keys) in
      let rows = entries ++ last ∷ [] in
      elim (Result-cases (db.write_batch rows s)) [
        | inr (x, fails) ↦ absurd (ground arith)
        | inl (s1, fine) ↦
            let same : s1 ≡ s' = ground arith in
            let found : (k v : Bytes) → In (k, v) rows → db.get k s' ≡ ok v = λ k v i.
              laws.written rows s s' k v (fine ∙ ap ok same)
                (last_of-lookup k rows distinct ∙ In-lookup k v rows distinct i) in
            (
              served keys metadatas blobs entries s' made
                  (λ k v i. found k v (In-front (k, v) entries (last ∷ []) i)),
              found last.0 last.1 (In-end last entries),
            )
      ]
