-- ===== src/KvStore/Found.antt =====
-- What the records of expired batches (disperser/store.go) make the store delete: for each key of a
-- batch its entry, and what the metadata there is the key of.
use g_da_client.Common.{
  ℕ, List, [], ◌∷◌, ◌++◌, Bytes, ok, err, In, All, length, ◌≡◌, refl, ap, sym, subst, ◌∙◌, arith,
  Result-cases, inl, inr,
}
use g_da_client.Disperser.Status.{database_not_found}
use g_da_client.KvStore.{
  Db, encode_records, encode_blob_header_key, keys_of, read_records, read_all,
}
use g_da_client.KvStore.Records.{IsRecordable, all_keys, read_records-encode_records}
use g_da_client.KvStore.Scan.{Rows, stored}

-- What must be gone after a batch has expired: for each of its keys the entry itself, and what its metadata was the key of.
abbrev pub AreGone : {S : Type 0} → Db S → List Bytes → S → S → Type 0
AreGone db keys s s' =
    All
      (λ key.
        (db.get (encode_blob_header_key key) s' ≡ err database_not_found)
        × ((metadata : Bytes)
            → db.get (encode_blob_header_key key) s ≡ ok metadata
            → db.get metadata s' ≡ err database_not_found))
      keys

abbrev Within : List Bytes → List Bytes → Type 0
Within xs ys = (x : Bytes) → In x xs → In x ys

pub In-left : (x : Bytes) (xs ys : List Bytes) → In x xs → In x (xs ++ ys)
In-left x [] ys i = elim i [ ]
In-left x (y ∷ xs) ys (inl e) = inl e
In-left x (y ∷ xs) ys (inr i) = inr (In-left x xs ys i)

pub In-right : (x : Bytes) (xs ys : List Bytes) → In x ys → In x (xs ++ ys)
In-right x [] ys i = i
In-right x (y ∷ xs) ys i = inr (In-right x xs ys i)

module _ {S : Type 0} (db : Db S) where
  -- The header and the metadata of each key are among the keys to delete.
  abbrev pub AreFound : List Bytes → S → List Bytes → Type 0
  AreFound keys s deleted =
      All
        (λ key.
          In (encode_blob_header_key key) deleted
          × ((metadata : Bytes)
              → db.get (encode_blob_header_key key) s ≡ ok metadata
              → In metadata deleted))
        keys

  AreFound-Within :
      (keys xs ys : List Bytes) (s : S) → Within xs ys → AreFound keys s xs → AreFound keys s ys
  AreFound-Within [] xs ys s within h = tt
  AreFound-Within (key ∷ keys) xs ys s within h = (
    (within (encode_blob_header_key key) h.0.0, λ m e. within m (h.0.1 m e)),
    AreFound-Within keys xs ys s within h.1,
  )

  keys_of-found :
      (key : Bytes) (s : S) (ks : List Bytes)
      → keys_of db key s ≡ ok ks
      → In (encode_blob_header_key key) ks
        × ((metadata : Bytes)
            → db.get (encode_blob_header_key key) s ≡ ok metadata
            → In metadata ks)
  unfolding keys_of
  keys_of-found key s ks h = elim (Result-cases (db.get (encode_blob_header_key key) s)) [
    | inl (m, here) ↦
        let is : encode_blob_header_key key ∷ m ∷ [] ≡ ks = ground arith in
        subst
          (λ ks.
            In (encode_blob_header_key key) ks
            × ((metadata : Bytes)
                → db.get (encode_blob_header_key key) s ≡ ok metadata
                → In metadata ks))
          is (inl refl, λ n e. inr (inl (ground arith)))
    | inr (x, gone) ↦
        let is : encode_blob_header_key key ∷ [] ∷ [] ≡ ks = ground arith in
        (subst (In (encode_blob_header_key key)) is (inl refl), λ n e. absurd (ground arith))
  ]

  all_keys-AreFound :
      (keys : List Bytes) (s : S) (ks : List Bytes)
      → all_keys db keys s ≡ ok ks
      → AreFound keys s ks
  all_keys-AreFound [] s ks h = tt
  all_keys-AreFound (key ∷ keys) s ks h = elim (Result-cases (keys_of db key s)) [
    | inr (x, fails) ↦ absurd (ground arith)
    | inl (mine, fine) ↦ elim (Result-cases (all_keys db keys s)) [
      | inr (x, fails) ↦ absurd (ground arith)
      | inl (others, well) ↦
          let is : mine ++ others ≡ ks = ground arith in
          let (header, metadata) = keys_of-found key s mine fine in
          subst (AreFound (key ∷ keys) s) is (
            (
              In-left (encode_blob_header_key key) mine others header,
              λ m e. In-left m mine others (metadata m e),
            ),
            AreFound-Within keys others (mine ++ others) s (λ x i. In-right x mine others i)
                (all_keys-AreFound keys s others well),
          )
    ]
  ]

  pub read_all-AreFound :
      (rows : Rows) (t : ℕ) (keys : List Bytes) (s : S) (ks : List Bytes)
      → In (t, encode_records keys) rows
      → All IsRecordable keys
      → read_all db (stored rows) s ≡ ok ks
      → AreFound keys s ks
  unfolding read_all
  read_all-AreFound [] t keys s ks i fits h = elim i [ ]
  read_all-AreFound ((u, value) ∷ rows) t keys s ks i fits h =
      elim (Result-cases (read_records db (length value) value s)) [
        | inr (x, fails) ↦ absurd (ground arith)
        | inl (mine, fine) ↦ elim (Result-cases (read_all db (stored rows) s)) [
          | inr (x, fails) ↦ absurd (ground arith)
          | inl (others, well) ↦
              let is : mine ++ others ≡ ks = ground arith in
              elim i [
                | inl e ↦
                    let same : encode_records keys ≡ value = ap (λ r. r.1) e in
                    let read : all_keys db keys s ≡ ok mine =
                      sym (
                        read_records-encode_records db (length (encode_records keys)) keys s fits
                          (omega arith))
                      ∙ ap (λ v. read_records db (length v) v s) same
                      ∙ fine in
                    subst (AreFound keys s) is (
                      AreFound-Within keys mine (mine ++ others) s (λ x i. In-left x mine others i)
                        (all_keys-AreFound keys s mine read))
                | inr j ↦ subst (AreFound keys s) is (
                    AreFound-Within keys others (mine ++ others) s (λ x i. In-right x mine others i)
                      (read_all-AreFound rows t keys s others j fits well))
              ]
        ]
      ]

  pub AreFound-AreGone :
      (keys ks : List Bytes) (s s' : S)
      → ((x : Bytes) → In x ks → db.get x s' ≡ err database_not_found)
      → AreFound keys s ks
      → AreGone db keys s s'
  AreFound-AreGone [] ks s s' gone h = tt
  AreFound-AreGone (key ∷ keys) ks s s' gone h = (
    (gone (encode_blob_header_key key) h.0.0, λ m e. gone m (h.0.1 m e)),
    AreFound-AreGone keys ks s s' gone h.1,
  )
