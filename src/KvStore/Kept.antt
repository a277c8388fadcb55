-- ===== src/KvStore/Kept.antt =====
-- What a round of the expiry (`deleteNBlobs` of disperser/store.go) leaves as it is.
use g_da_client.Common.{
  ℕ, suc, ◌^◌, ◌<◌, List, [], ◌∷◌, ◌++◌, Bytes, ok, In, All, All-In, map, take, length, Result, ◌≡◌,
  ◌≢◌, ◌⊎◌, refl, ap, sym, subst, ◌∙◌, arith, Result-cases, inl, inr,
}
use g_da_client.KvStore.{
  Db, decode_batch_expiration_key, encode_records, encode_blob_header_key,
  encode_batch_expiration_key, keys_of, read_records, read_all, delete_rows,
}
use g_da_client.KvStore.Keys.{decode-encode_batch_expiration_key}
use g_da_client.KvStore.Records.{all_keys, read_records-encode_records}
use g_da_client.KvStore.Batches.{IsDb}
use g_da_client.KvStore.Taken.{IsRecord, In-append, In-taken, below, In-keys}
use g_da_client.KvStore.Scan.{Rows, stored, AreSorted, expired}

module _ {S : Type 0} (db : Db S) where
  -- The entry of the key, what its metadata is the key of, or the empty key.
  abbrev pub IsEntry : Bytes → S → Bytes → Type 0
  IsEntry key s x =
      (x ≡ encode_blob_header_key key) ⊎ ((db.get (encode_blob_header_key key) s ≡ ok x) ⊎ (x ≡ []))

  -- Nothing that the batches stand for has the key: neither a batch, nor a blob of one, nor its entry.
  abbrev pub IsOther : Rows → S → Bytes → Type 0
  IsOther rows s x =
      (t : ℕ) (keys : List Bytes)
      → In (t, encode_records keys) rows
      → (x ≢ encode_batch_expiration_key t) × ((key : Bytes) → In key keys → ¬ IsEntry key s x)

  keys_of-IsEntry :
      (key : Bytes) (s : S) (ks : List Bytes) (x : Bytes)
      → keys_of db key s ≡ ok ks
      → In x ks
      → IsEntry key s x
  unfolding keys_of
  keys_of-IsEntry key s ks x h i = elim (Result-cases (db.get (encode_blob_header_key key) s)) [
    | inl (m, here) ↦
        let is : ks ≡ encode_blob_header_key key ∷ m ∷ [] = ground arith in
        elim (subst (In x) is i) [
          | inl e ↦ inl e
          | inr (inl e) ↦ inr (inl (here ∙ ap ok (sym e)))
          | inr (inr j) ↦ absurd j
        ]
    | inr (y, gone) ↦
        let is : ks ≡ encode_blob_header_key key ∷ [] ∷ [] = ground arith in
        elim (subst (In x) is i) [
          | inl e ↦ inl e
          | inr (inl e) ↦ inr (inr e)
          | inr (inr j) ↦ absurd j
        ]
  ]

  all_keys-IsEntry :
      (keys : List Bytes) (s : S) (ks : List Bytes) (x : Bytes)
      → all_keys db keys s ≡ ok ks
      → In x ks
      → (key : Bytes) × In key keys × IsEntry key s x
  all_keys-IsEntry [] s ks x h i = let is : ks ≡ [] = ground arith in absurd (subst (In x) is i)
  all_keys-IsEntry (key ∷ keys) s ks x h i = elim (Result-cases (keys_of db key s)) [
    | inr (y, fails) ↦ absurd (ground arith)
    | inl (mine, fine) ↦ elim (Result-cases (all_keys db keys s)) [
      | inr (y, fails) ↦ absurd (ground arith)
      | inl (others, well) ↦
          let is : ks ≡ mine ++ others = ground arith in
          elim (In-append x mine others (subst (In x) is i)) [
            | inl j ↦ (key, inl refl, keys_of-IsEntry key s mine x fine j)
            | inr j ↦
                let later = all_keys-IsEntry keys s others x well j in
                (later.0, inr later.1, later.2)
          ]
    ]
  ]

  read_all-IsEntry :
      (rows : Rows) (s : S) (ks : List Bytes) (x : Bytes)
      → All IsRecord rows
      → read_all db (stored rows) s ≡ ok ks
      → In x ks
      → (t : ℕ) × (keys : List Bytes) × In (t, encode_records keys) rows
        × (key : Bytes) × In key keys
        × IsEntry key s x
  unfolding read_all
  read_all-IsEntry [] s ks x records h i =
      let is : ks ≡ [] = ground arith in absurd (subst (In x) is i)
  read_all-IsEntry ((t, value) ∷ rows) s ks x ((keys, same, fits), records) h i =
      elim (Result-cases (read_records db (length value) value s)) [
        | inr (y, fails) ↦ absurd (ground arith)
        | inl (mine, fine) ↦ elim (Result-cases (read_all db (stored rows) s)) [
          | inr (y, fails) ↦ absurd (ground arith)
          | inl (others, well) ↦
              let is : ks ≡ mine ++ others = ground arith in
              elim (In-append x mine others (subst (In x) is i)) [
                | inl j ↦
                    let read : all_keys db keys s ≡ ok mine =
                      sym (
                        read_records-encode_records db (length (encode_records keys)) keys s fits
                          (omega arith))
                      ∙ ap (λ v. read_records db (length v) v s) (sym same)
                      ∙ fine in
                    let found = all_keys-IsEntry keys s mine x read j in
                    (t, keys, inl (ap (λ v. (t, v)) (sym same)), found.0, found.1, found.2)
                | inr j ↦
                    let (u, ls, k, key, l, entry) =
                      read_all-IsEntry rows s others x records well j in
                    (u, ls, inr k, key, l, entry)
              ]
        ]
      ]

  pub delete_rows-kept :
      (laws : IsDb db) (rows : Rows) (n : ℕ) (s s' : S) (x : Bytes)
      → All IsRecord rows
      → delete_rows db (stored rows) s ≡ ok (n, s')
      → IsOther rows s x
      → db.get x s' ≡ db.get x s
  unfolding delete_rows
  delete_rows-kept laws [] n s s' x records h other =
      let same : s' ≡ s = ground arith in ap (db.get x) same
  delete_rows-kept laws ((u, w) ∷ more) n s s' x records h other =
      let rows : Rows = (u, w) ∷ more in
      elim (Result-cases (read_all db (stored rows) s)) [
        | inr (y, fails) ↦ absurd (ground arith)
        | inl (ks, read) ↦
            let listed = map (λ r. r.0) (stored rows) in
            elim (Result-cases (db.delete_batch (listed ++ ks) s)) [
              | inr (y, fails) ↦ absurd (ground arith)
              | inl (s1, fine) ↦
                  let same : s1 ≡ s' = ground arith in
                  laws.not_deleted (listed ++ ks) s s' x (fine ∙ ap ok same) (λ i.
                    elim (In-append x listed ks i) [
                      | inl j ↦
                          let (t, value, k, e) = In-keys x rows j in
                          let (keys, is, fits) = All-In IsRecord (t, value) rows records k in
                          (other t keys (subst (λ v. In (t, v) rows) is k)).0 e
                      | inr j ↦
                          let (t, keys, k, key, l, entry) =
                            read_all-IsEntry rows s ks x records read j in
                          (other t keys k).1 key l entry
                    ])
            ]
      ]

  header_apart : (key : Bytes) (t : ℕ) → encode_batch_expiration_key t ≢ encode_blob_header_key key
  unfolding encode_batch_expiration_key encode_blob_header_key
  header_apart key t e = absurd (ground arith)

  some_key : (t : ℕ) → encode_batch_expiration_key t ≢ []
  unfolding encode_batch_expiration_key
  some_key t e = absurd (ground arith)

  keys_apart :
      (t u : ℕ)
      → t < 2 ^ 63
      → u < 2 ^ 63
      → encode_batch_expiration_key t ≡ encode_batch_expiration_key u
      → t ≡ u
  keys_apart t u ht hu e =
      let read : Result.ok t ≡ ok u =
        sym (decode-encode_batch_expiration_key t (omega arith))
        ∙ ap decode_batch_expiration_key e
        ∙ decode-encode_batch_expiration_key u (omega arith) in
      ground arith

  -- Another batch of the database is such a key, where no metadata is.
  pub batch-IsOther :
      (now room : ℕ) (rows : Rows) (s : S) (t : ℕ) (value : Bytes)
      → AreSorted 0 rows
      → ((key : Bytes) (u : ℕ)
          → db.get (encode_blob_header_key key) s ≢ ok (encode_batch_expiration_key u))
      → In (t, value) rows
      → ((w : Bytes) → ¬ In (t, w) (take (suc room) (expired now rows)))
      → IsOther (take (suc room) (expired now rows)) s (encode_batch_expiration_key t)
  batch-IsOther now room rows s t value sorted apart there untaken = λ u keys i. (
    λ e.
        let low = below u 0 (encode_records keys) rows sorted (In-taken _ now room rows i) in
        let same : u ≡ t = sym (keys_apart t u (below t 0 value rows sorted there) low e) in
        untaken (encode_records keys)
          (subst (λ v. In (v, encode_records keys) (take (suc room) (expired now rows))) same i),
    λ key j entry. elim entry [
      | inl e ↦ header_apart key t e
      | inr (inl e) ↦ apart key t e
      | inr (inr e) ↦ some_key t e
    ],
  )
