-- ===== src/KvStore/Expiry.antt =====
-- What expires (disperser/store.go): the scan finds the batches whose time has come, and what belongs
-- to them is deleted.
use g_da_client.Common.{
  ℕ, suc, List, [], ◌∷◌, ◌++◌, Bytes, ok, err, In, All, map, take, length, ◌≡◌, ◌≢◌, refl, ap, sym,
  ◌∙◌, arith, Result-cases, inl, inr,
}
use g_da_client.Disperser.Status.{database_not_found}
use g_da_client.KvStore.{
  Db, batch_expiration_prefix, encode_records, encode_blob_header_key, encode_batch_expiration_key,
  scan, read_all, delete_n_blobs, delete_rows,
}
use g_da_client.KvStore.Records.{IsRecordable}
use g_da_client.KvStore.Batches.{IsDb}
use g_da_client.KvStore.Found.{AreGone, In-left, In-right, read_all-AreFound, AreFound-AreGone}
use g_da_client.KvStore.Kept.{IsOther, delete_rows-kept, batch-IsOther}
use g_da_client.KvStore.Taken.{IsRecord, In-taken, All-taken}
use g_da_client.KvStore.Scan.{Rows, stored, AreSorted, expired, scan_eq}

module _ {S : Type 0} (db : Db S) where
  In-stored :
      (t : ℕ) (value : Bytes) (rows : Rows)
      → In (t, value) rows
      → In (encode_batch_expiration_key t) (map (λ r. r.0) (stored rows))
  In-stored t value [] i = elim i [ ]
  In-stored t value ((u, w) ∷ rows) (inl e) = inl (ap (λ r. encode_batch_expiration_key r.0) e)
  In-stored t value ((u, w) ∷ rows) (inr i) = inr (In-stored t value rows i)

  length-stored : (rows : Rows) → length (stored rows) ≡ length rows
  length-stored [] = refl
  length-stored ((u, w) ∷ rows) = ap suc (length-stored rows)

  delete_rows_lem :
      (laws : IsDb db) (rows : Rows) (n : ℕ) (s s' : S)
      → delete_rows db (stored rows) s ≡ ok (n, s')
      → (n ≡ length rows)
        × ((t : ℕ) (keys : List Bytes)
            → In (t, encode_records keys) rows
            → All IsRecordable keys
            → (db.get (encode_batch_expiration_key t) s' ≡ err database_not_found)
              × AreGone db keys s s')
  unfolding delete_rows
  delete_rows_lem laws [] n s s' h = (ground arith, λ t keys i fits. elim i [ ])
  delete_rows_lem laws ((u, w) ∷ more) n s s' h =
      let rows : Rows = (u, w) ∷ more in
      elim (Result-cases (read_all db (stored rows) s)) [
        | inr (x, fails) ↦ absurd (ground arith)
        | inl (ks, read) ↦
            let listed = map (λ r. r.0) (stored rows) in
            elim (Result-cases (db.delete_batch (listed ++ ks) s)) [
              | inr (x, fails) ↦ absurd (ground arith)
              | inl (s1, fine) ↦
                  let same : s1 ≡ s' = ground arith in
                  let gone : (x : Bytes)
                      → In x (listed ++ ks)
                      → db.get x s' ≡ err database_not_found =
                    λ x i. laws.deleted (listed ++ ks) s s' x (fine ∙ ap ok same) i in
                  (
                    ground (arith, length-stored more),
                    λ t keys i fits. (
                      gone (encode_batch_expiration_key t) (
                          In-left (encode_batch_expiration_key t) listed ks
                            (In-stored t (encode_records keys) rows i)),
                      AreFound-AreGone db keys ks s s' (λ x j. gone x (In-right x listed ks j))
                          (read_all-AreFound db rows t keys s ks i fits read),
                    ),
                  )
            ]
      ]

  -- A round of the expiry, over a database whose batches are in order, each with the record of keys
  -- that are not empty, and where no metadata is the key of a batch: at most `room` batches go, the
  -- first ones whose time has come, and none if none has; for each of them the entry of every key is
  -- gone, and so is what the metadata there was the key of; every other batch stays, and so does
  -- whatever is neither such a batch, nor the entry of a key of one, nor under its metadata.
  pub delete_n_blobs_lem :
      (laws : IsDb db) (now room n : ℕ) (rows : Rows) (s s' : S)
      → db.new_iterator batch_expiration_prefix s ≡ stored rows
      → AreSorted 0 rows
      → All IsRecord rows
      → ((key : Bytes) (t : ℕ)
          → db.get (encode_blob_header_key key) s ≢ ok (encode_batch_expiration_key t))
      → delete_n_blobs db now (suc room) s ≡ ok (n, s')
      → (n ≡ length (take (suc room) (expired now rows)))
        × ((t : ℕ) (keys : List Bytes)
            → In (t, encode_records keys) (take (suc room) (expired now rows))
            → All IsRecordable keys
            → (db.get (encode_batch_expiration_key t) s' ≡ err database_not_found)
              × AreGone db keys s s')
        × ((t : ℕ) (value : Bytes)
            → In (t, value) rows
            → ((w : Bytes) → ¬ In (t, w) (take (suc room) (expired now rows)))
            → db.get (encode_batch_expiration_key t) s' ≡ db.get (encode_batch_expiration_key t) s)
        × ((x : Bytes)
            → IsOther db (take (suc room) (expired now rows)) s x
            → db.get x s' ≡ db.get x s)
  unfolding delete_n_blobs
  delete_n_blobs_lem laws now room n rows s s' listed sorted records apart h =
      let found = ap (scan now (suc room)) listed ∙ scan_eq now 0 room rows sorted in
      let taken = take (suc room) (expired now rows) in
      let deleted : delete_rows db (stored taken) s ≡ ok (n, s') =
        sym (ap (λ r. delete_rows db r s) found) ∙ h in
      let (count, gone) = delete_rows_lem laws taken n s s' deleted in
      let kept = λ (x : Bytes) (other : IsOther db taken s x).
        delete_rows-kept db laws taken n s s' x
          (All-taken rows taken (λ r i. In-taken r now room rows i) records) deleted other in
      (
        count,
        gone,
        λ t value there untaken.
            kept (encode_batch_expiration_key t)
              (batch-IsOther db now room rows s t value sorted apart there untaken),
        kept,
      )
