-- ===== src/KvStore/Rounds.antt =====
-- `DeleteExpiredEntries` (disperser/store.go) comes to its end.
use g_da_client.Common.{
  ℕ, zero, suc, ◌+◌, ◌-◌, ◌≤◌, ◌<◌, false, Option, none, some, List, [], ◌∷◌, ◌++◌, Bytes, bytes_eq,
  ok, err, In, delete, map, length, str_beq, str_beq_iff, ◌≡◌, ◌⊎◌, refl, ap, sym, subst, ◌∙◌,
  arith, Bool-cases, Result-cases, nat_beq, inl, inr,
}
use g_da_client.Disperser.Status.{Error}
use g_da_client.KvStore.{
  Db, batch_expiration_prefix, decode_batch_expiration_key, is_expired, scan, read_all, delete_rows,
  delete_n_blobs, delete_expired_entries,
}
use g_da_client.KvStore.Batches.{IsDb, without}

scan-In :
    (now room : ℕ) (rows : List (Bytes × Bytes)) (r : Bytes × Bytes)
    → In r (scan now room rows)
    → In r rows
unfolding scan
scan-In now room [] r i = i
scan-In now room ((key, value) ∷ rest) r i = elim (Result-cases (decode_batch_expiration_key key)) [
  | inr (x, odd) ↦
      let passed : scan now room ((key, value) ∷ rest) ≡ scan now room rest = ground arith in
      inr (scan-In now room rest r (subst (In r) passed i))
  | inl (t, fine) ↦ elim (Bool-cases (is_expired now t)) [
    | inr young ↦
        let ended : scan now room ((key, value) ∷ rest) ≡ [] = ground arith in
        absurd (subst (In r) ended i)
    | inl old ↦ elim (Bool-cases (nat_beq room 1)) [
      | inl last ↦
          let one : scan now room ((key, value) ∷ rest) ≡ (key, value) ∷ [] = ground arith in
          elim (subst (In r) one i) [ inl e ↦ inl e | inr none_left ↦ absurd none_left ]
      | inr more ↦
          let on : scan now room ((key, value) ∷ rest) ≡ (key, value) ∷ scan now (room - 1) rest =
            ground arith in
          elim (subst (In r) on i) [
            | inl e ↦ inl e
            | inr later ↦ inr (scan-In now (room - 1) rest r later)
          ]
    ]
  ]
]

length-delete : (k : Bytes) (rows : List (Bytes × Bytes)) → length (delete k rows) ≤ length rows
unfolding delete
length-delete k [] = omega arith
length-delete k ((j, v) ∷ rows) = ground (arith, length-delete k rows)

length-delete_listed :
    (k v : Bytes) (rows : List (Bytes × Bytes))
    → In (k, v) rows
    → length (delete k rows) < length rows
unfolding delete
length-delete_listed k v [] i = elim i [ ]
length-delete_listed k v ((j, w) ∷ rows) (inl e) =
    ground (arith, length-delete k rows, (str_beq_iff j k).1 (sym (ap (λ r. r.0) e)))
length-delete_listed k v ((j, w) ∷ rows) (inr i) = ground (arith, length-delete_listed k v rows i)

In-delete :
    (k v j : Bytes) (rows : List (Bytes × Bytes))
    → str_beq k j ≡ false
    → In (k, v) rows
    → In (k, v) (delete j rows)
unfolding delete
In-delete k v j [] h i = i
In-delete k v j ((l, w) ∷ rows) h (inl e) =
    let apart : str_beq l j ≡ false = subst (λ x. str_beq x j ≡ false) (ap (λ r. r.0) e) h in
    rw apart (inl e)
In-delete k v j ((l, w) ∷ rows) h (inr i) = elim (Bool-cases (str_beq l j)) [
  | inl same ↦ rw same (In-delete k v j rows h i)
  | inr other ↦ rw other (inr (In-delete k v j rows h i))
]

length-without :
    (ks : List Bytes) (rows : List (Bytes × Bytes)) → length (without ks rows) ≤ length rows
length-without [] rows = omega arith
length-without (k ∷ ks) rows =
    omega (arith, length-without ks (delete k rows), length-delete k rows)

length-without_listed :
    (k v : Bytes) (ks : List Bytes) (rows : List (Bytes × Bytes))
    → In k ks
    → In (k, v) rows
    → length (without ks rows) < length rows
length-without_listed k v [] rows i there = elim i [ ]
length-without_listed k v (j ∷ ks) rows i there = elim (Bool-cases (str_beq k j)) [
  | inl same ↦
      let e : k ≡ j = (str_beq_iff k j).0 same in
      omega (
        arith,
        length-without ks (delete j rows),
        length-delete_listed j v rows (subst (λ x. In (x, v) rows) e there),
      )
  | inr other ↦ elim i [
    | inl e ↦ absurd (ground (arith, str_beq_iff k j))
    | inr later ↦ omega (
      arith,
      length-without_listed k v ks (delete j rows) later (In-delete k v j rows other there),
      length-delete j rows,
    )
  ]
]

module _ {S : Type 0} (db : Db S) (laws : IsDb db) where
  abbrev listed : S → List (Bytes × Bytes)
  listed s = db.new_iterator batch_expiration_prefix s

  fewer :
      (rows : List (Bytes × Bytes)) (n : ℕ) (s s' : S)
      → ((r : Bytes × Bytes) → In r rows → In r (listed s))
      → delete_rows db rows s ≡ ok (suc n, s')
      → length (listed s') < length (listed s)
  unfolding delete_rows
  fewer [] n s s' there h = absurd (ground arith)
  fewer ((k, v) ∷ rows) n s s' there h = elim (Result-cases (read_all db ((k, v) ∷ rows) s)) [
    | inr (x, fails) ↦ absurd (ground arith)
    | inl (ks, read) ↦
        let keys = map (λ r. r.0) ((k, v) ∷ rows) ++ ks in
        elim (Result-cases (db.delete_batch keys s)) [
          | inr (x, fails) ↦ absurd (ground arith)
          | inl (s1, fine) ↦
              let same : s1 ≡ s' = ground arith in
              let rest = laws.left keys s s' batch_expiration_prefix (fine ∙ ap ok same) in
              omega (
                arith,
                ap length rest,
                length-without_listed k v keys (listed s) (inl refl) (there (k, v) (inl refl)),
              )
        ]
  ]

  -- How the collection can end: a round finds nothing that has expired, or the database fails in it.
  abbrev pub IsEnd : ℕ → S × ℕ × Option Error → Type 0
  IsEnd now out =
      ((last : S) × (delete_n_blobs db now 8 last ≡ ok (0, out.0)) × (out.2 ≡ none))
      ⊎ ((x : Error) × (delete_n_blobs db now 8 out.0 ≡ err x) × (out.2 ≡ some x))

  first_round :
      (now deleted rounds : ℕ) (s : S)
      → ((n : ℕ) (s' : S)
          → delete_n_blobs db now 8 s ≡ ok (suc n, s')
          → IsEnd now (delete_expired_entries db now rounds (deleted + suc n) s'))
      → IsEnd now (delete_expired_entries db now (suc rounds) deleted s)
  unfolding delete_expired_entries
  first_round now deleted rounds s next = elim (Result-cases (delete_n_blobs db now 8 s)) [
    | inr (x, fails) ↦
        let out : delete_expired_entries db now (suc rounds) deleted s ≡ (s, deleted, some x) =
          ground arith in
        subst (IsEnd now) (sym out) (inr (x, fails, refl))
    | inl ((zero, s'), fine) ↦
        let out : delete_expired_entries db now (suc rounds) deleted s ≡ (s', deleted, none) =
          ground arith in
        subst (IsEnd now) (sym out) (inl (s, fine, refl))
    | inl ((suc n, s'), fine) ↦
        let out : delete_expired_entries db now (suc rounds) deleted s
            ≡ delete_expired_entries db now rounds (deleted + suc n) s' =
          rw (fine, delete_expired_entries) refl in
        subst (IsEnd now) (sym out) (next n s' fine)
  ]

  fewer_left :
      (now n : ℕ) (s s' : S)
      → delete_n_blobs db now 8 s ≡ ok (suc n, s')
      → length (listed s') < length (listed s)
  unfolding delete_n_blobs
  fewer_left now n s s' h =
      fewer (scan now 8 (listed s)) n s s' (λ r i. scan-In now 8 (listed s) r i) h

  -- The collection of expired entries ends by itself: if its time is enough for one round more than there are batches,
  -- it goes on until a round finds nothing that has expired, or the database fails in one.
  pub delete_expired_entries-IsEnd :
      (now deleted rounds : ℕ) (s : S)
      → length (db.new_iterator batch_expiration_prefix s) ≤ rounds
      → IsEnd now (delete_expired_entries db now (suc rounds) deleted s)
  delete_expired_entries-IsEnd now deleted zero s enough =
      first_round now deleted zero s
        (λ n s' fine. absurd (omega (arith, fewer_left now n s s' fine)))
  delete_expired_entries-IsEnd now deleted (suc rounds) s enough =
      first_round now deleted (suc rounds) s (λ n s' fine.
        delete_expired_entries-IsEnd now (deleted + suc n) rounds s'
          (omega (arith, fewer_left now n s s' fine)))
