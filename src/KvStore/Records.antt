-- ===== src/KvStore/Records.antt =====
-- The record that disperser/store.go keeps for a batch, and the loop of `deleteNBlobs` that reads it.
use mathlib.Core.List.{append-nil}
use g_da_client.Common.{
  ℕ, zero, suc, ◌-◌, ◌^◌, ◌<◌, ◌≤◌, false, List, [], ◌∷◌, ◌++◌, Bytes, Result, ok, err, ◌>>=◌, All,
  le_bytes, of_le-le_bytes, length-le_bytes, length, length-append, take, drop, take-append,
  drop-append, replicate, ltb, nat_beq, ◌≡◌, refl, ap, ◌∙◌, arith,
}
use g_da_client.Disperser.Status.{Error}
use g_da_client.KvStore.{Db, encode_records, keys_of, read_records}

-- The keys that a record stands for, one after the other.
abbrev pub all_keys : {S : Type 0} → Db S → List Bytes → S → Result Error (List Bytes)
all_keys db [] s = ok []
all_keys db (key ∷ keys) s = elim (keys_of db key s) [
  | err x ↦ err x
  | ok ks ↦ do others ← all_keys db keys s; ok (ks ++ others)
]

-- A key that is not empty, and whose length is a `uint64`.
abbrev pub IsRecordable : Bytes → Type 0
IsRecordable key = (0 < length key) × (length key < 2 ^ 64)

module _ {S : Type 0} (db : Db S) where
  -- One round of the loop, at a length and what follows it.
  read_records_step :
      (fuel n : ℕ) (c : ℕ) (rest : Bytes) (s : S)
      → n < 2 ^ 64
      → read_records db (suc fuel) (le_bytes 8 n ++ c ∷ rest) s
        ≡ (elim (keys_of db (take n (c ∷ rest) ++ replicate (n - length (c ∷ rest)) 0) s) [
          | err x ↦ err x
          | ok ks ↦ do others ← read_records db fuel (drop n (c ∷ rest)) s; ok (ks ++ others)
        ])
  unfolding read_records le_bytes
  read_records_step fuel n c rest s h =
      let long : ltb (length (le_bytes 8 n ++ c ∷ rest)) 8 ≡ false = ground arith in
      let more : nat_beq (length (c ∷ rest)) 0 ≡ false = ground arith in
      rw long (rw more (ap (body fuel s c rest) (of_le-le_bytes 8 n (omega arith))))
    where
      body : ℕ → S → ℕ → Bytes → ℕ → Result Error (List Bytes)
      body fuel s c rest k =
          elim (keys_of db (take k (c ∷ rest) ++ replicate (k - length (c ∷ rest)) 0) s) [
            | err x ↦ err x
            | ok ks ↦ do others ← read_records db fuel (drop k (c ∷ rest)) s; ok (ks ++ others)
          ]

  none_read : (fuel : ℕ) (s : S) → read_records db fuel [] s ≡ ok []
  unfolding read_records
  none_read fuel s = refl

  -- The rest of a round, at a chunk and what is left.
  abbrev round : ℕ → S → Bytes → Bytes → Result Error (List Bytes)
  round fuel s chunk left = elim (keys_of db chunk s) [
    | err x ↦ err x
    | ok ks ↦ do others ← read_records db fuel left s; ok (ks ++ others)
  ]

  -- What was recorded is read back: for keys that are not empty, the loop over the record of a batch
  -- looks up exactly the keys of the batch, in order, within a number of rounds that is the length of
  -- the record.
  pub read_records-encode_records :
      (fuel : ℕ) (keys : List Bytes) (s : S)
      → All IsRecordable keys
      → length (encode_records keys) ≤ fuel
      → read_records db fuel (encode_records keys) s ≡ all_keys db keys s
  unfolding encode_records
  read_records-encode_records fuel [] s h room = none_read fuel s
  read_records-encode_records zero (key ∷ keys) s h room = absurd (
      omega (
        arith,
        length-append (le_bytes 8 (length key)) (key ++ encode_records keys),
        length-le_bytes 8 (length key),
      ))
  read_records-encode_records (suc fuel) ([] ∷ keys) s h room = absurd (omega arith)
  read_records-encode_records (suc fuel) ((c ∷ cs) ∷ keys) s h room =
      let key = c ∷ cs in
      let rest = encode_records keys in
      let n = length key in
      let shorter : length rest ≤ fuel = omega (
        arith,
        length-append (le_bytes 8 n) (key ++ rest),
        length-append key rest,
        length-le_bytes 8 n,
      ) in
      let exact : n - length (key ++ rest) ≡ 0 = omega (arith, length-append key rest) in
      read_records_step fuel n c (cs ++ rest) s h.0.1
      ∙ ap (λ x. round fuel s (x ++ replicate (n - length (key ++ rest)) 0) (drop n (key ++ rest)))
          (take-append key rest)
      ∙ ap (λ x. round fuel s (key ++ replicate x 0) (drop n (key ++ rest))) exact
      ∙ ap (λ x. round fuel s x (drop n (key ++ rest))) (append-nil key)
      ∙ ap (λ x. round fuel s key x) (drop-append key rest)
      ∙ ap
          (λ x. elim (keys_of db key s) [
            | err y ↦ err y
            | ok ks ↦ do others ← x; ok (ks ++ others)
          ])
          (read_records-encode_records fuel keys s h.1 shorter)
