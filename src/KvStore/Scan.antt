-- ===== src/KvStore/Scan.antt =====
-- The scan of `deleteNBlobs` (disperser/store.go) against the batches whose time has come.
use g_da_client.Common.{
  ℕ, zero, suc, ◌^◌, ◌<◌, ◌≤◌, List, [], ◌∷◌, Bytes, take, leb, if◌then◌else◌, ◌≡◌, refl, arith,
  Bool-cases, inl, inr,
}
use g_da_client.KvStore.{encode_batch_expiration_key, is_expired, scan}
use g_da_client.KvStore.Keys.{decode-encode_batch_expiration_key}

-- Batches by the time of their expiry.
abbrev pub Rows : Type 0
Rows = List (ℕ × Bytes)

-- The batches as they stand in the database.
abbrev pub stored : Rows → List (Bytes × Bytes)
stored [] = []
stored ((t, record_of) ∷ rows) = (encode_batch_expiration_key t, record_of) ∷ stored rows

-- The times are those of an `int64`, in order, as in the database.
abbrev pub AreSorted : ℕ → Rows → Type 0
AreSorted t [] = Unit
AreSorted t ((u, record_of) ∷ rows) = (t ≤ u) × (u < 2 ^ 63) × AreSorted u rows

-- The batches whose time has come.
abbrev pub expired : ℕ → Rows → Rows
expired now [] = []
expired now ((t, record_of) ∷ rows) =
    let rest = expired now rows in if leb t now then (t, record_of) ∷ rest else rest

none_expired : (now t : ℕ) (rows : Rows) → now < t → AreSorted t rows → expired now rows ≡ []
none_expired now t [] h sorted = refl
none_expired now t ((u, record_of) ∷ rows) h sorted =
    ground (arith, none_expired now u rows (omega arith) sorted.2)

is_expired-leb : (now t : ℕ) → t < 2 ^ 63 → is_expired now t ≡ leb t now
unfolding is_expired
is_expired-leb now t h = ground arith

-- The scan ends at the first batch that has not expired, and misses none that has.
pub scan_eq :
    (now t room : ℕ) (rows : Rows)
    → AreSorted t rows
    → scan now (suc room) (stored rows) ≡ stored (take (suc room) (expired now rows))
unfolding scan
scan_eq now t room [] sorted = refl
scan_eq now t zero ((u, record_of) ∷ rows) sorted =
    let read = decode-encode_batch_expiration_key u (omega arith) in
    let test = is_expired-leb now u sorted.1 in
    elim (Bool-cases (leb u now)) [
      | inl old ↦ ground (arith, read, test)
      | inr young ↦ ground (arith, read, test, none_expired now u rows (ground arith) sorted.2)
    ]
scan_eq now t (suc room) ((u, record_of) ∷ rows) sorted =
    let read = decode-encode_batch_expiration_key u (omega arith) in
    let test = is_expired-leb now u sorted.1 in
    elim (Bool-cases (leb u now)) [
      | inl old ↦ ground (arith, read, test, scan_eq now u room rows sorted.2)
      | inr young ↦ ground (arith, read, test, none_expired now u rows (ground arith) sorted.2)
    ]
