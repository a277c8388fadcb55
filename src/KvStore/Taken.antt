-- ===== src/KvStore/Taken.antt =====
-- The batches that a round of the expiry takes (`deleteNBlobs` of disperser/store.go), as members of
-- the batches in the database.
use g_da_client.Common.{
  ℕ, zero, suc, ◌^◌, ◌<◌, List, [], ◌∷◌, ◌++◌, Bytes, In, All, All-In, map, take, leb, ◌≡◌, ◌⊎◌,
  refl, ap, subst, arith, Bool-cases, inl, inr,
}
use g_da_client.KvStore.{encode_records, encode_batch_expiration_key}
use g_da_client.KvStore.Records.{IsRecordable}
use g_da_client.KvStore.Scan.{Rows, stored, AreSorted, expired}

-- The value is the record of some keys that are not empty.
abbrev pub IsRecord : ℕ × Bytes → Type 0
IsRecord row = (keys : List Bytes) × (row.1 ≡ encode_records keys) × All IsRecordable keys

pub In-append : (x : Bytes) (xs ys : List Bytes) → In x (xs ++ ys) → In x xs ⊎ In x ys
In-append x [] ys i = inr i
In-append x (y ∷ xs) ys (inl e) = inl (inl e)
In-append x (y ∷ xs) ys (inr i) = elim (In-append x xs ys i) [ inl j ↦ inl (inr j) | inr j ↦ inr j ]

In-take : (row : ℕ × Bytes) (n : ℕ) (rows : Rows) → In row (take n rows) → In row rows
In-take row zero rows i = elim i [ ]
In-take row (suc n) [] i = elim i [ ]
In-take row (suc n) (r ∷ rows) (inl e) = inl e
In-take row (suc n) (r ∷ rows) (inr i) = inr (In-take row n rows i)

In-expired : (row : ℕ × Bytes) (now : ℕ) (rows : Rows) → In row (expired now rows) → In row rows
In-expired row now [] i = elim i [ ]
In-expired row now ((t, value) ∷ rows) i = elim (Bool-cases (leb t now)) [
  | inl old ↦
      let is : expired now ((t, value) ∷ rows) ≡ (t, value) ∷ expired now rows = rw old refl in
      elim (subst (In row) is i) [ inl e ↦ inl e | inr j ↦ inr (In-expired row now rows j) ]
  | inr young ↦
      let is : expired now ((t, value) ∷ rows) ≡ expired now rows = rw young refl in
      inr (In-expired row now rows (subst (In row) is i))
]

-- The batches that a round takes are in the database.
pub In-taken :
    (row : ℕ × Bytes) (now room : ℕ) (rows : Rows)
    → In row (take (suc room) (expired now rows))
    → In row rows
In-taken row now room rows i = In-expired row now rows (In-take row (suc room) (expired now rows) i)

pub below :
    (t u : ℕ) (value : Bytes) (rows : Rows) → AreSorted u rows → In (t, value) rows → t < 2 ^ 63
below t u value [] sorted i = elim i [ ]
below t u value ((v, w) ∷ rows) sorted (inl e) =
    let same : t ≡ v = ap (λ r. r.0) e in omega (arith, sorted.1)
below t u value ((v, w) ∷ rows) sorted (inr i) = below t v value rows sorted.2 i

pub All-taken :
    (rows taken : Rows)
    → ((row : ℕ × Bytes) → In row taken → In row rows)
    → All IsRecord rows
    → All IsRecord taken
All-taken rows [] within h = tt
All-taken rows (row ∷ taken) within h = (
  All-In IsRecord row rows h (within row (inl refl)),
  All-taken rows taken (λ r i. within r (inr i)) h,
)

pub In-keys :
    (x : Bytes) (rows : Rows)
    → In x (map (λ r. r.0) (stored rows))
    → (t : ℕ) × (value : Bytes) × In (t, value) rows × (x ≡ encode_batch_expiration_key t)
In-keys x [] i = elim i [ ]
In-keys x ((t, value) ∷ rows) (inl e) = (t, value, inl refl, e)
In-keys x ((t, value) ∷ rows) (inr i) = let (u, w, j, e) = In-keys x rows i in (u, w, inr j, e)
