-- ===== src/Disperser/BlobKey/RoundTrip.antt =====
-- `String` and `ParseBlobKey` are inverse to each other, on keys with no dash.
use g_da_client.Common.{
  ℕ, ◌≡◌, ◌↔◌, ◌≢◌, refl, ap, sym, ◌∙◌, ok, nat_beq, arith, Bytes, List, [], ◌∷◌, ◌++◌, All,
  Bool-cases, inl, inr,
}
use g_da_client.Disperser.BlobKey.{BlobKey, to_string, cons_first, split, of_parts, parse_blob_key}

abbrev pub NoDash : Bytes → Type 0
NoDash = All (λ c. c ≢ b'-')

split-eq_single : (s : Bytes) → NoDash s → split s ≡ s ∷ []
unfolding split
split-eq_single [] h = refl
split-eq_single (c ∷ cs) h = ground (arith, split-eq_single cs h.1)

split_dash : (a b : Bytes) → NoDash a → split (a ++ b'-' ∷ b) ≡ a ∷ split b
unfolding split
split_dash [] b h = refl
split_dash (c ∷ cs) b h = ground (arith, split_dash cs b h.1)

-- A key whose two hashes hold no dash is read back from its text.
parse_blob_key-to_string :
    (k : BlobKey)
    → NoDash k.blob_hash
    → NoDash k.metadata_hash
    → parse_blob_key (to_string k) ≡ ok k
unfolding parse_blob_key to_string
parse_blob_key-to_string k h1 h2 =
    ground (arith, split_dash k.blob_hash k.metadata_hash h1, split-eq_single k.metadata_hash h2)

abbrev join : List Bytes → Bytes
join [] = []
join (p ∷ []) = p
join (p ∷ q ∷ ps) = p ++ b'-' ∷ join (q ∷ ps)

abbrev NonEmpty : List Bytes → Type 0
NonEmpty [] = ⊥
NonEmpty (p ∷ ps) = Unit

cons_first-NonEmpty : (c : ℕ) (ps : List Bytes) → NonEmpty (cons_first c ps)
cons_first-NonEmpty c [] = tt
cons_first-NonEmpty c (p ∷ ps) = tt

split-NonEmpty : (s : Bytes) → NonEmpty (split s)
unfolding split
split-NonEmpty [] = tt
split-NonEmpty (c ∷ cs) = grind (arith, cons_first-NonEmpty c (split cs))

join-cons_first : (c : ℕ) (ps : List Bytes) → NonEmpty ps → join (cons_first c ps) ≡ c ∷ join ps
join-cons_first c [] h = elim h [ ]
join-cons_first c (p ∷ []) h = refl
join-cons_first c (p ∷ q ∷ ps) h = refl

join_nil_cons : (ps : List Bytes) → NonEmpty ps → join ([] ∷ ps) ≡ b'-' ∷ join ps
join_nil_cons [] h = elim h [ ]
join_nil_cons (p ∷ ps) h = refl

join-split : (s : Bytes) → join (split s) ≡ s
unfolding split
join-split [] = refl
join-split (c ∷ cs) = elim (Bool-cases (nat_beq c b'-')) [
  | inl e ↦ ground (arith, join_nil_cons (split cs) (split-NonEmpty cs), join-split cs)
  | inr e ↦ ground (arith, join-cons_first c (split cs) (split-NonEmpty cs), join-split cs)
]

cons_first-NoDash :
    (c : ℕ) (ps : List Bytes) → c ≢ b'-' → All NoDash ps → All NoDash (cons_first c ps)
cons_first-NoDash c [] n h = ((n, tt), tt)
cons_first-NoDash c (p ∷ ps) n h = ((n, h.0), h.1)

split-NoDash : (s : Bytes) → All NoDash (split s)
unfolding split
split-NoDash [] = (tt, tt)
split-NoDash (c ∷ cs) = elim (Bool-cases (nat_beq c b'-')) [
  | inl e ↦ rw e (tt, split-NoDash cs)
  | inr e ↦ rw e (cons_first-NoDash c (split cs) (ground arith) (split-NoDash cs))
]

of_parts_inv :
    (ps : List Bytes) (k : BlobKey) → of_parts ps ≡ ok k → ps ≡ k.blob_hash ∷ k.metadata_hash ∷ []
of_parts_inv [] k h = cc
of_parts_inv (p ∷ []) k h = cc
of_parts_inv (p ∷ q ∷ []) k h = ground arith
of_parts_inv (p ∷ q ∷ r ∷ ps) k h = cc

-- What the parser accepts is the text of the key that it returns, and the key's hashes hold no dash.
to_string-parse_blob_key :
    (s : Bytes) (k : BlobKey)
    → parse_blob_key s ≡ ok k
    → (to_string k ≡ s) × NoDash k.blob_hash × NoDash k.metadata_hash
unfolding parse_blob_key to_string
to_string-parse_blob_key s k h =
    let parts = of_parts_inv (split s) k h in
    let clean : All NoDash (k.blob_hash ∷ k.metadata_hash ∷ []) = rw parts at (split-NoDash s) in
    (ap join (sym parts) ∙ join-split s, clean.0, clean.1.0)

-- A text is read as a key exactly when it is the text of that key, and neither of the key's hashes
-- holds a dash.
pub parse_blob_key_iff :
    (s : Bytes) (k : BlobKey)
    → (parse_blob_key s ≡ ok k) ↔ ((to_string k ≡ s) × NoDash k.blob_hash × NoDash k.metadata_hash)
parse_blob_key_iff s k = (
  to_string-parse_blob_key s k,
  λ h. ap parse_blob_key (sym h.0) ∙ parse_blob_key-to_string k h.1 h.2,
)
