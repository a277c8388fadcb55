-- ===== src/SliceSigner/Votes.antt =====
-- What the loop of `aggregateSignature` (disperser/batcher/slice_signer.go) counts for each blob.
use g_da_client.Common.{
  ℕ, ◌+◌, ◌*◌, ◌/◌, ◌≤◌, ◌<◌, Bool, false, ◌||◌, Option, none, some, List, [], ◌∷◌, ok, err, length,
  All, In, nat_beq, ◌≡◌, refl, ◌∙◌, sym, subst, arith, inl, inr, length-replicate, replicate,
}
use g_da_client.Disperser.Status.{index_out_of_range}
use g_da_client.SliceSigner.Bits.{
  Bitmap, IsBitmap, get_bit, set_bit_lem, set_bit_past, make_bitmap, make_bitmap-IsBitmap,
  get_bit-make_bitmap, length-set_bit,
}
use g_da_client.SliceSigner.Aggregate.{
  Curve, SignerState, Tally, no_votes, set_bits, add_to_aggregate, count_signature,
}

abbrev pub is_member : ℕ → List ℕ → Bool
is_member j [] = false
is_member j (i ∷ is) = nat_beq i j || is_member j is

set_bits_lem :
    (m : Bitmap) (is : List ℕ)
    → IsBitmap m
    → All (λ i. i < 8 * length m) is
    → (m' : Bitmap) × (set_bits m is ≡ ok m')
      × IsBitmap m'
      × (length m' ≡ length m)
      × ((j : ℕ) → get_bit m' j ≡ is_member j is || get_bit m j)
unfolding set_bits
set_bits_lem m [] h small = (m, refl, h, refl, λ j. refl)
set_bits_lem m (i ∷ is) h small =
    let (m1, set, whole, same, bits) = set_bit_lem m i h small.0 in
    let (m2, sets, whole2, same2, bits2) =
      set_bits_lem m1 is whole (subst (λ n. All (λ i. i < 8 * n) is) (sym same) small.1) in
    (m2, rw (set, set_bits) sets, whole2, same2 ∙ same, λ j. ground (arith, bits j, bits2 j))

pub set_bits_past :
    (m : Bitmap) (i : ℕ) (is : List ℕ)
    → In i is
    → 8 * length m ≤ i
    → set_bits m is ≡ err index_out_of_range
unfolding set_bits
set_bits_past m i [] there past = absurd there
set_bits_past m i (j ∷ is) there past = elim (length-set_bit m j) [
  | inr fails ↦ rw (fails, set_bits) refl
  | inl (m', set, same) ↦ elim there [
    | inl e ↦ absurd (ground (arith, set_bit_past m i past))
    | inr more ↦ rw (set, set_bits) (set_bits_past m' i is more (omega arith))
  ]
]

-- A signature that was found valid, with its signer.
abbrev pub Ballot : Type 0 → Type 0 → Type 0
Ballot Sig Pk = SignerState Pk × Sig

-- The number of slices that the signers hold together.
abbrev pub slices_of : {Sig Pk : Type 0} → List (Ballot Sig Pk) → ℕ
slices_of [] = 0
slices_of ((signer, sig) ∷ ballots) = slices_of ballots + length signer.slice_indexes

-- Does one of the signers hold slice `i`?
abbrev pub is_signed : {Sig Pk : Type 0} → ℕ → List (Ballot Sig Pk) → Bool
is_signed i [] = false
is_signed i ((signer, sig) ∷ ballots) = is_member i signer.slice_indexes || is_signed i ballots

-- The sums of the signatures and of the keys.
abbrev pub sum_of_ballots :
    {Sig Pk : Type 0} → Curve Sig Pk → List (Ballot Sig Pk) → Option (Sig × Pk)
sum_of_ballots curve [] = none
sum_of_ballots curve ((signer, sig) ∷ ballots) = elim (sum_of_ballots curve ballots) [
  | none ↦ some (sig, signer.pk_g2)
  | some (sum, keys) ↦ some (curve.add_signature sum sig, curve.add_key keys signer.pk_g2)
]

-- The tally of a blob counts its ballots: its bitmap marks the slices of their signers, and
-- nothing else, its count is that of their slices, and its aggregate the sum of all.
abbrev pub IsCounted :
    {Sig Pk : Type 0} → Curve Sig Pk → ℕ → Tally Sig Pk → List (Ballot Sig Pk) → Type 0
IsCounted curve n t [] = t ≡ no_votes
IsCounted curve n t (ballot ∷ ballots) =
    (t.total_slice_count ≡ n)
    × (t.signed_slice_count ≡ slices_of (ballot ∷ ballots))
    × (t.aggregate ≡ sum_of_ballots curve (ballot ∷ ballots))
    × IsBitmap t.quorum_bitmap
    × (length t.quorum_bitmap ≡ n / 8)
    × ((i : ℕ) → get_bit t.quorum_bitmap i ≡ is_signed i (ballot ∷ ballots))

-- The signer's slices are among the `n` slices, which fill whole bytes.
abbrev pub IsFit : {Pk : Type 0} → ℕ → SignerState Pk → Type 0
IsFit n signer = (8 * (n / 8) ≡ n) × All (λ i. i < n) signer.slice_indexes

module _ {Sig Pk : Type 0} (curve : Curve Sig Pk) where
  -- A valid signature is counted.
  pub count_signature_lem :
      (signer : SignerState Pk) (sig : Sig) (n : ℕ) (t : Tally Sig Pk)
      (ballots : List (Ballot Sig Pk))
      → IsFit n signer
      → IsCounted curve n t ballots
      → (t' : Tally Sig Pk) × (count_signature curve signer sig n t ≡ ok t')
        × IsCounted curve n t' ((signer, sig) ∷ ballots)
  unfolding count_signature add_to_aggregate
  count_signature_lem signer sig n t [] fit h =
      let (m, sets, whole, same, bits) =
        set_bits_lem (make_bitmap (n / 8)) signer.slice_indexes (make_bitmap-IsBitmap (n / 8)) (
          subst (λ k. All (λ i. i < k) signer.slice_indexes)
            (omega (arith, length-replicate (n / 8) (replicate 8 false), fit.0)) fit.1) in
      (
        record {
          aggregate = some (sig, signer.pk_g2);
          total_slice_count = n;
          signed_slice_count = 0 + length signer.slice_indexes;
          quorum_bitmap = m;
        },
        ground arith,
        (
          refl,
          refl,
          refl,
          whole,
          omega (arith, same, length-replicate (n / 8) (replicate 8 false)),
          λ i. ground (arith, bits i, get_bit-make_bitmap (n / 8) i),
        ),
      )
  count_signature_lem signer sig n t (b ∷ ballots) fit h =
      let (m, sets, whole, same, bits) =
        set_bits_lem t.quorum_bitmap signer.slice_indexes h.3
          (subst (λ k. All (λ i. i < k) signer.slice_indexes) (omega (arith, h.4, fit.0)) fit.1) in
      (
        record {
          aggregate = sum_of_ballots curve ((signer, sig) ∷ b ∷ ballots);
          total_slice_count = t.total_slice_count;
          signed_slice_count = t.signed_slice_count + length signer.slice_indexes;
          quorum_bitmap = m;
        },
        ground arith,
        (
          h.0,
          omega (arith, h.1),
          refl,
          whole,
          omega (arith, same, h.4),
          λ i. ground (arith, bits i, h.5 i),
        ),
      )
