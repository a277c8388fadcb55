-- ===== src/SliceSigner/Collect.antt =====
-- The replies that `aggregateSignature` (disperser/batcher/slice_signer.go) collects: they are
-- counted for every blob, or one of them makes it panic.
use g_da_client.Common.{
  ℕ, ◌*◌, ◌/◌, ◌≤◌, true, false, Option, none, some, List, [], ◌∷◌, Bytes, ok, err, In,
  if◌then◌else◌, ◌≡◌, refl, arith, Bool-cases, inl, inr, length-replicate, replicate,
}
use g_da_client.Disperser.Status.{index_out_of_range}
use g_da_client.SliceSigner.Aggregate.{
  Curve, SignerState, Signing, add_to_aggregate, count_signature, vote, vote_all, collect,
}
use g_da_client.SliceSigner.Bits.{make_bitmap}
use g_da_client.SliceSigner.Votes.{Ballot, IsCounted, IsFit, count_signature_lem, set_bits_past}

-- A blob with the valid signatures that it has got, the last one first.
pub record Box (Sig Pk : Type 0) : Type 0 where
  pub message : Bytes
  pub slices : ℕ
  pub ballots : List (Ballot Sig Pk)

module _ {Sig Pk : Type 0} (curve : Curve Sig Pk) where
  -- A valid signature goes into the box.
  abbrev pub cast : SignerState Pk → Sig → Box Sig Pk → Box Sig Pk
  cast signer sig x =
      if curve.verify sig signer.pk_g2 x.message
      then record x { ballots = (signer, sig) ∷ x.ballots }
      else x

  abbrev pub cast_all : SignerState Pk → List Sig → List (Box Sig Pk) → List (Box Sig Pk)
  cast_all signer [] xs = xs
  cast_all signer (sig ∷ sigs) [] = []
  cast_all signer (sig ∷ sigs) (x ∷ xs) = cast signer sig x ∷ cast_all signer sigs xs

  -- The boxes after all replies.
  abbrev pub cast_replies :
      List (SignerState Pk × Option (List Sig)) → List (Box Sig Pk) → List (Box Sig Pk)
  cast_replies [] xs = xs
  cast_replies ((signer, none) ∷ replies) xs = cast_replies replies xs
  cast_replies ((signer, some sigs) ∷ replies) xs = cast_replies replies (cast_all signer sigs xs)

  -- The blob's tally counts what is in its box.
  abbrev pub IsTallied : Signing Sig Pk → Box Sig Pk → Type 0
  IsTallied b x =
      (b.message ≡ x.message) × (b.slices ≡ x.slices) × IsCounted curve x.slices b.tally x.ballots

  abbrev pub AllTallied : List (Signing Sig Pk) → List (Box Sig Pk) → Type 0
  AllTallied [] [] = Unit
  AllTallied [] (x ∷ xs) = ⊥
  AllTallied (b ∷ bs) [] = ⊥
  AllTallied (b ∷ bs) (x ∷ xs) = IsTallied b x × AllTallied bs xs

  -- The reply has a blob for each signature, and the signer's slices fit each blob.
  abbrev pub FitsAll : SignerState Pk → List Sig → List (Box Sig Pk) → Type 0
  FitsAll signer [] xs = Unit
  FitsAll signer (sig ∷ sigs) [] = ⊥
  FitsAll signer (sig ∷ sigs) (x ∷ xs) = IsFit x.slices signer × FitsAll signer sigs xs

  abbrev pub RepliesFit : List (SignerState Pk × Option (List Sig)) → List (Box Sig Pk) → Type 0
  RepliesFit [] xs = Unit
  RepliesFit ((signer, none) ∷ replies) xs = RepliesFit replies xs
  RepliesFit ((signer, some sigs) ∷ replies) xs = FitsAll signer sigs xs × RepliesFit replies xs

  vote_lem :
      (signer : SignerState Pk) (sig : Sig) (b : Signing Sig Pk) (x : Box Sig Pk)
      → IsFit x.slices signer
      → IsTallied b x
      → (b' : Signing Sig Pk) × (vote curve signer sig b ≡ ok b') × IsTallied b' (cast signer sig x)
  unfolding vote
  vote_lem signer sig b x fit h = elim (Bool-cases (curve.verify sig signer.pk_g2 x.message)) [
    | inr bad ↦ (b, ground arith, rw bad h)
    | inl good ↦
        let (t, counted, tallied) =
          count_signature_lem curve signer sig x.slices b.tally x.ballots fit h.2 in
        (record b { tally = t }, ground arith, rw good (h.0, h.1, tallied))
  ]

  vote_all_lem :
      (signer : SignerState Pk) (sigs : List Sig) (bs : List (Signing Sig Pk))
      (xs : List (Box Sig Pk))
      → FitsAll signer sigs xs
      → AllTallied bs xs
      → (bs' : List (Signing Sig Pk)) × (vote_all curve signer sigs bs ≡ ok bs')
        × AllTallied bs' (cast_all signer sigs xs)
  unfolding vote_all
  vote_all_lem signer [] bs xs fit h = (bs, refl, h)
  vote_all_lem signer (sig ∷ sigs) bs [] fit h = absurd fit
  vote_all_lem signer (sig ∷ sigs) [] (x ∷ xs) fit h = absurd h
  vote_all_lem signer (sig ∷ sigs) (b ∷ bs) (x ∷ xs) fit h =
      let (b', voted, tallied) = vote_lem signer sig b x fit.0 h.0 in
      let (bs', all, rest) = vote_all_lem signer sigs bs xs fit.1 h.1 in
      (b' ∷ bs', ground arith, (tallied, rest))

  -- A reply changes neither what the blobs are nor how many.
  FitsAll-cast_all :
      (s signer : SignerState Pk) (ss sigs : List Sig) (xs : List (Box Sig Pk))
      → FitsAll s ss xs
      → FitsAll s ss (cast_all signer sigs xs)
  FitsAll-cast_all s signer ss [] xs h = h
  FitsAll-cast_all s signer [] (sig ∷ sigs) xs h = tt
  FitsAll-cast_all s signer (t ∷ ts) (sig ∷ sigs) [] h = absurd h
  FitsAll-cast_all s signer (t ∷ ts) (sig ∷ sigs) (x ∷ xs) h = (
    elim (Bool-cases (curve.verify sig signer.pk_g2 x.message)) [
      | inl good ↦ rw good h.0
      | inr bad ↦ rw bad h.0
    ],
    FitsAll-cast_all s signer ts sigs xs h.1,
  )

  RepliesFit-cast_all :
      (replies : List (SignerState Pk × Option (List Sig))) (signer : SignerState Pk)
      (sigs : List Sig) (xs : List (Box Sig Pk))
      → RepliesFit replies xs
      → RepliesFit replies (cast_all signer sigs xs)
  RepliesFit-cast_all [] signer sigs xs h = tt
  RepliesFit-cast_all ((s, none) ∷ replies) signer sigs xs h =
      RepliesFit-cast_all replies signer sigs xs h
  RepliesFit-cast_all ((s, some ss) ∷ replies) signer sigs xs h =
      (FitsAll-cast_all s signer ss sigs xs h.0, RepliesFit-cast_all replies signer sigs xs h.1)

  -- Where every signer's slices fit the blobs, and their number is a multiple of 8, the replies
  -- are collected without a panic, in any order, and for each blob the tally counts exactly the
  -- valid signatures.
  pub collect_lem :
      (replies : List (SignerState Pk × Option (List Sig))) (bs : List (Signing Sig Pk))
      (xs : List (Box Sig Pk))
      → RepliesFit replies xs
      → AllTallied bs xs
      → (bs' : List (Signing Sig Pk)) × (collect curve replies bs ≡ ok bs')
        × AllTallied bs' (cast_replies replies xs)
  unfolding collect
  collect_lem [] bs xs fit h = (bs, refl, h)
  collect_lem ((signer, none) ∷ replies) bs xs fit h = collect_lem replies bs xs fit h
  collect_lem ((signer, some sigs) ∷ replies) bs xs fit h =
      let (bs1, voted, tallied) = vote_all_lem signer sigs bs xs fit.0 h in
      let (bs2, rest, all) =
        collect_lem replies bs1 (cast_all signer sigs xs)
          (RepliesFit-cast_all replies signer sigs xs fit.1) tallied in
      (bs2, rw (voted, collect) rest, all)

  -- A signer with a slice past the last whole byte of the bitmap, whose valid signature is the
  -- first one of its blob, makes the signer panic.
  pub vote_panics :
      (signer : SignerState Pk) (sig : Sig) (b : Signing Sig Pk) (i : ℕ)
      → curve.verify sig signer.pk_g2 b.message ≡ true
      → b.tally.aggregate ≡ none
      → In i signer.slice_indexes
      → 8 * (b.slices / 8) ≤ i
      → vote curve signer sig b ≡ err index_out_of_range
  unfolding vote count_signature add_to_aggregate
  vote_panics signer sig b i good first there past = ground (
    arith,
    set_bits_past (make_bitmap (b.slices / 8)) i signer.slice_indexes there
        (omega (arith, length-replicate (b.slices / 8) (replicate 8 false))),
  )
