-- ===== src/SliceSigner/Quorum.antt =====
-- The test for two thirds of the slices at the end of `aggregateSignature`
-- (disperser/batcher/slice_signer.go).
use g_da_client.Common.{
  ℕ, ◌*◌, ◌≤◌, Option, none, some, List, [], ◌∷◌, ok, All, map, ◌≡◌, ◌↔◌, refl, arith, Option-cases,
  inl, inr,
}
use g_da_client.SliceSigner.Aggregate.{
  Curve, SignerState, Signing, no_votes, collect, submission, root_submissions,
  CommitRootSubmission,
}

-- Two thirds of the blob's slices, as they were counted, have been signed.
abbrev pub IsQuorum : {Sig Pk : Type 0} → Signing Sig Pk → Type 0
IsQuorum b = 2 * b.tally.total_slice_count ≤ 3 * b.tally.signed_slice_count

module _ {Sig Pk : Type 0} (epoch quorum_id : ℕ) where
  accepted :
      (bs : List (Signing Sig Pk))
      → All IsQuorum bs
      → root_submissions epoch quorum_id bs ≡ some (map (submission epoch quorum_id) bs)
  unfolding root_submissions
  accepted [] h = refl
  accepted (b ∷ bs) h = ground (arith, accepted bs h.1)

  only_quorums :
      (bs : List (Signing Sig Pk)) (subs : List (CommitRootSubmission Sig Pk))
      → root_submissions epoch quorum_id bs ≡ some subs
      → All IsQuorum bs
  unfolding root_submissions
  only_quorums [] subs h = tt
  only_quorums (b ∷ bs) subs h = elim (Option-cases (root_submissions epoch quorum_id bs)) [
    | inl refused ↦ absurd (ground arith)
    | inr (others, fine) ↦ (ground arith, only_quorums bs others fine)
  ]

  -- Roots are submitted exactly when every blob of the batch has signatures for two thirds of the
  -- slices that were counted for it, and then one submission for each blob, in order.
  pub root_submissions_iff :
      (bs : List (Signing Sig Pk)) (subs : List (CommitRootSubmission Sig Pk))
      → (root_submissions epoch quorum_id bs ≡ some subs)
        ↔ (All IsQuorum bs × (subs ≡ map (submission epoch quorum_id) bs))
  root_submissions_iff bs subs = (
    λ h. (only_quorums bs subs h, ground (arith, accepted bs (only_quorums bs subs h))),
    λ h. ground (arith, accepted bs h.0),
  )

-- If every signer reports an error, nothing is counted, and the batch is accepted: a root is
-- submitted for every blob, each with no aggregate signature.
pub errors_accepted :
    {Sig Pk : Type 0} (curve : Curve Sig Pk) (epoch quorum_id : ℕ)
    (replies : List (SignerState Pk × Option (List Sig))) (bs : List (Signing Sig Pk))
    → All (λ r. r.1 ≡ none) replies
    → All (λ b. b.tally ≡ no_votes) bs
    → (collect curve replies bs ≡ ok bs)
      × (root_submissions epoch quorum_id bs ≡ some (map (submission epoch quorum_id) bs))
      × All (λ s. s.aggregate ≡ none) (map (submission epoch quorum_id) bs)
unfolding collect
errors_accepted {Sig} {Pk} curve epoch quorum_id replies bs errors fresh =
    (same replies errors, accepted epoch quorum_id bs (quorums bs fresh), unsigned bs fresh)
  where
    same :
        (rs : List (SignerState Pk × Option (List Sig)))
        → All (λ r. r.1 ≡ none) rs
        → collect curve rs bs ≡ ok bs
    same [] h = refl
    same ((signer, none) ∷ rs) h = same rs h.1
    same ((signer, some sigs) ∷ rs) h = absurd (ground arith)

    quorums : (cs : List (Signing Sig Pk)) → All (λ b. b.tally ≡ no_votes) cs → All IsQuorum cs
    quorums [] h = tt
    quorums (c ∷ cs) h = (ground arith, quorums cs h.1)

    unsigned :
        (cs : List (Signing Sig Pk))
        → All (λ b. b.tally ≡ no_votes) cs
        → All (λ s. s.aggregate ≡ none) (map (submission epoch quorum_id) cs)
    unsigned [] h = tt
    unsigned (c ∷ cs) h = (ground arith, unsigned cs h.1)
