-- ===== src/SliceSigner/Accounting.antt =====
-- `signedBlobSize` of disperser/batcher/slice_signer.go against the submissions that are held.
use g_da_client.Common.{
  ℕ, ◌%◌, none, List, [], nat_eq, Map, lookup, Distinct, length, sum_of, ◌∷◌, sum_of-insert,
  sum_of-delete, insert-Distinct, delete-Distinct, add64, sub64, u64_mod, ◌≡◌, refl, arith,
  Option-cases, inl, inr,
}
use g_da_client.SliceSigner.Pending.{
  SliceSigner, SignInfo, BatchCommitRootSubmission, commit_of, opened, put_pending_batches,
  get_pending_batch, get_pending_batch_to_sign, add_submission, retry_signing, join_signed,
  fetch_signed, get_commit_root_submission_batch, remove_signed_blob, remove_batching_status,
}
use g_da_client.SliceSigner.Aggregate.{CommitRootSubmission}

abbrev pub blob_count : {Sig Pk : Type 0} → BatchCommitRootSubmission Sig Pk → ℕ
blob_count r = length r.batch.encoded_blobs

-- The recorded size is the number of blobs of the batches that are held.
abbrev pub IsAccounted : {Sig Pk : Type 0} → SliceSigner Sig Pk → Type 0
IsAccounted s =
    Distinct s.pending_submissions
    × (s.signed_blob_size ≡ sum_of blob_count s.pending_submissions % u64_mod)

-- A call of one of the goroutines. A batch is submitted under a `ts` of its own, which the source
-- takes from the nanoseconds of the clock.
pub data Call {Sig Pk : Type 0} : SliceSigner Sig Pk → SliceSigner Sig Pk → Type 0 where
  receive : {s : SliceSigner Sig Pk} (info : SignInfo) → Call s (put_pending_batches info s)
  wait : {s : SliceSigner Sig Pk} → Call s (get_pending_batch s).1
  sign : {s : SliceSigner Sig Pk} → Call s (get_pending_batch_to_sign s).1
  submit :
      {s : SliceSigner Sig Pk} (info : SignInfo) (subs : List (CommitRootSubmission Sig Pk))
      → lookup info.ts s.pending_submissions ≡ none
      → Call s (add_submission info subs s)
  retry :
      {s : SliceSigner Sig Pk} (info : SignInfo) (max_retries : ℕ)
      → Call s (retry_signing info max_retries s).1
  fetch :
      {s : SliceSigner Sig Pk} (order : Map ℕ (BatchCommitRootSubmission Sig Pk)) (ts : ℕ)
      → Call s (get_commit_root_submission_batch order ts s).1
  remove : {s : SliceSigner Sig Pk} (ts : ℕ) → Call s (remove_signed_blob ts s)
  release : {s : SliceSigner Sig Pk} (ts : ℕ) → Call s (remove_batching_status ts s)

pub data Calls {Sig Pk : Type 0} : SliceSigner Sig Pk → SliceSigner Sig Pk → Type 0 where
  stay : {s : SliceSigner Sig Pk} → Calls s s
  next : {s t u : SliceSigner Sig Pk} → Call s t → Calls t u → Calls s u

module _ {Sig Pk : Type 0} where
  -- Two states hold the same submissions.
  abbrev HoldsSame : SliceSigner Sig Pk → SliceSigner Sig Pk → Type 0
  HoldsSame s t =
      (t.pending_submissions ≡ s.pending_submissions) × (t.signed_blob_size ≡ s.signed_blob_size)

  fetch_signed-HoldsSame :
      (order : Map ℕ (BatchCommitRootSubmission Sig Pk)) (size ts : ℕ) (s : SliceSigner Sig Pk)
      → HoldsSame s (fetch_signed order size ts s).1
  unfolding fetch_signed
  fetch_signed-HoldsSame [] size ts s = (refl, refl)
  fetch_signed-HoldsSame ((id, r) ∷ rest) size ts s = ground (
    arith,
    fetch_signed-HoldsSame rest size ts s,
    fetch_signed-HoldsSame rest size ts (join_signed id ts s),
  )

  Call-IsAccounted : {s t : SliceSigner Sig Pk} → Call s t → IsAccounted s → IsAccounted t
  unfolding put_pending_batches get_pending_batch get_pending_batch_to_sign add_submission
      retry_signing get_commit_root_submission_batch remove_signed_blob remove_batching_status add64
      sub64
  Call-IsAccounted (receive info) h = h
  Call-IsAccounted (wait {s = s}) h = ground arith
  Call-IsAccounted (sign {s = s}) h = ground arith
  Call-IsAccounted (submit {s = s} info subs fresh) h = (
    insert-Distinct info.ts (commit_of info subs) s.pending_submissions h.0,
    ground
        (arith, sum_of-insert blob_count info.ts (commit_of info subs) s.pending_submissions h.0),
  )
  Call-IsAccounted (retry {s = s} info max_retries) h = ground arith
  Call-IsAccounted (fetch {s = s} order ts) h =
      ground (arith, fetch_signed-HoldsSame order 0 ts (opened ts s))
  Call-IsAccounted (remove {s = s} ts) h = elim (Option-cases (lookup ts s.pending_submissions)) [
    | inl gone ↦ ground arith
    | inr (r, here) ↦ ground (
      arith,
      delete-Distinct ts s.pending_submissions h.0,
      sum_of-delete blob_count ts s.pending_submissions h.0,
    )
  ]
  Call-IsAccounted (release ts) h = h

  -- The recorded size stays the number of blobs of the batches that are held (modulo 2^64), whatever
  -- calls are made, if each batch is submitted under a `ts` that no held batch has.
  pub Calls-IsAccounted : {s t : SliceSigner Sig Pk} → Calls s t → IsAccounted s → IsAccounted t
  Calls-IsAccounted stay h = h
  Calls-IsAccounted (next call rest) h = Calls-IsAccounted rest (Call-IsAccounted call h)
