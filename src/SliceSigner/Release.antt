-- ===== src/SliceSigner/Release.antt =====
-- What `GetCommitRootSubmissionBatch` (disperser/batcher/slice_signer.go) fetches, and what
-- `RemoveBatchingStatus` and `RemoveSignedBlob` undo.
use mathlib.Core.List.{append_assoc, append-nil}
use g_da_client.Common.{
  ℕ, Bool, true, false, ◌||◌, Option, none, some, List, [], ◌∷◌, ◌++◌, nat_eq, Map, lookup, insert,
  delete, Distinct, lookup-insert, lookup-delete, lookup-insert_self, nat_beq, nat_beq_iff,
  if◌then◌else◌, ◌≡◌, ◌≢◌, refl, sym, ap, ◌∙◌, arith,
}
use g_da_client.SliceSigner.Pending.{
  SliceSigner, BatchCommitRootSubmission, or_empty, opened, join_signed, fetch_signed,
  get_commit_root_submission_batch, delete_signed, remove_batching_status,
}

-- The entries that are in no batch.
abbrev pub free : {V : Type 0} → Map ℕ V → Map ℕ ℕ → Map ℕ V
free [] batching = []
free ((id, r) ∷ rest) batching = elim (lookup id batching) [
  | none ↦ (id, r) ∷ free rest batching
  | some _ ↦ free rest batching
]

abbrev pub keys : {V : Type 0} → Map ℕ V → List ℕ
keys [] = []
keys ((id, r) ∷ rest) = id ∷ keys rest

abbrev pub values : {V : Type 0} → Map ℕ V → List V
values [] = []
values ((id, r) ∷ rest) = r ∷ values rest

abbrev pub is_listed : ℕ → List ℕ → Bool
is_listed key [] = false
is_listed key (id ∷ ids) = nat_beq id key || is_listed key ids

-- A batch that another entry joins leaves the others as free as they were.
free-insert :
    {V : Type 0} (id ts : ℕ) (order : Map ℕ V) (batching : Map ℕ ℕ)
    → lookup id order ≡ none
    → free order (insert id ts batching) ≡ free order batching
unfolding lookup
free-insert id ts [] batching h = refl
free-insert id ts ((k, r) ∷ rest) batching h =
    ground (arith, free-insert id ts rest batching, lookup-insert id k ts batching)

is_listed-free :
    {V : Type 0} (key : ℕ) (order : Map ℕ V) (batching : Map ℕ ℕ)
    → is_listed key (keys (free order batching)) ≡ true
    → lookup key batching ≡ none
is_listed-free key [] batching h = cc
is_listed-free key ((k, r) ∷ rest) batching h =
    ground (arith, is_listed-free key rest batching, nat_beq_iff k key)

module _ {Sig Pk : Type 0} where
  fetch_signed-values :
      (order : Map ℕ (BatchCommitRootSubmission Sig Pk)) (ts : ℕ) (s : SliceSigner Sig Pk)
      → Distinct order
      → (fetch_signed order 0 ts s).0 ≡ values (free order s.signed_batching)
  unfolding fetch_signed
  fetch_signed-values [] ts s h = refl
  fetch_signed-values ((id, r) ∷ rest) ts s h = ground (
    arith,
    fetch_signed-values rest ts s h.1,
    fetch_signed-values rest ts (join_signed id ts s) h.1,
    free-insert id ts rest s.signed_batching h.0,
  )

  fetch_signed-batching :
      (order : Map ℕ (BatchCommitRootSubmission Sig Pk)) (ts key : ℕ) (s : SliceSigner Sig Pk)
      → Distinct order
      → lookup key (fetch_signed order 0 ts s).1.signed_batching ≡ (
          if is_listed key (keys (free order s.signed_batching))
          then some ts
          else lookup key s.signed_batching)
  unfolding fetch_signed
  fetch_signed-batching [] ts key s h = refl
  fetch_signed-batching ((id, r) ∷ rest) ts key s h = ground (
    arith,
    fetch_signed-batching rest ts key s h.1,
    fetch_signed-batching rest ts key (join_signed id ts s) h.1,
    free-insert id ts rest s.signed_batching h.0,
    lookup-insert id key ts s.signed_batching,
  )

  fetch_signed-batches :
      (order : Map ℕ (BatchCommitRootSubmission Sig Pk)) (ts : ℕ) (s : SliceSigner Sig Pk)
      → Distinct order
      → or_empty (lookup ts (fetch_signed order 0 ts s).1.signed_batches)
        ≡ or_empty (lookup ts s.signed_batches) ++ keys (free order s.signed_batching)
  unfolding fetch_signed
  fetch_signed-batches [] ts s h = sym (append-nil _)
  fetch_signed-batches ((id, r) ∷ rest) ts s h = ground (
    arith,
    fetch_signed-batches rest ts s h.1,
    fetch_signed-batches rest ts (join_signed id ts s) h.1,
    free-insert id ts rest s.signed_batching h.0,
    lookup-insert_self ts (or_empty (lookup ts s.signed_batches) ++ id ∷ []) s.signed_batches,
    append_assoc (or_empty (lookup ts s.signed_batches)) (id ∷ [])
        (keys (free rest s.signed_batching)),
  )

-- Are there entries to fetch?
abbrev pub or_none : {A : Type 0} → List A → Option (List A)
or_none [] = none
or_none (a ∷ rest) = some (a ∷ rest)

fetch_eq :
    {Sig Pk : Type 0} (order : Map ℕ (BatchCommitRootSubmission Sig Pk)) (ts : ℕ)
    (s : SliceSigner Sig Pk)
    → s.pending_submissions ≢ []
    → get_commit_root_submission_batch order ts s ≡ (
      or_none (fetch_signed order 0 ts (opened ts s)).0,
      (fetch_signed order 0 ts (opened ts s)).1,
    )
unfolding get_commit_root_submission_batch
fetch_eq order ts s h = ground arith

pub get_commit_root_submission_batch_lem :
    {Sig Pk : Type 0} (order : Map ℕ (BatchCommitRootSubmission Sig Pk)) (ts : ℕ)
    (s : SliceSigner Sig Pk)
    → Distinct order
    → s.pending_submissions ≢ []
    → let out = get_commit_root_submission_batch order ts s in
      let chosen = free order s.signed_batching in
      (out.0 ≡ or_none (values chosen))
      × ((key : ℕ)
          → lookup key out.1.signed_batching
            ≡ (if is_listed key (keys chosen) then some ts else lookup key s.signed_batching))
      × (or_empty (lookup ts out.1.signed_batches)
          ≡ or_empty (lookup ts s.signed_batches) ++ keys chosen)
get_commit_root_submission_batch_lem order ts s h some_pending =
    let begun = opened ts s in
    rw (fetch_eq order ts s some_pending) (
      ap or_none (fetch_signed-values order ts begun h),
      λ key. fetch_signed-batching order ts key begun h,
      fetch_signed-batches order ts begun h
          ∙ ap (λ x. or_empty x ++ keys (free order s.signed_batching))
              (lookup-insert_self ts (or_empty (lookup ts s.signed_batches)) s.signed_batches),
    )

pub lookup-delete_signed :
    (key : ℕ) (ids : List ℕ) (batching : Map ℕ ℕ)
    → lookup key (delete_signed ids batching)
      ≡ (if is_listed key ids then none else lookup key batching)
unfolding delete_signed
lookup-delete_signed key [] batching = refl
lookup-delete_signed key (id ∷ ids) batching =
    ground (arith, lookup-delete_signed key ids (delete id batching), lookup-delete id key batching)

-- `RemoveBatchingStatus` undoes a fetch under a fresh `ts`: every submission is in the batch that
-- it was in before, or free again.
pub remove_batching_status-fetched :
    {Sig Pk : Type 0} (order : Map ℕ (BatchCommitRootSubmission Sig Pk)) (ts key : ℕ)
    (s : SliceSigner Sig Pk)
    → Distinct order
    → s.pending_submissions ≢ []
    → lookup ts s.signed_batches ≡ none
    → lookup key
        (remove_batching_status ts (get_commit_root_submission_batch order ts s).1).signed_batching
      ≡ lookup key s.signed_batching
unfolding remove_batching_status
remove_batching_status-fetched order ts key s h some_pending fresh =
    let (chosen, batching, batches) =
      get_commit_root_submission_batch_lem order ts s h some_pending in
    let after = (get_commit_root_submission_batch order ts s).1 in
    ground (
      arith,
      batching key,
      lookup-delete_signed key (or_empty (lookup ts after.signed_batches)) after.signed_batching,
      is_listed-free key order s.signed_batching,
    )
