-- ===== src/SliceSigner/Pending.antt =====
-- disperser/batcher/slice_signer.go: the batches that wait for their transaction, that wait to be
-- signed, and whose signatures wait to be submitted. Each method runs under the signer's mutex.
use g_da_client.Common.{
  ℕ, ◌+◌, Bool, true, false, ◌&&◌, not, Option, none, some, List, [], ◌∷◌, ◌++◌, Bytes, nat_eq, Map,
  lookup, insert, delete, length, add64, sub64, ltb, nat_beq, if◌then◌else◌,
}
use g_da_client.Core.{BlobCommitments, BlobHeader}
use g_da_client.Disperser.Metadata.{BlobMetadata}
use g_da_client.SliceSigner.Aggregate.{CommitRootSubmission}

-- `batch` of encoding_streamer.go; the Merkle tree is a third-party value that is not followed.
pub record Batch : Type 0 where
  pub encoded_blobs : List BlobCommitments
  pub blob_metadata : List BlobMetadata
  pub blob_headers : List BlobHeader
  pub batch_root : Bytes
  pub tx_hash : Bytes

-- `SignInfo`, but for the signers, which `aggregateSignature` is given.
pub record SignInfo : Type 0 where
  pub header_hash : Bytes
  pub batch : Batch
  pub ts : ℕ
  pub proofs : List (List Bytes)
  pub reties : ℕ
  pub epoch : ℕ
  pub quorum_id : ℕ
  pub new_blobs : List ℕ

pub record BatchCommitRootSubmission (Sig Pk : Type 0) : Type 0 where
  pub submissions : List (CommitRootSubmission Sig Pk)
  pub header_hash : Bytes
  pub batch : Batch
  pub ts : ℕ
  pub proofs : List (List Bytes)
  pub epoch : ℕ
  pub quorum_id : ℕ

pub record SliceSigner (Sig Pk : Type 0) : Type 0 where
  pub pending_batches : List SignInfo
  pub pending_batches_to_sign : List SignInfo
  pub pending_submissions : Map ℕ (BatchCommitRootSubmission Sig Pk)
  pub signed_batching : Map ℕ ℕ
  pub signed_batches : Map ℕ (List ℕ)
  pub signed_blob_size : ℕ
  pub signed_batch_size : ℕ

abbrev pub or_empty : Option (List ℕ) → List ℕ
or_empty none = []
or_empty (some ids) = ids

unfoldable pub delete_signed : List ℕ → Map ℕ ℕ → Map ℕ ℕ
delete_signed [] batching = batching
delete_signed (id ∷ ids) batching = delete_signed ids (delete id batching)

module _ {Sig Pk : Type 0} where
  -- `NewEncodedSliceSigner`
  abbrev pub new_encoded_slice_signer : SliceSigner Sig Pk
  new_encoded_slice_signer = record {
    pending_batches = [];
    pending_batches_to_sign = [];
    pending_submissions = [];
    signed_batching = [];
    signed_batches = [];
    signed_blob_size = 0;
    signed_batch_size = 0;
  }

  unfoldable pub put_pending_batches : SignInfo → SliceSigner Sig Pk → SliceSigner Sig Pk
  put_pending_batches info s = record s { pending_batches = s.pending_batches ++ info ∷ [] }

  unfoldable pub get_pending_batch : SliceSigner Sig Pk → Option SignInfo × SliceSigner Sig Pk
  get_pending_batch s = elim s.pending_batches [
    | [] ↦ (none, s)
    | info ∷ rest ↦ (some info, record s { pending_batches = rest })
  ]

  unfoldable pub get_pending_batch_to_sign :
      SliceSigner Sig Pk → Option SignInfo × SliceSigner Sig Pk
  get_pending_batch_to_sign s = elim s.pending_batches_to_sign [
    | [] ↦ (none, s)
    | info ∷ rest ↦ (some info, record s { pending_batches_to_sign = rest })
  ]

  abbrev pub commit_of :
      SignInfo → List (CommitRootSubmission Sig Pk) → BatchCommitRootSubmission Sig Pk
  commit_of info subs = record {
    submissions = subs;
    header_hash = info.header_hash;
    batch = info.batch;
    ts = info.ts;
    proofs = info.proofs;
    epoch = info.epoch;
    quorum_id = info.quorum_id;
  }

  -- The end of `aggregateSignature` for a batch that has its signatures.
  unfoldable pub add_submission :
      SignInfo → List (CommitRootSubmission Sig Pk) → SliceSigner Sig Pk → SliceSigner Sig Pk
  add_submission info subs s = record s {
    pending_submissions = insert info.ts (commit_of info subs) s.pending_submissions;
    signed_blob_size = add64 s.signed_blob_size (length info.batch.encoded_blobs);
  }

  -- The same for one that lacks signatures: it is signed again, or, with its retries used up, the
  -- caller has to report the failure (`true`).
  unfoldable pub retry_signing : SignInfo → ℕ → SliceSigner Sig Pk → Bool × SliceSigner Sig Pk
  retry_signing info max_retries s =
      if ltb info.reties max_retries
      then (
        false,
        record s {
          pending_batches_to_sign =
              s.pending_batches_to_sign ++ (record info { reties = info.reties + 1 }) ∷ [];
        },
      )
      else (true, s)

  -- The submission joins the batch of `ts`.
  abbrev pub join_signed : ℕ → ℕ → SliceSigner Sig Pk → SliceSigner Sig Pk
  join_signed id ts s = record s {
    signed_batching = insert id ts s.signed_batching;
    signed_batches = insert ts (or_empty (lookup ts s.signed_batches) ++ id ∷ []) s.signed_batches;
  }

  -- The batch of `ts` is there from the start.
  abbrev pub opened : ℕ → SliceSigner Sig Pk → SliceSigner Sig Pk
  opened ts s = record s {
    signed_batches = insert ts (or_empty (lookup ts s.signed_batches)) s.signed_batches;
  }

  -- The loop of `GetCommitRootSubmissionBatch`. The source compares `batchSize` with the limit, and
  -- never raises it from 0.
  unfoldable pub fetch_signed :
      List (ℕ × BatchCommitRootSubmission Sig Pk)
      → ℕ
      → ℕ
      → SliceSigner Sig Pk
      → List (BatchCommitRootSubmission Sig Pk) × SliceSigner Sig Pk
  fetch_signed [] batch_size ts s = ([], s)
  fetch_signed ((id, r) ∷ rest) batch_size ts s =
      let skipped = fetch_signed rest batch_size ts s in
      let taken = fetch_signed rest batch_size ts (join_signed id ts s) in
      elim (lookup id s.signed_batching) [
        | some _ ↦ skipped
        | none ↦
            if not (nat_beq s.signed_batch_size 0) && ltb s.signed_batch_size batch_size
            then (r ∷ [], join_signed id ts s)
            else (r ∷ taken.0, taken.1)
      ]

  -- `GetCommitRootSubmissionBatch`; `none` is `errNoSignedResults`. `order` is the order in which
  -- `range` visits the entries.
  unfoldable pub get_commit_root_submission_batch :
      List (ℕ × BatchCommitRootSubmission Sig Pk)
      → ℕ
      → SliceSigner Sig Pk
      → Option (List (BatchCommitRootSubmission Sig Pk)) × SliceSigner Sig Pk
  get_commit_root_submission_batch order ts s = elim s.pending_submissions [
    | [] ↦ (none, s)
    | _ ∷ _ ↦
        let (fetched, s') = fetch_signed order 0 ts (opened ts s) in
        elim fetched [ [] ↦ (none, s') | r ∷ rs ↦ (some (r ∷ rs), s') ]
  ]

  unfoldable pub remove_signed_blob : ℕ → SliceSigner Sig Pk → SliceSigner Sig Pk
  remove_signed_blob ts s = elim (lookup ts s.pending_submissions) [
    | none ↦ s
    | some r ↦ record s {
      signed_blob_size = sub64 s.signed_blob_size (length r.batch.encoded_blobs);
      pending_submissions = delete ts s.pending_submissions;
      signed_batching = delete ts s.signed_batching;
    }
  ]

  -- `RemoveBatchingStatus` of the signer.
  unfoldable pub remove_batching_status : ℕ → SliceSigner Sig Pk → SliceSigner Sig Pk
  remove_batching_status ts s = record s {
    signed_batching = delete_signed (or_empty (lookup ts s.signed_batches)) s.signed_batching;
    signed_batches = delete ts s.signed_batches;
  }
