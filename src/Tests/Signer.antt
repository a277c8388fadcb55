-- ===== src/Tests/Signer.antt =====
-- The slice signer on concrete inputs: a curve whose signatures are numbers, valid if they are the
-- number of the key.
use g_da_client.Common.{
  ℕ, ◌+◌, ◌*◌, ◌≤◌, ◌≡◌, ◌≢◌, ◌↔◌, refl, true, false, Option, none, some, List, [], ◌∷◌, ◌++◌, Map,
  Distinct, All, lookup, insert, delete, nat_eq, nat_beq, ok, err, map, arith, inl, add64, sub64,
  replicate,
}
use g_da_client.Disperser.Status.{index_out_of_range}
use g_da_client.SliceSigner.Aggregate.{
  Curve, SignerState, Signing, no_votes, vote, vote_all, collect, set_bits, add_to_aggregate,
  count_signature, submission, root_submissions,
}
use g_da_client.SliceSigner.Bits.{set_bit}
use g_da_client.SliceSigner.Collect.{Box, AllTallied, cast_replies, collect_lem, vote_panics}
use g_da_client.SliceSigner.Quorum.{root_submissions_iff, errors_accepted}
use g_da_client.SliceSigner.Pending.{
  Batch, SignInfo, BatchCommitRootSubmission, SliceSigner, new_encoded_slice_signer, add_submission,
  commit_of, fetch_signed, get_commit_root_submission_batch, remove_batching_status,
  remove_signed_blob, delete_signed,
}
use g_da_client.SliceSigner.Release.{remove_batching_status-fetched}
use g_da_client.SliceSigner.Accounting.{
  IsAccounted, Calls, stay, next, submit, release, remove, Calls-IsAccounted,
}

program : Unit {0}
unfolding lookup insert delete vote vote_all collect set_bits set_bit add_to_aggregate
    count_signature root_submissions add_submission fetch_signed get_commit_root_submission_batch
    remove_batching_status remove_signed_blob delete_signed add64 sub64
program = tt

abbrev curve : Curve ℕ ℕ
curve = record {
  verify = λ sig key message. nat_beq sig key;
  add_signature = λ a b. a + b;
  add_key = λ a b. a + b;
}

abbrev alice : SignerState ℕ
alice = record { pk_g2 = 3; slice_indexes = 0 ∷ 1 ∷ 2 ∷ 3 ∷ 4 ∷ 5 ∷ [] }

abbrev bob : SignerState ℕ
bob = record { pk_g2 = 4; slice_indexes = 6 ∷ 7 ∷ [] }

-- A blob of `n` slices.
abbrev signing : ℕ → Signing ℕ ℕ
signing n = record {
  data_root = 1 ∷ [];
  erasure_commitment = 2 ∷ [];
  message = 5 ∷ [];
  slices = n;
  tally = no_votes;
}

-- Bob's signature is not valid.
abbrev replies : List (SignerState ℕ × Option (List ℕ))
replies = (alice, some (3 ∷ [])) ∷ (bob, some (9 ∷ [])) ∷ []

abbrev box : Box ℕ ℕ
box = record { message = 5 ∷ []; slices = 8; ballots = [] }

collect_lem_example :
    (bs : List (Signing ℕ ℕ)) × (collect curve replies (signing 8 ∷ []) ≡ ok bs)
    × AllTallied curve bs (cast_replies curve replies (box ∷ []))
collect_lem_example =
    collect_lem curve replies (signing 8 ∷ []) (box ∷ [])
      (((refl, ground arith), tt), (((refl, ground arith), tt), tt)) ((refl, refl, refl), tt)

-- Nine slices have a bitmap of one byte, and the signer of the ninth makes it overflow.
abbrev carol : SignerState ℕ
carol = record { pk_g2 = 6; slice_indexes = 8 ∷ [] }

vote_panics_example : vote curve carol 6 (signing 9) ≡ err index_out_of_range
vote_panics_example = vote_panics curve carol 6 (signing 9) 8 refl refl (inl refl) (omega arith)

abbrev signed : Signing ℕ ℕ
signed = record (signing 8) {
  tally = record {
    aggregate = some (3, 3);
    total_slice_count = 8;
    signed_slice_count = 6;
    quorum_bitmap = (replicate 6 true ++ replicate 2 false) ∷ [];
  };
}

-- Alice alone holds six of the eight slices, which is enough.
alice_signed : collect curve replies (signing 8 ∷ []) ≡ ok (signed ∷ [])
unfolding program
alice_signed = refl

root_submissions_iff_example :
    (root_submissions 1 2 (signed ∷ []) ≡ some (submission 1 2 signed ∷ [])) ↔ (
      ((2 * 8 ≤ 3 * 6) × Unit {0})
      × (submission 1 2 signed ∷ [] ≡ map (submission 1 2) (signed ∷ [])))
root_submissions_iff_example = root_submissions_iff 1 2 (signed ∷ []) (submission 1 2 signed ∷ [])

errors_accepted_example :
    (collect curve ((alice, none) ∷ []) (signing 8 ∷ []) ≡ ok (signing 8 ∷ []))
    × (root_submissions 1 2 (signing 8 ∷ []) ≡ some (map (submission 1 2) (signing 8 ∷ [])))
    × (All (λ s. s.aggregate ≡ none) (map (submission 1 2) (signing 8 ∷ [])))
errors_accepted_example =
    errors_accepted curve 1 2 ((alice, none) ∷ []) (signing 8 ∷ []) (refl, tt) (refl, tt)

abbrev batch : Batch
batch = record {
  encoded_blobs = [];
  blob_metadata = [];
  blob_headers = [];
  batch_root = [];
  tx_hash = [];
}

abbrev info : SignInfo
info = record {
  header_hash = [];
  batch = batch;
  ts = 7;
  proofs = [];
  reties = 0;
  epoch = 1;
  quorum_id = 2;
  new_blobs = [];
}

abbrev empty : SliceSigner ℕ ℕ
empty = new_encoded_slice_signer

abbrev pending : SliceSigner ℕ ℕ
pending = record empty { pending_submissions = (7, commit_of info []) ∷ [] }

abbrev order : Map ℕ (BatchCommitRootSubmission ℕ ℕ)
order = pending.pending_submissions

submitted : add_submission info [] empty ≡ pending
unfolding program
submitted = refl

order-Distinct : Distinct order
unfolding program
order-Distinct = (refl, tt)

some_pending : order ≢ []
some_pending = λ h. absurd (ground arith)

no_batch : lookup 9 pending.signed_batches ≡ none
unfolding program
no_batch = refl

remove_batching_status-fetched_example :
    lookup 7
      (remove_batching_status 9
        (get_commit_root_submission_batch order 9 pending).1).signed_batching
    ≡ lookup 7 pending.signed_batching
remove_batching_status-fetched_example =
    remove_batching_status-fetched order 9 7 pending order-Distinct some_pending no_batch

empty_free : lookup 7 empty.pending_submissions ≡ none
unfolding program
empty_free = refl

abbrev final : SliceSigner ℕ ℕ
final = remove_signed_blob 7 (remove_batching_status 9 (add_submission info [] empty))

abbrev run : Calls empty final
run = next (submit info [] empty_free) (next (release 9) (next (remove 7) stay))

Calls-IsAccounted_example : IsAccounted final
Calls-IsAccounted_example = Calls-IsAccounted run (tt, refl)
