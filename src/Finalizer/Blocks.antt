-- ===== src/Finalizer/Blocks.antt =====
-- Which blobs disperser/batcher/finalizer.go marks as final, and by which block.
use g_da_client.Common.{
  ℕ, ◌-◌, ◌%◌, ◌^◌, ◌≤◌, ◌<◌, Bool, true, false, Option, none, some, Bytes, bytes_eq, ok, lookup,
  lookup-insert, lookup-insert_self, ◌==◌, ltb, str_beq, str_beq_iff, ◌≡◌, ◌↔◌, ◌⊎◌, inl, inr, refl,
  ◌∙◌, arith, sub64, Bool-cases, Option-cases, add64,
}
use g_da_client.Disperser.Status.{BlobStatus, finalized}
use g_da_client.Disperser.BlobKey.{BlobKey, key_eq}
use g_da_client.Disperser.Metadata.{BlobMetadata, ConfirmationInfo, get_blob_key}
use g_da_client.MemoryDb.{
  MemoryDb, mark_blob_finalized, handle_blob_failure, increment_blob_retry_count, mark_blob_failed,
}
use g_da_client.MemoryDb.Queries.{get_blob_metadata}
use g_da_client.Finalizer.{
  Receipt, found, not_found, failed, max_hash, block_number, update_finalized_block_number,
  finalize_at, finalize_blob, set_block_number, mark_final,
}

-- If the node reports no finalized block, and its latest block is below the default count, the
-- number wraps around: the block that is taken to be final is within `default_count` of 2^64, and
-- no later update lowers it.
pub update_wraps :
    (n default_count known : ℕ) (later latest : Option ℕ)
    → n < default_count
    → default_count < 2 ^ 64
    → known < 2 ^ 64 - default_count
    → let wrapped = update_finalized_block_number none (some n) default_count known in
      (2 ^ 64 - default_count ≤ wrapped)
      × (wrapped ≤ update_finalized_block_number later latest default_count wrapped)
unfolding update_finalized_block_number block_number sub64
update_wraps n default_count known later latest h1 h2 h3 = (ground arith, ground arith)

-- The blob's confirmation is final: its block is, and so is the block that its transaction is in
-- now, unless the transaction hash is the reserved one.
abbrev pub IsFinal : (Bytes → Receipt) → ℕ → ConfirmationInfo → Type 0
IsFinal receipt latest info =
    (info.confirmation_block_number ≤ latest)
    × ((info.confirmation_txn_hash ≡ max_hash)
        ⊎ ((n : ℕ) × (receipt info.confirmation_txn_hash ≡ found n) × (n ≤ latest)))

abbrev pub HasStatus : BlobKey → BlobStatus → MemoryDb → Type 0
HasStatus key status q =
    (c : BlobMetadata) × (lookup key q.metadata ≡ some c) × (c.blob_status ≡ status)

Receipt-cases : (r : Receipt) → ((n : ℕ) × (r ≡ found n)) ⊎ ((r ≡ not_found) ⊎ (r ≡ failed))
Receipt-cases (found n) = inl (n, refl)
Receipt-cases not_found = inr (inl refl)
Receipt-cases failed = inr (inr refl)

-- Marking a blob that is there.
mark_final-HasStatus :
    (key : BlobKey) (c : BlobMetadata) (q : MemoryDb)
    → lookup key q.metadata ≡ some c
    → ((mark_final key q).1 ≡ true) × HasStatus key finalized (mark_final key q).0
unfolding mark_blob_finalized
mark_final-HasStatus key c q here = (
  ground arith,
  (
    record c { blob_status = finalized },
    ground (arith, lookup-insert_self key (record c { blob_status = finalized }) q.metadata),
    refl,
  ),
)

finalize_at-final :
    (receipt : Bytes → Receipt) (latest max_retries : ℕ) (m c : BlobMetadata)
    (info : ConfirmationInfo) (q : MemoryDb)
    → lookup (get_blob_key m) q.metadata ≡ some c
    → IsFinal receipt latest info
    → let out = finalize_at receipt latest max_retries m c info q in
      (out.1 ≡ true) × HasStatus (get_blob_key m) finalized out.0
unfolding finalize_at
finalize_at-final receipt latest max_retries m c info q here (early, why) =
    let key = get_blob_key m in
    let open_block : ltb latest info.confirmation_block_number ≡ false = ground arith in
    elim (Bool-cases (str_beq info.confirmation_txn_hash max_hash)) [
      | inl reserved ↦
          rw (open_block, finalize_at)
            (rw (reserved, finalize_at) (mark_final-HasStatus key c q here))
      | inr normal ↦ elim why [
        | inl same ↦ absurd (ground (arith, str_beq_iff info.confirmation_txn_hash max_hash))
        | inr (n, mined, final) ↦
            let open_mined : ltb latest n ≡ false = ground arith in
            rw (open_block, finalize_at)
              (rw (normal, finalize_at)
                (rw (mined, finalize_at)
                  (rw (open_mined, finalize_at)
                    (mark_final-HasStatus key _ (set_block_number key c info n q)
                      (lookup-insert_self key _ q.metadata)))))
      ]
    ]

finalize_at-only :
    (receipt : Bytes → Receipt) (latest max_retries : ℕ) (m c : BlobMetadata)
    (info : ConfirmationInfo) (q : MemoryDb)
    → (finalize_at receipt latest max_retries m c info q).1 ≡ true
    → IsFinal receipt latest info
unfolding finalize_at
finalize_at-only receipt latest max_retries m c info q h =
    elim (Bool-cases (str_beq info.confirmation_txn_hash max_hash)) [
      | inl reserved ↦
          (ground arith, inl (ground (arith, str_beq_iff info.confirmation_txn_hash max_hash)))
      | inr normal ↦ elim (Receipt-cases (receipt info.confirmation_txn_hash)) [
        | inl (n, mined) ↦ (ground arith, inr (n, mined, ground arith))
        | inr (inl lost) ↦ absurd (ground arith)
        | inr (inr unknown) ↦ absurd (ground arith)
      ]
    ]

-- Only the entry of the key has changed.
abbrev pub IsLocal : BlobKey → MemoryDb → MemoryDb → Type 0
IsLocal key q q' =
    ((k : BlobKey) → (key == k) ≡ false → lookup k q'.metadata ≡ lookup k q.metadata)
    × (q'.blobs ≡ q.blobs)

mark_final-IsLocal : (key : BlobKey) (q : MemoryDb) → IsLocal key q (mark_final key q).0
unfolding mark_blob_finalized
mark_final-IsLocal key q = elim (Option-cases (lookup key q.metadata)) [
  | inl gone ↦ (λ k h. ground arith, ground arith)
  | inr (c, here) ↦ (
    λ k h. ground (arith, lookup-insert key k (record c { blob_status = finalized }) q.metadata),
    ground arith,
  )
]

handle_blob_failure-IsLocal :
    (m : BlobMetadata) (max_retries : ℕ) (q : MemoryDb)
    → IsLocal (get_blob_key m) q (handle_blob_failure m max_retries q).0
unfolding handle_blob_failure increment_blob_retry_count mark_blob_failed
handle_blob_failure-IsLocal m max_retries q =
    let key = get_blob_key m in
    elim (Option-cases (lookup key q.metadata)) [
      | inl gone ↦ (λ k h. ground arith, ground arith)
      | inr (c, here) ↦ (
        λ k h. ground (
          arith,
          lookup-insert key k (record c { blob_status = BlobStatus.failed }) q.metadata,
          lookup-insert key k (record c { num_retries = add64 c.num_retries 1 }) q.metadata,
        ),
        ground arith,
      )
    ]

abbrev moved_to : BlobMetadata → ConfirmationInfo → ℕ → BlobMetadata
moved_to c info n = record c {
  confirmation_info = some (record info { confirmation_block_number = n % 2 ^ 32 });
}

finalize_at-IsLocal :
    (receipt : Bytes → Receipt) (latest max_retries : ℕ) (m c : BlobMetadata)
    (info : ConfirmationInfo) (q : MemoryDb)
    → IsLocal (get_blob_key m) q (finalize_at receipt latest max_retries m c info q).0
unfolding finalize_at
finalize_at-IsLocal receipt latest max_retries m c info q =
    let key = get_blob_key m in
    elim (Bool-cases (ltb latest info.confirmation_block_number)) [
      | inl late ↦ rw (late, finalize_at) (λ k h. refl, refl)
      | inr early ↦ elim (Bool-cases (str_beq info.confirmation_txn_hash max_hash)) [
        | inl reserved ↦
            rw (early, finalize_at) (rw (reserved, finalize_at) (mark_final-IsLocal key q))
        | inr normal ↦ elim (Receipt-cases (receipt info.confirmation_txn_hash)) [
          | inr (inl lost) ↦
              rw (early, finalize_at)
                (rw (normal, finalize_at)
                  (rw (lost, finalize_at) (handle_blob_failure-IsLocal m max_retries q)))
          | inr (inr unknown) ↦
              rw (early, finalize_at)
                (rw (normal, finalize_at) (rw (unknown, finalize_at) (λ k h. refl, refl)))
          | inl (n, mined) ↦
              rw (early, finalize_at)
                (rw (normal, finalize_at)
                  (rw (mined, finalize_at)
                    (elim (Bool-cases (ltb latest n)) [
                      | inl moved ↦ rw (moved, finalize_at) (λ k h. refl, refl)
                      | inr final ↦ rw (final, finalize_at) (marked n)
                    ])))
        ]
      ]
    ]
  where
    marked :
        (n : ℕ)
        → IsLocal
            (get_blob_key m)
            q
            (mark_final (get_blob_key m) (set_block_number (get_blob_key m) c info n q)).0
    marked n =
        let key = get_blob_key m in
        let (same, blobs) = mark_final-IsLocal key (set_block_number key c info n q) in
        (
          λ k h. same k h ∙ ground (arith, lookup-insert key k (moved_to c info n) q.metadata),
          blobs,
        )

-- A round of the loop marks a blob that is in the store exactly when its confirmation is final;
-- a blob that is marked is in status Finalized; no other entry is touched, and no blob's bytes.
pub finalize_blob_lem :
    (receipt : Bytes → Receipt) (latest max_retries : ℕ) (m c : BlobMetadata)
    (info : ConfirmationInfo) (q : MemoryDb)
    → lookup (get_blob_key m) q.metadata ≡ some c
    → c.confirmation_info ≡ some info
    → (q' : MemoryDb) × (marked : Bool) × (finalize_blob receipt latest max_retries m q
        ≡ ok (q', marked))
      × ((marked ≡ true) ↔ IsFinal receipt latest info)
      × (marked ≡ true → HasStatus (get_blob_key m) finalized q')
      × ((k : BlobKey) → (get_blob_key m == k) ≡ false → lookup k q'.metadata ≡ lookup k q.metadata)
      × (q'.blobs ≡ q.blobs)
unfolding finalize_blob finalize_at get_blob_metadata
finalize_blob_lem receipt latest max_retries m c info q here confirmed =
    let out = finalize_at receipt latest max_retries m c info q in
    (
      out.0,
      out.1,
      ground arith,
      (
        finalize_at-only receipt latest max_retries m c info q,
        λ final. (finalize_at-final receipt latest max_retries m c info q here final).0,
      ),
      λ h.
          (finalize_at-final receipt latest max_retries m c info q here
            (finalize_at-only receipt latest max_retries m c info q h)).1,
      (finalize_at-IsLocal receipt latest max_retries m c info q).0,
      (finalize_at-IsLocal receipt latest max_retries m c info q).1,
    )
