-- ===== src/SliceSigner.antt =====
-- disperser/batcher/slice_signer.go: the signatures of a batch's slices, and the queues of batches.
-- The curve (BLS signatures, public keys, their sums and the check of a signature) is a third-party
-- library, so its types and operations are parameters.
pub mod Bits
pub mod Aggregate
pub mod Votes
pub mod Collect
pub mod Quorum
pub mod Pending
pub mod Release
pub mod Accounting
