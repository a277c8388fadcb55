-- ===== src/Lib.antt =====
-- The core of the 0G data availability client: how a blob is stored, encoded, batched, signed and
-- submitted. Paths are from the repository's root.
--
-- The disperser keeps a blob and its metadata in a blob store; the encoding streamer sends the blobs
-- in status Processing to an encoder and keeps the results; the batcher makes batches of results,
-- dispatches them, and hands them to the slice signer, which collects signatures of the slices;
-- signed batches are submitted, confirmed, and finalized.
--
-- Common: lists and strings of native numbers, maps, results, 64-bit words, byte formats.
--   A Go string, byte slice or fixed array is a list of bytes (`Bytes`); a map is an association
--   list with distinct keys (`Map`), and where a `range` visits a map, the order is an argument;
--   a pointer that may be nil is an `Option`; an error or a panic is a value of `Error`.
-- Core, Core.Data, Core.Encoding: the structs of core/data.go, the sizes of core/encoding.go.
-- Disperser: disperser/disperser.go. Status (BlobStatus, FromBlobStatusProto, getResponseStatus),
--   BlobKey (String, ParseBlobKey), Metadata (BlobMetadata, IsConfirmed), Hashes (how keys are
--   derived), KeyCache (BlobKeyCache).
-- MemoryDb: disperser/common/memorydb/memorydb.go, every method of SharedBlobStore, as a function
--   from store to store. Queries has the methods that only read.
-- EncodedStore: disperser/batcher/encoded_blob_store.go, every method of encodedBlobStore. Loop has
--   the loop of GetNewEncodingResults as a relation.
-- Streamer: disperser/batcher/encoding_streamer.go. RequestEncoding, the job of a worker,
--   ProcessEncodedBlobs and CreateBatch, over MemoryDb and EncodedStore.
-- Notifier: the size notifier of disperser/batcher/encoding_streamer.go with the loop of
--   disperser/batcher/batcher.go that it wakes, as a step relation on two goroutines, a mutex and
--   a channel of capacity 1. The signer's notifier, which need not be reset by its receiver, is not
--   modelled.
-- SliceSigner: disperser/batcher/slice_signer.go. Aggregate is aggregateSignature up to the root
--   submissions, Bits its bitmaps, Pending the queues and the batches of signed results.
-- Failures: handleFailure, which disperser/batcher has three times, and the loops that drop blobs whose
--   retries are used up. Entries says what becomes of each entry of the blob store.
-- Batcher: disperser/batcher/batcher.go. HandleSingleBatch over the streamer, the signer and the blob
--   store, and a round of its loop in Start; Signed has HandleSignedBatch; Signing has
--   waitBatchTxFinalized, getSigners and the end of aggregateSignature (slice_signer.go), which need
--   the blob store.
-- Confirmer: disperser/batcher/confirmer.go, its queue and ConfirmBatch.
-- KvStore: disperser/store.go over the interface of disperser/db.go, whose laws are the record IsDb of
--   KvStore.Batches. Scan and Expiry have a round of DeleteExpiredEntries, Kept what it
--   leaves, Rounds its end.
-- ApiServer: disperser/apiserver/server.go. DisperseBlob, GetBlobStatus, RetrieveBlob, and the rate
--   limiter of the clients, over MemoryDb and KvStore.
-- Finalizer: disperser/batcher/finalizer.go. The finalized block, the loop of FinalizeBlobs, and
--   PersistConfirmedBlobs, over MemoryDb and the key cache.
-- RateLimit: common/ratelimit/limiter.go over common/store/local_store.go.
-- Tests: runs on concrete inputs.
--
-- Each method of a store runs under the store's mutex, so it is one function. Numbers that Go keeps
-- in 64 bits wrap where the code adds or subtracts (`add64`, `sub64`). All loops are structural
-- recursion on the list that they visit, so no fuel is needed, but for two: the reader of a record in
-- the key-value store has the length of the record as fuel, of which each round takes 8 bytes, and
-- DeleteExpiredEntries has the number of rounds that begin within its time limit.
-- A batch that goes from one goroutine to the next over a channel without a buffer is in the
-- receiver's queue at once: the receiver does nothing else.
--
-- Parameters, as third-party code: the digests (SHA-256, Keccak-256), the BLS curve, the encoder's
-- answers, the Merkle tree, the chain's receipts and contracts, the codec of a record, the database,
-- the retriever, and what a request costs at the rate limiter. Not modelled: logging and metrics,
-- contexts and timeouts, the chain and contract clients, DynamoDB and S3, generated code, commands and
-- flags; of the program's own logic, the requests that are sent to the signers (assignEncodedBlobs), the
-- shapes of core/locate.go, the hashes of core/serialization.go, the dispatcher and the transactor.
pub mod Common
pub mod Core
pub mod Disperser
pub mod Notifier
pub mod SliceSigner
pub mod Streamer
pub mod Finalizer
pub mod RateLimit
pub mod Failures
pub mod Batcher
pub mod Confirmer
pub mod KvStore
pub mod ApiServer
pub mod MemoryDb
pub mod EncodedStore
mod Tests
