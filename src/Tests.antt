-- ===== src/Tests.antt =====
-- Runs on concrete inputs, and every property that has hypotheses at an input that meets them.
mod Keys
mod Memory
mod Encoded
mod Notify
mod Signer
mod Stream
mod Final
mod Rate
mod Batch
mod Kv
mod Api
mod Sign
mod Submit
mod Confirm
