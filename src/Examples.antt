-- ===== src/Examples.antt =====
-- The theorems at concrete inputs, and small runs of the definitions.
pub mod Codecs
pub mod Formats
pub mod Hashes
pub mod Shards
pub mod Ledgers
pub mod Runs
pub mod Segments
pub mod Receipts
pub mod Outboxes
pub mod Trusts
pub mod Attestations
pub mod Thresholds
pub mod Evidence
