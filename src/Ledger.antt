-- ===== src/Ledger.antt =====
-- services/ledger/src/local-ledger.js: the ledger's memory and its operations.
pub mod Config
pub mod State
pub mod Names
pub mod Active
pub mod Segments
pub mod Sealing
pub mod Appending
pub mod Drain
pub mod Lookup
pub mod Transition
pub mod Identity
pub mod Limits
pub mod Recovery
pub mod Accept
