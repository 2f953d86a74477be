-- ===== src/Attestation.antt =====
-- src/routing-epoch.js and src/checkpoint.js: signed statements in containers of three frames.
pub mod Checks
pub mod Timestamp
pub mod Container
pub mod Heads
pub mod Descriptor
pub mod Validation
pub mod Epoch
pub mod Checkpoint
pub mod Threshold
