-- ===== src/Lib.antt =====
-- Provenance 9: a governance evidence ledger.
--
-- Events are validated, encoded in a canonical form and hashed under a domain. A ledger service
-- retains them in a durable intake, routes them to shards, collects them in active segments, and
-- seals each segment as a file of typed frames whose records a Merkle root commits to. Verifiers read
-- the files again.
--
-- Files and the code that they model:
--   Prelude and its children: errors (src/errors.js) as results, byte strings as lists of numbers
--     (the Buffer operations that the code uses), Map as a list of entries, and methods that change
--     an object and may throw as state passing that keeps the changes beside the error.
--   Codec: src/codec/canonical.js. Varint, Utf8 (Buffer.from and TextDecoder), Value (what can be
--     encoded), Encode (encodeValue, encodeCanonical), Decode (the class Decoder, decodeCanonical).
--   Format: src/format/framing.js (Framing) and src/format/records.js (Records).
--   Crypto: domainHash of src/crypto.js, over a parameter sha256; Hex (toHex, fromHex) and Signatures
--     (key IDs, signers, signing and verifying).
--   Merkle: src/merkle.js.
--   Sharding: src/sharding.js, the test of shard identities that the readers share, and
--     src/shard-planner.js (Planner).
--   Ledger: services/ledger/src/local-ledger.js. Config (lifecycleConfig), State (the maps of a
--     LocalLedger and what it calls), Names (keys and file names), Accept (#acceptBatch), Active
--     (#activeSegmentFor, provisional receipts), Segments (#completeActiveBlock,
--     #makeActiveMemoryRoom), Sealing (#sealActiveSegment), Appending (#appendToActive, #sealExpired),
--     Drain (#drainAccepted, #ensureGenesisRoutingEpoch), Lookup (receipt, ingestBatch,
--     ingestAcceptedBatch), Transition (#transitionRouting). Identity is about what an event ID
--     identifies (Log: a ledger as a log that only grows) and Limits about the memory of the active
--     blocks, in every run of these calls. Recovery (#loadRoutingEpochs, for one ledger): its histories
--     are chains (Linked), which their last hash determines (Unique).
--   Attestation: src/routing-epoch.js: Timestamp and Checks (the tests of values), Container (the three
--     frames of a signed statement, as src/checkpoint.js has them too), Heads, Descriptor, Validation,
--     and Epoch (writeRoutingEpoch, verifyRoutingEpochBytes). src/checkpoint.js: Checkpoint (what is
--     validated) and Threshold (verifyCheckpointBytes, verifyWitnessReceiptBytes,
--     verifyThresholdAttestation). An object is given with its entries in the order of their keys.
--   Events: src/event.js.
--   Segment: partitionRecords of src/segment-writer.js.
--   Contract: validateLifecycleReceipt of packages/connector-contract/src/client.js, and
--     reconciliation.js beside it.
--   Trust: src/signer-trust.js. Orders has comparisons that are consistent, Unique the coverage of a
--     position by one binding.
--   Connector: connectors/mysql/src/outbox-repository.js (Outbox: the statements on the outbox table,
--     with their transactions) and worker.js (Worker: retryDelay, runOnce).
--   Examples: the theorems at concrete inputs.
--
-- Bounds and fuel: the varint loops run at most ten rounds as in the code; the decoder's depth is the
-- fuel of its recursion, since the code refuses a deeper value; the loop over a block's records has
-- as many rounds as the block has bytes, and each round takes at least four; a Merkle level has as
-- many rounds as nodes, and each round makes it shorter; a decimal numeral has sixteen digits; the
-- loop that makes room for a record has as many rounds as segments, and each completes a block.
--
-- Numbers are native naturals, and what is 32 or 64 bits wide is bounded where it is written. A
-- JavaScript number is a safe integer or the 64 bits of another double.
--
-- Not modelled: what node:crypto does with keys and signatures, Unicode normalization, the writing of
-- checkpoints and of witness receipts, the headers and manifests of segments, compression, the file
-- system, HTTP servers and clients, the connection of the MySQL connector, command lines and scripts.
-- Of the ledger, the recovery of segments and checkpoints at the start, the publication of
-- checkpoints and the timer. sha256, the keys and signatures, the intake, the storage, the writing of
-- segments and epochs by the ledger, localeCompare and the locks of other transactions are parameters.
pub mod Prelude
pub mod Codec
pub mod Format
pub mod Crypto
pub mod Merkle
pub mod Sharding
pub mod Segment
pub mod Connector
pub mod Contract
pub mod Ledger
pub mod Attestation
pub mod Events
pub mod Trust
pub mod Examples
