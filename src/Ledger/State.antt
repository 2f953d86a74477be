-- ===== src/Ledger/State.antt =====
-- The memory of a LocalLedger, and what it takes from the components around it: the events
-- (src/event.js), the durable intake, the active-segment store, the segment writer, the routing
-- epochs, and the clock.
use glare9_provenance.Prelude.{ℕ, Bytes, Option, List, Result}
use glare9_provenance.Prelude.Dict.{Dict}
use glare9_provenance.Codec.Utf8.{Text}
use glare9_provenance.Sharding.{RoutingPolicy}

-- A record of the durable intake, with the eventBytes that the ledger adds.
pub record Pending (E : Type 0) : Type 0 where
  pub event : E
  pub record_hash : Bytes
  pub sequence : ℕ
  pub accepted_at : Text
  pub event_bytes : ℕ

-- The receipt of a sealed event, an entry of the event index.
pub record Sealed : Type 0 where
  pub event_id : Text
  pub ledger_id : Text
  pub shard_id : Text
  pub routing_epoch_number : ℕ
  pub segment_number : ℕ
  pub record_index : ℕ
  pub record_hash : Bytes
  pub segment_hash : Bytes
  pub signer_key_id : Text

pub record Provisional : Type 0 where
  pub event_id : Text
  pub ledger_id : Text
  pub shard_id : Text
  pub routing_epoch_number : ℕ
  pub segment_number : ℕ
  pub block_index : ℕ
  pub record_index : ℕ
  pub record_hash : Bytes
  pub intake_sequence : ℕ
  pub accepted_at : Text
  pub opened_at : Text

pub record Accepted : Type 0 where
  pub event_id : Text
  pub ledger_id : Text
  pub record_hash : Bytes
  pub intake_sequence : ℕ
  pub accepted_at : Text

pub data Receipt : Type 0 where
  accepted : Accepted → Receipt
  provisional : Provisional → Receipt
  sealed : Sealed → Receipt

-- A completed block of an active segment.
pub record Block (E : Type 0) : Type 0 where
  pub records : List (Pending E)
  pub uncompressed_length : ℕ
  pub records_hash : Bytes
  pub content : Bytes

pub record Active (E : Type 0) : Type 0 where
  pub key : Text
  pub ledger_id : Text
  pub shard_id : Text
  pub epoch_number : ℕ
  pub format_version : ℕ
  pub directory : Text
  pub segment_number : ℕ
  pub previous_segment_hash : Option Bytes
  pub opened_at : Text
  pub blocks : List (Block E)
  pub active_block : List (Pending E)
  pub active_block_bytes : ℕ
  pub record_count : ℕ
  pub byte_count : ℕ
  pub state_path : Option Text

pub record ShardState : Type 0 where
  pub ledger_id : Text
  pub shard_id : Text
  pub epoch_number : ℕ
  pub format_version : ℕ
  pub directory : Text
  pub next_segment_number : ℕ
  pub previous_segment_hash : Option Bytes

pub record Epoch : Type 0 where
  pub ledger_id : Text
  pub epoch_number : ℕ
  pub epoch_hash : Bytes
  pub routing_policy : RoutingPolicy

-- An entry of previousShardHeads.
pub record ShardHead : Type 0 where
  pub head_epoch_number : ℕ
  pub head_shard_id : Text
  pub head_segment_number : Option ℕ
  pub head_segment_hash : Option Bytes

pub record State (E D : Type 0) : Type 0 where
  pub event_index : Dict Sealed
  pub pending_index : Dict (Pending E)
  pub provisional_index : Dict Provisional
  pub shard_states : Dict ShardState
  pub active_segments : Dict (Active E)
  pub assigned_pending_ids : List Text
  pub pending_bytes : ℕ
  pub active_block_bytes : ℕ
  pub routing_epochs : Dict Epoch
  pub ledger_segment_formats : Dict ℕ
  pub disk : D

-- What the ledger calls. `Disk` is all that these calls read and change; each may fail. The events
-- are those of src/event.js: `canonical` is canonicalEventBytes. `millis` is
-- `new Date(value).valueOf()`, `trusted_signer` requireTrustedSegmentSigner where the ledger has a trust
-- bundle, `write_segment` the hash and the signer of a written segment, and the two calls for epochs
-- write an epoch and answer what is read back of it.
pub record Environment : Type 1 where
  pub Event : Type 0
  pub Disk : Type 0
  pub event_id : Event → Text
  pub ledger_id : Event → Text
  pub subject : Event → Text
  pub validate_event : Event → Result (Unit {0})
  pub canonical : Event → Bytes
  pub sha256 : Bytes → Bytes
  pub intake_append : Event → Disk → Result (ℕ × Text) × Disk
  pub intake_remove : Pending Event → Disk → Result (Unit {0}) × Disk
  pub now : Disk → Text
  pub millis : Text → ℕ
  pub compress : Bytes → Result Bytes
  pub trusted_signer : Active Event → Result (Unit {0})
  pub persist_active : Active Event → Disk → Result Text × Disk
  pub remove_active : Active Event → Disk → Result (Unit {0}) × Disk
  pub write_segment : Active Event → Epoch → Disk → Result (Bytes × Text) × Disk
  pub write_genesis_epoch : Text → Disk → Result Epoch × Disk
  pub write_next_epoch :
      Text → ℕ → RoutingPolicy → Text → Epoch → List ShardHead → Disk → Result Epoch × Disk
