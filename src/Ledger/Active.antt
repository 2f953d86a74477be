-- ===== src/Ledger/Active.antt =====
-- The active segments of services/ledger/src/local-ledger.js: how one is opened, found and stored,
-- and its provisional receipts. An active segment is an object that the ledger's map holds until it is sealed; here
-- it is reached by its key, and each operation reads it again where the code reads a field again.
use glare9_provenance.Prelude.{
  ℕ, suc, ◌+◌, Bytes, Bool, true, false, [], ◌∷◌, ◌++◌, List, leb, ltb, if◌then◌else◌, length,
  Option, none, some, Result, ok, invariant,
}
use glare9_provenance.Prelude.Errors
use glare9_provenance.Prelude.Octets.{write_u32}
use glare9_provenance.Prelude.Dict.{Dict, get, set}
use glare9_provenance.Prelude.Action.{Action}
use glare9_provenance.Codec.Utf8.{Text}
use glare9_provenance.Ledger.Config.{Lifecycle}
use glare9_provenance.Ledger.State.{Pending, Provisional, Block, Active, Epoch, State, Environment}
use glare9_provenance.Ledger.Names.{state_key, ledger_epoch_key, segment_prefix}

-- An accepted event on its way to a shard: { event, route, recordHash, pending }, with the event and
-- its hash those of `pending`.
pub record Routed (E : Type 0) : Type 0 where
  pub pending : Pending E
  pub shard_id : Text

abbrev pub or_default {ℓ} : {A : Type ℓ} → Option A → A → A
or_default none a = a
or_default (some b) a = b

abbrev pub no_records {ℓ} : {A : Type ℓ} → List A → Bool
no_records [] = true
no_records (x ∷ xs) = false

-- active.blocks.flatMap((block) => block.records)
unfoldable pub all_records : {E : Type 0} → List (Block E) → List (Pending E)
all_records [] = []
all_records (block ∷ blocks) = block.records ++ all_records blocks

-- The first of the largest: the head of the list that is sorted by activeBlockBytes from the
-- greatest on, where equal elements keep their order.
unfoldable pub largest : {E : Type 0} → List (Active E) → Option (Active E)
largest [] = none
largest (a ∷ as') = elim (largest as') [
  | none ↦ some a
  | some b ↦ some (if ltb a.active_block_bytes b.active_block_bytes then b else a)
]

module _ (env : Environment) (lifecycle : Lifecycle) where
  open env use {
    Event, Disk, event_id, ledger_id, canonical, sha256, intake_remove, now, millis, compress,
    trusted_signer, persist_active, remove_active, write_segment,
  }

  -- A call of another component.
  unfoldable pub call : {A : Type 0} → (Disk → Result A × Disk) → Action (State Event Disk) A
  call component s = let (answer, disk) = component s.disk in (answer, record s { disk = disk })

  -- framedEventBytes(event); writeUInt32BE refuses a greater number
  unfoldable pub framed_event_bytes : Event → Result Bytes
  framed_event_bytes event =
      Errors.◌>>◌ (invariant (leb (length (canonical event)) 0xffff_ffff) "ERR_OUT_OF_RANGE")
        (ok (write_u32 (length (canonical event)) ++ canonical event))

  -- Buffer.concat(completed.map((pending) => framedEventBytes(pending.event)))
  unfoldable pub framed_block : List (Pending Event) → Result Bytes
  framed_block [] = ok []
  framed_block (p ∷ ps) =
      Errors.◌>>=◌ (framed_event_bytes p.event)
        (λ first. Errors.◌>>=◌ (framed_block ps) (λ rest. ok (first ++ rest)))

  abbrev pub provisional_receipt : Active Event → ℕ → ℕ → Pending Event → Provisional
  provisional_receipt active block_index record_index p = record {
    event_id = event_id p.event;
    ledger_id = active.ledger_id;
    shard_id = active.shard_id;
    routing_epoch_number = active.epoch_number;
    segment_number = active.segment_number;
    block_index = block_index;
    record_index = record_index;
    record_hash = p.record_hash;
    intake_sequence = p.sequence;
    accepted_at = p.accepted_at;
    opened_at = active.opened_at;
  }

  unfoldable pub rebuild_block :
      Active Event → ℕ → ℕ → List (Pending Event) → Dict Provisional → Dict Provisional
  rebuild_block active block_index record_index [] index = index
  rebuild_block active block_index record_index (p ∷ ps) index =
      rebuild_block active block_index (suc record_index) ps
        (set (event_id p.event) (provisional_receipt active block_index record_index p) index)

  unfoldable pub rebuild_blocks :
      Active Event → ℕ → ℕ → List (Block Event) → Dict Provisional → Dict Provisional
  rebuild_blocks active block_index record_index [] index = index
  rebuild_blocks active block_index record_index (block ∷ blocks) index =
      rebuild_blocks active (suc block_index) (record_index + length block.records) blocks
        (rebuild_block active block_index record_index block.records index)

  -- #rebuildProvisionalReceipts(active)
  unfoldable pub rebuild_provisional_receipts : Active Event → State Event Disk → State Event Disk
  rebuild_provisional_receipts active s = record s {
    provisional_index = rebuild_blocks active 0 0 active.blocks s.provisional_index;
  }

  abbrev pub put_active : Active Event → State Event Disk → State Event Disk
  put_active active s = record s { active_segments = set active.key active s.active_segments }

  -- The new object of #activeSegmentFor.
  unfoldable pub opened_segment : Routed Event → Epoch → State Event Disk → Active Event
  opened_segment item epoch s =
      let ledger = ledger_id item.pending.event in
      let key = state_key ledger epoch.epoch_number item.shard_id in
      let format_version =
        or_default (get (ledger_epoch_key ledger epoch.epoch_number) s.ledger_segment_formats) 2 in
      let fresh : Active Event = record {
        key = key;
        ledger_id = ledger;
        shard_id = item.shard_id;
        epoch_number = epoch.epoch_number;
        format_version = format_version;
        directory = segment_prefix sha256 ledger epoch.epoch_number item.shard_id format_version;
        segment_number = 0;
        previous_segment_hash = none;
        opened_at = now s.disk;
        blocks = [];
        active_block = [];
        active_block_bytes = 0;
        record_count = 0;
        byte_count = 0;
        state_path = none;
      } in
      elim (get key s.shard_states) [
        | none ↦ fresh
        | some shard ↦ record fresh {
          directory = shard.directory;
          segment_number = shard.next_segment_number;
          previous_segment_hash = shard.previous_segment_hash;
        }
      ]

  -- #activeSegmentFor(item, routingEpoch)
  unfoldable pub active_segment_for :
      Routed Event → Epoch → Action (State Event Disk) (Active Event)
  active_segment_for item epoch s =
      let key = state_key (ledger_id item.pending.event) epoch.epoch_number item.shard_id in
      elim (get key s.active_segments) [
        | some active ↦ (ok active, s)
        | none ↦ (let active = opened_segment item epoch s in (ok active, put_active active s))
      ]
