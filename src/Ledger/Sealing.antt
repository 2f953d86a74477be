-- ===== src/Ledger/Sealing.antt =====
-- #sealActiveSegment and #recordLedgerSegmentFormat of services/ledger/src/local-ledger.js.
use glare9_provenance.Prelude.{
  ℕ, suc, ◌+◌, ◌-◌, Bytes, true, false, [], ◌∷◌, List, ◌==◌, if◌then◌else◌, Option, none, some, ok,
  invariant,
}
use glare9_provenance.Prelude.Octets.{equals}
use glare9_provenance.Prelude.Dict.{Dict, get, set, delete}
use glare9_provenance.Prelude.Action.{
  Action, return, throw, lift, gets, modify, for_each, ◌>>=◌, ◌>>◌,
}
use glare9_provenance.Codec.Utf8.{Text}
use glare9_provenance.Ledger.Config.{Lifecycle}
use glare9_provenance.Ledger.State.{Pending, Sealed, Active, ShardState, Epoch, State, Environment}
use glare9_provenance.Ledger.Names.{ledger_epoch_key}
use glare9_provenance.Ledger.Active.{no_records, all_records, call}
use glare9_provenance.Ledger.Segments.{with_active, complete_active_block}

-- set.delete(id) on a list without repetitions
unfoldable pub remove_id : Text → List Text → List Text
remove_id id [] = []
remove_id id (other ∷ ids) = if equals other id then ids else other ∷ remove_id id ids

module _ (env : Environment) (lifecycle : Lifecycle) where
  open env use {
    Event, Disk, event_id, sha256, intake_remove, millis, compress, trusted_signer, persist_active,
    remove_active, write_segment,
  }

  abbrev Effect : Type 0
  Effect = Action (State Event Disk) (Unit {0})

  -- #recordLedgerSegmentFormat(ledgerId, epochNumber, formatVersion)
  unfoldable pub record_segment_format : Text → ℕ → ℕ → Effect
  record_segment_format ledger epoch_number format_version = do
    let key = ledger_epoch_key ledger epoch_number
    existing ← gets (λ s. get key s.ledger_segment_formats)
    lift (elim existing [
      | none ↦ ok tt
      | some other ↦ invariant (other == format_version) "LEDGER_SEGMENT_FORMAT"
    ])
    modify
        (λ s. record s { ledger_segment_formats = set key format_version s.ledger_segment_formats })

  abbrev pub sealed_receipt : Active Event → Bytes → Text → ℕ → Pending Event → Sealed
  sealed_receipt active segment_hash signer_key_id record_index p = record {
    event_id = event_id p.event;
    ledger_id = active.ledger_id;
    shard_id = active.shard_id;
    routing_epoch_number = active.epoch_number;
    segment_number = active.segment_number;
    record_index = record_index;
    record_hash = p.record_hash;
    segment_hash = segment_hash;
    signer_key_id = signer_key_id;
  }

  -- records.forEach((pending, recordIndex) => this.eventIndex.set(...))
  unfoldable pub index_records :
      Active Event → Bytes → Text → ℕ → List (Pending Event) → Dict Sealed → Dict Sealed
  index_records active segment_hash signer record_index [] index = index
  index_records active segment_hash signer record_index (p ∷ ps) index =
      index_records active segment_hash signer (suc record_index) ps
        (set (event_id p.event) (sealed_receipt active segment_hash signer record_index p) index)

  abbrev pub next_shard_state : Active Event → Bytes → ShardState
  next_shard_state active segment_hash = record {
    ledger_id = active.ledger_id;
    shard_id = active.shard_id;
    epoch_number = active.epoch_number;
    format_version = active.format_version;
    directory = active.directory;
    next_segment_number = active.segment_number + 1;
    previous_segment_hash = some segment_hash;
  }

  -- The indexes once the segment is written.
  abbrev pub store_sealed : Active Event → Bytes → Text → State Event Disk → State Event Disk
  store_sealed active segment_hash signer s = record s {
    event_index =
        index_records active segment_hash signer 0 (all_records active.blocks) s.event_index;
    shard_states = set active.key (next_shard_state active segment_hash) s.shard_states;
  }

  -- The pending record leaves the index, and its bytes the sum.
  abbrev pub forget_pending : Pending Event → State Event Disk → State Event Disk
  forget_pending p s = record s {
    pending_index = delete (event_id p.event) s.pending_index;
    pending_bytes = s.pending_bytes - p.event_bytes;
  }

  abbrev pub unassign : Pending Event → State Event Disk → State Event Disk
  unassign p s = record s {
    provisional_index = delete (event_id p.event) s.provisional_index;
    assigned_pending_ids = remove_id (event_id p.event) s.assigned_pending_ids;
  }

  unfoldable pub release_record : Pending Event → Effect
  release_record p = do
    modify (unassign p)
    call env lifecycle (intake_remove p)
    modify (forget_pending p)

  -- `await writeSegment(...)`; the fields of an epoch that is not there cannot be read
  unfoldable pub write_active :
      Active Event → Option Epoch → Action (State Event Disk) (Bytes × Text)
  write_active active none = throw "TypeError"
  write_active active (some epoch) = call env lifecycle (write_segment active epoch)

  unfoldable pub seal_completed : Active Event → Effect
  seal_completed active = do
    epoch ← gets (λ s. get active.ledger_id s.routing_epochs)
    lift (trusted_signer active)
    (segment_hash, signer) ← write_active active epoch
    record_segment_format active.ledger_id active.epoch_number active.format_version
    modify (store_sealed active segment_hash signer)
    call env lifecycle (remove_active active)
    modify (λ s. record s { active_segments = delete active.key s.active_segments })
    for_each release_record (all_records active.blocks)

  -- #sealActiveSegment(active)
  unfoldable pub seal_active_segment : Text → Effect
  seal_active_segment key = do
    complete_active_block env lifecycle key
    with_active env lifecycle key (λ active. elim (no_records active.blocks) [
      | true ↦ return tt
      | false ↦ seal_completed active
    ])
