-- ===== src/Ledger/Lookup.antt =====
-- receipt, ingestBatch and ingestAcceptedBatch of services/ledger/src/local-ledger.js.
use glare9_provenance.Prelude.{
  ℕ, Bytes, Bool, true, false, ◌&&◌, ◌||◌, not, [], ◌∷◌, List, leb, ◌==◌, length, Option, none,
  some, Result, ok, err, invariant,
}
use glare9_provenance.Prelude.Errors
use glare9_provenance.Prelude.Octets.{equals}
use glare9_provenance.Prelude.Dict.{get}
use glare9_provenance.Prelude.Action.{Action, gets, ◌>>=◌, ◌>>◌}
use glare9_provenance.Codec.Utf8.{Text}
use glare9_provenance.Ledger.Config.{Lifecycle}
use glare9_provenance.Ledger.State.{Receipt, accepted, provisional, sealed, State, Environment}
use glare9_provenance.Ledger.Names.{to_hex}
use glare9_provenance.Ledger.Accept.{accepted_receipt, accept_batch}
use glare9_provenance.Ledger.Active.{no_records}
use glare9_provenance.Ledger.Drain.{drain_accepted}

-- /^[0-9a-f]{64}$/u.test(value)
abbrev pub is_lower_hex : ℕ → Bool
is_lower_hex c = leb b'0' c && leb c b'9' || leb b'a' c && leb c b'f'

unfoldable pub all_hex_digits : Text → Bool
all_hex_digits [] = true
all_hex_digits (c ∷ t) = is_lower_hex c && all_hex_digits t

abbrev pub is_hash_text : Text → Bool
is_hash_text value = length value == 64 && all_hex_digits value

module _ (env : Environment) (lifecycle : Lifecycle) where
  open env use {
    Event, Disk, event_id, ledger_id, subject, sha256, intake_remove, write_genesis_epoch,
    write_next_epoch,
  }

  abbrev Ledger : Type 0
  Ledger = State Event Disk

  receipt_event_id : Receipt → Text
  receipt_event_id (accepted r) = r.event_id
  receipt_event_id (provisional r) = r.event_id
  receipt_event_id (sealed r) = r.event_id

  unfoldable pub receipt_hash : Receipt → Bytes
  receipt_hash (accepted r) = r.record_hash
  receipt_hash (provisional r) = r.record_hash
  receipt_hash (sealed r) = r.record_hash

  -- this.eventIndex.get(receipt.eventId) ?? receipt
  unfoldable pub latest_sealed : Ledger → Receipt → Receipt
  unfolding receipt_event_id
  latest_sealed s r = elim (get (receipt_event_id r) s.event_index) [
    | some found ↦ sealed found
    | none ↦ r
  ]

  -- this.eventIndex.get(receipt.eventId) ?? this.provisionalIndex.get(receipt.eventId) ?? receipt
  unfoldable pub latest : Ledger → Receipt → Receipt
  unfolding receipt_event_id
  latest s r = elim (get (receipt_event_id r) s.event_index) [
    | some found ↦ sealed found
    | none ↦ elim (get (receipt_event_id r) s.provisional_index) [
      | some found ↦ provisional found
      | none ↦ r
    ]
  ]

  unfoldable pub map_receipts : (Receipt → Receipt) → List Receipt → List Receipt
  map_receipts f [] = []
  map_receipts f (r ∷ rs) = f r ∷ map_receipts f rs

  -- ingestBatch(events)
  unfoldable pub ingest_batch : List Event → Action Ledger (List Receipt)
  ingest_batch events = do
    receipts ← accept_batch env lifecycle events
    drain_accepted env lifecycle true
    gets (λ s. map_receipts (latest_sealed s) receipts)

  -- ingestAcceptedBatch(events)
  unfoldable pub ingest_accepted_batch : List Event → Action Ledger (List Receipt)
  ingest_accepted_batch events = do
    receipts ← accept_batch env lifecycle events
    drain_accepted env lifecycle false
    gets (λ s. map_receipts (latest s) receipts)

  -- The receipt of an event ID in the three indexes.
  unfoldable pub find_receipt : Text → Ledger → Option Receipt
  find_receipt id s = elim (get id s.event_index) [
    | some r ↦ some (sealed r)
    | none ↦ elim (get id s.provisional_index) [
      | some r ↦ some (provisional r)
      | none ↦ elim (get id s.pending_index) [
        | some p ↦ some (accepted_receipt env lifecycle p)
        | none ↦ none
      ]
    ]
  ]

  abbrev pub matching_receipt : Text → Option Receipt → Result Receipt
  matching_receipt hash_text none = err "RECEIPT_NOT_FOUND"
  matching_receipt hash_text (some r) =
      Errors.◌>>◌ (invariant (equals (to_hex (receipt_hash r)) hash_text) "EVENT_ID_CONFLICT")
        (ok r)

  -- receipt(eventId, recordHash), of two strings
  unfoldable pub receipt : Text → Text → Ledger → Result Receipt
  receipt id hash_text s = Errors.◌>>◌ (invariant (not (no_records id)) "RECEIPT_EVENT_ID") (
      Errors.◌>>◌ (invariant (is_hash_text hash_text) "RECEIPT_RECORD_HASH")
        (matching_receipt hash_text (find_receipt id s)))
