-- ===== src/Ledger/Accept.antt =====
-- #acceptBatch of services/ledger/src/local-ledger.js: the checks of a batch, and its retention.
pub mod Capacity
pub mod Retention
pub mod Acknowledged
use glare9_provenance.Prelude.{
  ℕ, zero, suc, ◌+◌, Bytes, Bool, true, false, ◌&&◌, ◌||◌, not, [], ◌∷◌, List, map, ltb,
  if◌then◌else◌, length, Option, none, some, Result, ok, err, fail, invariant,
}
use glare9_provenance.Prelude.Errors
use glare9_provenance.Prelude.Octets.{equals}
use glare9_provenance.Prelude.Dict.{Dict, get, has, set}
use glare9_provenance.Prelude.Action.{Action, return, lift, gets, ◌>>=◌, ◌>>◌}
use glare9_provenance.Codec.Utf8.{Text}
use glare9_provenance.Crypto.{codes, digest}
use glare9_provenance.Ledger.Config.{Lifecycle}
use glare9_provenance.Ledger.State.{
  Pending, Sealed, Accepted, Receipt, accepted, sealed, State, Environment,
}

-- { event, recordHash, eventBytes }
pub record Item (E : Type 0) : Type 0 where
  pub event : E
  pub record_hash : Bytes
  pub event_bytes : ℕ

unfoldable pub sum_bytes : {E : Type 0} → List (Item E) → ℕ
sum_bytes [] = 0
sum_bytes (item ∷ items) = item.event_bytes + sum_bytes items

module _ (env : Environment) (lifecycle : Lifecycle) where
  open env use {Event, Disk, event_id, ledger_id, validate_event, canonical, sha256, intake_append}

  abbrev pub Ledger : Type 0
  Ledger = State Event Disk

  unfoldable pub validate_all : List Event → Result (Unit {0})
  validate_all [] = ok tt
  validate_all (event ∷ events) = Errors.◌>>=◌ (validate_event event) (λ _. validate_all events)

  -- eventHash(event): the digest of the canonical bytes
  unfoldable pub event_hash : Event → Bytes
  event_hash event = digest sha256 (codes "event-record-v1") (canonical event ∷ [])

  unfoldable pub prepare : Event → Item Event
  prepare event = record {
    event = event;
    record_hash = event_hash event;
    event_bytes = length (canonical event);
  }

  -- An entry of another hash under the item's event ID
  unfoldable pub conflicts : Option Bytes → Bytes → Bool
  conflicts none hash = false
  conflicts (some other) hash = not (equals other hash)

  unfoldable pub sealed_hash : Text → Ledger → Option Bytes
  sealed_hash id s = elim (get id s.event_index) [ none ↦ none | some r ↦ some r.record_hash ]

  unfoldable pub pending_hash : Text → Ledger → Option Bytes
  pending_hash id s = elim (get id s.pending_index) [ none ↦ none | some p ↦ some p.record_hash ]

  -- The loop over the prepared items; `request_ids` is its map.
  unfoldable pub check_conflicts : Dict Bytes → List (Item Event) → Ledger → Result (Unit {0})
  unfolding conflicts sealed_hash pending_hash
  check_conflicts request_ids [] s = ok tt
  check_conflicts request_ids (item ∷ items) s =
      let id = event_id item.event in
      Errors.◌>>=◌
        (invariant (not (conflicts (get id request_ids) item.record_hash)) "EVENT_ID_CONFLICT")
        (λ _.
          Errors.◌>>=◌
            (invariant (not (conflicts (sealed_hash id s) item.record_hash)) "EVENT_ID_CONFLICT")
            (λ _.
              Errors.◌>>=◌
                (invariant (not (conflicts (pending_hash id s) item.record_hash))
                  "EVENT_ID_CONFLICT")
                (λ _. check_conflicts (set id item.record_hash request_ids) items s)))

  -- The first item of each event ID that is not known.
  unfoldable pub new_items : (Text → Bool) → List (Item Event) → List (Item Event)
  new_items known [] = []
  new_items known (item ∷ items) = elim (known (event_id item.event)) [
    | true ↦ new_items known items
    | false ↦ item ∷ new_items (λ id. equals (event_id item.event) id || known id) items
  ]

  abbrev pub is_known : Ledger → Text → Bool
  is_known s id = has id s.event_index || has id s.pending_index

  -- newItems.some((item) => item.eventBytes + 4 > this.lifecycle.maxActiveBlockBytes)
  any_too_large : List (Item Event) → Bool
  any_too_large [] = false
  any_too_large (item ∷ items) =
      ltb lifecycle.max_active_block_bytes (item.event_bytes + 4) || any_too_large items

  unfoldable pub check_capacity : List (Item Event) → Ledger → Result (Unit {0})
  unfolding any_too_large
  check_capacity new s =
      Errors.◌>>=◌ (invariant (not (any_too_large new)) "LEDGER_BACKPRESSURE") (λ _.
        invariant
          (not (
            ltb lifecycle.max_accepted_events (length s.pending_index + length new)
            || ltb lifecycle.max_accepted_bytes (s.pending_bytes + sum_bytes new)))
          "LEDGER_BACKPRESSURE")

  unfoldable pub accepted_receipt : Pending Event → Receipt
  accepted_receipt p = accepted (record {
    event_id = event_id p.event;
    ledger_id = ledger_id p.event;
    record_hash = p.record_hash;
    intake_sequence = p.sequence;
    accepted_at = p.accepted_at;
  })

  -- The record that the intake answers, with the bytes of the event.
  abbrev pub pending_of : Item Event → ℕ → Text → Pending Event
  pending_of item sequence accepted_at = record {
    event = item.event;
    record_hash = item.record_hash;
    sequence = sequence;
    accepted_at = accepted_at;
    event_bytes = item.event_bytes;
  }

  -- The writes to the index that follow the answer of the intake.
  abbrev pub keep_answer :
      Item Event → Result (ℕ × Text) → Disk → Ledger → Result (Pending Event) × Ledger
  keep_answer item (err code) disk s = (err code, record s { disk = disk })
  keep_answer item (ok (sequence, accepted_at)) disk s = (
    ok (pending_of item sequence accepted_at),
    record s {
      disk = disk;
      pending_index =
          set (event_id item.event) (pending_of item sequence accepted_at) s.pending_index;
      pending_bytes = s.pending_bytes + item.event_bytes;
    },
  )

  -- `await this.intake.append(item.event)`, and what follows it.
  unfoldable pub retain : Item Event → Action Ledger (Pending Event)
  retain item s =
      let (answer, disk) = intake_append item.event s.disk in keep_answer item answer disk s

  -- One round of the last loop. `acceptedThisRequest` holds only what the pending index holds too.
  unfoldable pub accept_item : Item Event → Action Ledger Receipt
  unfolding retain accepted_receipt
  accept_item item s = elim (get (event_id item.event) s.event_index) [
    | some r ↦ (ok (sealed r), s)
    | none ↦ elim (get (event_id item.event) s.pending_index) [
      | some p ↦ (ok (accepted_receipt p), s)
      | none ↦ (retain item >>= λ p. return (accepted_receipt p)) s
    ]
  ]

  unfoldable pub accept_items : List (Item Event) → Action Ledger (List Receipt)
  accept_items [] = return []
  accept_items (item ∷ items) =
      accept_item item >>= λ r. accept_items items >>= λ rs. return (r ∷ rs)

  -- #acceptBatch(events)
  unfoldable pub accept_batch : List Event → Action Ledger (List Receipt)
  unfolding validate_all prepare
  accept_batch events = do
    lift (validate_all events)
    let items = map prepare events
    s ← gets (λ s. s)
    lift (check_conflicts [] items s)
    lift (check_capacity (new_items (is_known s) items) s)
    accept_items items
