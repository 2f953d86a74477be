-- ===== src/Ledger/Appending.antt =====
-- #appendToActive and #sealExpired of services/ledger/src/local-ledger.js.
use glare9_provenance.Prelude.{
  ℕ, ◌+◌, Bool, true, false, ◌&&◌, ◌||◌, not, [], ◌∷◌, ◌++◌, List, leb, ltb, if◌then◌else◌, length,
  Option, none, some,
}
use glare9_provenance.Prelude.Octets.{equals}
use glare9_provenance.Prelude.Dict.{set, values}
use glare9_provenance.Prelude.Action.{Action, return, throw, gets, modify, for_each, ◌>>=◌, ◌>>◌}
use glare9_provenance.Codec.Utf8.{Text}
use glare9_provenance.Ledger.Config.{Lifecycle}
use glare9_provenance.Ledger.State.{Pending, Active, Epoch, State, Environment}
use glare9_provenance.Ledger.Active.{Routed, no_records, active_segment_for}
use glare9_provenance.Ledger.Segments.{with_active, complete_active_block, make_active_memory_room}
use glare9_provenance.Ledger.Sealing.{seal_active_segment}

-- set.add(id) on a list without repetitions
unfoldable pub add_id : Text → List Text → List Text
add_id id [] = id ∷ []
add_id id (other ∷ ids) = if equals other id then other ∷ ids else other ∷ add_id id ids

module _ (env : Environment) (lifecycle : Lifecycle) where
  open env use {
    Event, Disk, event_id, sha256, intake_remove, millis, compress, trusted_signer, persist_active,
    remove_active, write_segment,
  }

  abbrev Effect : Type 0
  Effect = Action (State Event Disk) (Unit {0})

  abbrev pub segment_would_overflow : Active Event → ℕ → Bool
  segment_would_overflow active record_bytes =
      ltb 0 active.record_count
      && (ltb lifecycle.segment_max_records (active.record_count + 1)
          || ltb lifecycle.segment_max_bytes (active.byte_count + record_bytes))

  abbrev pub block_would_overflow : Active Event → ℕ → Bool
  block_would_overflow active record_bytes =
      not (no_records active.active_block)
      && (ltb lifecycle.block_max_records (length active.active_block + 1)
          || ltb lifecycle.block_max_bytes (active.active_block_bytes + record_bytes))

  abbrev pub with_record : Pending Event → Active Event → Active Event
  with_record p active = record active {
    active_block = active.active_block ++ p ∷ [];
    active_block_bytes = active.active_block_bytes + (p.event_bytes + 4);
    record_count = active.record_count + 1;
    byte_count = active.byte_count + (p.event_bytes + 4);
  }

  abbrev pub store_record : Pending Event → Active Event → State Event Disk → State Event Disk
  store_record p active s = record s {
    active_segments = set active.key (with_record p active) s.active_segments;
    active_block_bytes = s.active_block_bytes + (p.event_bytes + 4);
    assigned_pending_ids = add_id (event_id p.event) s.assigned_pending_ids;
  }

  -- #appendToActive(item, routingEpoch)
  unfoldable pub append_to_active : Routed Event → Epoch → Effect
  append_to_active item epoch = do
    let record_bytes = item.pending.event_bytes + 4
    first ← active_segment_for env lifecycle item epoch
    active ← elim (segment_would_overflow first record_bytes) [
      | true ↦ seal_active_segment env lifecycle first.key >>= λ _.
          active_segment_for env lifecycle item epoch
      | false ↦ return first
    ]
    elim (block_would_overflow active record_bytes) [
      | true ↦ complete_active_block env lifecycle active.key
      | false ↦ return tt
    ]
    make_active_memory_room env lifecycle record_bytes active.key
    with_active env lifecycle active.key (λ a. modify (store_record item.pending a))
    with_active env lifecycle active.key (λ a.
        elim (leb lifecycle.block_max_records (length a.active_block)
          || leb lifecycle.block_max_bytes a.active_block_bytes) [
            | true ↦ complete_active_block env lifecycle a.key
            | false ↦ return tt
          ])
    with_active env lifecycle active.key (λ a.
        elim (leb lifecycle.segment_max_records a.record_count
          || leb lifecycle.segment_max_bytes a.byte_count) [
            | true ↦ seal_active_segment env lifecycle a.key
            | false ↦ return tt
          ])

  unfoldable pub seal_if_expired : ℕ → Active Event → Effect
  seal_if_expired now active =
      elim (leb (millis active.opened_at + lifecycle.segment_max_age_ms) now) [
        | true ↦ seal_active_segment env lifecycle active.key
        | false ↦ return tt
      ]

  -- #sealExpired(now): `none` is a number that is not finite. The list is the one at the start.
  unfoldable pub seal_expired : Option ℕ → Effect
  unfolding seal_if_expired
  seal_expired none = throw "LEDGER_TIME"
  seal_expired (some now) = do
    actives ← gets (λ s. values s.active_segments)
    for_each (seal_if_expired now) actives
