-- ===== src/Ledger/Drain.antt =====
-- The drain of services/ledger/src/local-ledger.js and the first epoch of a ledger. The history of the
-- epochs, which only info and the recovery read, is left out, and so is the storage key of an epoch.
use glare9_provenance.Prelude.{
  Bool, true, false, ◌||◌, not, [], ◌∷◌, List, leb, if◌then◌else◌, Option, none, some, Result, ok,
  err, invariant,
}
use glare9_provenance.Prelude.Errors
use glare9_provenance.Prelude.Octets.{equals}
use glare9_provenance.Prelude.Dict.{Dict, get, set, values}
use glare9_provenance.Prelude.Action.{
  Action, return, throw, lift, gets, modify, for_each, ◌>>=◌, ◌>>◌,
}
use glare9_provenance.Codec.Utf8.{Text}
use glare9_provenance.Sharding.{route_event}
use glare9_provenance.Ledger.Config.{Lifecycle}
use glare9_provenance.Ledger.State.{Pending, Sealed, Epoch, State, Environment}
use glare9_provenance.Ledger.Active.{Routed, call}
use glare9_provenance.Ledger.Appending.{append_to_active}
use glare9_provenance.Ledger.Sealing.{forget_pending, seal_active_segment}

-- .sort((left, right) => left.sequence - right.sequence)
unfoldable pub insert_pending : {E : Type 0} → Pending E → List (Pending E) → List (Pending E)
insert_pending p [] = p ∷ []
insert_pending p (q ∷ qs) =
    if leb p.sequence q.sequence then p ∷ q ∷ qs else q ∷ insert_pending p qs

unfoldable pub sort_pending : {E : Type 0} → List (Pending E) → List (Pending E)
sort_pending [] = []
sort_pending (p ∷ ps) = insert_pending p (sort_pending ps)

unfoldable pub includes : Text → List Text → Bool
includes id [] = false
includes id (other ∷ ids) = equals other id || includes id ids

-- A filter of a list.
unfoldable pub filter_pending :
    {E : Type 0} → (Pending E → Bool) → List (Pending E) → List (Pending E)
filter_pending keep [] = []
filter_pending keep (p ∷ ps) =
    let rest = filter_pending keep ps in if keep p then p ∷ rest else rest

module _ (env : Environment) (lifecycle : Lifecycle) where
  open env use {
    Event, Disk, event_id, ledger_id, subject, sha256, intake_remove, write_genesis_epoch,
    write_next_epoch,
  }

  abbrev Ledger : Type 0
  Ledger = State Event Disk

  abbrev pub put_epoch : Text → Epoch → Ledger → Ledger
  put_epoch ledger epoch s = record s { routing_epochs = set ledger epoch s.routing_epochs }

  -- #ensureGenesisRoutingEpoch(ledgerId)
  unfoldable pub ensure_genesis_routing_epoch : Text → Action Ledger Epoch
  ensure_genesis_routing_epoch ledger = do
    existing ← gets (λ s. get ledger s.routing_epochs)
    elim existing [
      | some epoch ↦ return epoch
      | none ↦ do
        verified ← call env lifecycle (write_genesis_epoch ledger)
        modify (put_epoch ledger verified)
        return verified
    ]

  -- The first loop of #drainAccepted: a record that is sealed already leaves the intake.
  unfoldable pub settle_sealed : Pending Event → Option Sealed → Action Ledger (Unit {0})
  settle_sealed p none = return tt
  settle_sealed p (some receipt) = do
    lift (invariant (equals receipt.record_hash p.record_hash) "EVENT_ID_CONFLICT")
    call env lifecycle (intake_remove p)
    modify (forget_pending env lifecycle p)

  unfoldable pub settle : Pending Event → Action Ledger (Unit {0})
  settle p = gets (λ s. get (event_id p.event) s.event_index) >>= settle_sealed p

  -- `await this.#ensureGenesisRoutingEpoch(ledgerId)`. A second call for one ledger finds its epoch,
  -- so the ledger of each record is visited in place of the set of them.
  unfoldable pub ensure_epoch_of : Pending Event → Action Ledger (Unit {0})
  ensure_epoch_of p = ensure_genesis_routing_epoch (ledger_id p.event) >>= λ _. return tt

  -- The routing of a record; the policy of an epoch that is not there cannot be read.
  unfoldable pub route_pending : Dict Epoch → Pending Event → Result (Routed Event)
  route_pending epochs p = elim (get (ledger_id p.event) epochs) [
    | none ↦ err "TypeError"
    | some epoch ↦
        Errors.◌>>=◌ (route_event sha256 (ledger_id p.event) (subject p.event) epoch.routing_policy)
          (λ route. ok (record { pending = p; shard_id = route.shard }))
  ]

  unfoldable pub route_all : Dict Epoch → List (Pending Event) → Result (List (Routed Event))
  route_all epochs [] = ok []
  route_all epochs (p ∷ ps) =
      Errors.◌>>=◌ (route_pending epochs p)
        (λ item. Errors.◌>>=◌ (route_all epochs ps) (λ items. ok (item ∷ items)))

  unfoldable pub append_under : Routed Event → Option Epoch → Action Ledger (Unit {0})
  append_under item none = throw "TypeError"
  append_under item (some epoch) = append_to_active env lifecycle item epoch

  unfoldable pub append_routed : Routed Event → Action Ledger (Unit {0})
  append_routed item =
      gets (λ s. get (ledger_id item.pending.event) s.routing_epochs) >>= append_under item

  -- `for (const active of [...this.activeSegments.values()]) await this.#sealActiveSegment(active)`
  unfoldable pub seal_all : Action Ledger (Unit {0})
  seal_all = do
    actives ← gets (λ s. values s.active_segments)
    for_each (λ a. seal_active_segment env lifecycle a.key) actives

  unfoldable pub seal_when : Bool → Action Ledger (Unit {0})
  seal_when true = seal_all
  seal_when false = return tt

  -- #drainAccepted({ forceSeal })
  unfoldable pub drain_accepted : Bool → Action Ledger (Unit {0})
  drain_accepted force_seal = do
    retained ← gets (λ s. sort_pending (values s.pending_index))
    for_each settle retained
    records ← gets (λ s. sort_pending (values s.pending_index))
    for_each ensure_epoch_of records
    unique_new ← gets (λ s.
        filter_pending (λ p. not (includes (event_id p.event) s.assigned_pending_ids)) records)
    epochs ← gets (λ s. s.routing_epochs)
    items ← lift (route_all epochs unique_new)
    for_each append_routed items
    seal_when force_seal
