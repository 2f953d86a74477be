-- ===== src/Ledger/Transition/Routing.antt =====
-- What the calls of other components, the epochs and the drain keep, a change of the routing and the
-- ingestion of a batch keep.
use glare9_provenance.Prelude.{ℕ, Bool, true, false, List, Option, none, some, Result, ◌==◌}
use glare9_provenance.Prelude.Action.{
  return, throw, modify, ◌>>=◌, Keeps, Keeps-return, Keeps-throw, Keeps-lift, Keeps-gets,
  Keeps-bind, Keeps-modify,
}
use glare9_provenance.Codec.Utf8.{Text}
use glare9_provenance.Sharding.{RoutingPolicy}
use glare9_provenance.Ledger.Config.{Lifecycle}
use glare9_provenance.Ledger.State.{Epoch, State, Environment}
use glare9_provenance.Ledger.Active.{call}
use glare9_provenance.Ledger.Accept.{accept_batch}
use glare9_provenance.Ledger.Drain.{ensure_genesis_routing_epoch, put_epoch, drain_accepted}
use glare9_provenance.Ledger.Transition.{
  Transition, current_epoch, write_transition, transition_epoch, transition_routing,
}
use glare9_provenance.Ledger.Lookup.{ingest_batch, ingest_accepted_batch}

module _ (env : Environment) (lifecycle : Lifecycle) (P : State env.Event env.Disk → Type 0)
    (kept_call : (component : env.Disk → Result Epoch × env.Disk)
      → Keeps P (call env lifecycle component))
    (kept_epoch : (ledger : Text) (epoch : Epoch) (s : State env.Event env.Disk)
      → P s
      → P (put_epoch env lifecycle ledger epoch s)) where
  pub ensure_genesis_routing_epoch-Keeps :
      (ledger : Text) → Keeps P (ensure_genesis_routing_epoch env lifecycle ledger)
  unfolding ensure_genesis_routing_epoch
  ensure_genesis_routing_epoch-Keeps ledger = Keeps-bind _ _ (Keeps-gets _) from
    where
      from :
          (existing : Option Epoch)
          → Keeps {A = Epoch} P (elim existing [
            | some epoch ↦ return epoch
            | none ↦ call env lifecycle (env.write_genesis_epoch ledger) >>= λ verified.
                modify (put_epoch env lifecycle ledger verified) >>= λ _. return verified
          ])
      from (some epoch) = Keeps-return epoch
      from none = Keeps-bind _ _ (kept_call _) (λ verified.
          Keeps-bind _ _ (Keeps-modify _ (kept_epoch ledger verified)) (λ _. Keeps-return verified))

module _ (env : Environment) (lifecycle : Lifecycle) (P : State env.Event env.Disk → Type 0)
    (kept_call : (component : env.Disk → Result Epoch × env.Disk)
      → Keeps P (call env lifecycle component))
    (kept_epoch : (ledger : Text) (epoch : Epoch) (s : State env.Event env.Disk)
      → P s
      → P (put_epoch env lifecycle ledger epoch s))
    (kept_drain : Keeps P (drain_accepted env lifecycle true)) where
  current_epoch-Keeps : (ledger : Text) → Keeps P (current_epoch env lifecycle ledger)
  unfolding current_epoch
  current_epoch-Keeps ledger =
      Keeps-bind _ _ (Keeps-gets _)
        (λ existing. Keeps-bind _ _ (Keeps-gets _) (λ retained. from existing retained))
    where
      from :
          (existing : Option Epoch) (retained : Bool)
          → Keeps {A = Option Epoch} P (elim existing [
            | some epoch ↦ return (some epoch)
            | none ↦ elim retained [
              | true ↦
                  ensure_genesis_routing_epoch env lifecycle ledger >>= λ epoch. return (some epoch)
              | false ↦ return none
            ]
          ])
      from (some epoch) retained = Keeps-return (some epoch)
      from none true =
          Keeps-bind _ _
            (ensure_genesis_routing_epoch-Keeps env lifecycle P kept_call kept_epoch ledger)
            (λ epoch. Keeps-return (some epoch))
      from none false = Keeps-return none

  write_transition-Keeps :
      (ledger reason : Text) (epoch : Epoch) (policy : RoutingPolicy)
      → Keeps P (write_transition env lifecycle ledger reason epoch policy)
  unfolding write_transition
  write_transition-Keeps ledger reason epoch policy = Keeps-bind _ _ (Keeps-lift _) (λ _.
      Keeps-bind _ _ (kept_drain) (λ _. Keeps-bind _ _ (Keeps-gets _) (λ heads.
        Keeps-bind _ _ (kept_call _) (λ verified.
          Keeps-bind _ _ (Keeps-modify _ (kept_epoch ledger verified)) (λ _. Keeps-return _)))))

  transition_epoch-Keeps :
      (ledger : Text) (shard_count : ℕ) (reason : Text) (expected : Option ℕ) (epoch : Option Epoch)
      → Keeps P (transition_epoch env lifecycle ledger shard_count reason expected epoch)
  unfolding transition_epoch
  transition_epoch-Keeps ledger shard_count reason expected none =
      Keeps-throw "LEDGER_TRANSITION_LEDGER"
  transition_epoch-Keeps ledger shard_count reason none (some epoch) =
      Keeps-throw "LEDGER_TRANSITION_EPOCH"
  transition_epoch-Keeps ledger shard_count reason (some expected) (some epoch) =
      Keeps-bind _ _ (Keeps-lift _) (λ policy. from policy (epoch.epoch_number == expected) _)
    where
      from :
          (policy : RoutingPolicy) (same next : Bool)
          → Keeps {A = Transition} P (elim same [
            | true ↦ write_transition env lifecycle ledger reason epoch policy
            | false ↦ elim next [
              | true ↦ return (record { epoch = epoch; already_active = true })
              | false ↦ throw "LEDGER_TRANSITION_EPOCH"
            ]
          ])
      from policy true next = write_transition-Keeps ledger reason epoch policy
      from policy false true = Keeps-return _
      from policy false false = Keeps-throw "LEDGER_TRANSITION_EPOCH"

  pub transition_routing-Keeps :
      (ledger : Text) (shard_count : ℕ) (reason : Text) (expected : Option ℕ)
      → Keeps P (transition_routing env lifecycle ledger shard_count reason expected)
  unfolding transition_routing
  transition_routing-Keeps ledger shard_count reason expected =
      Keeps-bind _ _ (current_epoch-Keeps ledger)
        (transition_epoch-Keeps ledger shard_count reason expected)

module _ (env : Environment) (lifecycle : Lifecycle) (P : State env.Event env.Disk → Type 0) where
  -- What accepting and draining keep, ingesting keeps.
  pub ingest_batch-Keeps :
      (events : List env.Event)
      → Keeps P (accept_batch env lifecycle events)
      → Keeps P (drain_accepted env lifecycle true)
      → Keeps P (ingest_batch env lifecycle events)
  unfolding ingest_batch
  ingest_batch-Keeps events a d =
      Keeps-bind _ _ a (λ receipts. Keeps-bind _ _ d (λ _. Keeps-gets _))

  pub ingest_accepted_batch-Keeps :
      (events : List env.Event)
      → Keeps P (accept_batch env lifecycle events)
      → Keeps P (drain_accepted env lifecycle false)
      → Keeps P (ingest_accepted_batch env lifecycle events)
  unfolding ingest_accepted_batch
  ingest_accepted_batch-Keeps events a d =
      Keeps-bind _ _ a (λ receipts. Keeps-bind _ _ d (λ _. Keeps-gets _))
