-- ===== src/Ledger/Transition.antt =====
-- transitionRouting of services/ledger/src/local-ledger.js. The history of the epochs, which only info
-- and the recovery read, is left out, and so is the storage key of an epoch.
pub mod Routing
use glare9_provenance.Prelude.{
  ℕ, zero, suc, ◌+◌, ◌-◌, Bytes, Bool, true, false, ◌&&◌, ◌||◌, not, [], ◌∷◌, List, leb, ltb, ◌==◌,
  if◌then◌else◌, length, Option, none, some, Result, ok, err, invariant,
}
use glare9_provenance.Prelude.Errors
use glare9_provenance.Prelude.Octets.{equals}
use glare9_provenance.Prelude.Dict.{Dict, get, has, set, values}
use glare9_provenance.Prelude.Action.{
  Action, return, throw, lift, gets, modify, for_each, ◌>>=◌, ◌>>◌,
}
use glare9_provenance.Codec.Utf8.{Text}
use glare9_provenance.Sharding.{
  RoutingPolicy, create_routing_policy, decimal, decimal_digits, shard_id, route_event,
}
use glare9_provenance.Ledger.Config.{Lifecycle}
use glare9_provenance.Ledger.State.{
  Pending, Sealed, Provisional, Accepted, Receipt, accepted, provisional, sealed, Active,
  ShardState, ShardHead, Epoch, State, Environment,
}
use glare9_provenance.Ledger.Names.{state_key, to_hex}
use glare9_provenance.Ledger.Accept.{accepted_receipt, accept_batch}
use glare9_provenance.Ledger.Active.{Routed, call, no_records}
use glare9_provenance.Ledger.Appending.{append_to_active, seal_expired}
use glare9_provenance.Ledger.Sealing.{forget_pending, seal_active_segment}
use glare9_provenance.Ledger.Drain.{put_epoch, ensure_genesis_routing_epoch, drain_accepted}

abbrev pub policies_equal : RoutingPolicy → RoutingPolicy → Bool
policies_equal left right =
    equals left.id right.id
    && left.version == right.version
    && left.shard_count == right.shard_count

-- { ...epoch, alreadyActive }
pub record Transition : Type 0 where
  pub epoch : Epoch
  pub already_active : Bool

module _ (env : Environment) (lifecycle : Lifecycle) where
  open env use {
    Event, Disk, event_id, ledger_id, subject, sha256, intake_remove, write_genesis_epoch,
    write_next_epoch,
  }

  abbrev Ledger : Type 0
  Ledger = State Event Disk

  unfoldable pub has_ledger : Text → List (Pending Event) → Bool
  has_ledger ledger [] = false
  has_ledger ledger (p ∷ ps) = equals (ledger_id p.event) ledger || has_ledger ledger ps

  -- The epoch that a transition leaves.
  unfoldable pub current_epoch : Text → Action Ledger (Option Epoch)
  current_epoch ledger = do
    existing ← gets (λ s. get ledger s.routing_epochs)
    retained ← gets (λ s. has_ledger ledger (values s.pending_index))
    elim existing [
      | some epoch ↦ return (some epoch)
      | none ↦ elim retained [
        | true ↦ ensure_genesis_routing_epoch env lifecycle ledger >>= λ epoch. return (some epoch)
        | false ↦ return none
      ]
    ]

  -- previousShardHeads, from a shard on
  unfoldable pub shard_heads : Text → ℕ → ℕ → ℕ → Dict ShardState → List ShardHead
  shard_heads ledger epoch_number zero index shards = []
  shard_heads ledger epoch_number (suc count) index shards =
      let shard = shard_id index in
      let head : ShardHead = elim (get (state_key ledger epoch_number shard) shards) [
        | none ↦ record {
          head_epoch_number = epoch_number;
          head_shard_id = shard;
          head_segment_number = none;
          head_segment_hash = none;
        }
        | some state ↦ record {
          head_epoch_number = epoch_number;
          head_shard_id = shard;
          head_segment_number = some (state.next_segment_number - 1);
          head_segment_hash = state.previous_segment_hash;
        }
      ] in
      head ∷ shard_heads ledger epoch_number count (suc index) shards

  -- A transition from the epoch that it expects: the drain, the heads of the shards, the new epoch.
  unfoldable pub write_transition : Text → Text → Epoch → RoutingPolicy → Action Ledger Transition
  write_transition ledger reason epoch policy = do
    lift (invariant (not (policies_equal epoch.routing_policy policy)) "LEDGER_TRANSITION_POLICY")
    drain_accepted env lifecycle true
    heads ← gets (λ s.
        shard_heads ledger epoch.epoch_number epoch.routing_policy.shard_count 0 s.shard_states)
    verified ←
        call env lifecycle
          (write_next_epoch ledger (epoch.epoch_number + 1) policy reason epoch heads)
    modify (put_epoch env lifecycle ledger verified)
    return (record { epoch = verified; already_active = false })

  unfoldable pub transition_epoch :
      Text → ℕ → Text → Option ℕ → Option Epoch → Action Ledger Transition
  transition_epoch ledger shard_count reason expected none = throw "LEDGER_TRANSITION_LEDGER"
  transition_epoch ledger shard_count reason none (some epoch) = throw "LEDGER_TRANSITION_EPOCH"
  transition_epoch ledger shard_count reason (some expected) (some epoch) = do
    policy ← lift (create_routing_policy shard_count)
    elim (epoch.epoch_number == expected) [
      | true ↦ write_transition ledger reason epoch policy
      | false ↦
          elim (epoch.epoch_number == expected + 1 && policies_equal epoch.routing_policy policy) [
            | true ↦ return (record { epoch = epoch; already_active = true })
            | false ↦ throw "LEDGER_TRANSITION_EPOCH"
          ]
    ]

  -- #transitionRouting: `none` is an expectedCurrentEpoch that is no safe integer from 0 on
  unfoldable pub transition_routing : Text → ℕ → Text → Option ℕ → Action Ledger Transition
  transition_routing ledger shard_count reason expected =
      current_epoch ledger >>= transition_epoch ledger shard_count reason expected
