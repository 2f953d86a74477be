-- ===== src/Ledger/Segments.antt =====
-- The completion of blocks in services/ledger/src/local-ledger.js: #completeActiveBlock and
-- #makeActiveMemoryRoom. A segment that is worked on is in the map until it is sealed, so the case
-- that it is not there does not occur. The hooks for injected faults of the tests are left out.
pub mod Exact
pub mod Completion
pub mod Memory
use glare9_provenance.Prelude.{
  ℕ, zero, suc, ◌+◌, ◌-◌, Bytes, Bool, true, false, ◌&&◌, ◌||◌, not, [], ◌∷◌, ◌++◌, List, leb, ltb,
  ◌==◌, if◌then◌else◌, length, Option, none, some, Result, ok, err, fail, invariant,
}
use glare9_provenance.Prelude.Octets.{equals}
use glare9_provenance.Prelude.Dict.{Dict, get, has, set, delete, values}
use glare9_provenance.Prelude.Action.{
  Action, return, throw, lift, gets, modify, for_each, ◌>>=◌, ◌>>◌,
}
use glare9_provenance.Codec.Utf8.{Text}
use glare9_provenance.Crypto.{codes, digest}
use glare9_provenance.Ledger.Config.{Lifecycle}
use glare9_provenance.Ledger.State.{
  Pending, Sealed, Block, Active, ShardState, Epoch, State, Environment,
}
use glare9_provenance.Ledger.Names.{ledger_epoch_key}
use glare9_provenance.Ledger.Active.{
  Routed, no_records, all_records, largest, call, framed_block, rebuild_provisional_receipts,
  put_active, active_segment_for,
}

module _ (env : Environment) (lifecycle : Lifecycle) where
  open env use {
    Event, Disk, event_id, sha256, intake_remove, millis, compress, trusted_signer, persist_active,
    remove_active, write_segment,
  }

  abbrev pub Effect : Type 0
  Effect = Action (State Event Disk) (Unit {0})

  -- The object under a key.
  unfoldable pub with_active : Text → (Active Event → Effect) → Effect
  with_active key body s = elim (get key s.active_segments) [
    | none ↦ (ok tt, s)
    | some active ↦ body active s
  ]

  abbrev pub completed : Active Event → Bytes → Bytes → Active Event
  completed active uncompressed content = record active {
    blocks =
        active.blocks
        ++ record {
          records = active.active_block;
          uncompressed_length = length uncompressed;
          records_hash = digest sha256 (codes "record-block-v1") (uncompressed ∷ []);
          content = content;
        }
          ∷ [];
    active_block = [];
    active_block_bytes = 0;
  }

  -- active.blocks.push(...), and the fields that are reset
  abbrev pub store_completed : Active Event → Bytes → Bytes → State Event Disk → State Event Disk
  store_completed active uncompressed content s = record s {
    active_segments = set active.key (completed active uncompressed content) s.active_segments;
    active_block_bytes = s.active_block_bytes - active.active_block_bytes;
  }

  -- #completeActiveBlock(active) where its block has a record
  unfoldable pub complete_block : Active Event → Effect
  complete_block active = do
    uncompressed ← lift (framed_block env lifecycle active.active_block)
    content ← lift (compress uncompressed)
    modify (store_completed active uncompressed content)
    path ← call env lifecycle (persist_active (completed active uncompressed content))
    let stored = record (completed active uncompressed content) { state_path = some path }
    modify (put_active env lifecycle stored)
    modify (rebuild_provisional_receipts env lifecycle stored)

  -- #completeActiveBlock(active)
  unfoldable pub complete_active_block : Text → Effect
  complete_active_block key = with_active key (λ active. elim (no_records active.active_block) [
    | true ↦ return tt
    | false ↦ complete_block active
  ])

  -- The segments that may make room: .filter((active) => active.key !== exceptKey && ...)
  unfoldable pub candidates : Text → List (Active Event) → List (Active Event)
  candidates except_key [] = []
  candidates except_key (a ∷ as') =
      let rest = candidates except_key as' in
      if not (equals a.key except_key) && not (no_records a.active_block) then a ∷ rest else rest

  abbrev pub lacks_room : ℕ → State Event Disk → Bool
  lacks_room required_bytes s =
      ltb lifecycle.max_active_block_bytes (s.active_block_bytes + required_bytes)

  -- The while loop: a round completes a block, so there are no more rounds than segments that have
  -- records in their block.
  unfoldable pub complete_largest : ℕ → ℕ → Text → Effect
  complete_largest zero required_bytes except_key = return tt
  complete_largest (suc rounds) required_bytes except_key = λ s.
      elim (lacks_room required_bytes s) [
        | false ↦ (ok tt, s)
        | true ↦ elim (largest (candidates except_key (values s.active_segments))) [
          | none ↦ (ok tt, s)
          | some candidate ↦
              (complete_active_block candidate.key >>= λ _.
              complete_largest rounds required_bytes except_key)
                s
        ]
      ]

  -- #makeActiveMemoryRoom(requiredBytes, exceptKey)
  unfoldable pub make_active_memory_room : ℕ → Text → Effect
  make_active_memory_room required_bytes except_key = do
    rounds ← gets (λ s. length s.active_segments)
    complete_largest rounds required_bytes except_key
    full ← gets (lacks_room required_bytes)
    lift (invariant (not full) "LEDGER_BACKPRESSURE")
