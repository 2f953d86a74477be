-- ===== src/Ledger/Identity.antt =====
-- What an event ID identifies in the memory of services/ledger/src/local-ledger.js: one record hash in
-- every index, in the active segments and in the intake.
pub mod Changes
pub mod Segments
pub mod Appending
pub mod Drain
pub mod Accept
pub mod Conflicts
pub mod Steps
pub mod Receipts
pub mod Log
use glare9_provenance.Prelude.{
  Bytes, Bool, true, false, ◌||◌, [], ◌∷◌, ◌++◌, List, All, Option, none, some, ◌≡◌, arith,
}
use glare9_provenance.Prelude.Octets.{equals}
use glare9_provenance.Prelude.Dict.{Dict, get, has}
use glare9_provenance.Prelude.Entries.{Entries}
use glare9_provenance.Codec.Utf8.{Text}
use glare9_provenance.Ledger.Config.{Lifecycle}
use glare9_provenance.Ledger.State.{Pending, Sealed, Provisional, Active, State, Environment}
use glare9_provenance.Ledger.Accept.{is_known}
use glare9_provenance.Ledger.Active.{all_records}

module _ (env : Environment) (lifecycle : Lifecycle) (id : Text) (hash : Bytes) where
  open env use {Event, Disk, event_id}

  -- A record under the event ID has the hash.
  abbrev pub Fits : Pending Event → Type 0
  Fits p = event_id p.event ≡ id → p.record_hash ≡ hash

  abbrev pub SegmentFits : Text → Active Event → Type 0
  SegmentFits key a = All Fits (all_records a.blocks) × All Fits a.active_block

  abbrev pub PendingFits : Text → Pending Event → Type 0
  PendingFits key p = (event_id p.event ≡ key) × Fits p

  abbrev pub SealedFits : Text → Sealed → Type 0
  SealedFits key r = key ≡ id → r.record_hash ≡ hash

  abbrev pub ProvisionalFits : Text → Provisional → Type 0
  ProvisionalFits key r = key ≡ id → r.record_hash ≡ hash

  -- Whatever stands under the event ID has the hash.
  pub record Agrees (s : State Event Disk) : Type 0 where
    pub sealed_fits : Entries SealedFits s.event_index
    pub provisional_fits : Entries ProvisionalFits s.provisional_index
    pub pending_fits : Entries PendingFits s.pending_index
    pub segments_fit : Entries SegmentFits s.active_segments

  -- Where it is claimed to be known, the event ID is known, and by that hash.
  abbrev pub Identifies : Bool → State Event Disk → Type 0
  Identifies claimed s = (claimed ≡ true → is_known env lifecycle s id ≡ true) × Agrees s
