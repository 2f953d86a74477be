-- ===== src/Examples/Runs.antt =====
-- Runs of a ledger, services/ledger/src/local-ledger.js, with a small environment.
use glare9_provenance.Prelude.{
  ℕ, ◌+◌, ◌*◌, ◌%◌, ◌≤◌, Bytes, IsBytes, Bool, true, false, [], ◌∷◌, List, Option, none, some, ◌≡◌,
  refl, Result, ok, err, arith, length, All, inl, inr, get_elem?,
}
use glare9_provenance.Codec.Utf8.{Text}
use glare9_provenance.Ledger.Config.{default_lifecycle}
use glare9_provenance.Ledger.State.{Receipt, State}
use glare9_provenance.Ledger.Names.{to_hex}
use glare9_provenance.Ledger.Accept.{event_hash}
use glare9_provenance.Ledger.Lookup.{receipt, receipt_hash}
use glare9_provenance.Ledger.Segments.Exact.{Memory}
use glare9_provenance.Ledger.Segments.Completion.{IsExact}
use glare9_provenance.Ledger.Identity.{Identifies}
use glare9_provenance.Ledger.Identity.Accept.{IsUnambiguous}
use glare9_provenance.Ledger.Identity.Steps.{
  Call, Reaches, after, Reaches-Identifies, Reaches-IsUnambiguous,
}
use glare9_provenance.Ledger.Identity.Receipts.{IsDigest, receipt-accept_batch}
use glare9_provenance.Ledger.Identity.Conflicts.{accept_batch-identified}
use glare9_provenance.Ledger.Identity.Log.{log_of, Extends, Reaches-Extends}
use glare9_provenance.Ledger.Limits.{Reaches-IsExact}
use glare9_provenance.Examples.Ledgers.{
  small_environment, empty_ledger, two_events, two_receipts, ledger_after, two_accepted,
}
use glare9_provenance.Examples.Hashes.{toy_hash}

toy_hash-IsDigest : (bytes : Bytes) → IsDigest (toy_hash bytes)
toy_hash-IsDigest bytes = (refl, ground arith)

abbrev one_event : Text
one_event = b'a' ∷ []

empty_ledger-IsUnambiguous :
    IsUnambiguous small_environment default_lifecycle one_event empty_ledger
empty_ledger-IsUnambiguous = inr (λ hash. (
  (λ c. cc),
  record { sealed_fits = tt; provisional_fits = tt; pending_fits = tt; segments_fit = tt },
))

-- A drain that seals, a change of the routing that fails, and a drain that does not seal.
abbrev ledger_later : State Text ℕ
ledger_later = after small_environment default_lifecycle (Call.drain false) (
    after small_environment default_lifecycle (Call.transition (b'l' ∷ []) 8 [] (some 0))
      (after small_environment default_lifecycle (Call.drain true) ledger_after))

later-Reaches : Reaches small_environment default_lifecycle ledger_after ledger_later
later-Reaches =
    Reaches.next
      (Reaches.next (Reaches.next Reaches.start (Call.drain true))
        (Call.transition (b'l' ∷ []) 8 [] (some 0)))
      (Call.drain false)

one_event-IsDigest : IsDigest (event_hash small_environment default_lifecycle one_event)
unfolding event_hash glare9_provenance.Crypto.digest
one_event-IsDigest = toy_hash-IsDigest _

receipt-accept_batch_example :
    (r : Receipt) × (receipt small_environment default_lifecycle one_event
        (to_hex (event_hash small_environment default_lifecycle one_event))
        ledger_later
      ≡ ok r)
    × (receipt_hash small_environment default_lifecycle r
        ≡ event_hash small_environment default_lifecycle one_event)
receipt-accept_batch_example =
    receipt-accept_batch small_environment default_lifecycle two_events empty_ledger ledger_after
      ledger_later two_receipts 0 one_event empty_ledger-IsUnambiguous two_accepted refl refl
      one_event-IsDigest later-Reaches

one_event-Identifies :
    Identifies small_environment default_lifecycle one_event
      (event_hash small_environment default_lifecycle one_event)
      true
      ledger_after
one_event-Identifies =
    accept_batch-identified small_environment default_lifecycle two_events empty_ledger ledger_after
      two_receipts 0 one_event empty_ledger-IsUnambiguous two_accepted refl

Reaches-Identifies_example :
    Identifies small_environment default_lifecycle one_event
      (event_hash small_environment default_lifecycle one_event)
      true
      ledger_later
Reaches-Identifies_example =
    Reaches-Identifies small_environment default_lifecycle one_event
      (event_hash small_environment default_lifecycle one_event) ledger_after ledger_later
      later-Reaches one_event-Identifies

from_empty-Reaches :
    Reaches small_environment default_lifecycle empty_ledger
      (after small_environment default_lifecycle (Call.ingest two_events) empty_ledger)
from_empty-Reaches = Reaches.next Reaches.start (Call.ingest two_events)

Reaches-IsUnambiguous_example :
    IsUnambiguous small_environment default_lifecycle one_event
      (after small_environment default_lifecycle (Call.ingest two_events) empty_ledger)
Reaches-IsUnambiguous_example =
    Reaches-IsUnambiguous small_environment default_lifecycle one_event empty_ledger
      (after small_environment default_lifecycle (Call.ingest two_events) empty_ledger)
      from_empty-Reaches empty_ledger-IsUnambiguous

empty_ledger-Memory : Memory default_lifecycle.max_active_block_bytes empty_ledger.active_segments 0
unfolding glare9_provenance.Prelude.Dict.total
empty_ledger-Memory = record { exact = refl; each = tt; within = omega arith }

Reaches-IsExact_example :
    IsExact small_environment default_lifecycle
      (after small_environment default_lifecycle (Call.ingest two_events) empty_ledger)
Reaches-IsExact_example =
    Reaches-IsExact small_environment default_lifecycle empty_ledger
      (after small_environment default_lifecycle (Call.ingest two_events) empty_ledger)
      from_empty-Reaches empty_ledger-Memory

every-IsUnambiguous :
    (id : Text) → IsUnambiguous small_environment default_lifecycle id empty_ledger
every-IsUnambiguous id = inr (λ hash. (
  (λ c. cc),
  record { sealed_fits = tt; provisional_fits = tt; pending_fits = tt; segments_fit = tt },
))

abbrev some_accepted : State Text ℕ
some_accepted = after small_environment default_lifecycle (Call.accept two_events) empty_ledger

some_accepted-IsUnambiguous :
    (id : Text) → IsUnambiguous small_environment default_lifecycle id some_accepted
some_accepted-IsUnambiguous id =
    Reaches-IsUnambiguous small_environment default_lifecycle id empty_ledger some_accepted
      (Reaches.next Reaches.start (Call.accept two_events)) (every-IsUnambiguous id)

abbrev all_sealed : State Text ℕ
all_sealed = after small_environment default_lifecycle (Call.drain true) some_accepted

Reaches-Extends_example :
    Extends
      (log_of small_environment default_lifecycle some_accepted)
      (log_of small_environment default_lifecycle all_sealed)
Reaches-Extends_example =
    Reaches-Extends small_environment default_lifecycle some_accepted all_sealed
      some_accepted-IsUnambiguous (Reaches.next Reaches.start (Call.drain true))
