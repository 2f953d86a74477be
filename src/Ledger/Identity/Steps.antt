-- ===== src/Ledger/Identity/Steps.antt =====
-- The runs of a ledger: sequences of the calls that change it, whatever each of them answers.
use glare9_provenance.Prelude.{ℕ, Bytes, Bool, true, false, List, Option, Result, inl, inr}
use glare9_provenance.Prelude.Action.{Keeps}
use glare9_provenance.Codec.Utf8.{Text}
use glare9_provenance.Ledger.Config.{Lifecycle}
use glare9_provenance.Ledger.State.{State, Environment}
use glare9_provenance.Ledger.Accept.{accept_batch}
use glare9_provenance.Ledger.Appending.{seal_expired}
use glare9_provenance.Ledger.Drain.{drain_accepted}
use glare9_provenance.Ledger.Transition.{transition_routing}
use glare9_provenance.Ledger.Lookup.{ingest_batch, ingest_accepted_batch}
use glare9_provenance.Ledger.Identity.{Identifies}
use glare9_provenance.Ledger.Identity.Accept.{
  IsUnambiguous, accept_batch-Identifies, accept_batch-IsUnambiguous,
}
use glare9_provenance.Ledger.Identity.Appending.{seal_expired-Keeps}
use glare9_provenance.Ledger.Identity.Drain.{drain_accepted-Keeps, transition-Keeps}
use glare9_provenance.Ledger.Transition.Routing.{ingest_batch-Keeps, ingest_accepted_batch-Keeps}

module _ (env : Environment) (lifecycle : Lifecycle) where
  open env use {Event, Disk, event_id, ledger_id, sha256}

  -- A call that #serialize runs.
  pub data Call : Type 0 where
    accept : List Event → Call
    ingest : List Event → Call
    ingest_accepted : List Event → Call
    drain : Bool → Call
    expire : Option ℕ → Call
    transition : Text → ℕ → Text → Option ℕ → Call

  -- The state that a call leaves, whether it answers or throws.
  unfoldable pub after : Call → State Event Disk → State Event Disk
  after (accept events) s = (accept_batch env lifecycle events s).1
  after (ingest events) s = (ingest_batch env lifecycle events s).1
  after (ingest_accepted events) s = (ingest_accepted_batch env lifecycle events s).1
  after (drain force_seal) s = (drain_accepted env lifecycle force_seal s).1
  after (expire now) s = (seal_expired env lifecycle now s).1
  after (transition ledger shard_count reason expected) s =
      (transition_routing env lifecycle ledger shard_count reason expected s).1

  -- The states that a run of calls leads to.
  pub data Reaches (s : State Event Disk) : State Event Disk → Type 0 where
    start : Reaches s s
    next : {t : State Event Disk} → Reaches s t → (c : Call) → Reaches s (after c t)

  after-Identifies :
      (id : Text) (hash : Bytes) (c : Call) (s : State Event Disk)
      → Identifies env lifecycle id hash true s
      → Identifies env lifecycle id hash true (after c s)
  unfolding after
  after-Identifies id hash (accept events) s h =
      (accept_batch-Identifies env lifecycle id hash events).holds s h
  after-Identifies id hash (ingest events) s h =
      (ingest_batch-Keeps env lifecycle _ events
          (accept_batch-Identifies env lifecycle id hash events)
          (drain_accepted-Keeps env lifecycle true id hash true)).holds
        s h
  after-Identifies id hash (ingest_accepted events) s h =
      (ingest_accepted_batch-Keeps env lifecycle _ events
          (accept_batch-Identifies env lifecycle id hash events)
          (drain_accepted-Keeps env lifecycle true id hash false)).holds
        s h
  after-Identifies id hash (drain force_seal) s h =
      (drain_accepted-Keeps env lifecycle true id hash force_seal).holds s h
  after-Identifies id hash (expire now) s h =
      (seal_expired-Keeps env lifecycle true id hash now).holds s h
  after-Identifies id hash (transition ledger shard_count reason expected) s h =
      (transition-Keeps env lifecycle true id hash ledger shard_count reason expected).holds s h

  -- Once an event ID is known it stays known, and identifies one record hash in every index and in
  -- the active segments, through any sequence of calls, those that throw included.
  pub Reaches-Identifies :
      (id : Text) (hash : Bytes) (s t : State Event Disk)
      → Reaches s t
      → Identifies env lifecycle id hash true s
      → Identifies env lifecycle id hash true t
  Reaches-Identifies id hash s _ start h = h
  Reaches-Identifies id hash s _ (next {t = u} r c) h =
      after-Identifies id hash c u (Reaches-Identifies id hash s u r h)

  -- A call other than the acceptance of a batch.
  Keeps-IsUnambiguous :
      {A : Type 0} (id : Text) (m : State Event Disk → Result A × State Event Disk)
      → ((claimed : Bool) (hash : Bytes) → Keeps (Identifies env lifecycle id hash claimed) m)
      → Keeps (IsUnambiguous env lifecycle id) m
  Keeps-IsUnambiguous id m k = record {
    holds = λ s u. elim u [
      | inl (hash, h) ↦ inl (hash, (k true hash).holds s h)
      | inr all ↦ inr (λ hash. (k false hash).holds s (all hash))
    ];
  }

  after-IsUnambiguous :
      (id : Text) (c : Call) (s : State Event Disk)
      → IsUnambiguous env lifecycle id s
      → IsUnambiguous env lifecycle id (after c s)
  unfolding after
  after-IsUnambiguous id (accept events) s u =
      (accept_batch-IsUnambiguous env lifecycle id events).holds s u
  after-IsUnambiguous id (ingest events) s u =
      (ingest_batch-Keeps env lifecycle _ events
          (accept_batch-IsUnambiguous env lifecycle id events)
          (Keeps-IsUnambiguous id _
            (λ c hash. drain_accepted-Keeps env lifecycle c id hash true))).holds
        s u
  after-IsUnambiguous id (ingest_accepted events) s u =
      (ingest_accepted_batch-Keeps env lifecycle _ events
          (accept_batch-IsUnambiguous env lifecycle id events)
          (Keeps-IsUnambiguous id _
            (λ c hash. drain_accepted-Keeps env lifecycle c id hash false))).holds
        s u
  after-IsUnambiguous id (drain force_seal) s u =
      (Keeps-IsUnambiguous id _
          (λ c hash. drain_accepted-Keeps env lifecycle c id hash force_seal)).holds
        s u
  after-IsUnambiguous id (expire now) s u =
      (Keeps-IsUnambiguous id _ (λ c hash. seal_expired-Keeps env lifecycle c id hash now)).holds s
        u
  after-IsUnambiguous id (transition ledger shard_count reason expected) s u =
      (Keeps-IsUnambiguous id _ (λ c hash.
          transition-Keeps env lifecycle c id hash ledger shard_count reason expected)).holds
        s u

  -- In every state that a run leads to from a state where an event ID is not ambiguous, it is not
  -- ambiguous: it occurs nowhere, or it is known and has one record hash wherever it occurs.
  pub Reaches-IsUnambiguous :
      (id : Text) (s t : State Event Disk)
      → Reaches s t
      → IsUnambiguous env lifecycle id s
      → IsUnambiguous env lifecycle id t
  Reaches-IsUnambiguous id s _ start u = u
  Reaches-IsUnambiguous id s _ (next {t = v} r c) u =
      after-IsUnambiguous id c v (Reaches-IsUnambiguous id s v r u)
