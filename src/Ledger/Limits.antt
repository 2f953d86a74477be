-- ===== src/Ledger/Limits.antt =====
-- The memory of the active blocks in every run of a ledger.
use glare9_provenance.Prelude.{ℕ, Bool, true, false, [], List, Option, none, some, Result, ok, err}
use glare9_provenance.Prelude.Action.{
  return, Keeps, Keeps-return, Keeps-throw, Keeps-lift, Keeps-gets, Keeps-bind, Keeps-modify,
  Keeps-for_each,
}
use glare9_provenance.Prelude.Hoare.{Keeps-Runs}
use glare9_provenance.Codec.Utf8.{Text}
use glare9_provenance.Ledger.Config.{Lifecycle}
use glare9_provenance.Ledger.State.{Pending, Sealed, Active, Epoch, State, Environment}
use glare9_provenance.Ledger.Accept.{accept_item, accept_batch, keep_answer}
use glare9_provenance.Ledger.Active.{Routed, call}
use glare9_provenance.Ledger.Appending.{seal_if_expired, seal_expired}
use glare9_provenance.Ledger.Sealing.{seal_active_segment}
use glare9_provenance.Ledger.Segments.Exact.{Memory, Runs-call}
use glare9_provenance.Ledger.Segments.Completion.{IsExact}
use glare9_provenance.Ledger.Segments.Memory.{seal_active_segment-Keeps, append_to_active-Keeps}
use glare9_provenance.Ledger.Drain.{
  settle_sealed, settle, ensure_epoch_of, append_under, append_routed, seal_all, seal_when,
  drain_accepted,
}
use glare9_provenance.Ledger.Identity.Accept.{accept_item-cases, accept_batch-Keeps}
use glare9_provenance.Ledger.Transition.Routing.{
  ensure_genesis_routing_epoch-Keeps, transition_routing-Keeps, ingest_batch-Keeps,
  ingest_accepted_batch-Keeps,
}
use glare9_provenance.Ledger.Identity.Steps.{Call, after, Reaches}

module _ (env : Environment) (lifecycle : Lifecycle) where
  open env use {Event, Disk, event_id}

  abbrev Exact : State Event Disk → Type 0
  Exact = IsExact env lifecycle

  call-Keeps :
      {A : Type 0} (component : Disk → Result A × Disk) → Keeps Exact (call env lifecycle component)
  call-Keeps component =
      Keeps-Runs _ (Runs-call env lifecycle component (λ _ s disk h. h) (λ s disk h. h))

  accept_item-Keeps : (item : _) → Keeps Exact (accept_item env lifecycle item)
  accept_item-Keeps item = record {
    holds = λ s h.
        accept_item-cases env lifecycle [] Exact item s h
          (λ e e' answer disk. answered answer disk s h);
  }
    where
      answered :
          (answer : Result (ℕ × Text)) (disk : Disk) (s : State Event Disk)
          → Exact s
          → Exact (keep_answer env lifecycle item answer disk s).1
      answered (ok (sequence, accepted_at)) disk s h = h
      answered (err code) disk s h = h

  accept_batch-IsExact : (events : List Event) → Keeps Exact (accept_batch env lifecycle events)
  accept_batch-IsExact events = accept_batch-Keeps env lifecycle [] Exact events accept_item-Keeps

  settle_sealed-Keeps :
      (p : Pending Event) (receipt : Option Sealed)
      → Keeps Exact (settle_sealed env lifecycle p receipt)
  unfolding settle_sealed
  settle_sealed-Keeps p none = Keeps-return tt
  settle_sealed-Keeps p (some receipt) =
      Keeps-bind _ _ (Keeps-lift _)
        (λ _. Keeps-bind _ _ (call-Keeps _) (λ _. Keeps-modify _ (λ s h. h)))

  append_under-Keeps :
      (item : Routed Event) (epoch : Option Epoch)
      → Keeps Exact (append_under env lifecycle item epoch)
  unfolding append_under
  append_under-Keeps item none = Keeps-throw "TypeError"
  append_under-Keeps item (some epoch) = append_to_active-Keeps env lifecycle item epoch

  seal_when-Keeps : (b : Bool) → Keeps Exact (seal_when env lifecycle b)
  unfolding seal_when seal_all
  seal_when-Keeps true =
      Keeps-bind _ _ (Keeps-gets _)
        (λ actives. Keeps-for_each _ actives (λ a. seal_active_segment-Keeps env lifecycle a.key))
  seal_when-Keeps false = Keeps-return tt

  drain_accepted-Keeps : (force_seal : Bool) → Keeps Exact (drain_accepted env lifecycle force_seal)
  unfolding drain_accepted settle ensure_epoch_of append_routed
  drain_accepted-Keeps force_seal = Keeps-bind _ _ (Keeps-gets _) (λ retained.
      Keeps-bind _ _
        (Keeps-for_each _ retained (λ p. Keeps-bind _ _ (Keeps-gets _) (settle_sealed-Keeps p)))
        (λ _. Keeps-bind _ _ (Keeps-gets _) (λ records.
          Keeps-bind _ _
            (Keeps-for_each _ records (λ p.
              Keeps-bind _ _
                (ensure_genesis_routing_epoch-Keeps env lifecycle Exact call-Keeps
                  (λ ledger epoch s h. h) _)
                (λ _. Keeps-return tt)))
            (λ _. Keeps-bind _ _ (Keeps-gets _) (λ unique_new.
              Keeps-bind _ _ (Keeps-gets _) (λ epochs. Keeps-bind _ _ (Keeps-lift _) (λ items.
                Keeps-bind _ _
                  (Keeps-for_each _ items
                    (λ item. Keeps-bind _ _ (Keeps-gets _) (append_under-Keeps item)))
                  (λ _. seal_when-Keeps force_seal))))))))

  seal_expired-Keeps : (now : Option ℕ) → Keeps Exact (seal_expired env lifecycle now)
  unfolding seal_expired seal_if_expired
  seal_expired-Keeps none = Keeps-throw "LEDGER_TIME"
  seal_expired-Keeps (some now) =
      Keeps-bind _ _ (Keeps-gets _) (λ actives. Keeps-for_each _ actives (λ a. when _ a))
    where
      when :
          (b : Bool) (a : Active Event)
          → Keeps Exact
              (elim b [ true ↦ seal_active_segment env lifecycle a.key | false ↦ return tt ])
      when true a = seal_active_segment-Keeps env lifecycle a.key
      when false a = Keeps-return tt

  after-IsExact :
      (c : Call env lifecycle) (s : State Event Disk) → Exact s → Exact (after env lifecycle c s)
  unfolding after
  after-IsExact (Call.accept events) s h = (accept_batch-IsExact events).holds s h
  after-IsExact (Call.ingest events) s h =
      (ingest_batch-Keeps env lifecycle Exact events (accept_batch-IsExact events)
          (drain_accepted-Keeps true)).holds
        s h
  after-IsExact (Call.ingest_accepted events) s h =
      (ingest_accepted_batch-Keeps env lifecycle Exact events (accept_batch-IsExact events)
          (drain_accepted-Keeps false)).holds
        s h
  after-IsExact (Call.drain force_seal) s h = (drain_accepted-Keeps force_seal).holds s h
  after-IsExact (Call.expire now) s h = (seal_expired-Keeps now).holds s h
  after-IsExact (Call.transition ledger shard_count reason expected) s h =
      (transition_routing-Keeps env lifecycle Exact call-Keeps (λ ledger epoch s h. h)
          (drain_accepted-Keeps true) ledger shard_count reason expected).holds
        s h

  Reaches-Exact : (s t : State Event Disk) → Reaches env lifecycle s t → Exact s → Exact t
  Reaches-Exact s _ Reaches.start h = h
  Reaches-Exact s _ (Reaches.next {t = u} r c) h = after-IsExact c u (Reaches-Exact s u r h)

  -- Through any sequence of calls, those that throw included, the count of the bytes of the active
  -- blocks is the sum of the bytes of their framed records, segment by segment, and within the limit.
  pub Reaches-IsExact :
      (s t : State Event Disk)
      → Reaches env lifecycle s t
      → Memory lifecycle.max_active_block_bytes s.active_segments s.active_block_bytes
      → Memory lifecycle.max_active_block_bytes t.active_segments t.active_block_bytes
  Reaches-IsExact = Reaches-Exact
