-- ===== src/Ledger/Segments/Memory.antt =====
-- Every operation on active segments keeps the memory of the active blocks exact and within its limit.
use glare9_provenance.Prelude.{
  ℕ, ◌+◌, ◌≤◌, Bool, true, false, [], Option, none, some, Option-cases, ◌≡◌, refl, sym, ap, ◌∙◌,
  subst, arith, inl, inr,
}
use glare9_provenance.Prelude.Dict.{get, delete}
use glare9_provenance.Prelude.Action.{Action, return, modify, ◌>>=◌, Keeps, Keeps-for_each}
use glare9_provenance.Prelude.Hoare.{
  Runs, Runs-return, Runs-throw, Runs-gets, Runs-lift, Runs-modify, Runs-bind, Runs-weaken,
  Runs-post, Keeps-Runs, Runs-Keeps,
}
use glare9_provenance.Codec.Utf8.{Text}
use glare9_provenance.Ledger.Config.{Lifecycle}
use glare9_provenance.Ledger.State.{Pending, Active, Epoch, State, Environment}
use glare9_provenance.Ledger.Names.{state_key}
use glare9_provenance.Ledger.Active.{
  Routed, no_records, all_records, opened_segment, active_segment_for,
}
use glare9_provenance.Ledger.Segments.{with_active, complete_active_block}
use glare9_provenance.Ledger.Appending.{with_record, store_record, append_to_active}
use glare9_provenance.Ledger.Sealing.{
  record_segment_format, release_record, write_active, seal_completed, seal_active_segment,
}
use glare9_provenance.Ledger.Segments.Exact.{
  framed_bytes, framed_bytes-append, IsCounted, Memory-replace, Memory-add, Memory-delete,
  Memory-found, Runs-call, Runs-with_active,
}
use glare9_provenance.Ledger.Segments.Completion.{
  IsExact, Holds, IsComplete, complete_active_block-Runs, make_active_memory_room-Runs,
}

module _ (env : Environment) (lifecycle : Lifecycle) where
  open env use {Event, Disk, event_id, ledger_id}

  record_segment_format-Runs :
      (a : Active Event) (ledger : Text) (epoch_number format_version : ℕ)
      → Runs
          (Holds env lifecycle a)
          (record_segment_format env lifecycle ledger epoch_number format_version)
          (λ _. Holds env lifecycle a)
          (IsExact env lifecycle)
  unfolding record_segment_format
  record_segment_format-Runs a ledger epoch_number format_version =
      Runs-bind (λ _. Holds env lifecycle a) _ _ (Runs-gets _ (λ s h. h))
        (λ existing.
          Runs-bind (λ _. Holds env lifecycle a) _ _ (Runs-lift _ (λ _ s _ h. h) (λ s h. h.0))
            (λ _. Runs-modify _ (λ s h. h)))

  release_record-Keeps :
      (p : Pending Event) → Keeps (IsExact env lifecycle) (release_record env lifecycle p)
  unfolding release_record
  release_record-Keeps p = Keeps-Runs _ (
      Runs-bind (λ _. IsExact env lifecycle) _ _ (Runs-modify _ (λ s h. h))
        (λ _.
          Runs-bind (λ _. IsExact env lifecycle) _ _
            (Runs-call env lifecycle _ (λ _ s disk h. h) (λ s disk h. h))
            (λ _. Runs-modify _ (λ s h. h))))

  write_active-Runs :
      (a : Active Event) (epoch : Option Epoch)
      → Runs
          (Holds env lifecycle a)
          (write_active env lifecycle a epoch)
          (λ _. Holds env lifecycle a)
          (IsExact env lifecycle)
  unfolding write_active
  write_active-Runs a none = Runs-throw "TypeError" (λ s h. h.0)
  write_active-Runs a (some e) = Runs-call env lifecycle _ (λ _ s disk h. h) (λ s disk h. h.0)

  Holds-delete :
      (a : Active Event) (s : State Event Disk)
      → a.active_block ≡ []
      → Holds env lifecycle a s
      → IsExact env lifecycle (record s { active_segments = delete a.key s.active_segments })
  unfolding framed_bytes
  Holds-delete a s empty (m, found) =
      let c = Memory-found lifecycle.max_active_block_bytes a.key a _ _ m found in
      Memory-delete lifecycle.max_active_block_bytes a.key s.active_segments s.active_block_bytes m
        (rw found (c.counted ∙ ap framed_bytes empty))

  seal_completed-Runs :
      (a : Active Event)
      → a.active_block ≡ []
      → Runs
          (Holds env lifecycle a)
          (seal_completed env lifecycle a)
          (λ _. IsExact env lifecycle)
          (IsExact env lifecycle)
  unfolding seal_completed
  seal_completed-Runs a empty =
      let h = Holds env lifecycle a in
      Runs-bind (λ _. h) _ _ (Runs-gets _ (λ s k. k))
        (λ epoch.
          Runs-bind (λ _. h) _ _ (Runs-lift _ (λ _ s _ k. k) (λ s k. k.0))
            (λ _.
              Runs-bind (λ _. h) _ _ (write_active-Runs a epoch)
                (λ (hash, signer).
                  Runs-bind (λ _. h) _ _
                    (record_segment_format-Runs a a.ledger_id a.epoch_number a.format_version)
                    (λ _.
                      Runs-bind (λ _. h) _ _ (Runs-modify _ (λ s k. k))
                        (λ _.
                          Runs-bind (λ _. h) _ _
                            (Runs-call env lifecycle _ (λ _ s disk k. k) (λ s disk k. k.0))
                            (λ _.
                              Runs-bind (λ _. IsExact env lifecycle) _ _
                                (Runs-modify _ (λ s k. Holds-delete a s empty k))
                                (λ _. Runs-Keeps _ (
                                  Keeps-for_each _ (all_records a.blocks)
                                    release_record-Keeps))))))))

  IsExact-post :
      (key : Text)
      → Runs
          (IsExact env lifecycle)
          (complete_active_block env lifecycle key)
          (λ _. IsExact env lifecycle)
          (IsExact env lifecycle)
  IsExact-post key = Runs-post _ (λ _ s k. k.0) (complete_active_block-Runs env lifecycle key)

  abbrev Found : Text → Active Event → State Event Disk → Type 0
  Found key a s =
      (IsExact env lifecycle s × IsComplete env lifecycle key s)
      × (get key s.active_segments ≡ some a)

  abbrev seal_if : Active Event → Bool → Action (State Event Disk) (Unit {0})
  seal_if a none_there = elim none_there [
    | true ↦ return tt
    | false ↦ seal_completed env lifecycle a
  ]

  seal_if-Runs :
      (key : Text) (a : Active Event) (none_there : Bool)
      → Runs
          (Found key a)
          (seal_if a none_there)
          (λ _. IsExact env lifecycle)
          (IsExact env lifecycle)
  seal_if-Runs key a true = Runs-return tt (λ s h. h.0.0)
  seal_if-Runs key a false = record {
    ends = λ s h.
        let ((m, done), found) = h in
        let c = Memory-found lifecycle.max_active_block_bytes key a _ _ m found in
        (seal_completed-Runs a (done a found)).ends s
          (m, subst (λ k. get k s.active_segments ≡ some a) (sym c.under_key) found);
  }

  seal_active_segment-Runs :
      (key : Text)
      → Runs
          (IsExact env lifecycle)
          (seal_active_segment env lifecycle key)
          (λ _. IsExact env lifecycle)
          (IsExact env lifecycle)
  unfolding seal_active_segment
  seal_active_segment-Runs key =
      Runs-bind (λ _ s. IsExact env lifecycle s × IsComplete env lifecycle key s) _ _
        (complete_active_block-Runs env lifecycle key)
        (λ _.
          Runs-with_active env lifecycle key _ (λ s h missing. h.0)
            (λ a. seal_if-Runs key a (no_records a.blocks)))

  -- Sealing a segment keeps the memory exact, also when it fails.
  pub seal_active_segment-Keeps :
      (key : Text) → Keeps (IsExact env lifecycle) (seal_active_segment env lifecycle key)
  seal_active_segment-Keeps key = Keeps-Runs _ (seal_active_segment-Runs key)

  abbrev key_of : Routed Event → Epoch → Text
  key_of item epoch = state_key (ledger_id item.pending.event) epoch.epoch_number item.shard_id

  opened_segment-IsCounted :
      (item : Routed Event) (epoch : Epoch) (s : State Event Disk)
      → let a = opened_segment env lifecycle item epoch s in
        (a.key ≡ key_of item epoch) × IsCounted a.key a × (a.active_block_bytes ≡ 0)
  unfolding opened_segment framed_bytes
  opened_segment-IsCounted item epoch s = ground arith

  active_segment_for-Runs :
      (item : Routed Event) (epoch : Epoch)
      → Runs
          (IsExact env lifecycle)
          (active_segment_for env lifecycle item epoch)
          (λ _. IsExact env lifecycle)
          (IsExact env lifecycle)
  unfolding active_segment_for
  active_segment_for-Runs item epoch = record {
    ends = λ s m. elim (Option-cases (get (key_of item epoch) s.active_segments)) [
      | inr (a, e) ↦ rw (e, active_segment_for) m
      | inl e ↦
          rw (e, active_segment_for)
            (let a = opened_segment env lifecycle item epoch s in
              let (same, c, empty) = opened_segment-IsCounted item epoch s in
              Memory-add lifecycle.max_active_block_bytes a.key a s.active_segments
                s.active_block_bytes m (subst (λ k. get k s.active_segments ≡ none) (sym same) e) c
                empty)
    ];
  }

  store_record-Runs :
      (p : Pending Event) (key : Text)
      → Runs
          (λ s.
            IsExact env lifecycle s
            × (s.active_block_bytes + (p.event_bytes + 4) ≤ lifecycle.max_active_block_bytes))
          (with_active env lifecycle key (λ a. modify (store_record env lifecycle p a)))
          (λ _. IsExact env lifecycle)
          (IsExact env lifecycle)
  store_record-Runs p key =
      Runs-with_active env lifecycle key _ (λ s h missing. h.0)
        (λ a. Runs-modify _ (λ s ((m, fits), found).
          let c = Memory-found lifecycle.max_active_block_bytes key a _ _ m found in
          Memory-replace lifecycle.max_active_block_bytes a.key a (with_record env lifecycle p a)
            s.active_segments s.active_block_bytes (s.active_block_bytes + (p.event_bytes + 4)) m
            (subst (λ k. get k s.active_segments ≡ some a) (sym c.under_key) found)
            (record {
              under_key = refl;
              counted = omega (arith, c.counted, framed_bytes-append a.active_block p);
            })
            (omega arith) fits))

  when-Runs :
      (b : Bool) (m : Action (State Event Disk) (Unit {0}))
      → Keeps (IsExact env lifecycle) m
      → Runs
          (IsExact env lifecycle)
          (elim b [ true ↦ m | false ↦ return tt ])
          (λ _. IsExact env lifecycle)
          (IsExact env lifecycle)
  when-Runs true m k = Runs-Keeps m k
  when-Runs false m k = Runs-return tt (λ s h. h)

  complete_active_block-Keeps :
      (key : Text) → Keeps (IsExact env lifecycle) (complete_active_block env lifecycle key)
  complete_active_block-Keeps key = Keeps-Runs _ (IsExact-post key)

  with_active-Runs :
      (key : Text) (test : Active Event → Bool)
      (body : Active Event → Action (State Event Disk) (Unit {0}))
      → ((a : Active Event) → Keeps (IsExact env lifecycle) (body a))
      → Runs
          (IsExact env lifecycle)
          (with_active env lifecycle key (λ a. elim (test a) [ true ↦ body a | false ↦ return tt ]))
          (λ _. IsExact env lifecycle)
          (IsExact env lifecycle)
  with_active-Runs key test body k =
      Runs-with_active env lifecycle key _ (λ s h missing. h)
        (λ a. Runs-weaken _ (λ s h. h.0) (when-Runs (test a) (body a) (k a)))

  segment_with_room-Runs :
      (item : Routed Event) (epoch : Epoch) (first : Active Event) (overflows : Bool)
      → Runs
          (IsExact env lifecycle)
          (elim overflows [
            | true ↦ seal_active_segment env lifecycle first.key >>= λ _.
                active_segment_for env lifecycle item epoch
            | false ↦ return first
          ])
          (λ _. IsExact env lifecycle)
          (IsExact env lifecycle)
  segment_with_room-Runs item epoch first true =
      Runs-bind (λ _. IsExact env lifecycle) _ _ (seal_active_segment-Runs first.key)
        (λ _. active_segment_for-Runs item epoch)
  segment_with_room-Runs item epoch first false = Runs-return first (λ s h. h)

  append_to_active-Runs :
      (item : Routed Event) (epoch : Epoch)
      → Runs
          (IsExact env lifecycle)
          (append_to_active env lifecycle item epoch)
          (λ _. IsExact env lifecycle)
          (IsExact env lifecycle)
  unfolding append_to_active
  append_to_active-Runs item epoch =
      let exact = λ (_ : Unit {0}). IsExact env lifecycle in
      Runs-bind (λ _. IsExact env lifecycle) _ _ (active_segment_for-Runs item epoch)
        (λ first.
          Runs-bind (λ _. IsExact env lifecycle) _ _ (segment_with_room-Runs item epoch first _)
            (λ active.
              Runs-bind exact _ _ (when-Runs _ _ (complete_active_block-Keeps active.key)) (λ _.
                Runs-bind _ _ _
                  (make_active_memory_room-Runs env lifecycle (item.pending.event_bytes + 4)
                    active.key)
                  (λ _. Runs-bind exact _ _ (store_record-Runs item.pending active.key) (λ _.
                    Runs-bind exact _ _
                      (with_active-Runs active.key _ _ (λ a. complete_active_block-Keeps a.key))
                      (λ _.
                        with_active-Runs active.key _ _ (λ a. seal_active_segment-Keeps a.key)))))))

  -- Appending a record keeps the memory of the active blocks exact and within its limit, whatever
  -- is completed or sealed on the way and whichever step fails.
  pub append_to_active-Keeps :
      (item : Routed Event) (epoch : Epoch)
      → Keeps (IsExact env lifecycle) (append_to_active env lifecycle item epoch)
  append_to_active-Keeps item epoch = Keeps-Runs _ (append_to_active-Runs item epoch)
