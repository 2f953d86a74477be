-- ===== src/Ledger/Identity/Appending.antt =====
-- Appending a record and sealing what has expired keep what an event ID identifies.
use glare9_provenance.Prelude.{
  ℕ, Bytes, Bool, true, false, [], All-append, Option, none, some, Option-cases, inl, inr,
}
use glare9_provenance.Prelude.Dict.{get}
use glare9_provenance.Prelude.Entries.{Entries-set}
use glare9_provenance.Prelude.Action.{
  return, modify, ◌>>=◌, Keeps, Keeps-return, Keeps-throw, Keeps-gets, Keeps-bind, Keeps-modify,
  Keeps-for_each,
}
use glare9_provenance.Codec.Utf8.{Text}
use glare9_provenance.Ledger.Config.{Lifecycle}
use glare9_provenance.Ledger.State.{Pending, Active, Epoch, State, Environment}
use glare9_provenance.Ledger.Names.{state_key}
use glare9_provenance.Ledger.Active.{Routed, all_records, opened_segment, active_segment_for}
use glare9_provenance.Ledger.Segments.{with_active}
use glare9_provenance.Ledger.Appending.{
  store_record, append_to_active, seal_if_expired, seal_expired,
}
use glare9_provenance.Ledger.Sealing.{seal_active_segment}
use glare9_provenance.Ledger.Identity.{Fits, SegmentFits}
use glare9_provenance.Ledger.Identity.Changes.{Good, Good-set_segment}
use glare9_provenance.Ledger.Identity.Segments.{
  Keeps-when, Keeps-with_active, complete_active_block-Keeps, make_active_memory_room-Keeps,
  seal_active_segment-Keeps,
}

module _ (env : Environment) (lifecycle : Lifecycle) (claimed : Bool) (id : Text)
    (hash : Bytes) where
  open env use {Event, Disk, event_id, ledger_id, subject, sha256}

  abbrev G : State Event Disk → Type 0
  G = Good env lifecycle claimed id hash

  opened_segment-Fits :
      (item : Routed Event) (epoch : Epoch) (s : State Event Disk)
      → SegmentFits env lifecycle id hash [] (opened_segment env lifecycle item epoch s)
  unfolding opened_segment all_records
  opened_segment-Fits item epoch s =
      elim (Option-cases (
        get (state_key (ledger_id item.pending.event) epoch.epoch_number item.shard_id)
          s.shard_states)) [
            | inl e ↦ rw (e, opened_segment, all_records) (tt, tt)
            | inr (shard, e) ↦ rw (e, opened_segment, all_records) (tt, tt)
          ]

  active_segment_for-Keeps :
      (item : Routed Event) (epoch : Epoch) → Keeps G (active_segment_for env lifecycle item epoch)
  unfolding active_segment_for
  active_segment_for-Keeps item epoch = record {
    holds = λ s h.
        elim (Option-cases (
          get (state_key (ledger_id item.pending.event) epoch.epoch_number item.shard_id)
            s.active_segments)) [
              | inr (a, e) ↦ rw (e, active_segment_for) h
              | inl e ↦
                  rw (e, active_segment_for)
                    (Good-set_segment env lifecycle claimed id hash _ _ s.active_block_bytes s h
                      (opened_segment-Fits item epoch s))
            ];
  }

  store_record-Good :
      (p : Pending Event) (a : Active Event) (s : State Event Disk)
      → Fits env lifecycle id hash p
      → SegmentFits env lifecycle id hash a.key a
      → G s
      → G (store_record env lifecycle p a s)
  store_record-Good p a s f (old, new) (known, g) = (
    known,
    record {
      sealed_fits = g.sealed_fits;
      provisional_fits = g.provisional_fits;
      pending_fits = g.pending_fits;
      segments_fit =
          Entries-set (SegmentFits env lifecycle id hash) a.key _ s.active_segments g.segments_fit
            (old, All-append _ a.active_block _ new (f, tt));
    },
  )

  segment_with_room-Keeps :
      (item : Routed Event) (epoch : Epoch) (first : Active Event) (overflows : Bool)
      → Keeps G (elim overflows [
        | true ↦ seal_active_segment env lifecycle first.key >>= λ _.
            active_segment_for env lifecycle item epoch
        | false ↦ return first
      ])
  segment_with_room-Keeps item epoch first true =
      Keeps-bind _ _ (seal_active_segment-Keeps env lifecycle claimed id hash first.key)
        (λ _. active_segment_for-Keeps item epoch)
  segment_with_room-Keeps item epoch first false = Keeps-return first

  store_record-Keeps :
      (p : Pending Event) (key : Text)
      → Fits env lifecycle id hash p
      → Keeps G (with_active env lifecycle key (λ a. modify (store_record env lifecycle p a)))
  store_record-Keeps p key f =
      Keeps-with_active env lifecycle claimed id hash key _
        (λ a fits. Keeps-modify _ (λ s h. store_record-Good p a s f fits h))

  -- Appending a record keeps what the event ID identifies, whatever is completed or sealed on the way
  -- and whichever step fails.
  pub append_to_active-Keeps :
      (item : Routed Event) (epoch : Epoch)
      → Fits env lifecycle id hash item.pending
      → Keeps G (append_to_active env lifecycle item epoch)
  unfolding append_to_active
  append_to_active-Keeps item epoch f =
      let when = Keeps-when env lifecycle claimed id hash in
      let seal = seal_active_segment-Keeps env lifecycle claimed id hash in
      let complete = complete_active_block-Keeps env lifecycle claimed id hash in
      Keeps-bind _ _ (active_segment_for-Keeps item epoch) (λ first.
        Keeps-bind _ _ (segment_with_room-Keeps item epoch first _) (λ active.
          Keeps-bind _ _ (when _ _ (complete active.key)) (λ _.
            Keeps-bind _ _
              (make_active_memory_room-Keeps env lifecycle claimed id hash _ active.key)
              (λ _. Keeps-bind _ _ (store_record-Keeps item.pending active.key f) (λ _.
                Keeps-bind _ _
                  (Keeps-with_active env lifecycle claimed id hash active.key _
                    (λ a fits. when _ _ (complete a.key)))
                  (λ _.
                    Keeps-with_active env lifecycle claimed id hash active.key _
                      (λ a fits. when _ _ (seal a.key))))))))

  -- So does sealing what has expired.
  pub seal_expired-Keeps : (now : Option ℕ) → Keeps G (seal_expired env lifecycle now)
  unfolding seal_expired seal_if_expired
  seal_expired-Keeps none = Keeps-throw "LEDGER_TIME"
  seal_expired-Keeps (some now) = Keeps-bind _ _ (Keeps-gets _) (λ actives.
      Keeps-for_each _ actives (λ a.
        Keeps-when env lifecycle claimed id hash _ _
          (seal_active_segment-Keeps env lifecycle claimed id hash a.key)))
