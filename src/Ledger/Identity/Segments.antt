-- ===== src/Ledger/Identity/Segments.antt =====
-- The operations on active segments keep what an event ID identifies.
use glare9_provenance.Prelude.{
  ℕ, zero, suc, Bytes, Bool, true, false, [], ◌∷◌, List, Option, none, some, Option-cases,
  Bool-cases, inl, inr,
}
use glare9_provenance.Prelude.Dict.{delete, values}
use glare9_provenance.Prelude.Entries.{Entries-delete}
use glare9_provenance.Prelude.Action.{
  Action, return, modify, for_each, ◌>>=◌, Keeps, Keeps-return, Keeps-throw, Keeps-lift, Keeps-gets,
  Keeps-bind, Keeps-modify,
}
use glare9_provenance.Prelude.Hoare.{
  Runs, Runs-return, Runs-modify, Runs-bind, Keeps-Runs, Runs-Keeps,
}
use glare9_provenance.Codec.Utf8.{Text}
use glare9_provenance.Ledger.Config.{Lifecycle}
use glare9_provenance.Ledger.State.{Pending, Active, Epoch, State, Environment}
use glare9_provenance.Ledger.Active.{
  no_records, all_records, largest, call, rebuild_provisional_receipts,
}
use glare9_provenance.Ledger.Segments.{
  with_active, complete_block, complete_active_block, candidates, lacks_room, complete_largest,
  make_active_memory_room,
}
use glare9_provenance.Ledger.Sealing.{
  record_segment_format, store_sealed, release_record, write_active, seal_completed,
  seal_active_segment,
}
use glare9_provenance.Ledger.Segments.Exact.{Runs-call, Runs-with_active}
use glare9_provenance.Ledger.Identity.{SegmentFits}
use glare9_provenance.Ledger.Identity.Changes.{
  Good, RecordsFit, Good-set_segment, found-Fits, all_records-append, rebuild_blocks-Fits, Covers,
  index_records-Covers, Good-store_sealed, Good-disk, Good-call, Good-forget, Good-unassign,
}

module _ (env : Environment) (lifecycle : Lifecycle) (claimed : Bool) (id : Text)
    (hash : Bytes) where
  open env use {Event, Disk, event_id}

  abbrev G : State Event Disk → Type 0
  G = Good env lifecycle claimed id hash

  pub Keeps-when :
      (b : Bool) (m : Action (State Event Disk) (Unit {0}))
      → Keeps G m
      → Keeps G (elim b [ true ↦ m | false ↦ return tt ])
  Keeps-when true m k = k
  Keeps-when false m k = Keeps-return tt

  Keeps-unless :
      (b : Bool) (m : Action (State Event Disk) (Unit {0}))
      → Keeps G m
      → Keeps G (elim b [ true ↦ return tt | false ↦ m ])
  Keeps-unless true m k = Keeps-return tt
  Keeps-unless false m k = k

  pub Keeps-with_active :
      (key : Text) (body : Active Event → Action (State Event Disk) (Unit {0}))
      → ((a : Active Event) → SegmentFits env lifecycle id hash key a → Keeps G (body a))
      → Keeps G (with_active env lifecycle key body)
  Keeps-with_active key body k = Keeps-Runs _ (
      Runs-with_active env lifecycle key body (λ s h missing. h)
        (λ a. record {
          ends = λ s (h, found).
              (Runs-Keeps _ (k a (found-Fits env lifecycle claimed id hash key a s h found))).ends s
                h;
        }))

  complete_block-Keeps :
      (a : Active Event)
      → SegmentFits env lifecycle id hash a.key a
      → Keeps G (complete_block env lifecycle a)
  unfolding complete_block rebuild_provisional_receipts
  complete_block-Keeps a (old, new) =
      let fits = λ (uncompressed content : Bytes).
        (all_records-append env lifecycle claimed id hash a.blocks _ old new) in
      Keeps-bind _ _ (Keeps-lift _) (λ uncompressed. Keeps-bind _ _ (Keeps-lift _) (λ content.
        Keeps-bind _ _
          (Keeps-modify _ (λ s h.
            Good-set_segment env lifecycle claimed id hash a.key _ _ s h
              (fits uncompressed content, tt)))
          (λ _. Keeps-bind _ _ (Good-call env lifecycle claimed id hash _) (λ path.
            Keeps-bind _ _
              (Keeps-modify _ (λ s h.
                Good-set_segment env lifecycle claimed id hash a.key _ _ s h
                  (fits uncompressed content, tt)))
              (λ _. Keeps-modify _ (λ s (known, g). (
                known,
                record {
                  sealed_fits = g.sealed_fits;
                  provisional_fits =
                      rebuild_blocks-Fits env lifecycle claimed id hash _ 0 0 _ s.provisional_index
                        (fits uncompressed content) g.provisional_fits;
                  pending_fits = g.pending_fits;
                  segments_fit = g.segments_fit;
                },
              )))))))

  pub complete_active_block-Keeps : (key : Text) → Keeps G (complete_active_block env lifecycle key)
  unfolding complete_active_block
  complete_active_block-Keeps key =
      Keeps-with_active key _
        (λ a f. Keeps-unless (no_records a.active_block) _ (complete_block-Keeps a f))

  complete_largest-Keeps :
      (rounds required_bytes : ℕ) (except_key : Text)
      → Keeps G (complete_largest env lifecycle rounds required_bytes except_key)
  unfolding complete_largest
  complete_largest-Keeps zero required_bytes except_key = Keeps-return tt
  complete_largest-Keeps (suc rounds) required_bytes except_key = record {
    holds = λ s h. elim (Bool-cases (lacks_room env lifecycle required_bytes s)) [
      | inr e ↦ rw (e, complete_largest) h
      | inl e ↦
          elim (Option-cases
            (largest (candidates env lifecycle except_key (values s.active_segments)))) [
              | inl e' ↦ rw (e, e', complete_largest) h
              | inr (a, e') ↦
                  rw (e, e', complete_largest)
                    ((Keeps-bind {P = G} _ _ (complete_active_block-Keeps a.key)
                        (λ _. complete_largest-Keeps rounds required_bytes except_key)).holds
                      s h)
            ]
    ];
  }

  pub make_active_memory_room-Keeps :
      (required_bytes : ℕ) (except_key : Text)
      → Keeps G (make_active_memory_room env lifecycle required_bytes except_key)
  unfolding make_active_memory_room
  make_active_memory_room-Keeps required_bytes except_key = Keeps-bind _ _ (Keeps-gets _) (λ rounds.
      Keeps-bind _ _ (complete_largest-Keeps rounds required_bytes except_key)
        (λ _. Keeps-bind _ _ (Keeps-gets _) (λ full. Keeps-lift _)))

  -- Releasing the records of a sealed segment.
  release_records-Runs :
      (ps : List (Pending Event))
      → Runs
          (λ s. G s × Covers env lifecycle id hash ps s.event_index)
          (for_each (release_record env lifecycle) ps)
          (λ _. G)
          G
  unfolding for_each release_record
  release_records-Runs [] = Runs-return tt (λ s h. h.0)
  release_records-Runs (p ∷ ps) =
      let here =
        λ (s : State Event Disk). G s × Covers env lifecycle id hash (p ∷ ps) s.event_index in
      let rest = λ (s : State Event Disk). G s × Covers env lifecycle id hash ps s.event_index in
      Runs-bind (λ _. rest) _ _
        (Runs-bind (λ _. here) _ _
          (Runs-modify _ (λ s (h, c). (Good-unassign env lifecycle claimed id hash p s h, c)))
          (λ _.
            Runs-bind (λ _. here) _ _
              (Runs-call env lifecycle _
                (λ _ s disk (h, c). (Good-disk env lifecycle claimed id hash s disk h, c))
                (λ s disk (h, c). Good-disk env lifecycle claimed id hash s disk h))
              (λ _.
                Runs-modify _
                  (λ s (h, (c, cs)). (Good-forget env lifecycle claimed id hash p s c h, cs)))))
        (λ _. release_records-Runs ps)

  record_segment_format-Keeps :
      (ledger : Text) (epoch_number format_version : ℕ)
      → Keeps G (record_segment_format env lifecycle ledger epoch_number format_version)
  unfolding record_segment_format
  record_segment_format-Keeps ledger epoch_number format_version =
      Keeps-bind _ _ (Keeps-gets _) (λ existing. Keeps-bind _ _ (Keeps-lift _) (λ _.
        Keeps-modify _ (λ s (known, g). (
          known,
          record {
            sealed_fits = g.sealed_fits;
            provisional_fits = g.provisional_fits;
            pending_fits = g.pending_fits;
            segments_fit = g.segments_fit;
          },
        ))))

  write_active-Keeps :
      (a : Active Event) (epoch : Option Epoch) → Keeps G (write_active env lifecycle a epoch)
  unfolding write_active
  write_active-Keeps a none = Keeps-throw "TypeError"
  write_active-Keeps a (some e) = Good-call env lifecycle claimed id hash _

  Good-drop_segment :
      (key : Text) (s : State Event Disk)
      → G s
      → G (record s { active_segments = delete key s.active_segments })
  Good-drop_segment key s (known, g) = (
    known,
    record {
      sealed_fits = g.sealed_fits;
      provisional_fits = g.provisional_fits;
      pending_fits = g.pending_fits;
      segments_fit =
          Entries-delete (SegmentFits env lifecycle id hash) key s.active_segments g.segments_fit;
    },
  )

  -- What follows the writing of a segment.
  seal_written-Runs :
      (a : Active Event) (segment_hash : Bytes) (signer : Text)
      → RecordsFit env lifecycle id hash (all_records a.blocks)
      → Runs G
          (modify (store_sealed env lifecycle a segment_hash signer) >>= λ _.
            call env lifecycle (env.remove_active a) >>= λ _.
            modify (λ s. record s { active_segments = delete a.key s.active_segments }) >>= λ _.
            for_each (release_record env lifecycle) (all_records a.blocks))
          (λ _. G)
          G
  seal_written-Runs a segment_hash signer fits =
      let P = λ (s : State Event Disk).
        G s × Covers env lifecycle id hash (all_records a.blocks) s.event_index in
      Runs-bind (λ _. P) _ _
        (Runs-modify _ (λ s h. (
          Good-store_sealed env lifecycle claimed id hash a segment_hash signer s fits h,
          index_records-Covers env lifecycle claimed id hash a segment_hash signer 0
              (all_records a.blocks) s.event_index,
        )))
        (λ _.
          Runs-bind (λ _. P) _ _
            (Runs-call env lifecycle _
              (λ _ s disk (h, c). (Good-disk env lifecycle claimed id hash s disk h, c))
              (λ s disk (h, c). Good-disk env lifecycle claimed id hash s disk h))
            (λ _.
              Runs-bind (λ _. P) _ _ (Runs-modify _ (λ s (h, c). (Good-drop_segment a.key s h, c)))
                (λ _. release_records-Runs (all_records a.blocks))))

  seal_completed-Keeps :
      (a : Active Event)
      → SegmentFits env lifecycle id hash a.key a
      → Keeps G (seal_completed env lifecycle a)
  unfolding seal_completed
  seal_completed-Keeps a (old, new) = Keeps-bind _ _ (Keeps-gets _) (λ epoch.
      Keeps-bind _ _ (Keeps-lift _) (λ _.
        Keeps-bind _ _ (write_active-Keeps a epoch) (λ (segment_hash, signer).
          Keeps-bind _ _ (record_segment_format-Keeps a.ledger_id a.epoch_number a.format_version)
            (λ _. Keeps-Runs _ (seal_written-Runs a segment_hash signer old)))))

  -- Sealing a segment keeps what the event ID identifies, at every point where it can throw.
  pub seal_active_segment-Keeps : (key : Text) → Keeps G (seal_active_segment env lifecycle key)
  unfolding seal_active_segment
  seal_active_segment-Keeps key = Keeps-bind _ _ (complete_active_block-Keeps key) (λ _.
      Keeps-with_active key _
        (λ a f. Keeps-unless (no_records a.blocks) _ (seal_completed-Keeps a f)))
