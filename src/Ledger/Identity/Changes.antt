-- ===== src/Ledger/Identity/Changes.antt =====
-- The changes to the indexes keep what an event ID identifies.
use glare9_provenance.Prelude.{
  ℕ, suc, Bytes, Bool, true, false, ◌||◌, [], ◌∷◌, ◌++◌, List, All, All-append, All-split, some,
  Bool-cases, Result, ◌≡◌, refl, ap, ◌∙◌, arith, inl, inr,
}
use glare9_provenance.Prelude.Octets.{equals, equals→eq, equals_iff, equals_refl}
use glare9_provenance.Prelude.Dict.{Dict, get, has, set, delete, has-set}
use glare9_provenance.Prelude.Entries.{Entries, Entries-get, Entries-set, Entries-delete}
use glare9_provenance.Prelude.Action.{Keeps}
use glare9_provenance.Prelude.Hoare.{Keeps-Runs}
use glare9_provenance.Codec.Utf8.{Text}
use glare9_provenance.Ledger.Config.{Lifecycle}
use glare9_provenance.Ledger.State.{Pending, Sealed, Provisional, Block, Active, State, Environment}
use glare9_provenance.Ledger.Active.{all_records, call, rebuild_block, rebuild_blocks}
use glare9_provenance.Ledger.Sealing.{
  index_records, sealed_receipt, store_sealed, forget_pending, unassign,
}
use glare9_provenance.Ledger.Segments.Exact.{Runs-call}
use glare9_provenance.Ledger.Identity.{
  Fits, SegmentFits, PendingFits, SealedFits, ProvisionalFits, Identifies,
}

pub has-delete_other :
    {V : Type 0} (k j : Text) (d : Dict V) → equals k j ≡ false → has j (delete k d) ≡ has j d
unfolding has delete
has-delete_other k j [] h = refl
has-delete_other k j ((i, v) ∷ d) h =
    ground (arith, equals_iff i k, equals_iff i j, equals_iff k j, has-delete_other k j d)

pub has-set_kept :
    {V : Type 0} (k j : Text) (v : V) (d : Dict V) → has j d ≡ true → has j (set k v d) ≡ true
has-set_kept k j v d h = has-set k j v d ∙ ground (arith, h)

or_mono : (a b c : Bool) → (a ≡ true → b ≡ true) → (a || c) ≡ true → (b || c) ≡ true
or_mono true b c h k = ap (λ x. x || c) (h refl)
or_mono false true c h k = refl
or_mono false false c h k = k

or-one : (a b : Bool) → a ≡ true → (a || b) ≡ true
or-one a b h = ground arith

module _ (env : Environment) (lifecycle : Lifecycle) (id : Text) (hash : Bytes) where
  open env use {Event, event_id}

  abbrev pub RecordsFit : List (Pending Event) → Type 0
  RecordsFit ps = All (Fits env lifecycle id hash) ps

  -- If a record is under the event ID then the event ID is sealed.
  abbrev pub Covers : List (Pending Event) → Dict Sealed → Type 0
  Covers ps index = All (λ p. event_id p.event ≡ id → has id index ≡ true) ps

module _ (env : Environment) (lifecycle : Lifecycle) (claimed : Bool) (id : Text)
    (hash : Bytes) where
  open env use {Event, Disk, event_id}

  abbrev pub Good : State Event Disk → Type 0
  Good = Identifies env lifecycle id hash claimed

  -- Under the key of a segment nothing changes but its records, which fit.
  pub Good-set_segment :
      (key : Text) (a : Active Event) (bytes : ℕ) (s : State Event Disk)
      → Good s
      → SegmentFits env lifecycle id hash key a
      → Good
          (record s { active_segments = set key a s.active_segments; active_block_bytes = bytes })
  Good-set_segment key a bytes s (known, g) f = (
    known,
    record {
      sealed_fits = g.sealed_fits;
      provisional_fits = g.provisional_fits;
      pending_fits = g.pending_fits;
      segments_fit =
          Entries-set (SegmentFits env lifecycle id hash) key a s.active_segments g.segments_fit f;
    },
  )

  pub found-Fits :
      (key : Text) (a : Active Event) (s : State Event Disk)
      → Good s
      → get key s.active_segments ≡ some a
      → SegmentFits env lifecycle id hash key a
  found-Fits key a s (known, g) found =
      Entries-get (SegmentFits env lifecycle id hash) key a _ g.segments_fit found

  pub all_records-append :
      (blocks : List (Block Event)) (b : Block Event)
      → RecordsFit env lifecycle id hash (all_records blocks)
      → RecordsFit env lifecycle id hash b.records
      → RecordsFit env lifecycle id hash (all_records (blocks ++ b ∷ []))
  unfolding all_records
  all_records-append [] b h k = All-append _ b.records [] k tt
  all_records-append (c ∷ blocks) b h k =
      let (first, rest) = All-split _ c.records _ h in
      All-append _ c.records _ first (all_records-append blocks b rest k)

  -- Provisional receipts of records that fit.
  rebuild_block-Fits :
      (a : Active Event) (block_index record_index : ℕ) (ps : List (Pending Event))
      (index : Dict Provisional)
      → RecordsFit env lifecycle id hash ps
      → Entries (ProvisionalFits env lifecycle id hash) index
      → Entries
          (ProvisionalFits env lifecycle id hash)
          (rebuild_block env lifecycle a block_index record_index ps index)
  unfolding rebuild_block
  rebuild_block-Fits a block_index record_index [] index h e = e
  rebuild_block-Fits a block_index record_index (p ∷ ps) index (f, h) e =
      rebuild_block-Fits a block_index (suc record_index) ps _ h
        (Entries-set (ProvisionalFits env lifecycle id hash) (event_id p.event) _ index e f)

  pub rebuild_blocks-Fits :
      (a : Active Event) (block_index record_index : ℕ) (blocks : List (Block Event))
      (index : Dict Provisional)
      → RecordsFit env lifecycle id hash (all_records blocks)
      → Entries (ProvisionalFits env lifecycle id hash) index
      → Entries
          (ProvisionalFits env lifecycle id hash)
          (rebuild_blocks env lifecycle a block_index record_index blocks index)
  unfolding rebuild_blocks all_records
  rebuild_blocks-Fits a block_index record_index [] index h e = e
  rebuild_blocks-Fits a block_index record_index (b ∷ blocks) index h e =
      let (first, rest) = All-split _ b.records _ h in
      rebuild_blocks-Fits a (suc block_index) _ blocks _ rest
        (rebuild_block-Fits a block_index record_index b.records index first e)

  index_records-Fits :
      (a : Active Event) (segment_hash : Bytes) (signer : Text) (i : ℕ) (ps : List (Pending Event))
      (index : Dict Sealed)
      → RecordsFit env lifecycle id hash ps
      → Entries (SealedFits env lifecycle id hash) index
      → Entries
          (SealedFits env lifecycle id hash)
          (index_records env lifecycle a segment_hash signer i ps index)
  unfolding index_records
  index_records-Fits a segment_hash signer i [] index h e = e
  index_records-Fits a segment_hash signer i (p ∷ ps) index (f, h) e =
      index_records-Fits a segment_hash signer (suc i) ps _ h
        (Entries-set (SealedFits env lifecycle id hash) (event_id p.event) _ index e f)

  index_records-has :
      (a : Active Event) (segment_hash : Bytes) (signer : Text) (i : ℕ) (ps : List (Pending Event))
      (index : Dict Sealed)
      → has id index ≡ true
      → has id (index_records env lifecycle a segment_hash signer i ps index) ≡ true
  unfolding index_records
  index_records-has a segment_hash signer i [] index h = h
  index_records-has a segment_hash signer i (p ∷ ps) index h =
      index_records-has a segment_hash signer (suc i) ps _
        (has-set_kept (event_id p.event) id _ index h)

  pub index_records-Covers :
      (a : Active Event) (segment_hash : Bytes) (signer : Text) (i : ℕ) (ps : List (Pending Event))
      (index : Dict Sealed)
      → Covers env lifecycle id hash ps
          (index_records env lifecycle a segment_hash signer i ps index)
  unfolding index_records
  index_records-Covers a segment_hash signer i [] index = tt
  index_records-Covers a segment_hash signer i (p ∷ ps) index = (
    λ same. index_records-has a segment_hash signer (suc i) ps _ (
        has-set (event_id p.event) id (sealed_receipt env lifecycle a segment_hash signer i p) index
        ∙ rw (same, equals_refl id) refl),
    index_records-Covers a segment_hash signer (suc i) ps _,
  )

  pub Good-store_sealed :
      (a : Active Event) (segment_hash : Bytes) (signer : Text) (s : State Event Disk)
      → RecordsFit env lifecycle id hash (all_records a.blocks)
      → Good s
      → Good (store_sealed env lifecycle a segment_hash signer s)
  Good-store_sealed a segment_hash signer s f (known, g) = (
    λ c.
        or_mono _ _ _
          (index_records-has a segment_hash signer 0 (all_records a.blocks) s.event_index)
          (known c),
    record {
      sealed_fits =
          index_records-Fits a segment_hash signer 0 (all_records a.blocks) s.event_index f
            g.sealed_fits;
      provisional_fits = g.provisional_fits;
      pending_fits = g.pending_fits;
      segments_fit = g.segments_fit;
    },
  )

  pub Good-disk : (s : State Event Disk) (disk : Disk) → Good s → Good (record s { disk = disk })
  Good-disk s disk (known, g) = (
    known,
    record {
      sealed_fits = g.sealed_fits;
      provisional_fits = g.provisional_fits;
      pending_fits = g.pending_fits;
      segments_fit = g.segments_fit;
    },
  )

  pub Good-call :
      {A : Type 0} (component : Disk → Result A × Disk) → Keeps Good (call env lifecycle component)
  Good-call component = Keeps-Runs _ (
      Runs-call env lifecycle component (λ _ s disk h. Good-disk s disk h)
        (λ s disk h. Good-disk s disk h))

  -- A record leaves the intake when its event ID is sealed.
  pub Good-forget :
      (p : Pending Event) (s : State Event Disk)
      → (event_id p.event ≡ id → has id s.event_index ≡ true)
      → Good s
      → Good (forget_pending env lifecycle p s)
  Good-forget p s covered (known, g) = (
    λ c. elim (Bool-cases (equals (event_id p.event) id)) [
      | inl e ↦ or-one _ _ (covered (equals→eq _ id e))
      | inr e ↦ rw (has-delete_other (event_id p.event) id s.pending_index e) (known c)
    ],
    record {
      sealed_fits = g.sealed_fits;
      provisional_fits = g.provisional_fits;
      pending_fits =
          Entries-delete (PendingFits env lifecycle id hash) (event_id p.event) s.pending_index
            g.pending_fits;
      segments_fit = g.segments_fit;
    },
  )

  pub Good-unassign :
      (p : Pending Event) (s : State Event Disk) → Good s → Good (unassign env lifecycle p s)
  Good-unassign p s (known, g) = (
    known,
    record {
      sealed_fits = g.sealed_fits;
      provisional_fits =
          Entries-delete (ProvisionalFits env lifecycle id hash) (event_id p.event)
            s.provisional_index g.provisional_fits;
      pending_fits = g.pending_fits;
      segments_fit = g.segments_fit;
    },
  )
