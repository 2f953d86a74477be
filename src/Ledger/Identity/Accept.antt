-- ===== src/Ledger/Identity/Accept.antt =====
-- #acceptBatch keeps what an event ID identifies, and makes the event IDs of a batch that it accepts
-- identify the events of the batch.
use glare9_provenance.Prelude.{
  ℕ, Bytes, Bool, true, false, ◌||◌, [], ◌∷◌, List, All, none, Option-cases, Bool-cases, Result, ok,
  err, ◌⊎◌, ◌≡◌, refl, sym, ◌∙◌, subst, arith, inl, inr,
}
use glare9_provenance.Prelude.Octets.{equals, equals_iff}
use glare9_provenance.Prelude.Dict.{get, has, has-set, has-eq_false}
use glare9_provenance.Prelude.Entries.{Entries-set}
use glare9_provenance.Prelude.Action.{
  >>=-return, Keeps, Keeps-return, Keeps-lift, Keeps-gets, Keeps-bind,
}
use glare9_provenance.Codec.Utf8.{Text}
use glare9_provenance.Ledger.Config.{Lifecycle}
use glare9_provenance.Ledger.State.{State, Environment}
use glare9_provenance.Ledger.Accept.{
  Item, is_known, accepted_receipt, pending_of, keep_answer, retain, accept_item, accept_items,
  accept_batch,
}
use glare9_provenance.Ledger.Identity.{PendingFits, Identifies}
use glare9_provenance.Ledger.Identity.Changes.{Good-disk, has-set_kept}

or-last : (a b : Bool) → b ≡ true → (a || b) ≡ true
or-last a b h = ground arith

module _ (env : Environment) (lifecycle : Lifecycle) (id : Text) where
  open env use {Event, Disk, event_id, intake_append}

  abbrev pub ItemFits : Bytes → Item Event → Type 0
  ItemFits hash item = event_id item.event ≡ id → item.record_hash ≡ hash

  -- The writes that follow the answer of the intake, for a record that fits.
  keep_answer-Identifies :
      (claimed : Bool) (hash : Bytes) (item : Item Event) (answer : Result (ℕ × Text)) (disk : Disk)
      (s : State Event Disk)
      → ItemFits hash item
      → Identifies env lifecycle id hash claimed s
      → Identifies env lifecycle id hash claimed (keep_answer env lifecycle item answer disk s).1
  keep_answer-Identifies claimed hash item (err code) disk s f h =
      Good-disk env lifecycle claimed id hash s disk h
  keep_answer-Identifies claimed hash item (ok (sequence, accepted_at)) disk s f (known, g) = (
    λ c. or-kept _ _ _ (has-set_kept (event_id item.event) id _ s.pending_index) (known c),
    record {
      sealed_fits = g.sealed_fits;
      provisional_fits = g.provisional_fits;
      pending_fits =
          Entries-set (PendingFits env lifecycle id hash) (event_id item.event)
            (pending_of env lifecycle item sequence accepted_at) s.pending_index g.pending_fits
            (refl, f);
      segments_fit = g.segments_fit;
    },
  )
    where
      or-kept : (a b c : Bool) → (b ≡ true → c ≡ true) → (a || b) ≡ true → (a || c) ≡ true
      or-kept true b c h k = refl
      or-kept false b c h k = h k

  -- Either one hash is identified, or the event ID occurs nowhere.
  abbrev pub IsUnambiguous : State Event Disk → Type 0
  IsUnambiguous s =
      ((hash : Bytes) × Identifies env lifecycle id hash true s)
      ⊎ ((hash : Bytes) → Identifies env lifecycle id hash false s)

  -- What a step of the loop does to a property of the state that new records keep.
  pub accept_item-cases :
      (P : State Event Disk → Type 0) (item : Item Event) (s : State Event Disk)
      → P s
      → (get (event_id item.event) s.event_index ≡ none
          → get (event_id item.event) s.pending_index ≡ none
          → (answer : Result (ℕ × Text)) (disk : Disk)
          → P (keep_answer env lifecycle item answer disk s).1)
      → P (accept_item env lifecycle item s).1
  unfolding accept_item retain
  accept_item-cases P item s h k = elim (Option-cases (get (event_id item.event) s.event_index)) [
    | inr (r, e) ↦ rw (e, accept_item) h
    | inl e ↦ elim (Option-cases (get (event_id item.event) s.pending_index)) [
      | inr (p, e') ↦ rw (e, e', accept_item) h
      | inl e' ↦
          rw (e, e', accept_item)
            (subst P
              (sym (>>=-return (retain env lifecycle item) (accepted_receipt env lifecycle) s))
              (k e e' (intake_append item.event s.disk).0 (intake_append item.event s.disk).1))
    ]
  ]

  accept_item-Identifies :
      (claimed : Bool) (hash : Bytes) (item : Item Event)
      → ItemFits hash item
      → Keeps (Identifies env lifecycle id hash claimed) (accept_item env lifecycle item)
  accept_item-Identifies claimed hash item f = record {
    holds = λ s h.
        accept_item-cases (Identifies env lifecycle id hash claimed) item s h
          (λ e e' answer disk. keep_answer-Identifies claimed hash item answer disk s f h);
  }

  -- An event ID that is known is none of a new record.
  known-ItemFits :
      (hash : Bytes) (item : Item Event) (s : State Event Disk)
      → is_known env lifecycle s id ≡ true
      → get (event_id item.event) s.event_index ≡ none
      → get (event_id item.event) s.pending_index ≡ none
      → ItemFits hash item
  known-ItemFits hash item s known e e' same =
      let a = has-eq_false (event_id item.event) s.event_index e in
      let b = has-eq_false (event_id item.event) s.pending_index e' in
      let a' : has id s.event_index ≡ false = subst (λ k. has k s.event_index ≡ false) same a in
      let b' : has id s.pending_index ≡ false = subst (λ k. has k s.pending_index ≡ false) same b in
      let absurd : (false || false) ≡ true = rw (a', b') at known in cc

  keep_answer-IsUnambiguous :
      (item : Item Event) (answer : Result (ℕ × Text)) (disk : Disk) (s : State Event Disk)
      → ((hash : Bytes) → Identifies env lifecycle id hash false s)
      → IsUnambiguous (keep_answer env lifecycle item answer disk s).1
  keep_answer-IsUnambiguous item (err code) disk s all =
      inr (λ hash. Good-disk env lifecycle false id hash s disk (all hash))
  keep_answer-IsUnambiguous item (ok (sequence, accepted_at)) disk s all =
      elim (Bool-cases (equals (event_id item.event) id)) [
        | inl e ↦ inl (
          item.record_hash,
          (
            λ _. or-last _ _ (
                has-set (event_id item.event) id
                  (pending_of env lifecycle item sequence accepted_at) s.pending_index
                ∙ rw e refl),
            (keep_answer-Identifies false item.record_hash item (ok (sequence, accepted_at)) disk s
                (λ _. refl) (all item.record_hash)).1,
          ),
        )
        | inr e ↦ inr (λ hash.
            keep_answer-Identifies false hash item (ok (sequence, accepted_at)) disk s
              (λ same.
                let e' : true ≡ false = sym ((equals_iff (event_id item.event) id).1 same) ∙ e in
                cc)
              (all hash))
      ]

  accept_item-IsUnambiguous :
      (item : Item Event) → Keeps IsUnambiguous (accept_item env lifecycle item)
  accept_item-IsUnambiguous item = record {
    holds = λ s u. elim u [
      | inl (hash, h) ↦ inl (
        hash,
        accept_item-cases (Identifies env lifecycle id hash true) item s h (λ e e' answer disk.
            keep_answer-Identifies true hash item answer disk s
              (known-ItemFits hash item s (h.0 refl) e e') h),
      )
      | inr all ↦
          accept_item-cases IsUnambiguous item s (inr all)
            (λ e e' answer disk. keep_answer-IsUnambiguous item answer disk s all)
    ];
  }

  accept_items-Keeps :
      (P : State Event Disk → Type 0) (items : List (Item Event))
      → ((item : Item Event) → Keeps P (accept_item env lifecycle item))
      → Keeps P (accept_items env lifecycle items)
  unfolding accept_items
  accept_items-Keeps P [] k = Keeps-return []
  accept_items-Keeps P (item ∷ items) k =
      Keeps-bind _ _ (k item)
        (λ r. Keeps-bind _ _ (accept_items-Keeps P items k) (λ rs. Keeps-return (r ∷ rs)))

  pub accept_items-Identifies :
      (claimed : Bool) (hash : Bytes) (items : List (Item Event))
      → All (ItemFits hash) items
      → Keeps (Identifies env lifecycle id hash claimed) (accept_items env lifecycle items)
  unfolding accept_items
  accept_items-Identifies claimed hash [] fs = Keeps-return []
  accept_items-Identifies claimed hash (item ∷ items) (f, fs) =
      Keeps-bind _ _ (accept_item-Identifies claimed hash item f) (λ r.
        Keeps-bind _ _ (accept_items-Identifies claimed hash items fs)
          (λ rs. Keeps-return (r ∷ rs)))

  pub accept_batch-Keeps :
      (P : State Event Disk → Type 0) (events : List Event)
      → ((item : Item Event) → Keeps P (accept_item env lifecycle item))
      → Keeps P (accept_batch env lifecycle events)
  unfolding accept_batch
  accept_batch-Keeps P events k = Keeps-bind _ _ (Keeps-lift _) (λ _.
      Keeps-bind _ _ (Keeps-gets _) (λ s.
        Keeps-bind _ _ (Keeps-lift _)
          (λ _. Keeps-bind _ _ (Keeps-lift _) (λ _. accept_items-Keeps P _ k))))

  -- A batch keeps what a known event ID identifies.
  pub accept_batch-Identifies :
      (hash : Bytes) (events : List Event)
      → Keeps (Identifies env lifecycle id hash true) (accept_batch env lifecycle events)
  accept_batch-Identifies hash events = accept_batch-Keeps _ events (λ item. record {
    holds = λ s h.
        accept_item-cases (Identifies env lifecycle id hash true) item s h (λ e e' answer disk.
          keep_answer-Identifies true hash item answer disk s
            (known-ItemFits hash item s (h.0 refl) e e') h);
  })

  pub accept_batch-IsUnambiguous :
      (events : List Event) → Keeps IsUnambiguous (accept_batch env lifecycle events)
  accept_batch-IsUnambiguous events = accept_batch-Keeps _ events accept_item-IsUnambiguous
