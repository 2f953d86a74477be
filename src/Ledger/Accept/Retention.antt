-- ===== src/Ledger/Accept/Retention.antt =====
-- #acceptBatch of services/ledger/src/local-ledger.js never loses or replaces what was retained.
use glare9_provenance.Prelude.{
  [], ◌∷◌, List, map, none, some, ok, err, ◌≡◌, refl, sym, ◌∙◌, subst, Option-cases, inl, inr,
  Bool-cases,
}
use glare9_provenance.Prelude.Octets.{equals, equals→eq}
use glare9_provenance.Prelude.Dict.{get, set, get-set}
use glare9_provenance.Prelude.Action.{
  >>=-return, Keeps, Keeps-bind, Keeps-return, Keeps-lift, Keeps-gets,
}
use glare9_provenance.Codec.Utf8.{Text}
use glare9_provenance.Ledger.Config.{Lifecycle}
use glare9_provenance.Ledger.State.{Pending, State, Environment}
use glare9_provenance.Ledger.Accept.{
  Item, prepare, accepted_receipt, pending_of, keep_answer, retain, accept_item, accept_items,
  accept_batch, check_conflicts, validate_all,
}

module _ (env : Environment) (lifecycle : Lifecycle) where
  open env use {Event, Disk, event_id, intake_append}

  -- Every retained record is still there, as it was, and the sealed events are the same.
  pub record Retains (before after : State Event Disk) : Type 0 where
    pub pending_kept :
        (id : Text) (p : Pending Event)
        → get id before.pending_index ≡ some p
        → get id after.pending_index ≡ some p
    pub sealed_same : after.event_index ≡ before.event_index

  Retains-refl : (s : State Event Disk) → Retains s s
  Retains-refl s = record { pending_kept = λ id p h. h; sealed_same = refl }

  Retains-trans : (s t u : State Event Disk) → Retains s t → Retains t u → Retains s u
  Retains-trans s t u h k = record {
    pending_kept = λ id p e. k.pending_kept id p (h.pending_kept id p e);
    sealed_same = k.sealed_same ∙ h.sealed_same;
  }

  get-set_other :
      (id other : Text) (p q : Pending Event) (s : State Event Disk)
      → get id s.pending_index ≡ none
      → get other s.pending_index ≡ some q
      → get other (set id p s.pending_index) ≡ some q
  get-set_other id other p q s h k = elim (Bool-cases (equals id other)) [
    | inl e ↦ (let same = equals→eq id other e in cc)
    | inr e ↦ get-set id other p s.pending_index ∙ (rw e k)
  ]

  retain-Retains :
      (item : Item Event) (s : State Event Disk)
      → get (event_id item.event) s.pending_index ≡ none
      → Retains s (retain env lifecycle item s).1
  unfolding retain
  retain-Retains item s h =
      let (answer, disk) = intake_append item.event s.disk in
      elim answer as (λ a. Retains s (keep_answer env lifecycle item a disk s).1) [
        | ok (sequence, accepted_at) ↦ record {
          pending_kept = λ id q k.
              get-set_other (event_id item.event) id
                (pending_of env lifecycle item sequence accepted_at) q s h k;
          sealed_same = refl;
        }
        | err code ↦ record { pending_kept = λ id q k. k; sealed_same = refl }
      ]

  pub accept_item-Retains :
      (item : Item Event) (s : State Event Disk) → Retains s (accept_item env lifecycle item s).1
  unfolding accept_item
  accept_item-Retains item s =
      let id = event_id item.event in
      elim (Option-cases (get id s.event_index)) [
        | inr (r, e) ↦ rw (e, accept_item) (Retains-refl s)
        | inl e ↦ elim (Option-cases (get id s.pending_index)) [
          | inr (p, e') ↦ rw (e, e', accept_item) (Retains-refl s)
          | inl e' ↦
              rw (e, e', accept_item)
                (subst (Retains s)
                  (sym (>>=-return (retain env lifecycle item) (accepted_receipt env lifecycle) s))
                  (retain-Retains item s e'))
        ]
      ]

  accept_item-Keeps :
      (before : State Event Disk) (item : Item Event)
      → Keeps (Retains before) (accept_item env lifecycle item)
  accept_item-Keeps before item = record {
    holds = λ s h. Retains-trans before s _ h (accept_item-Retains item s);
  }

  accept_items-Keeps :
      (before : State Event Disk) (items : List (Item Event))
      → Keeps (Retains before) (accept_items env lifecycle items)
  unfolding accept_items
  accept_items-Keeps before [] = Keeps-return []
  accept_items-Keeps before (item ∷ items) =
      Keeps-bind _ _ (accept_item-Keeps before item)
        (λ r. Keeps-bind _ _ (accept_items-Keeps before items) (λ rs. Keeps-return (r ∷ rs)))

  pub accept_items-Retains :
      (items : List (Item Event)) (s : State Event Disk)
      → Retains s (accept_items env lifecycle items s).1
  accept_items-Retains items s = (accept_items-Keeps s items).holds s (Retains-refl s)

  -- A batch leaves every record that was retained before it as it was, and the sealed events too:
  -- when it is accepted, when it is refused, and when the intake fails in the middle of it.
  pub accept_batch-Retains :
      (events : List Event) (s : State Event Disk)
      → Retains s (accept_batch env lifecycle events s).1
  unfolding accept_batch
  accept_batch-Retains events s =
      let items = map (prepare env lifecycle) events in
      (Keeps-bind {P = Retains s} _ _ (Keeps-lift (validate_all env lifecycle events)) (λ _.
          Keeps-bind _ _ (Keeps-gets (λ t. t)) (λ t.
            Keeps-bind _ _ (Keeps-lift (check_conflicts env lifecycle [] items t))
              (λ _. Keeps-bind _ _ (Keeps-lift _) (λ _. accept_items-Keeps s items))))).holds
        s (Retains-refl s)
