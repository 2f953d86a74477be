-- ===== src/Ledger/Accept/Acknowledged.antt =====
-- What an accepted batch of services/ledger/src/local-ledger.js has retained.
use glare9_provenance.Prelude.{
  ℕ, suc, Bool, true, false, ◌||◌, [], ◌∷◌, List, map, length, Result, ok, err, All, ◌≡◌, refl, sym,
  ap, ◌∙◌, subst, Option-cases, inl, inr, Bool-cases, ok-injective, arith,
}
use glare9_provenance.Prelude.Octets.{equals_refl}
use glare9_provenance.Prelude.Dict.{get, has, set, has-set, has-get, has-eq_true}
use glare9_provenance.Prelude.Action.{return, lift, gets, >>=-eq-ok}
use glare9_provenance.Codec.Utf8.{Text}
use glare9_provenance.Ledger.Config.{Lifecycle}
use glare9_provenance.Ledger.State.{Pending, Receipt, sealed, State, Environment}
use glare9_provenance.Ledger.Accept.{
  Item, prepare, new_items, is_known, check_capacity, accepted_receipt, pending_of, keep_answer,
  retain, accept_item, accept_items, accept_batch, check_conflicts, validate_all,
}
use glare9_provenance.Ledger.Accept.Retention.{Retains, accept_items-Retains}

module _ (env : Environment) (lifecycle : Lifecycle) where
  open env use {Event, Disk, event_id, intake_append}

  or-true : (a b : Bool) → b ≡ true → (a || b) ≡ true
  or-true a b h = ground arith

  or-first : (a b : Bool) → (a || b) ≡ true → b ≡ false → a ≡ true
  or-first a b h e = ground arith

  or-one : (a b : Bool) → a ≡ true → (a || b) ≡ true
  or-one a b h = ground arith

  pub is_known-Retains :
      (s t : State Event Disk) (id : Text)
      → Retains env lifecycle s t
      → is_known env lifecycle s id ≡ true
      → is_known env lifecycle t id ≡ true
  is_known-Retains s t id kept h = elim (Bool-cases (has id s.pending_index)) [
    | inl e ↦
        (let (p, found) = has-get id s.pending_index e in
          or-true (has id t.event_index) (has id t.pending_index)
            (has-eq_true id t.pending_index p (kept.pending_kept id p found)))
    | inr e ↦ or-one (has id t.event_index) (has id t.pending_index) (
        ap (has id) kept.sealed_same ∙ or-first (has id s.event_index) (has id s.pending_index) h e)
  ]

  keep_answer-known :
      (item : Item Event) (answer : Result (ℕ × Text)) (disk : Disk) (s s' : State Event Disk)
      (p : Pending Event)
      → keep_answer env lifecycle item answer disk s ≡ (ok p, s')
      → is_known env lifecycle s' (event_id item.event) ≡ true
  keep_answer-known item (err code) disk s s' p h = cc
  keep_answer-known item (ok (sequence, accepted_at)) disk s s' p h =
      let id = event_id item.event in
      let q = pending_of env lifecycle item sequence accepted_at in
      subst (λ t. is_known env lifecycle t id ≡ true) (ap (λ x. x.1) h)
        (or-true (has id s.event_index) (has id (set id q s.pending_index))
          (has-set id id q s.pending_index ∙ rw (equals_refl id) refl))

  retain-known :
      (item : Item Event) (s s' : State Event Disk) (p : Pending Event)
      → retain env lifecycle item s ≡ (ok p, s')
      → is_known env lifecycle s' (event_id item.event) ≡ true
  unfolding retain
  retain-known item s s' p h =
      let (answer, disk) = intake_append item.event s.disk in
      keep_answer-known item answer disk s s' p h

  accept_item-known :
      (item : Item Event) (s s' : State Event Disk) (r : Receipt)
      → accept_item env lifecycle item s ≡ (ok r, s')
      → is_known env lifecycle s' (event_id item.event) ≡ true
  unfolding accept_item return
  accept_item-known item s s' r h =
      let id = event_id item.event in
      elim (Option-cases (get id s.event_index)) [
        | inr (sealed_receipt, e) ↦
            (let h' : ◌≡◌ {A = Result Receipt × State Event Disk} (ok (sealed sealed_receipt), s)
                  (ok r, s') =
                rw (e, accept_item) at h in
              subst (λ t. is_known env lifecycle t id ≡ true) (ap (λ x. x.1) h')
                (or-one (has id s.event_index) (has id s.pending_index)
                  (has-eq_true id s.event_index sealed_receipt e)))
        | inl e ↦ elim (Option-cases (get id s.pending_index)) [
          | inr (p, e') ↦
              (let h' : ◌≡◌ {A = Result Receipt × State Event Disk}
                    (ok (accepted_receipt env lifecycle p), s) (ok r, s') =
                  rw (e, e', accept_item) at h in
                subst (λ t. is_known env lifecycle t id ≡ true) (ap (λ x. x.1) h')
                  (or-true (has id s.event_index) (has id s.pending_index)
                    (has-eq_true id s.pending_index p e')))
          | inl e' ↦
              (let (p, t, ran, returned) =
                  >>=-eq-ok (retain env lifecycle item)
                    (λ q. return (accepted_receipt env lifecycle q)) s s' r
                    (rw (e, e', accept_item) at h) in
                subst (λ u. is_known env lifecycle u id ≡ true) (ap (λ x. x.1) returned)
                  (retain-known item s t p ran))
        ]
      ]

  accept_items-known :
      (items : List (Item Event)) (s s' : State Event Disk) (rs : List Receipt)
      → accept_items env lifecycle items s ≡ (ok rs, s')
      → All (λ item. is_known env lifecycle s' (event_id item.event) ≡ true) items
        × (length rs ≡ length items)
  unfolding accept_items return
  accept_items-known [] s s' rs h = (tt, sym (ap length (ok-injective [] rs (ap (λ x. x.0) h))))
  accept_items-known (item ∷ items) s s' rs h =
      let (r, t, first, h1) = >>=-eq-ok (accept_item env lifecycle item) _ s s' rs h in
      let (others, u, rest, h2) = >>=-eq-ok (accept_items env lifecycle items) _ t s' rs h1 in
      let last : u ≡ s' = ap (λ x. x.1) h2 in
      let (known, as_many) =
        accept_items-known items t s' others (rest ∙ ap (λ v. (ok others, v)) last) in
      let kept : Retains env lifecycle t s' =
        subst (Retains env lifecycle t) (ap (λ x. x.1) rest ∙ last)
          (accept_items-Retains env lifecycle items t) in
      (
        (
          is_known-Retains t s' (event_id item.event) kept (accept_item-known item s t r first),
          known,
        ),
        sym (ap length (ok-injective (r ∷ others) rs (ap (λ x. x.0) h2))) ∙ ap suc as_many,
      )

  of_events :
      (s : State Event Disk) (events : List Event)
      → All
          (λ item. is_known env lifecycle s (event_id item.event) ≡ true)
          (map (prepare env lifecycle) events)
      → All (λ event. is_known env lifecycle s (event_id event) ≡ true) events
  unfolding prepare
  of_events s [] h = tt
  of_events s (event ∷ events) (h, hs) = (h, of_events s events hs)

  length-prepared :
      (events : List Event) → length (map (prepare env lifecycle) events) ≡ length events
  length-prepared [] = refl
  length-prepared (event ∷ events) = ap suc (length-prepared events)

  -- When a batch is accepted there is a receipt for each of its events, in number, and the event ID
  -- of each is one of a retained or of a sealed event.
  pub accept_batch-known :
      (events : List Event) (s s' : State Event Disk) (rs : List Receipt)
      → accept_batch env lifecycle events s ≡ (ok rs, s')
      → All (λ event. is_known env lifecycle s' (event_id event) ≡ true) events
        × (length rs ≡ length events)
  unfolding accept_batch
  accept_batch-known events s s' rs h =
      let items = map (prepare env lifecycle) events in
      let (_, s1, _, h1) = >>=-eq-ok (lift (validate_all env lifecycle events)) _ s s' rs h in
      let (t, s2, _, h2) = >>=-eq-ok (gets (λ t. t)) _ s1 s' rs h1 in
      let (_, s3, _, h3) =
        >>=-eq-ok (lift (check_conflicts env lifecycle [] items t)) _ s2 s' rs h2 in
      let (_, s4, _, h4) =
        >>=-eq-ok
          (lift (
            check_capacity env lifecycle (new_items env lifecycle (is_known env lifecycle t) items)
              t))
          (λ _. accept_items env lifecycle items) s3 s' rs h3 in
      let (known, as_many) = accept_items-known items s4 s' rs h4 in
      (of_events s' events known, as_many ∙ length-prepared events)
