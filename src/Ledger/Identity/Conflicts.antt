-- ===== src/Ledger/Identity/Conflicts.antt =====
-- A batch that #acceptBatch accepts: each event ID of it identifies the event of the batch.
use glare9_provenance.Prelude.{
  ℕ, zero, suc, Bytes, Bool, true, false, not, [], ◌∷◌, List, map, All, get_elem?, some, Bool-cases,
  ok, invariant-eq-ok, ◌≡◌, refl, sym, ap, ◌∙◌, subst, arith, inl, inr,
}
use glare9_provenance.Prelude.Octets.{equals, equals→eq, equals_iff}
use glare9_provenance.Prelude.Dict.{Dict, get, has, set, get-set, has-get}
use glare9_provenance.Prelude.Entries.{Entries-get}
use glare9_provenance.Prelude.Action.{lift-eq-ok, gets, ◌>>=◌}
use glare9_provenance.Codec.Utf8.{Text}
use glare9_provenance.Ledger.Config.{Lifecycle}
use glare9_provenance.Ledger.State.{Receipt, State, Environment}
use glare9_provenance.Ledger.Accept.{
  Item, prepare, event_hash, conflicts, sealed_hash, pending_hash, check_conflicts, check_capacity,
  new_items, is_known, accept_items, accept_batch, validate_all,
}
use glare9_provenance.Ledger.Accept.Acknowledged.{accept_batch-known}
use glare9_provenance.Ledger.Identity.{PendingFits, SealedFits, Agrees, Identifies}
use glare9_provenance.Ledger.Identity.Accept.{ItemFits, IsUnambiguous, accept_items-Identifies}

All-at :
    {A : Type 0} (P : A → Type 0) (xs : List A) (n : ℕ) (x : A)
    → All P xs
    → get_elem? xs n ≡ some x
    → P x
All-at P [] n x h e = cc
All-at P (y ∷ ys) zero x (p, h) e = let same : y ≡ x = cc in subst P same p
All-at P (y ∷ ys) (suc n) x (p, h) e = All-at P ys n x h e

get_elem?-map :
    {A B : Type 0} (f : A → B) (xs : List A) (n : ℕ) (x : A)
    → get_elem? xs n ≡ some x
    → get_elem? (map f xs) n ≡ some (f x)
get_elem?-map f [] n x e = cc
get_elem?-map f (y ∷ ys) zero x e = let same : y ≡ x = cc in ap (λ z. some (f z)) same
get_elem?-map f (y ∷ ys) (suc n) x e = get_elem?-map f ys n x e

module _ (env : Environment) (lifecycle : Lifecycle) (id : Text) where
  open env use {Event, Disk, event_id}

  -- An entry that does not conflict has the hash.
  conflicts-eq_false :
      (other hash : Bytes) → not (conflicts env lifecycle (some other) hash) ≡ true → other ≡ hash
  unfolding conflicts
  conflicts-eq_false other hash h = equals→eq other hash (not-not _ h)
    where
      not-not : (b : Bool) → not (not b) ≡ true → b ≡ true
      not-not b h = ground arith

  -- What the loop has checked of an item.
  abbrev Passed : State Event Disk → Item Event → Type 0
  Passed s item =
      (not (
          conflicts env lifecycle (sealed_hash env lifecycle (event_id item.event) s)
            item.record_hash)
        ≡ true)
      × (not (
            conflicts env lifecycle (pending_hash env lifecycle (event_id item.event) s)
              item.record_hash)
          ≡ true)

  check_conflicts-head :
      (req : Dict Bytes) (item : Item Event) (items : List (Item Event)) (s : State Event Disk)
      (u : Unit {0})
      → check_conflicts env lifecycle req (item ∷ items) s ≡ ok u
      → (not (conflicts env lifecycle (get (event_id item.event) req) item.record_hash) ≡ true)
        × Passed s item
        × (check_conflicts env lifecycle (set (event_id item.event) item.record_hash req) items s
            ≡ ok u)
  unfolding check_conflicts
  check_conflicts-head req item items s u h =
      let (a, h1) = invariant-eq-ok _ "EVENT_ID_CONFLICT" _ h in
      let (b, h2) = invariant-eq-ok _ "EVENT_ID_CONFLICT" _ h1 in
      let (c, h3) = invariant-eq-ok _ "EVENT_ID_CONFLICT" _ h2 in (a, (b, c), h3)

  check_conflicts-Passed :
      (req : Dict Bytes) (items : List (Item Event)) (s : State Event Disk) (u : Unit {0})
      → check_conflicts env lifecycle req items s ≡ ok u
      → All (Passed s) items
  check_conflicts-Passed req [] s u h = tt
  check_conflicts-Passed req (item ∷ items) s u h =
      let (_, passed, rest) = check_conflicts-head req item items s u h in
      (
        passed,
        check_conflicts-Passed (set (event_id item.event) item.record_hash req) items s u rest,
      )

  -- The items under the event ID have one hash.
  check_conflicts-ItemFits :
      (req : Dict Bytes) (items : List (Item Event)) (s : State Event Disk) (u : Unit {0})
      (hash : Bytes)
      → check_conflicts env lifecycle req items s ≡ ok u
      → get id req ≡ some hash
      → All (ItemFits env lifecycle id hash) items
  check_conflicts-ItemFits req [] s u hash h e = tt
  check_conflicts-ItemFits req (item ∷ items) s u hash h e =
      let (fresh, _, rest) = check_conflicts-head req item items s u h in
      let fits : ItemFits env lifecycle id hash item = λ same. sym (
        conflicts-eq_false hash item.record_hash (
          subst (λ o. not (conflicts env lifecycle o item.record_hash) ≡ true)
            (ap (λ k. get k req) same ∙ e) fresh)) in
      (
        fits,
        check_conflicts-ItemFits (set (event_id item.event) item.record_hash req) items s u hash
            rest (still fits),
      )
    where
      still :
          ItemFits env lifecycle id hash item
          → get id (set (event_id item.event) item.record_hash req) ≡ some hash
      still fits = elim (Bool-cases (equals (event_id item.event) id)) [
        | inl same ↦
            get-set (event_id item.event) id item.record_hash req
            ∙ rw same (ap some (fits (equals→eq _ id same)))
        | inr other ↦ get-set (event_id item.event) id item.record_hash req ∙ rw other e
      ]

  check_conflicts-common :
      (req : Dict Bytes) (items : List (Item Event)) (s : State Event Disk) (u : Unit {0})
      → check_conflicts env lifecycle req items s ≡ ok u
      → (hash : Bytes) × All (ItemFits env lifecycle id hash) items
  check_conflicts-common req [] s u h = ([], tt)
  check_conflicts-common req (item ∷ items) s u h =
      let (_, _, rest) = check_conflicts-head req item items s u h in
      elim (Bool-cases (equals (event_id item.event) id)) [
        | inl same ↦ (
          item.record_hash,
          (
            (λ _. refl),
            check_conflicts-ItemFits (set (event_id item.event) item.record_hash req) items s u
                item.record_hash rest
                (get-set (event_id item.event) id item.record_hash req ∙ rw same refl),
          ),
        )
        | inr other ↦
            (let (hash, fits) =
                check_conflicts-common (set (event_id item.event) item.record_hash req) items s u
                  rest in
              (
                hash,
                (
                  (λ same.
                      let e' : true ≡ false =
                        sym ((equals_iff (event_id item.event) id).1 same) ∙ other in
                      cc),
                  fits,
                ),
              ))
      ]

  -- The hash that a known event ID identifies is the one of an item that has passed.
  Passed-hash :
      (s : State Event Disk) (item : Item Event) (hash : Bytes)
      → event_id item.event ≡ id
      → Identifies env lifecycle id hash true s
      → Passed s item
      → hash ≡ item.record_hash
  unfolding sealed_hash pending_hash
  Passed-hash s item hash same (known, g) (a, b) = elim (Bool-cases (has id s.event_index)) [
    | inl e ↦
        (let (r, found) = has-get id s.event_index e in
          sym (
            Entries-get (SealedFits env lifecycle id hash) id r s.event_index g.sealed_fits found
              refl)
          ∙ conflicts-eq_false r.record_hash item.record_hash (rw (same, found, sealed_hash) at a))
    | inr e ↦
        (let (p, found) = has-get id s.pending_index (rw e at (known refl)) in
          let (under, fits) =
            Entries-get (PendingFits env lifecycle id hash) id p s.pending_index g.pending_fits
              found in
          sym (fits under)
          ∙ conflicts-eq_false p.record_hash item.record_hash (rw (same, found, pending_hash) at b))
  ]

  -- Before the loop over the items of an accepted batch, nothing speaks against an item's hash.
  Identifies-before :
      (s : State Event Disk) (item : Item Event)
      → event_id item.event ≡ id
      → IsUnambiguous env lifecycle id s
      → Passed s item
      → Identifies env lifecycle id item.record_hash false s
  Identifies-before s item same (inr all) passed = all item.record_hash
  Identifies-before s item same (inl (hash, h)) passed =
      subst (λ k. Identifies env lifecycle id k false s) (Passed-hash s item hash same h passed)
        ((λ c. cc), h.1)

module _ (env : Environment) (lifecycle : Lifecycle) where
  open env use {Event, Disk, event_id}

  accept_batch-eq_ok :
      (events : List Event) (s s' : State Event Disk) (rs : List Receipt)
      → accept_batch env lifecycle events s ≡ (ok rs, s')
      → (u : Unit {0}) × (check_conflicts env lifecycle [] (map (prepare env lifecycle) events) s
          ≡ ok u)
        × (accept_items env lifecycle (map (prepare env lifecycle) events) s ≡ (ok rs, s'))
  unfolding accept_batch gets ◌>>=◌
  accept_batch-eq_ok events s s' rs h =
      let (_, _, h1) = lift-eq-ok (validate_all env lifecycle events) _ s s' rs h in
      let (u, checked, h2) =
        lift-eq-ok (check_conflicts env lifecycle [] (map (prepare env lifecycle) events) s) _ s s'
          rs h1 in
      let new =
        new_items env lifecycle (is_known env lifecycle s) (map (prepare env lifecycle) events) in
      let (_, _, h3) =
        lift-eq-ok (check_capacity env lifecycle new s)
          (λ _. accept_items env lifecycle (map (prepare env lifecycle) events)) s s' rs h2 in
      (u, checked, h3)

  -- When a batch is accepted in a state where no event ID is ambiguous, the event ID of each of its
  -- events is known afterwards and identifies the hash of that event.
  pub accept_batch-identified :
      (events : List Event) (s s' : State Event Disk) (rs : List Receipt) (n : ℕ) (event : Event)
      → IsUnambiguous env lifecycle (event_id event) s
      → accept_batch env lifecycle events s ≡ (ok rs, s')
      → get_elem? events n ≡ some event
      → Identifies env lifecycle (event_id event) (event_hash env lifecycle event) true s'
  unfolding prepare
  accept_batch-identified events s s' rs n event u h e =
      let id = event_id event in
      let item = prepare env lifecycle event in
      let items = map (prepare env lifecycle) events in
      let (c, checked, ran) = accept_batch-eq_ok events s s' rs h in
      let at_n = get_elem?-map (prepare env lifecycle) events n event e in
      let passed =
        All-at _ items n item (check_conflicts-Passed env lifecycle id [] items s c checked) at_n in
      let (common, fits) = check_conflicts-common env lifecycle id [] items s c checked in
      let same = All-at _ items n item fits at_n refl in
      let fits' = subst (λ k. All (ItemFits env lifecycle id k) items) (sym same) fits in
      let agrees =
        (accept_items-Identifies env lifecycle id false item.record_hash items fits').holds s
          (Identifies-before env lifecycle id s item refl u passed) in
      (
        (λ _. All-at _ events n event (accept_batch-known env lifecycle events s s' rs h).0 e),
        subst (Agrees env lifecycle id item.record_hash) (ap (λ x. x.1) ran) agrees.1,
      )
