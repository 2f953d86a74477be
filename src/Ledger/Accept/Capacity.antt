-- ===== src/Ledger/Accept/Capacity.antt =====
-- The bounds that #acceptBatch of services/ledger/src/local-ledger.js keeps on what is retained.
use glare9_provenance.Prelude.{
  ℕ, suc, ◌+◌, ◌≤◌, Bool, true, false, ◌||◌, [], ◌∷◌, List, map, ltb, length, none, Result, ok, err,
  ◌≡◌, refl, sym, ap, ◌∙◌, subst, arith, invariant-eq-ok, invariant, not, if◌then◌else◌,
  Option-cases, inl, inr, Bool-cases,
}
use glare9_provenance.Prelude.Octets.{equals}
use glare9_provenance.Prelude.Dict.{
  get, has, set, total, weight, total-set, length-set_new, has-set, has-eq_false, has-eq_true,
}
use glare9_provenance.Prelude.Action.{>>=-return, Action, return, lift, gets, ◌>>=◌, resume}
use glare9_provenance.Codec.Utf8.{Text}
use glare9_provenance.Ledger.Config.{Lifecycle}
use glare9_provenance.Ledger.State.{Pending, State, Environment}
use glare9_provenance.Ledger.Accept.{
  Item, sum_bytes, prepare, new_items, is_known, check_capacity, accepted_receipt, pending_of,
  keep_answer, retain, accept_item, accept_items, accept_batch, check_conflicts, validate_all,
}

within_limits :
    (a b c d : ℕ) (u : Unit {0})
    → invariant (not (ltb a b || ltb c d)) "LEDGER_BACKPRESSURE" ≡ ok u
    → (b ≤ a) × (d ≤ c)
within_limits a b c d u h = elim (Bool-cases (ltb a b)) [
  | inl e ↦ cc
  | inr e ↦ elim (Bool-cases (ltb c d)) [ inl e' ↦ cc | inr e' ↦ (ground arith, ground arith) ]
]

module _ (env : Environment) (lifecycle : Lifecycle) where
  open env use {Event, Disk, event_id, intake_append}

  -- What is retained is within the limits, and the running sum of its bytes is exact.
  pub record IsBounded (s : State Event Disk) : Type 0 where
    pub few : length s.pending_index ≤ lifecycle.max_accepted_events
    pub small : s.pending_bytes ≤ lifecycle.max_accepted_bytes
    pub exact : s.pending_bytes ≡ total (λ p. p.event_bytes) s.pending_index

  -- It stays so when the items that are still to come are retained too.
  record HasRoom (items : List (Item Event)) (s : State Event Disk) : Type 0 where
    few :
        length s.pending_index + length (new_items env lifecycle (is_known env lifecycle s) items)
        ≤ lifecycle.max_accepted_events
    small :
        s.pending_bytes + sum_bytes (new_items env lifecycle (is_known env lifecycle s) items)
        ≤ lifecycle.max_accepted_bytes
    exact : s.pending_bytes ≡ total (λ p. p.event_bytes) s.pending_index

  HasRoom-IsBounded :
      (items : List (Item Event)) (s : State Event Disk) → HasRoom items s → IsBounded s
  HasRoom-IsBounded items s room = record {
    few = omega (arith, room.few);
    small = omega (arith, room.small);
    exact = room.exact;
  }

  new_items-known :
      (known : Text → Bool) (item : Item Event) (items : List (Item Event))
      → known (event_id item.event) ≡ true
      → new_items env lifecycle known (item ∷ items) ≡ new_items env lifecycle known items
  unfolding new_items
  new_items-known known item items h = rw (h, new_items)

  new_items-unknown :
      (known : Text → Bool) (item : Item Event) (items : List (Item Event))
      → known (event_id item.event) ≡ false
      → new_items env lifecycle known (item ∷ items)
        ≡ item ∷ new_items env lifecycle (λ id. equals (event_id item.event) id || known id) items
  unfolding new_items
  new_items-unknown known item items h = rw (h, new_items)

  HasRoom-known :
      (item : Item Event) (items : List (Item Event)) (s : State Event Disk)
      → is_known env lifecycle s (event_id item.event) ≡ true
      → HasRoom (item ∷ items) s
      → HasRoom items s
  HasRoom-known item items s h room =
      let e = new_items-known (is_known env lifecycle s) item items h in
      record {
        few =
            subst (λ new. length s.pending_index + length new ≤ lifecycle.max_accepted_events) e
              room.few;
        small =
            subst (λ new. s.pending_bytes + sum_bytes new ≤ lifecycle.max_accepted_bytes) e
              room.small;
        exact = room.exact;
      }

  abbrev retained : Item Event → Pending Event → Disk → State Event Disk → State Event Disk
  retained item p disk s = record s {
    disk = disk;
    pending_index = set (event_id item.event) p s.pending_index;
    pending_bytes = s.pending_bytes + item.event_bytes;
  }

  or-if : (a b c : Bool) → (a || (if b then true else c)) ≡ (b || (a || c))
  or-if a b c = ground arith

  is_known-retained :
      (item : Item Event) (p : Pending Event) (disk : Disk) (s : State Event Disk)
      → is_known env lifecycle (retained item p disk s)
        ≡ (λ id. equals (event_id item.event) id || is_known env lifecycle s id)
  is_known-retained item p disk s i id =
      (ap (λ b. has id s.event_index || b) (has-set (event_id item.event) id p s.pending_index)
          ∙ or-if (has id s.event_index) (equals (event_id item.event) id) (has id s.pending_index))
        i

  HasRoom-retained :
      (item : Item Event) (items : List (Item Event)) (p : Pending Event) (disk : Disk)
      (s : State Event Disk)
      → get (event_id item.event) s.event_index ≡ none
      → get (event_id item.event) s.pending_index ≡ none
      → p.event_bytes ≡ item.event_bytes
      → HasRoom (item ∷ items) s
      → HasRoom items (retained item p disk s)
  unfolding sum_bytes
  HasRoom-retained item items p disk s h1 h2 same room =
      let id = event_id item.event in
      let known : is_known env lifecycle s id ≡ false =
        rw (has-eq_false id s.event_index h1, has-eq_false id s.pending_index h2) in
      let new = new_items env lifecycle (λ j. equals id j || is_known env lifecycle s j) items in
      let e : new_items env lifecycle (is_known env lifecycle s) (item ∷ items) ≡ item ∷ new =
        new_items-unknown (is_known env lifecycle s) item items known in
      let e' : new
          ≡ new_items env lifecycle (is_known env lifecycle (retained item p disk s)) items =
        sym (ap (λ k. new_items env lifecycle k items) (is_known-retained item p disk s)) in
      let few : length s.pending_index + suc (length new) ≤ lifecycle.max_accepted_events =
        subst (λ l. length s.pending_index + length l ≤ lifecycle.max_accepted_events) e room.few in
      let small : s.pending_bytes + (item.event_bytes + sum_bytes new)
          ≤ lifecycle.max_accepted_bytes =
        subst (λ l. s.pending_bytes + sum_bytes l ≤ lifecycle.max_accepted_bytes) e room.small in
      let longer = length-set_new id p s.pending_index h2 in
      let bytes : total (λ q. q.event_bytes) (set id p s.pending_index) + 0
          ≡ total (λ q. q.event_bytes) s.pending_index + p.event_bytes =
        subst
          (λ o.
            total (λ q. q.event_bytes) (set id p s.pending_index) + weight (λ q. q.event_bytes) o
            ≡ total (λ q. q.event_bytes) s.pending_index + p.event_bytes)
          h2 (total-set (λ q. q.event_bytes) id p s.pending_index) in
      record {
        few =
            subst
              (λ l. length (set id p s.pending_index) + length l ≤ lifecycle.max_accepted_events) e'
              (omega (arith, few, longer));
        small =
            subst
              (λ l. s.pending_bytes + item.event_bytes + sum_bytes l ≤ lifecycle.max_accepted_bytes)
              e' (omega (arith, small));
        exact = omega (arith, room.exact, bytes, same);
      }

  -- What holds after a round: the bounds, and room for the rest unless the round threw.
  After : {A : Type 0} → List (Item Event) → Result A × State Event Disk → Type 0
  After items (ok a, s) = HasRoom items s
  After items (err code, s) = IsBounded s

  retain-After :
      (item : Item Event) (items : List (Item Event)) (s : State Event Disk)
      → get (event_id item.event) s.event_index ≡ none
      → get (event_id item.event) s.pending_index ≡ none
      → HasRoom (item ∷ items) s
      → After items (retain env lifecycle item s)
  unfolding retain After
  retain-After item items s h1 h2 room =
      let (answer, disk) = intake_append item.event s.disk in
      let old = HasRoom-IsBounded (item ∷ items) s room in
      elim answer as (λ a. After items (keep_answer env lifecycle item a disk s)) [
        | ok (sequence, accepted_at) ↦
            HasRoom-retained item items (pending_of env lifecycle item sequence accepted_at) disk s
              h1 h2 refl room
        | err code ↦ record { few = old.few; small = old.small; exact = old.exact }
      ]

  retain_then-After :
      (item : Item Event) (items : List (Item Event)) (s : State Event Disk)
      → After items (retain env lifecycle item s)
      → After items
          ((retain env lifecycle item >>= λ p. return (accepted_receipt env lifecycle p)) s)
  unfolding ◌>>=◌ return After
  retain_then-After item items s after =
      let (answer, s') = retain env lifecycle item s in
      elim answer
          as (λ a.
            After items (a, s')
            → After items (resume a (λ p. return (accepted_receipt env lifecycle p)) s')) [
              | ok p ↦ λ room. room
              | err code ↦ λ old. old
            ]
        after

  accept_item-After :
      (item : Item Event) (items : List (Item Event)) (s : State Event Disk)
      → HasRoom (item ∷ items) s
      → After items (accept_item env lifecycle item s)
  unfolding After accept_item
  accept_item-After item items s room =
      let id = event_id item.event in
      elim (Option-cases (get id s.event_index)) [
        | inr (r, e) ↦
            rw (e, accept_item)
              (HasRoom-known item items s (rw (has-eq_true id s.event_index r e) refl) room)
        | inl e ↦ elim (Option-cases (get id s.pending_index)) [
          | inr (p, e') ↦
              rw (e, e', accept_item)
                (HasRoom-known item items s
                  (rw (has-eq_false id s.event_index e, has-eq_true id s.pending_index p e') refl)
                  room)
          | inl e' ↦
              rw (e, e', accept_item)
                (retain_then-After item items s (retain-After item items s e e' room))
        ]
      ]

  After-then :
      {A B : Type 0} (items : List (Item Event)) (m : Action (State Event Disk) A)
      (f : A → Action (State Event Disk) B) (s : State Event Disk)
      → After items (m s)
      → ((a : A) (s' : State Event Disk) → HasRoom items s' → IsBounded (f a s').1)
      → IsBounded ((m >>= f) s).1
  unfolding ◌>>=◌ After
  After-then items m f s after rest =
      let (answer, s') = m s in
      elim answer as (λ a. After items (a, s') → IsBounded (resume a f s').1) [
        | ok a ↦ λ room. rest a s' room
        | err code ↦ λ bounded. bounded
      ]
        after

  lift_then-IsBounded :
      {A B : Type 0} (r : Result A) (f : A → Action (State Event Disk) B) (s : State Event Disk)
      → IsBounded s
      → ((a : A) → r ≡ ok a → IsBounded (f a s).1)
      → IsBounded ((lift r >>= f) s).1
  unfolding ◌>>=◌ lift
  lift_then-IsBounded (ok a) f s bounded rest = rest a refl
  lift_then-IsBounded (err code) f s bounded rest = bounded

  accept_items-IsBounded :
      (items : List (Item Event)) (s : State Event Disk)
      → HasRoom items s
      → IsBounded (accept_items env lifecycle items s).1
  unfolding accept_items return
  accept_items-IsBounded [] s room = HasRoom-IsBounded [] s room
  accept_items-IsBounded (item ∷ items) s room =
      After-then items (accept_item env lifecycle item) _ s (accept_item-After item items s room)
        (λ r s' room'.
          subst IsBounded (sym (>>=-return (accept_items env lifecycle items) (λ rs. r ∷ rs) s'))
            (accept_items-IsBounded items s' room'))

  check_capacity-room :
      (new : List (Item Event)) (s : State Event Disk) (u : Unit {0})
      → check_capacity env lifecycle new s ≡ ok u
      → (length s.pending_index + length new ≤ lifecycle.max_accepted_events)
        × (s.pending_bytes + sum_bytes new ≤ lifecycle.max_accepted_bytes)
  unfolding check_capacity
  check_capacity-room new s u h =
      let (_, rest) = invariant-eq-ok _ "LEDGER_BACKPRESSURE" _ h in within_limits _ _ _ _ u rest

  -- A batch keeps the bounds where they hold before it, whatever its events and its environment:
  -- when it is accepted, when it is refused, and when the intake fails in the middle of it.
  pub accept_batch-IsBounded :
      (events : List Event) (s : State Event Disk)
      → IsBounded s
      → IsBounded (accept_batch env lifecycle events s).1
  unfolding accept_batch gets lift check_conflicts ◌>>=◌
  accept_batch-IsBounded events s h =
      let items = map (prepare env lifecycle) events in
      let new = new_items env lifecycle (is_known env lifecycle s) items in
      lift_then-IsBounded (validate_all env lifecycle events) _ s h (λ _ _.
        lift_then-IsBounded (check_conflicts env lifecycle [] items s) _ s h (λ _ _.
          lift_then-IsBounded (check_capacity env lifecycle new s) _ s h (λ u e.
            let (few, small) = check_capacity-room new s u e in
            accept_items-IsBounded items s (record { few = few; small = small; exact = h.exact }))))
