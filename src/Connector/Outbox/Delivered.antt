-- ===== src/Connector/Outbox/Delivered.antt =====
-- What markDelivered of connectors/mysql leaves: every row of the batch is delivered, or nothing has
-- changed.
use glare9_provenance.Prelude.{
  ℕ, Bool, true, false, ◌&&◌, ◌||◌, not, [], ◌∷◌, List, All, ◌==◌, Option, none, some, Result, ok,
  err, invariant-holds, ◌≡◌, refl, ap, subst, arith,
}
use glare9_provenance.Prelude.Action.{return, lift, for_each, >>=-eq-ok}
use glare9_provenance.Codec.Utf8.{Text}
use glare9_provenance.Connector.Outbox.{
  Row, Claimed, is_none, update_rows, count_rows, execute, commit_or_rollback, transaction, is_held,
  as_delivered, deliver_with, deliver_item, find_by_event, mark_delivered,
}

module _ {R : Type 0} where
  -- Some row with the identifier is delivered.
  unfoldable pub is_delivered : ℕ → List (Row R) → Bool
  is_delivered n [] = false
  is_delivered n (row ∷ rows) =
      (row.sequence_id == n && not (is_none row.delivered_at)) || is_delivered n rows

  -- A delivery selects no delivered row, and keeps the others' identifiers.
  update_rows-is_delivered :
      (n now : ℕ) (item : Claimed) (receipt : R) (rows : List (Row R))
      → is_delivered n rows ≡ true
      → is_delivered n (update_rows (is_held item) (as_delivered now receipt) rows) ≡ true
  unfolding is_delivered update_rows
  update_rows-is_delivered n now item receipt [] h = h
  update_rows-is_delivered n now item receipt (row ∷ rows) h =
      ground (arith, update_rows-is_delivered n now item receipt rows)

  -- A delivery that selects a row delivers it.
  count_rows-is_delivered :
      (now : ℕ) (item : Claimed) (receipt : R) (rows : List (Row R))
      → (count_rows (is_held item) rows == 1) ≡ true
      → is_delivered item.sequence_id (update_rows (is_held item) (as_delivered now receipt) rows)
        ≡ true
  unfolding is_delivered update_rows count_rows
  count_rows-is_delivered now item receipt [] h = ground arith
  count_rows-is_delivered now item receipt (row ∷ rows) h =
      ground (arith, count_rows-is_delivered now item receipt rows)

  execute-eq_ok :
      (test : Row R → Bool) (change : Row R → Row R) (expected : ℕ) (rows after : List (Row R))
      (u : Unit {0})
      → execute test change expected rows ≡ (ok u, after)
      → ((count_rows test rows == expected) ≡ true) × (update_rows test change rows ≡ after)
  unfolding execute
  execute-eq_ok test change expected rows after u h =
      (invariant-holds _ "Error" u (ap (λ x. x.0) h), ap (λ x. x.1) h)

  deliver_with-is_delivered :
      (now : ℕ) (item : Claimed) (receipt : Option R) (rows after : List (Row R)) (u : Unit {0})
      → deliver_with now item receipt rows ≡ (ok u, after)
      → (is_delivered item.sequence_id after ≡ true)
        × ((n : ℕ) → is_delivered n rows ≡ true → is_delivered n after ≡ true)
  unfolding lift
  deliver_with-is_delivered now item none rows after u h =
      let no : ◌≡◌ {A = Result (Unit {0})} (err "Error") (ok u) = ap (λ x. x.0) h in cc
  deliver_with-is_delivered now item (some receipt) rows after u h =
      let (one, changed) =
        execute-eq_ok (is_held item) (as_delivered now receipt) 1 rows after u h in
      (
        subst (λ rs. is_delivered item.sequence_id rs ≡ true) changed
            (count_rows-is_delivered now item receipt rows one),
        λ n d.
            subst (λ rs. is_delivered n rs ≡ true) changed
              (update_rows-is_delivered n now item receipt rows d),
      )

module _ {R : Type 0} (receipt_id : R → Text) where
  deliver_items-is_delivered :
      (now : ℕ) (receipts : List R) (claimed : List Claimed) (rows after : List (Row R))
      (u : Unit {0})
      → for_each (deliver_item receipt_id now receipts) claimed rows ≡ (ok u, after)
      → All (λ item. is_delivered item.sequence_id after ≡ true) claimed
        × ((n : ℕ) → is_delivered n rows ≡ true → is_delivered n after ≡ true)
  unfolding for_each return deliver_item
  deliver_items-is_delivered now receipts [] rows after u h =
      (tt, λ n d. subst (λ rs. is_delivered n rs ≡ true) (ap (λ x. x.1) h) d)
  deliver_items-is_delivered now receipts (item ∷ items) rows after u h =
      let (v, between, first, rest) =
        >>=-eq-ok (deliver_item receipt_id now receipts item)
          (λ _. for_each (deliver_item receipt_id now receipts) items) rows after u h in
      let (here, kept) =
        deliver_with-is_delivered now item (find_by_event receipt_id item.event_id receipts) rows
          between v first in
      let (others, kept') = deliver_items-is_delivered now receipts items between after u rest in
      ((kept' item.sequence_id here, others), λ n d. kept' n (kept n d))

  -- What a call of markDelivered may end in.
  abbrev pub Outcome : List Claimed → List (Row R) → Result (Unit {0}) × List (Row R) → Type 0
  Outcome claimed before (ok u, after) =
      All (λ item. is_delivered item.sequence_id after ≡ true) claimed
  Outcome claimed before (err code, after) = after ≡ before

  committed-Outcome :
      (claimed : List Claimed) (before : List (Row R)) (answer : Result (Unit {0}))
      (after : List (Row R))
      → ((u : Unit {0})
          → answer ≡ ok u
          → All (λ item. is_delivered item.sequence_id after ≡ true) claimed)
      → Outcome claimed before (commit_or_rollback before (answer, after))
  committed-Outcome claimed before (ok u) after h = h u refl
  committed-Outcome claimed before (err code) after h = refl

  -- When markDelivered answers, the row of every item of the batch is delivered; when it throws, for a
  -- receipt that is missing or a lease that is lost, the table is as it was.
  pub mark_delivered-Outcome :
      (now : ℕ) (receipts : List R) (claimed : List Claimed) (rows : List (Row R))
      → Outcome claimed rows (mark_delivered receipt_id now receipts claimed rows)
  unfolding mark_delivered transaction
  mark_delivered-Outcome now receipts claimed rows =
      let run = for_each (deliver_item receipt_id now receipts) claimed rows in
      committed-Outcome claimed rows run.0 run.1 (λ u h.
        (deliver_items-is_delivered now receipts claimed rows run.1 u (ap (λ r. (r, run.1)) h)).0)
