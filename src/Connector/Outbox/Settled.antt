-- ===== src/Connector/Outbox/Settled.antt =====
-- Rows of the outbox of connectors/mysql that are done: delivered, or given up and not leased.
use glare9_provenance.Prelude.{
  ℕ, zero, suc, get_elem?, Bool, true, false, ◌&&◌, ◌||◌, not, [], ◌∷◌, List, if◌then◌else◌, Option,
  none, some, Bool-cases, Result, ok, err, ◌≡◌, refl, ap, ◌∙◌, arith, inl, inr,
}
use glare9_provenance.Prelude.Action.{
  Action, Keeps, Keeps-return, Keeps-lift, Keeps-gets, Keeps-bind, Keeps-for_each,
}
use glare9_provenance.Codec.Utf8.{Text}
use glare9_provenance.Connector.Outbox.{
  Row, Claimed, Failure, is_none, has_token, update_rows, execute, commit_or_rollback, transaction,
  leases, lease_rows, claim_batch, is_held, deliver_with, fail_item, mark_failed, deliver_item,
  mark_delivered,
}

no_token : (token : Text) (held : Option Text) → is_none held ≡ true → has_token token held ≡ false
no_token token none h = refl
no_token token (some other) h = cc

module _ {R : Type 0} where
  -- Delivered, or given up and not leased.
  abbrev pub is_settled : Row R → Bool
  is_settled row =
      not (is_none row.delivered_at)
      || (not (is_none row.dead_lettered_at) && is_none row.lease_token)

  settled-leases : (ids : List ℕ) (row : Row R) → is_settled row ≡ true → leases ids row ≡ false
  settled-leases ids row h = ground arith

  settled-is_held :
      (item : Claimed) (row : Row R) → is_settled row ≡ true → is_held item row ≡ false
  settled-is_held item row h = ground (arith, no_token item.lease_token row.lease_token)

  -- A statement that does not select a row leaves it where it is.
  update_rows-at :
      (test : Row R → Bool) (change : Row R → Row R) (i : ℕ) (row : Row R) (rows : List (Row R))
      → test row ≡ false
      → get_elem? rows i ≡ some row
      → get_elem? (update_rows test change rows) i ≡ some row
  unfolding update_rows
  update_rows-at test change i row [] h e = e
  update_rows-at test change zero row (other ∷ rows) h e =
      let same : other ≡ row = cc in
      elim (Bool-cases (test other)) [
        | inl e' ↦ (let e'' : test other ≡ false = ap test same ∙ h in cc)
        | inr e' ↦ rw (e', update_rows) e
      ]
  update_rows-at test change (suc i) row (other ∷ rows) h e =
      elim (test other)
        as (λ b.
          get_elem?
            (if b
              then change other ∷ update_rows test change rows
              else other ∷ update_rows test change rows)
            (suc i)
          ≡ some row) [
            | true ↦ update_rows-at test change i row rows h e
            | false ↦ update_rows-at test change i row rows h e
          ]

  -- The i-th row of the table.
  abbrev pub IsAt : ℕ → Row R → List (Row R) → Type 0
  IsAt i row rows = get_elem? rows i ≡ some row

  execute-Keeps :
      (test : Row R → Bool) (change : Row R → Row R) (expected i : ℕ) (row : Row R)
      → test row ≡ false
      → Keeps (IsAt i row) (execute test change expected)
  unfolding execute
  execute-Keeps test change expected i row h = record {
    holds = λ rows e. update_rows-at test change i row rows h e;
  }

  transaction-Keeps :
      {A : Type 0} (P : List (Row R) → Type 0) (body : Action (List (Row R)) A)
      → Keeps P body
      → Keeps P (transaction body)
  unfolding transaction
  transaction-Keeps {A = A} P body k = record {
    holds = λ rows h. let (answer, after) = body rows in ended answer rows after h (k.holds rows h);
  }
    where
      ended :
          (answer : Result A) (before after : List (Row R))
          → P before
          → P after
          → P (commit_or_rollback before (answer, after)).1
      ended (ok a) before after h h' = h'
      ended (err code) before after h h' = h

  lease_rows-Keeps :
      (lease_seconds now : ℕ) (owner token : Text) (selected : List (Row R)) (i : ℕ) (row : Row R)
      → is_settled row ≡ true
      → Keeps (IsAt i row) (lease_rows lease_seconds now owner token selected)
  unfolding lease_rows
  lease_rows-Keeps lease_seconds now owner token [] i row h = Keeps-return []
  lease_rows-Keeps lease_seconds now owner token (first ∷ rest) i row h =
      Keeps-bind _ _ (execute-Keeps _ _ _ i row (settled-leases _ row h)) (λ _. Keeps-return _)

  pub claim_batch-Keeps :
      (lease_seconds now : ℕ) (locked : ℕ → Bool) (batch_size : ℕ) (owner token : Text) (i : ℕ)
      (row : Row R)
      → is_settled row ≡ true
      → Keeps (IsAt i row) (claim_batch lease_seconds now locked batch_size owner token)
  unfolding claim_batch
  claim_batch-Keeps lease_seconds now locked batch_size owner token i row h =
      Keeps-bind _ _ (Keeps-lift _) (λ _. Keeps-bind _ _ (Keeps-lift _) (λ _.
        transaction-Keeps (IsAt i row) _ (
          Keeps-bind _ _ (Keeps-gets _)
            (λ selected. lease_rows-Keeps lease_seconds now owner token selected i row h))))

  pub mark_failed-Keeps :
      (max_attempts now : ℕ) (failure : Failure) (retry_delay_ms : ℕ) (claimed : List Claimed)
      (i : ℕ) (row : Row R)
      → is_settled row ≡ true
      → Keeps (IsAt i row) (mark_failed max_attempts now failure retry_delay_ms claimed)
  unfolding mark_failed fail_item
  mark_failed-Keeps max_attempts now failure retry_delay_ms claimed i row h =
      transaction-Keeps (IsAt i row) _
        (Keeps-for_each _ claimed (λ item. execute-Keeps _ _ 1 i row (settled-is_held item row h)))

  deliver_with-Keeps :
      (now : ℕ) (item : Claimed) (receipt : Option R) (i : ℕ) (row : Row R)
      → is_settled row ≡ true
      → Keeps (IsAt i row) (deliver_with now item receipt)
  deliver_with-Keeps now item none i row h = Keeps-lift (err "Error")
  deliver_with-Keeps now item (some receipt) i row h =
      execute-Keeps _ _ 1 i row (settled-is_held item row h)

  pub mark_delivered-Keeps :
      (receipt_id : R → Text) (now : ℕ) (receipts : List R) (claimed : List Claimed) (i : ℕ)
      (row : Row R)
      → is_settled row ≡ true
      → Keeps (IsAt i row) (mark_delivered receipt_id now receipts claimed)
  unfolding mark_delivered deliver_item
  mark_delivered-Keeps receipt_id now receipts claimed i row h =
      transaction-Keeps (IsAt i row) _
        (Keeps-for_each _ claimed (λ item. deliver_with-Keeps now item _ i row h))

module _ (R : Type 0) (receipt_id : R → Text) where
  -- A call of a worker on the table.
  pub data Change : Type 0 where
    claim : ℕ → ℕ → (ℕ → Bool) → ℕ → Text → Text → Change
    deliver : ℕ → List R → List Claimed → Change
    give_back : ℕ → ℕ → Failure → ℕ → List Claimed → Change

  -- The table after it, whether it answers or throws.
  unfoldable pub changed : Change → List (Row R) → List (Row R)
  changed (claim lease_seconds now locked batch_size owner token) rows =
      (claim_batch lease_seconds now locked batch_size owner token rows).1
  changed (deliver now receipts claimed) rows =
      (mark_delivered receipt_id now receipts claimed rows).1
  changed (give_back max_attempts now failure retry_delay_ms claimed) rows =
      (mark_failed max_attempts now failure retry_delay_ms claimed rows).1

  -- The tables that calls of any workers lead to, in any order.
  pub data Leads (rows : List (Row R)) : List (Row R) → Type 0 where
    unchanged : Leads rows rows
    further :
        {later : List (Row R)} → Leads rows later → (c : Change) → Leads rows (changed c later)

  changed-settled :
      (i : ℕ) (row : Row R) (c : Change) (rows : List (Row R))
      → is_settled row ≡ true
      → get_elem? rows i ≡ some row
      → get_elem? (changed c rows) i ≡ some row
  unfolding changed
  changed-settled i row (claim lease_seconds now locked batch_size owner token) rows h e =
      (claim_batch-Keeps lease_seconds now locked batch_size owner token i row h).holds rows e
  changed-settled i row (deliver now receipts claimed) rows h e =
      (mark_delivered-Keeps receipt_id now receipts claimed i row h).holds rows e
  changed-settled i row (give_back max_attempts now failure retry_delay_ms claimed) rows h e =
      (mark_failed-Keeps max_attempts now failure retry_delay_ms claimed i row h).holds rows e

  -- A row of the outbox that is delivered, or given up and not leased, is never changed again, by any
  -- calls of any workers in any order, whether they answer or throw.
  pub Leads-settled :
      (i : ℕ) (row : Row R) (rows later : List (Row R))
      → Leads rows later
      → is_settled row ≡ true
      → get_elem? rows i ≡ some row
      → get_elem? later i ≡ some row
  Leads-settled i row rows _ unchanged h e = e
  Leads-settled i row rows _ (further {later = between} l c) h e =
      changed-settled i row c between h (Leads-settled i row rows between l h e)
