-- ===== src/Contract/Reconcile.antt =====
-- What a reconciliation of two receipts guarantees, and that reconciliations compose.
use glare9_provenance.Prelude.{
  ℕ, ◌≤◌, Bool, true, ◌||◌, not, ltb, ok, ◌≡◌, refl, sym, ap, ◌∙◌, >>=-eq-ok, invariant-eq-ok,
  ok-injective, arith,
}
use glare9_provenance.Prelude.Octets.{equals, equals→eq, equals_refl}
use glare9_provenance.Codec.Utf8.{Text}
use glare9_provenance.Contract.{
  LifecycleReceipt, Reconciled, stage, validate_lifecycle_receipt, reconcile_lifecycle_receipt,
}

module _ (is_timestamp : Text → Bool) where
  -- Both receipts are valid, they are of one event and its content, and the stage has not gone back.
  pub record Continues (stored current : LifecycleReceipt) : Type 0 where
    pub stored_valid : validate_lifecycle_receipt is_timestamp stored ≡ ok tt
    pub current_valid : validate_lifecycle_receipt is_timestamp current ≡ ok tt
    pub same_event : current.event_id ≡ stored.event_id
    pub same_ledger : current.ledger_id ≡ stored.ledger_id
    pub same_hash : current.record_hash ≡ stored.record_hash
    pub forward : stage stored.status ≤ stage current.status

  abbrev pub outcome : LifecycleReceipt → LifecycleReceipt → Reconciled
  outcome stored current = record {
    advanced = ltb (stage stored.status) (stage current.status);
    receipt = current;
  }

  not-ltb : (a b : ℕ) → not (ltb a b) ≡ true → b ≤ a
  not-ltb a b h = ground arith

  not-ltb-eq_true : (a b : ℕ) → b ≤ a → not (ltb a b) ≡ true
  not-ltb-eq_true a b h = ground arith

  -- A reconciliation that succeeds has found a continuation, and answers the current receipt.
  pub reconcile_lifecycle_receipt-Continues :
      (stored current : LifecycleReceipt) (r : Reconciled)
      → reconcile_lifecycle_receipt is_timestamp stored current ≡ ok r
      → Continues stored current × (r ≡ outcome stored current)
  unfolding reconcile_lifecycle_receipt
  reconcile_lifecycle_receipt-Continues stored current r h =
      let (_, v, h1) = >>=-eq-ok (validate_lifecycle_receipt is_timestamp stored) _ h in
      let (_, w, h2) = >>=-eq-ok (validate_lifecycle_receipt is_timestamp current) _ h1 in
      let (event, h3) = invariant-eq-ok (equals current.event_id stored.event_id) _ _ h2 in
      let (ledger, h4) = invariant-eq-ok (equals current.ledger_id stored.ledger_id) _ _ h3 in
      let (hash, h5) = invariant-eq-ok (equals current.record_hash stored.record_hash) _ _ h4 in
      let (order, h6) =
        invariant-eq-ok (not (ltb (stage current.status) (stage stored.status))) _ _ h5 in
      (
        record {
          stored_valid = v;
          current_valid = w;
          same_event = equals→eq _ _ event;
          same_ledger = equals→eq _ _ ledger;
          same_hash = equals→eq _ _ hash;
          forward = not-ltb _ _ order;
        },
        sym (ok-injective _ _ h6),
      )

  Continues-reconcile :
      (stored current : LifecycleReceipt)
      → Continues stored current
      → reconcile_lifecycle_receipt is_timestamp stored current ≡ ok (outcome stored current)
  unfolding reconcile_lifecycle_receipt
  Continues-reconcile stored current c = rw (
    c.stored_valid,
    c.current_valid,
    c.same_event,
    equals_refl stored.event_id,
    c.same_ledger,
    equals_refl stored.ledger_id,
    c.same_hash,
    equals_refl stored.record_hash,
    not-ltb-eq_true (stage current.status) (stage stored.status) c.forward,
  )

  or-advanced : (a b c : ℕ) → a ≤ b → b ≤ c → ltb a c ≡ (ltb a b || ltb b c)
  or-advanced a b c h k = ground arith

  -- Two reconciliations in a row are one: the first receipt and the last can be reconciled, and the
  -- receipt has advanced if it did so in either step.
  pub reconcile_lifecycle_receipt_trans :
      (a b c : LifecycleReceipt) (x y : Reconciled)
      → reconcile_lifecycle_receipt is_timestamp a b ≡ ok x
      → reconcile_lifecycle_receipt is_timestamp b c ≡ ok y
      → reconcile_lifecycle_receipt is_timestamp a c
        ≡ ok (record { advanced = x.advanced || y.advanced; receipt = c })
  reconcile_lifecycle_receipt_trans a b c x y h k =
      let (p, xe) = reconcile_lifecycle_receipt-Continues a b x h in
      let (q, ye) = reconcile_lifecycle_receipt-Continues b c y k in
      Continues-reconcile a c (record {
        stored_valid = p.stored_valid;
        current_valid = q.current_valid;
        same_event = q.same_event ∙ p.same_event;
        same_ledger = q.same_ledger ∙ p.same_ledger;
        same_hash = q.same_hash ∙ p.same_hash;
        forward = omega (arith, p.forward, q.forward);
      })
      ∙ ap (λ b'. ok (record { advanced = b'; receipt = c }))
          (or-advanced (stage a.status) (stage b.status) (stage c.status) p.forward q.forward
            ∙ sym (rw (xe, ye) refl))
