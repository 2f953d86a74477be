-- ===== src/Examples/Receipts.antt =====
-- packages/connector-contract/src/reconciliation.js at concrete receipts.
use glare9_provenance.Prelude.{
  ℕ, zero, suc, Bool, true, false, ◌||◌, [], ◌∷◌, Result, ok, ◌≡◌, refl,
}
use glare9_provenance.Codec.Utf8.{Text}
use glare9_provenance.Contract.{
  Status, LifecycleReceipt, Reconciled, accepted, sealed, reconcile_lifecycle_receipt,
}
use glare9_provenance.Contract.Reconcile.{reconcile_lifecycle_receipt_trans}

abbrev digits : ℕ → Text
digits zero = []
digits (suc n) = b'0' ∷ digits n

-- A test that takes every text for a timestamp.
abbrev any_time : Text → Bool
any_time t = true

abbrev receipt_with : Status → LifecycleReceipt
receipt_with status = record {
  event_id = b'e' ∷ [];
  ledger_id = b'l' ∷ [];
  record_hash = digits 64;
  status = status;
}

abbrev when_accepted : LifecycleReceipt
when_accepted = receipt_with (accepted 1 (b't' ∷ []))

abbrev when_sealed : LifecycleReceipt
when_sealed = receipt_with (sealed (b's' ∷ []) 0 0 0 (digits 64) (digits 64))

accepted_then_sealed :
    reconcile_lifecycle_receipt any_time when_accepted when_sealed
    ≡ ok (record { advanced = true; receipt = when_sealed })
unfolding reconcile_lifecycle_receipt glare9_provenance.Contract.validate_lifecycle_receipt
    glare9_provenance.Contract.require_receipt_string glare9_provenance.Contract.require_hex
    glare9_provenance.Contract.validate_status glare9_provenance.Contract.require_integer
    glare9_provenance.Contract.require_timestamp glare9_provenance.Prelude.Octets.equals
accepted_then_sealed = refl

sealed_again :
    reconcile_lifecycle_receipt any_time when_sealed when_sealed
    ≡ ok (record { advanced = false; receipt = when_sealed })
unfolding reconcile_lifecycle_receipt glare9_provenance.Contract.validate_lifecycle_receipt
    glare9_provenance.Contract.require_receipt_string glare9_provenance.Contract.require_hex
    glare9_provenance.Contract.validate_status glare9_provenance.Contract.require_integer
    glare9_provenance.Contract.require_timestamp glare9_provenance.Prelude.Octets.equals
sealed_again = refl

reconcile_lifecycle_receipt_trans_example :
    reconcile_lifecycle_receipt any_time when_accepted when_sealed
    ≡ ok (record { advanced = true || false; receipt = when_sealed })
reconcile_lifecycle_receipt_trans_example =
    reconcile_lifecycle_receipt_trans any_time when_accepted when_sealed when_sealed
      (record { advanced = true; receipt = when_sealed })
      (record { advanced = false; receipt = when_sealed }) accepted_then_sealed sealed_again
