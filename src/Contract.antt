-- ===== src/Contract.antt =====
-- packages/connector-contract: the receipts of the ledger as a connector checks them
-- (validateLifecycleReceipt of client.js) and reconciles them (reconciliation.js).
--
-- A receipt has exactly the fields of its status here; one with other fields or another status is
-- refused before it has this type. `is_timestamp` is the test of `new Date(value).toISOString()`.
pub mod Reconcile
use glare9_provenance.Prelude.{
  ℕ, Bool, true, false, ◌&&◌, ◌||◌, not, [], ◌∷◌, leb, ltb, ◌==◌, length, Result, ok, ◌>>=◌, ◌>>◌,
  invariant,
}
use glare9_provenance.Prelude.Octets.{equals}
use glare9_provenance.Codec.Utf8.{Text}
use glare9_provenance.Codec.Value.{max_safe_integer}

pub data Status : Type 0 where
  accepted : (intake_sequence : ℕ) (accepted_at : Text) → Status
  provisional :
      (intake_sequence : ℕ) (accepted_at shard_id : Text)
      (routing_epoch_number segment_number block_index record_index : ℕ) (opened_at : Text)
      → Status
  sealed :
      (shard_id : Text) (routing_epoch_number segment_number record_index : ℕ)
      (segment_hash signer_key_id : Text)
      → Status

pub record LifecycleReceipt : Type 0 where
  pub event_id : Text
  pub ledger_id : Text
  pub record_hash : Text
  pub status : Status

unfoldable pub require_receipt_string : Text → Result (Unit {0})
require_receipt_string value = invariant (not (length value == 0)) "INVALID_LEDGER_RESPONSE"

-- [0-9a-f]
is_hex_digit : ℕ → Bool
is_hex_digit c = (leb b'0' c && leb c b'9') || (leb b'a' c && leb c b'f')

all_hex : Text → Bool
all_hex [] = true
all_hex (c ∷ t) = is_hex_digit c && all_hex t

unfoldable pub require_hex : Text → Result (Unit {0})
unfolding is_hex_digit all_hex
require_hex value = invariant (all_hex value && length value == 64) "INVALID_LEDGER_RESPONSE"

unfoldable pub require_integer : ℕ → Result (Unit {0})
require_integer value = invariant (leb value max_safe_integer) "INVALID_LEDGER_RESPONSE"

-- const stage
abbrev pub stage : Status → ℕ
stage (accepted _ _) = 0
stage (provisional _ _ _ _ _ _ _ _) = 1
stage (sealed _ _ _ _ _ _) = 2

pub record Reconciled : Type 0 where
  pub advanced : Bool
  pub receipt : LifecycleReceipt

module _ (is_timestamp : Text → Bool) where
  unfoldable pub require_timestamp : Text → Result (Unit {0})
  require_timestamp value =
      require_receipt_string value >> invariant (is_timestamp value) "INVALID_LEDGER_RESPONSE"

  -- What is checked of the fields that only receipts of the status have.
  unfoldable pub validate_status : Status → Result (Unit {0})
  validate_status (accepted intake_sequence accepted_at) = do
    require_integer intake_sequence
    require_timestamp accepted_at
  validate_status (provisional sequence accepted_at shard epoch segment block index opened_at) = do
    require_receipt_string shard
    require_integer sequence
    require_integer epoch
    require_integer segment
    require_integer block
    require_integer index
    require_timestamp accepted_at
    require_timestamp opened_at
  validate_status (sealed shard epoch segment index segment_hash signer_key_id) = do
    require_receipt_string shard
    require_integer epoch
    require_integer segment
    require_integer index
    require_hex segment_hash
    require_hex signer_key_id

  unfoldable pub validate_lifecycle_receipt : LifecycleReceipt → Result (Unit {0})
  validate_lifecycle_receipt receipt = do
    require_receipt_string receipt.event_id
    require_receipt_string receipt.ledger_id
    require_hex receipt.record_hash
    validate_status receipt.status

  unfoldable pub reconcile_lifecycle_receipt :
      LifecycleReceipt → LifecycleReceipt → Result Reconciled
  reconcile_lifecycle_receipt stored current = do
    validate_lifecycle_receipt stored
    validate_lifecycle_receipt current
    invariant (equals current.event_id stored.event_id) "RECEIPT_RECONCILIATION_CONFLICT"
    invariant (equals current.ledger_id stored.ledger_id) "RECEIPT_RECONCILIATION_CONFLICT"
    invariant (equals current.record_hash stored.record_hash) "RECEIPT_RECONCILIATION_CONFLICT"
    invariant (not (ltb (stage current.status) (stage stored.status)))
        "RECEIPT_RECONCILIATION_CONFLICT"
    ok (record { advanced = ltb (stage stored.status) (stage current.status); receipt = current })
