-- ===== src/Connector/Worker.antt =====
-- connectors/mysql/src/worker.js: one round of the worker, over the outbox and a client of the ledger.
-- The time of the last success or error is left out.
pub mod Delivers
pub mod Rounds
use glare9_provenance.Prelude.{
  ℕ, zero, suc, ◌+◌, ◌-◌, ◌*◌, ◌^◌, ◌≤◌, min, max, Bool, true, false, ◌&&◌, ◌||◌, not, [], ◌∷◌,
  List, leb, ltb, ◌==◌, if◌then◌else◌, length, Option, none, some, Result, ok, err, ◌≡◌, arith,
}
use glare9_provenance.Prelude.Octets.{equals}
use glare9_provenance.Codec.Utf8.{Text}
use glare9_provenance.Crypto.{codes}
use glare9_provenance.Connector.Outbox.{
  Row, Claimed, Failure, mark_failed, mark_delivered, claim_batch,
}

-- this.retryDelay(attemptCount)
unfoldable pub retry_delay : ℕ → ℕ → ℕ → ℕ
retry_delay retry_base_ms retry_max_ms attempt_count =
    min retry_max_ms (retry_base_ms * 2 ^ (min 20 (attempt_count - 1)))

pub record Status : Type 0 where
  pub in_flight : ℕ
  pub delivered_events : ℕ
  pub failed_batches : ℕ
  pub last_error_code : Option Text

pub data Attempt (A : Type 0) : Type 0 where
  answered : A → Attempt A
  failed : Failure → Attempt A

pub record Settings : Type 0 where
  pub lease_seconds : ℕ
  pub max_attempts : ℕ
  pub batch_size : ℕ
  pub connector_id : Text
  pub retry_base_ms : ℕ
  pub retry_max_ms : ℕ

-- The client, and what JSON.parse makes of an envelope: null is `none`.
pub record Client : Type 1 where
  pub Envelope : Type 0
  pub Receipt : Type 0
  pub receipt_id : Receipt → Text
  pub parse_envelope : Text → Option Envelope
  pub is_object : Envelope → Bool
  pub has_event_id : Text → Envelope → Bool
  pub submit : List Envelope → Attempt (List Receipt)

unfoldable pub highest_attempt : List Claimed → ℕ
highest_attempt [] = 0
highest_attempt (item ∷ items) = max item.attempt_count (highest_attempt items)

abbrev pub permanent : Text → Failure
permanent code = record { code = some code; retryable = false }

-- What a statement throws: an Error without a code.
abbrev pub plain_error : Failure
plain_error = record { code = none; retryable = true }

module _ (client : Client) where
  open client use {Envelope, Receipt, receipt_id, parse_envelope, is_object, has_event_id, submit}

  -- The checks of one item.
  unfoldable pub check_item : Claimed → Attempt Envelope
  check_item item = elim (parse_envelope item.envelope) [
    | none ↦ failed (permanent (codes "INVALID_OUTBOX_ENVELOPE"))
    | some envelope ↦
        if not (is_object envelope)
        then failed (permanent (codes "INVALID_OUTBOX_ENVELOPE"))
        else (if has_event_id item.event_id envelope
            then answered envelope
            else failed (permanent (codes "OUTBOX_EVENT_ID_MISMATCH")))
  ]

  unfoldable pub and_then : {A B : Type 0} → Attempt A → (A → Attempt B) → Attempt B
  and_then (answered a) next = next a
  and_then (failed failure) next = failed failure

  -- The checks of the batch, in its order: its envelopes, or the first that fails.
  unfoldable pub check_items : List Claimed → Attempt (List Envelope)
  unfolding check_item and_then
  check_items [] = answered []
  check_items (item ∷ items) =
      and_then (check_item item)
        (λ envelope. and_then (check_items items) (λ envelopes. answered (envelope ∷ envelopes)))

  abbrev pub marked :
      Result (Unit {0}) × List (Row Receipt) → Attempt (Unit {0}) × List (Row Receipt)
  marked (ok u, rows) = (answered u, rows)
  marked (err code, rows) = (failed plain_error, rows)

  abbrev pub deliver_receipts :
      ℕ
      → List Claimed
      → List (Row Receipt)
      → Attempt (List Receipt)
      → Attempt (Unit {0}) × List (Row Receipt)
  deliver_receipts now claimed rows (answered receipts) =
      marked (mark_delivered receipt_id now receipts claimed rows)
  deliver_receipts now claimed rows (failed failure) = (failed failure, rows)

  -- The body of the try statement.
  unfoldable pub try_deliver :
      ℕ → List Claimed → List (Row Receipt) → Attempt (Unit {0}) × List (Row Receipt)
  unfolding and_then
  try_deliver now claimed rows =
      deliver_receipts now claimed rows (and_then (check_items claimed) submit)

  module _ (settings : Settings) where
    abbrev pub recorded :
        Failure
        → Status
        → Result (Unit {0}) × List (Row Receipt)
        → Result ℕ × (Status × List (Row Receipt))
    recorded failure status (ok u, rows) = (
      ok 0,
      (
        record status {
          in_flight = 0;
          failed_batches = status.failed_batches + 1;
          last_error_code =
              some (elim failure.code [ none ↦ codes "DELIVERY_FAILED" | some code ↦ code ]);
        },
        rows,
      ),
    )
    recorded failure status (err code, rows) = (err code, (record status { in_flight = 0 }, rows))

    -- What follows the try statement: its last lines, or the catch clause, and the finally clause.
    abbrev pub settle_batch :
        ℕ
        → List Claimed
        → Status
        → Attempt (Unit {0}) × List (Row Receipt)
        → Result ℕ × (Status × List (Row Receipt))
    settle_batch now claimed status (answered u, rows) = (
      ok (length claimed),
      (
        record status {
          in_flight = 0;
          delivered_events = status.delivered_events + length claimed;
          last_error_code = none;
        },
        rows,
      ),
    )
    settle_batch now claimed status (failed failure, rows) = recorded failure status (
        mark_failed settings.max_attempts now failure
          (retry_delay settings.retry_base_ms settings.retry_max_ms (highest_attempt claimed))
          claimed rows)

    abbrev pub deliver_claimed :
        ℕ
        → Status
        → Result (List Claimed) × List (Row Receipt)
        → Result ℕ × (Status × List (Row Receipt))
    deliver_claimed now status (err code, rows) = (err code, (status, rows))
    deliver_claimed now status (ok [], rows) = (ok 0, (status, rows))
    deliver_claimed now status (ok (item ∷ items), rows) =
        settle_batch now (item ∷ items) (record status { in_flight = length (item ∷ items) })
          (try_deliver now (item ∷ items) rows)

    -- runOnce(), with the times of the claim and of what follows it
    unfoldable pub run_once :
        ℕ
        → ℕ
        → (ℕ → Bool)
        → Text
        → Status
        → List (Row Receipt)
        → Result ℕ × (Status × List (Row Receipt))
    run_once claimed_at now locked token status rows = deliver_claimed now status (
        claim_batch settings.lease_seconds claimed_at locked settings.batch_size
          settings.connector_id token rows)
