-- ===== src/Connector/Worker/Delivers.antt =====
-- What a round of the worker of connectors/mysql has delivered in the table when it answers.
use glare9_provenance.Prelude.{
  ℕ, zero, suc, ◌+◌, Bool, true, [], ◌∷◌, List, All, length, Result, ok, err, ◌≡◌, refl, ap,
}
use glare9_provenance.Codec.Utf8.{Text}
use glare9_provenance.Connector.Outbox.{Row, Claimed, Failure, claim_batch, mark_failed}
use glare9_provenance.Connector.Outbox.Delivered.{is_delivered, Outcome, mark_delivered-Outcome}
use glare9_provenance.Connector.Worker.{
  retry_delay, Status, Attempt, answered, failed, Settings, Client, highest_attempt, recorded,
  marked, deliver_receipts, settle_batch, deliver_claimed, try_deliver, run_once,
}

-- The items that a claim has answered; none where it throws.
abbrev pub claimed_items : Result (List Claimed) → List Claimed
claimed_items (ok items) = items
claimed_items (err code) = []

module _ (client : Client) (settings : Settings) where
  open client use {Receipt, receipt_id, submit}

  -- The row of every item is delivered.
  abbrev pub AllDelivered : List Claimed → List (Row Receipt) → Type 0
  AllDelivered claimed rows = All (λ item. is_delivered item.sequence_id rows ≡ true) claimed

  -- Where the try statement ends without an error, the batch is delivered.
  abbrev Tried : List Claimed → Attempt (Unit {0}) × List (Row Receipt) → Type 0
  Tried claimed (answered u, rows) = AllDelivered claimed rows
  Tried claimed (failed failure, rows) = Unit

  marked-Tried :
      (claimed : List Claimed) (before : List (Row Receipt))
      (result : Result (Unit {0}) × List (Row Receipt))
      → Outcome receipt_id claimed before result
      → Tried claimed (marked client result)
  marked-Tried claimed before (ok u, rows) h = h
  marked-Tried claimed before (err code, rows) h = tt

  deliver_receipts-Tried :
      (now : ℕ) (claimed : List Claimed) (rows : List (Row Receipt))
      (attempt : Attempt (List Receipt))
      → Tried claimed (deliver_receipts client now claimed rows attempt)
  deliver_receipts-Tried now claimed rows (answered receipts) =
      marked-Tried claimed rows _ (mark_delivered-Outcome receipt_id now receipts claimed rows)
  deliver_receipts-Tried now claimed rows (failed failure) = tt

  try_deliver-Tried :
      (now : ℕ) (claimed : List Claimed) (rows : List (Row Receipt))
      → Tried claimed (try_deliver client now claimed rows)
  unfolding try_deliver
  try_deliver-Tried now claimed rows = deliver_receipts-Tried now claimed rows _

  -- What the answer of a round says: how many events it has counted, each of a row that is delivered.
  abbrev pub Delivers : List Claimed → Status → Result ℕ × (Status × List (Row Receipt)) → Type 0
  Delivers claimed before (ok zero, (after, rows)) =
      after.delivered_events ≡ before.delivered_events
  Delivers claimed before (ok (suc n), (after, rows)) =
      (length claimed ≡ suc n)
      × (after.delivered_events ≡ before.delivered_events + suc n)
      × AllDelivered claimed rows
  Delivers claimed before (err code, (after, rows)) =
      after.delivered_events ≡ before.delivered_events

  recorded-Delivers :
      (claimed : List Claimed) (failure : Failure) (before status : Status)
      (result : Result (Unit {0}) × List (Row Receipt))
      → status.delivered_events ≡ before.delivered_events
      → Delivers claimed before (recorded client settings failure status result)
  recorded-Delivers claimed failure before status (ok u, rows) h = h
  recorded-Delivers claimed failure before status (err code, rows) h = h

  settle_batch-Delivers :
      (now : ℕ) (item : Claimed) (items : List Claimed) (before status : Status)
      (result : Attempt (Unit {0}) × List (Row Receipt))
      → status.delivered_events ≡ before.delivered_events
      → Tried (item ∷ items) result
      → Delivers
          (item ∷ items)
          before
          (settle_batch client settings now (item ∷ items) status result)
  settle_batch-Delivers now item items before status (answered u, rows) h t =
      (refl, ap (λ n. n + suc (length items)) h, t)
  settle_batch-Delivers now item items before status (failed failure, rows) h t =
      recorded-Delivers (item ∷ items) failure before status
        (mark_failed settings.max_attempts now failure
          (retry_delay settings.retry_base_ms settings.retry_max_ms
            (highest_attempt (item ∷ items)))
          (item ∷ items) rows)
        h

  deliver_claimed-Delivers :
      (now : ℕ) (before : Status) (claim : Result (List Claimed) × List (Row Receipt))
      → Delivers (claimed_items claim.0) before (deliver_claimed client settings now before claim)
  deliver_claimed-Delivers now before (err code, rows) = refl
  deliver_claimed-Delivers now before (ok [], rows) = refl
  deliver_claimed-Delivers now before (ok (item ∷ items), rows) =
      settle_batch-Delivers now item items before
        (record before { in_flight = length (item ∷ items) })
        (try_deliver client now (item ∷ items) rows) refl
        (try_deliver-Tried now (item ∷ items) rows)

  -- Where a round of the worker answers a number of events that is not zero, that is the number of
  -- the items that it has claimed, the row of every one of them is delivered in the table that the
  -- round leaves, and the count of delivered events has grown by it. Where it answers zero or
  -- throws, whatever it was that failed, the count of delivered events is as it was.
  pub run_once-Delivers :
      (claimed_at now : ℕ) (locked : ℕ → Bool) (token : Text) (status : Status)
      (rows : List (Row Receipt))
      → Delivers
          (claimed_items
            (claim_batch settings.lease_seconds claimed_at locked settings.batch_size
              settings.connector_id token rows).0)
          status
          (run_once client settings claimed_at now locked token status rows)
  unfolding run_once
  run_once-Delivers claimed_at now locked token status rows = deliver_claimed-Delivers now status (
      claim_batch settings.lease_seconds claimed_at locked settings.batch_size settings.connector_id
        token rows)
