-- ===== src/Examples/Outboxes.antt =====
-- The outbox and the worker of connectors/mysql at a concrete table.
use glare9_provenance.Prelude.{
  if◌then◌else◌, ltb, min, ◌*◌, ℕ, suc, ◌+◌, ◌*◌, ◌≤◌, Bool, true, false, [], ◌∷◌, List, Option,
  none, some, get_elem?, Result, ok, err, ◌≡◌, refl, arith,
}
use glare9_provenance.Prelude.Octets.{equals}
use glare9_provenance.Codec.Utf8.{Text}
use glare9_provenance.Crypto.{codes}
use glare9_provenance.Connector.Outbox.{
  Row, Claimed, Failure, with_lease, claim_batch, mark_delivered,
}
use glare9_provenance.Connector.Outbox.Settled.{Change, changed, Leads, Leads-settled}
use glare9_provenance.Connector.Outbox.Leases.{Fresh, claimed_ids, claim_batch-exclusive}
use glare9_provenance.Connector.Outbox.Delivered.{Outcome, mark_delivered-Outcome}
use glare9_provenance.Connector.Worker.{Status, answered, Settings, Client, retry_delay, run_once}
use glare9_provenance.Connector.Worker.Delivers.{claimed_items, Delivers, run_once-Delivers}
use glare9_provenance.Connector.Worker.Rounds.{retry_delay-backoff}

-- A receipt is its event ID.
abbrev waiting : ℕ → Text → Row Text
waiting n id = record {
  sequence_id = n;
  event_id = id;
  envelope = id;
  attempt_count = 0;
  available_at = 5;
  delivered_at = none;
  dead_lettered_at = none;
  lease_owner = none;
  lease_token = none;
  lease_expires_at = none;
  last_error_code = none;
  receipt = none;
}

abbrev done_row : Row Text
done_row = record (waiting 1 (codes "a")) { delivered_at = some 4; receipt = some (codes "a") }

abbrev three_rows : List (Row Text)
three_rows = done_row ∷ waiting 2 (codes "b") ∷ waiting 3 (codes "c") ∷ []

abbrev nothing_locked : ℕ → Bool
nothing_locked n = false

abbrev claimed_as : ℕ → Text → Text → Claimed
claimed_as n id token = record {
  sequence_id = n;
  event_id = id;
  envelope = id;
  attempt_count = 1;
  lease_token = token;
}

abbrev first_batch : List Claimed
first_batch = claimed_as 2 (codes "b") (codes "t") ∷ []

abbrev leased_rows : List (Row Text)
leased_rows =
    done_row
    ∷ with_lease (codes "w") (codes "t") (10 + 30 * 1_000_000) (waiting 2 (codes "b"))
    ∷ waiting 3 (codes "c")
    ∷ []

first_claim :
    claim_batch 30 10 nothing_locked 1 (codes "w") (codes "t") three_rows
    ≡ (ok first_batch, leased_rows)
unfolding claim_batch glare9_provenance.Prelude.Action.◌>>=◌ glare9_provenance.Prelude.Action.lift
    glare9_provenance.Prelude.Action.gets glare9_provenance.Prelude.Action.return
    glare9_provenance.Connector.Outbox.all_printable glare9_provenance.Connector.Outbox.transaction
    glare9_provenance.Connector.Outbox.lease_rows glare9_provenance.Connector.Outbox.select_ready
    glare9_provenance.Connector.Outbox.execute glare9_provenance.Connector.Outbox.count_rows
    glare9_provenance.Connector.Outbox.includes_id glare9_provenance.Connector.Outbox.sequence_ids
    glare9_provenance.Connector.Outbox.claimed_rows glare9_provenance.Connector.Outbox.update_rows
first_claim = refl

abbrev second_batch : List Claimed
second_batch = claimed_as 3 (codes "c") (codes "u") ∷ []

abbrev both_leased : List (Row Text)
both_leased =
    done_row
    ∷ with_lease (codes "w") (codes "t") (10 + 30 * 1_000_000) (waiting 2 (codes "b"))
    ∷ with_lease (codes "x") (codes "u") (20 + 30 * 1_000_000) (waiting 3 (codes "c"))
    ∷ []

second_claim :
    claim_batch 30 20 nothing_locked 9 (codes "x") (codes "u") leased_rows
    ≡ (ok second_batch, both_leased)
unfolding claim_batch glare9_provenance.Prelude.Action.◌>>=◌ glare9_provenance.Prelude.Action.lift
    glare9_provenance.Prelude.Action.gets glare9_provenance.Prelude.Action.return
    glare9_provenance.Connector.Outbox.all_printable glare9_provenance.Connector.Outbox.transaction
    glare9_provenance.Connector.Outbox.lease_rows glare9_provenance.Connector.Outbox.select_ready
    glare9_provenance.Connector.Outbox.execute glare9_provenance.Connector.Outbox.count_rows
    glare9_provenance.Connector.Outbox.includes_id glare9_provenance.Connector.Outbox.sequence_ids
    glare9_provenance.Connector.Outbox.claimed_rows glare9_provenance.Connector.Outbox.update_rows
second_claim = refl

claim_batch-exclusive_example : Fresh (claimed_ids first_batch) second_batch
claim_batch-exclusive_example =
    claim_batch-exclusive 30 10 20 nothing_locked nothing_locked 1 9 (codes "w") (codes "x")
      (codes "t") (codes "u") three_rows leased_rows both_leased first_batch second_batch
      first_claim second_claim (omega arith)

abbrev own_id : Text → Text
own_id receipt = receipt

mark_delivered-Outcome_example :
    Outcome own_id first_batch leased_rows
      (mark_delivered own_id 40 (codes "b" ∷ []) first_batch leased_rows)
mark_delivered-Outcome_example =
    mark_delivered-Outcome own_id 40 (codes "b" ∷ []) first_batch leased_rows

abbrev claimed_later : List (Row Text)
claimed_later =
    changed Text own_id (Change.claim 30 10 nothing_locked 9 (codes "w") (codes "t")) three_rows

claimed_later-Leads : Leads Text own_id three_rows claimed_later
claimed_later-Leads =
    Leads.further Leads.unchanged (Change.claim 30 10 nothing_locked 9 (codes "w") (codes "t"))

Leads-settled_example : get_elem? claimed_later 0 ≡ some done_row
Leads-settled_example =
    Leads-settled Text own_id 0 done_row three_rows claimed_later claimed_later-Leads refl refl

-- Envelopes are event IDs, and the ledger answers a receipt for each.
abbrev small_client : Client
small_client = record {
  Envelope = Text;
  Receipt = Text;
  receipt_id = own_id;
  parse_envelope = λ text. some text;
  is_object = λ envelope. true;
  has_event_id = λ id envelope. equals id envelope;
  submit = λ envelopes. answered envelopes;
}

abbrev small_settings : Settings
small_settings = record {
  lease_seconds = 30;
  max_attempts = 20;
  batch_size = 2;
  connector_id = codes "w";
  retry_base_ms = 1_000;
  retry_max_ms = 60_000;
}

abbrev at_rest : Status
at_rest = record { in_flight = 0; delivered_events = 7; failed_batches = 0; last_error_code = none }

two_delivered :
    (run_once small_client small_settings 10 11 nothing_locked (codes "t") at_rest three_rows).0
    ≡ ok 2
unfolding run_once mark_delivered claim_batch glare9_provenance.Prelude.Action.◌>>=◌
    glare9_provenance.Prelude.Action.lift glare9_provenance.Prelude.Action.gets
    glare9_provenance.Prelude.Action.return glare9_provenance.Connector.Outbox.all_printable
    glare9_provenance.Connector.Outbox.transaction glare9_provenance.Connector.Outbox.lease_rows
    glare9_provenance.Connector.Outbox.select_ready glare9_provenance.Connector.Outbox.execute
    glare9_provenance.Connector.Outbox.count_rows glare9_provenance.Connector.Outbox.includes_id
    glare9_provenance.Connector.Outbox.sequence_ids glare9_provenance.Connector.Outbox.claimed_rows
    glare9_provenance.Connector.Outbox.update_rows equals
    glare9_provenance.Connector.Worker.try_deliver glare9_provenance.Connector.Worker.check_items
    glare9_provenance.Connector.Worker.check_item glare9_provenance.Connector.Worker.and_then
    glare9_provenance.Prelude.Action.for_each glare9_provenance.Connector.Outbox.deliver_item
    glare9_provenance.Connector.Outbox.find_by_event
two_delivered = refl

retry_delay-backoff_example :
    (retry_delay 1_000 60_000 3 ≤ 60_000)
    × (retry_delay 1_000 60_000 1 ≡ min 60_000 1_000)
    × (retry_delay 1_000 60_000 (3 + 1) ≡ (
        if ltb 3 21
        then min 60_000 (2 * retry_delay 1_000 60_000 3)
        else retry_delay 1_000 60_000 3))
retry_delay-backoff_example = retry_delay-backoff 1_000 60_000 3 (omega arith)

run_once-Delivers_example :
    Delivers small_client small_settings
      (claimed_items (claim_batch 30 10 nothing_locked 2 (codes "w") (codes "t") three_rows).0)
      at_rest
      (run_once small_client small_settings 10 11 nothing_locked (codes "t") at_rest three_rows)
run_once-Delivers_example =
    run_once-Delivers small_client small_settings 10 11 nothing_locked (codes "t") at_rest
      three_rows
