-- ===== src/Connector/Outbox.antt =====
-- connectors/mysql/src/outbox-repository.js: the statements on the outbox table. The table is the list
-- of its rows in the order of sequence_id. A statement changes the rows that its WHERE clause selects
-- and answers their number; a transaction that throws is rolled back. Times are microseconds, and each
-- statement has the one of its UTC_TIMESTAMP(6) as an argument. The column last_error_message, which
-- repeats the code, is left out.
pub mod Leases
pub mod Settled
pub mod Delivered
use glare9_provenance.Prelude.{
  ℕ, zero, suc, ◌+◌, ◌*◌, max, Bool, true, false, ◌&&◌, ◌||◌, not, [], ◌∷◌, List, take, leb, ltb,
  ◌==◌, if◌then◌else◌, length, Option, none, some, Result, ok, err, invariant,
}
use glare9_provenance.Prelude.Octets.{equals}
use glare9_provenance.Prelude.Action.{Action, return, lift, gets, for_each, ◌>>=◌, ◌>>◌}
use glare9_provenance.Codec.Utf8.{Text}
use glare9_provenance.Crypto.{codes}

pub record Row (R : Type 0) : Type 0 where
  pub sequence_id : ℕ
  pub event_id : Text
  pub envelope : Text
  pub attempt_count : ℕ
  pub available_at : ℕ
  pub delivered_at : Option ℕ
  pub dead_lettered_at : Option ℕ
  pub lease_owner : Option Text
  pub lease_token : Option Text
  pub lease_expires_at : Option ℕ
  pub last_error_code : Option Text
  pub receipt : Option R

-- What claimBatch answers of a row.
pub record Claimed : Type 0 where
  pub sequence_id : ℕ
  pub event_id : Text
  pub envelope : Text
  pub attempt_count : ℕ
  pub lease_token : Text

-- error.code and error.retryable
pub record Failure : Type 0 where
  pub code : Option Text
  pub retryable : Bool

abbrev pub is_none {ℓ} : {A : Type ℓ} → Option A → Bool
is_none none = true
is_none (some a) = false

abbrev pub has_token : Text → Option Text → Bool
has_token token none = false
has_token token (some other) = equals other token

-- /^[\x20-\x7e]+$/u, with a length between 1 and 128
unfoldable pub all_printable : Text → Bool
all_printable [] = true
all_printable (c ∷ t) = leb 0x20 c && leb c 0x7e && all_printable t

abbrev pub is_owner : Text → Bool
is_owner owner = leb 1 (length owner) && leb (length owner) 128 && all_printable owner

unfoldable pub includes_id : ℕ → List ℕ → Bool
includes_id n [] = false
includes_id n (m ∷ ms) = m == n || includes_id n ms

abbrev pub lease_over : ℕ → Option ℕ → Bool
lease_over now none = true
lease_over now (some expires) = leb expires now

-- String(error.code ?? "DELIVERY_FAILED").slice(0, 128), of a code in ASCII
abbrev pub error_code : Failure → Text
error_code failure = elim failure.code [
  | none ↦ codes "DELIVERY_FAILED"
  | some code ↦ take 128 code
]

-- !retryable || item.attemptCount >= this.maxAttempts
abbrev pub should_dead_letter : ℕ → Failure → Claimed → Bool
should_dead_letter max_attempts failure item =
    not failure.retryable || leb max_attempts item.attempt_count

-- Math.max(100_000, Math.round(retryDelayMs * 1_000)), of a whole number
abbrev pub retry_delay_microseconds : ℕ → ℕ
retry_delay_microseconds retry_delay_ms = max 100_000 (retry_delay_ms * 1_000)

module _ {R : Type 0} where
  -- The WHERE clause of the selection.
  abbrev pub is_ready : ℕ → Row R → Bool
  is_ready now row =
      is_none row.delivered_at
      && is_none row.dead_lettered_at
      && leb row.available_at now
      && lease_over now row.lease_expires_at

  -- The selection skips the rows that another transaction has locked.
  unfoldable pub select_ready : ℕ → (ℕ → Bool) → List (Row R) → List (Row R)
  select_ready now locked [] = []
  select_ready now locked (row ∷ rows) =
      let rest = select_ready now locked rows in
      if is_ready now row && not (locked row.sequence_id) then row ∷ rest else rest

  unfoldable pub sequence_ids : List (Row R) → List ℕ
  sequence_ids [] = []
  sequence_ids (row ∷ rows) = row.sequence_id ∷ sequence_ids rows

  -- UPDATE ... SET change WHERE test
  unfoldable pub update_rows : (Row R → Bool) → (Row R → Row R) → List (Row R) → List (Row R)
  update_rows test change [] = []
  update_rows test change (row ∷ rows) =
      let rest = update_rows test change rows in if test row then change row ∷ rest else row ∷ rest

  unfoldable pub count_rows : (Row R → Bool) → List (Row R) → ℕ
  count_rows test [] = 0
  count_rows test (row ∷ rows) =
      let rest = count_rows test rows in if test row then suc rest else rest

  -- The statement, and the check of affectedRows.
  unfoldable pub execute : (Row R → Bool) → (Row R → Row R) → ℕ → Action (List (Row R)) (Unit {0})
  execute test change expected rows =
      (invariant (count_rows test rows == expected) "Error", update_rows test change rows)

  abbrev pub commit_or_rollback :
      {A : Type 0} → List (Row R) → Result A × List (Row R) → Result A × List (Row R)
  commit_or_rollback before (ok a, after) = (ok a, after)
  commit_or_rollback before (err code, after) = (err code, before)

  -- beginTransaction, the statements, and commit or rollback
  unfoldable pub transaction : {A : Type 0} → Action (List (Row R)) A → Action (List (Row R)) A
  transaction body rows = commit_or_rollback rows (body rows)

  abbrev pub leases : List ℕ → Row R → Bool
  leases ids row =
      includes_id row.sequence_id ids && is_none row.delivered_at && is_none row.dead_lettered_at

  abbrev pub with_lease : Text → Text → ℕ → Row R → Row R
  with_lease owner token expires row = record row {
    lease_owner = some owner;
    lease_token = some token;
    lease_expires_at = some expires;
    attempt_count = row.attempt_count + 1;
    last_error_code = none;
  }

  unfoldable pub claimed_rows : Text → List (Row R) → List Claimed
  claimed_rows token [] = []
  claimed_rows token (row ∷ rows) =
      record {
        sequence_id = row.sequence_id;
        event_id = row.event_id;
        envelope = row.envelope;
        attempt_count = row.attempt_count + 1;
        lease_token = token;
      }
      ∷ claimed_rows token rows

  -- The lease of the rows that were selected.
  unfoldable pub lease_rows :
      ℕ → ℕ → Text → Text → List (Row R) → Action (List (Row R)) (List Claimed)
  lease_rows lease_seconds now owner token [] = return []
  lease_rows lease_seconds now owner token (row ∷ rows) = do
    let ids = sequence_ids (row ∷ rows)
    execute (leases ids) (with_lease owner token (now + lease_seconds * 1_000_000)) (length ids)
    return (claimed_rows token (row ∷ rows))

  -- claimBatch({ batchSize, leaseOwner }), with the token of randomUUID and the locks of others
  unfoldable pub claim_batch :
      ℕ → ℕ → (ℕ → Bool) → ℕ → Text → Text → Action (List (Row R)) (List Claimed)
  claim_batch lease_seconds now locked batch_size owner token = do
    lift (invariant (leb 1 batch_size && leb batch_size 1_000) "TypeError")
    lift (invariant (is_owner owner) "TypeError")
    transaction (
        gets (λ rows. take batch_size (select_ready now locked rows))
        >>= lease_rows lease_seconds now owner token)

  -- sequence_id = ? AND lease_token = ? AND delivered_at IS NULL
  abbrev pub is_held : Claimed → Row R → Bool
  is_held item row =
      row.sequence_id == item.sequence_id
      && has_token item.lease_token row.lease_token
      && is_none row.delivered_at

  abbrev pub as_delivered : ℕ → R → Row R → Row R
  as_delivered now receipt row = record row {
    delivered_at = some now;
    receipt = some receipt;
    lease_owner = none;
    lease_token = none;
    lease_expires_at = none;
    last_error_code = none;
  }

  abbrev pub deliver_with : ℕ → Claimed → Option R → Action (List (Row R)) (Unit {0})
  deliver_with now item none = lift (err "Error")
  deliver_with now item (some receipt) = execute (is_held item) (as_delivered now receipt) 1

  abbrev pub as_failed : ℕ → Text → Bool → ℕ → Row R → Row R
  as_failed now code dead delay row = record row {
    lease_owner = none;
    lease_token = none;
    lease_expires_at = none;
    last_error_code = some code;
    dead_lettered_at = if dead then some now else row.dead_lettered_at;
    available_at = if dead then row.available_at else now + delay;
  }

  unfoldable pub fail_item : ℕ → ℕ → Failure → ℕ → Claimed → Action (List (Row R)) (Unit {0})
  fail_item max_attempts now failure retry_delay_ms item =
      execute (is_held item)
        (as_failed now (error_code failure) (should_dead_letter max_attempts failure item)
          (retry_delay_microseconds retry_delay_ms))
        1

  -- markFailed(claimed, error, { retryDelayMs })
  unfoldable pub mark_failed : ℕ → ℕ → Failure → ℕ → List Claimed → Action (List (Row R)) (Unit {0})
  mark_failed max_attempts now failure retry_delay_ms claimed =
      transaction (for_each (fail_item max_attempts now failure retry_delay_ms) claimed)

module _ {R : Type 0} (receipt_id : R → Text) where
  -- byEventId.get(eventId): the last receipt of the event
  unfoldable pub find_by_event : Text → List R → Option R
  find_by_event id [] = none
  find_by_event id (r ∷ rs) = elim (find_by_event id rs) [
    | some found ↦ some found
    | none ↦ if equals (receipt_id r) id then some r else none
  ]

  unfoldable pub deliver_item : ℕ → List R → Claimed → Action (List (Row R)) (Unit {0})
  deliver_item now receipts item = deliver_with now item (find_by_event item.event_id receipts)

  -- markDelivered(claimed, receipts)
  unfoldable pub mark_delivered : ℕ → List R → List Claimed → Action (List (Row R)) (Unit {0})
  mark_delivered now receipts claimed = transaction (for_each (deliver_item now receipts) claimed)
