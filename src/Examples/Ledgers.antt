-- ===== src/Examples/Ledgers.antt =====
-- services/ledger/src/local-ledger.js with a small environment.
use glare9_provenance.Prelude.{
  ℕ, ◌+◌, Bytes, [], ◌∷◌, List, none, true, ◌≡◌, refl, Result, ok, err, arith, length, All,
}
use glare9_provenance.Codec.Utf8.{Text, utf8}
use glare9_provenance.Ledger.Config.{default_lifecycle}
use glare9_provenance.Sharding.{routing_policy_id}
use glare9_provenance.Ledger.State.{Receipt, accepted, Epoch, State, Environment}
use glare9_provenance.Ledger.Accept.{accept_batch, event_hash, is_known}
use glare9_provenance.Ledger.Accept.Retention.{Retains, accept_batch-Retains}
use glare9_provenance.Ledger.Accept.Acknowledged.{accept_batch-known}
use glare9_provenance.Ledger.Accept.Capacity.{IsBounded, accept_batch-IsBounded}
use glare9_provenance.Examples.Hashes.{toy_hash}

abbrev genesis : Text → Epoch
genesis ledger = record {
  ledger_id = ledger;
  epoch_number = 0;
  epoch_hash = [];
  routing_policy = record { id = routing_policy_id; version = 1; shard_count = 4 };
}

-- Events that are their ID, and an intake that counts what it holds.
abbrev pub small_environment : Environment
small_environment = record {
  Event = Text;
  Disk = ℕ;
  event_id = λ event. event;
  ledger_id = λ event. b'l' ∷ [];
  subject = λ event. event;
  validate_event = λ event. ok tt;
  canonical = utf8;
  sha256 = toy_hash;
  intake_append = λ event disk. (ok (disk + 1, []), disk + 1);
  intake_remove = λ pending disk. (ok tt, disk);
  now = λ disk. [];
  millis = λ t. 0;
  compress = λ bytes. ok bytes;
  trusted_signer = λ active. ok tt;
  persist_active = λ active disk. (ok [], disk);
  remove_active = λ active disk. (ok tt, disk);
  write_segment = λ active epoch disk. (ok (7 ∷ [], b'k' ∷ []), disk);
  write_genesis_epoch = λ ledger disk. (ok (genesis ledger), disk);
  write_next_epoch = λ ledger number policy reason epoch heads disk. (err "SEALED_STORAGE", disk);
}

abbrev pub empty_ledger : State Text ℕ
empty_ledger = record {
  event_index = [];
  pending_index = [];
  provisional_index = [];
  shard_states = [];
  active_segments = [];
  assigned_pending_ids = [];
  pending_bytes = 0;
  active_block_bytes = 0;
  routing_epochs = [];
  ledger_segment_formats = [];
  disk = 0;
}

empty_ledger-IsBounded : IsBounded small_environment default_lifecycle empty_ledger
unfolding glare9_provenance.Prelude.Dict.total
empty_ledger-IsBounded = record { few = omega arith; small = omega arith; exact = refl }

accept_batch-IsBounded_example :
    IsBounded small_environment default_lifecycle
      (accept_batch small_environment default_lifecycle
        ((b'a' ∷ []) ∷ (b'b' ∷ []) ∷ [])
        empty_ledger).1
accept_batch-IsBounded_example =
    accept_batch-IsBounded small_environment default_lifecycle ((b'a' ∷ []) ∷ (b'b' ∷ []) ∷ [])
      empty_ledger empty_ledger-IsBounded

abbrev pub two_events : List Text
two_events = (b'a' ∷ []) ∷ (b'b' ∷ []) ∷ []

accept_batch-Retains_example :
    Retains small_environment default_lifecycle empty_ledger
      (accept_batch small_environment default_lifecycle two_events empty_ledger).1
accept_batch-Retains_example =
    accept_batch-Retains small_environment default_lifecycle two_events empty_ledger

abbrev receipt_of : Text → ℕ → Receipt
receipt_of id sequence = accepted (record {
  event_id = id;
  ledger_id = b'l' ∷ [];
  record_hash = event_hash small_environment default_lifecycle id;
  intake_sequence = sequence;
  accepted_at = [];
})

abbrev pub two_receipts : List Receipt
two_receipts = receipt_of (b'a' ∷ []) 1 ∷ receipt_of (b'b' ∷ []) 2 ∷ []

abbrev pub ledger_after : State Text ℕ
ledger_after = (accept_batch small_environment default_lifecycle two_events empty_ledger).1

pub two_accepted :
    accept_batch small_environment default_lifecycle two_events empty_ledger
    ≡ (ok two_receipts, ledger_after)
unfolding accept_batch glare9_provenance.Prelude.Action.◌>>=◌ glare9_provenance.Prelude.Action.lift
    glare9_provenance.Prelude.Action.gets glare9_provenance.Prelude.Action.return
    glare9_provenance.Ledger.Accept.check_conflicts glare9_provenance.Ledger.Accept.new_items
    glare9_provenance.Ledger.Accept.check_capacity glare9_provenance.Ledger.Accept.accept_items
    glare9_provenance.Ledger.Accept.accept_item glare9_provenance.Ledger.Accept.retain
    glare9_provenance.Ledger.Accept.sum_bytes glare9_provenance.Prelude.Dict.get
    glare9_provenance.Prelude.Dict.has glare9_provenance.Prelude.Dict.set
    glare9_provenance.Ledger.Accept.accepted_receipt glare9_provenance.Ledger.Accept.prepare
    glare9_provenance.Ledger.Accept.conflicts glare9_provenance.Ledger.Accept.sealed_hash
    glare9_provenance.Ledger.Accept.pending_hash glare9_provenance.Ledger.Accept.validate_all
    glare9_provenance.Prelude.Octets.equals utf8 glare9_provenance.Codec.Utf8.utf8_char
two_accepted = refl

accept_batch-known_example :
    All (λ event. is_known small_environment default_lifecycle ledger_after event ≡ true) two_events
    × (length two_receipts ≡ length two_events)
accept_batch-known_example =
    accept_batch-known small_environment default_lifecycle two_events empty_ledger ledger_after
      two_receipts two_accepted
