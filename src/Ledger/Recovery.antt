-- ===== src/Ledger/Recovery.antt =====
-- #loadRoutingEpochs of services/ledger/src/local-ledger.js, for the files of one ledger: the
-- signed history that the service trusts when it starts. The files come in the order of their keys.
pub mod History
pub mod Linked
pub mod Unique
use glare9_provenance.Prelude.{
  ℕ, suc, Bytes, Bool, true, false, ◌&&◌, not, [], ◌∷◌, List, ◌==◌, if◌then◌else◌, Option, none,
  some, Result, ok, err, ◌>>=◌, ◌>>◌, invariant,
}
use glare9_provenance.Prelude.Octets.{equals}
use glare9_provenance.Codec.Utf8.{Text}
use glare9_provenance.Crypto.Hex.{from_hex}
use glare9_provenance.Crypto.Signatures.{Platform}
use glare9_provenance.Sharding.{RoutingPolicy}
use glare9_provenance.Attestation.Descriptor.{default_epoch_limits, policy_value}
use glare9_provenance.Attestation.Epoch.{Options, Report, verify_routing_epoch_bytes}
use glare9_provenance.Ledger.Names.{routing_epoch_file_name, ledger_directory_name}

-- A sealed file, under the last part of its key.
pub record Stored : Type 0 where
  pub file_name : Text
  pub content : Bytes

-- previousEpochHash, previousRoutingPolicy and ledgerId, which the loop carries on.
pub record Previous : Type 0 where
  pub epoch_hash : Bytes
  pub policy : RoutingPolicy
  pub ledger_id : Text

abbrev pub previous_of : Bytes → Report → Previous
previous_of hash report = record {
  epoch_hash = hash;
  policy = report.descriptor.routing_policy;
  ledger_id = report.descriptor.ledger_id;
}

-- The options of the verifier, behind the epoch before.
unfoldable pub recovery_options : Text → ℕ → Option Previous → Options
recovery_options authority epoch_number previous = record {
  limits = default_epoch_limits;
  trusted_key_ids = authority ∷ [];
  require_trusted_authority = true;
  expected_ledger_id = none;
  expected_epoch_number = some epoch_number;
  expected_previous_epoch_hash = some (elim previous [ none ↦ none | some p ↦ some p.epoch_hash ]);
  expected_previous_routing_policy = elim previous [
    | none ↦ none
    | some p ↦ some (policy_value p.policy)
  ];
}

-- ledgerId ??= verified.ledgerId; verified.ledgerId !== ledgerId
unfoldable pub is_same_ledger : Option Previous → Text → Bool
is_same_ledger none ledger_id = true
is_same_ledger (some p) ledger_id = equals ledger_id p.ledger_id

module _ (platform : Platform) (authority directory : Text) where
  open platform use {sha256}

  -- One round of the loop over the files.
  unfoldable pub recover_epoch : ℕ → Option Previous → Stored → Result Report
  unfolding recovery_options is_same_ledger
  recover_epoch epoch_number previous stored = do
    invariant (equals stored.file_name (routing_epoch_file_name epoch_number))
        "LEDGER_ROUTING_SEQUENCE"
    report ←
        verify_routing_epoch_bytes platform (recovery_options authority epoch_number previous)
          stored.content
    invariant
        (is_same_ledger previous report.descriptor.ledger_id
          && equals (ledger_directory_name sha256 report.descriptor.ledger_id) directory)
        "LEDGER_ROUTING_DIRECTORY"
    ok report

  -- The loop, from an epoch on: the verified history.
  unfoldable pub recover_epochs : ℕ → Option Previous → List Stored → Result (List Report)
  recover_epochs epoch_number previous [] = ok []
  recover_epochs epoch_number previous (stored ∷ files) = do
    report ← recover_epoch epoch_number previous stored
    hash ← from_hex report.epoch_hash (some 32)
    reports ← recover_epochs (suc epoch_number) (some (previous_of hash report)) files
    ok (report ∷ reports)

-- routingPoliciesEqual(left, right)
unfoldable pub routing_policies_equal : RoutingPolicy → RoutingPolicy → Bool
routing_policies_equal left right =
    equals left.id right.id
    && (left.version == right.version && left.shard_count == right.shard_count)

-- The last epoch of a history.
unfoldable pub last_report : List Report → Option Report
last_report [] = none
last_report (r ∷ []) = some r
last_report (r ∷ s ∷ reports) = last_report (s ∷ reports)

-- activeEpoch, which must have the configured policy while it is the first.
unfoldable pub check_active : RoutingPolicy → Option Report → Result (Unit {0})
check_active default_policy none = ok tt
check_active default_policy (some active) =
    invariant
      (not (
        active.descriptor.epoch_number == 0
        && not (routing_policies_equal active.descriptor.routing_policy default_policy)))
      "LEDGER_ROUTING_POLICY"

-- The history of one ledger, from its first epoch.
unfoldable pub recover_history :
    Platform → Text → RoutingPolicy → Text → List Stored → Result (List Report)
unfolding check_active last_report
recover_history platform authority default_policy directory files = do
  reports ← recover_epochs platform authority directory 0 none files
  check_active default_policy (last_report reports)
  ok reports
