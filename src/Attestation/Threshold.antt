-- ===== src/Attestation/Threshold.antt =====
-- verifyCheckpointBytes, verifyWitnessReceiptBytes and verifyThresholdAttestation of src/checkpoint.js.
-- A threshold policy is an object of its kind and version with exactly its fields.
pub mod Signed
pub mod Sound
use glare9_provenance.Prelude.{
  ℕ, Bytes, Bool, true, false, ◌&&◌, not, [], ◌∷◌, List, leb, if◌then◌else◌, length, Option, none,
  some, Result, ok, err, ◌>>=◌, ◌>>◌, invariant,
}
use glare9_provenance.Prelude.Octets.{equals, before}
use glare9_provenance.Codec.Utf8.{Text}
use glare9_provenance.Codec.Encode.{default_limits}
use glare9_provenance.Codec.Decode.{decode_canonical}
use glare9_provenance.Format.Framing.{checkpoint, witness}
use glare9_provenance.Crypto.{codes, digest}
use glare9_provenance.Crypto.Signatures.{Platform, import_public_key, verify_domain_commitment}
use glare9_provenance.Ledger.Names.{to_hex}
use glare9_provenance.Ledger.Lookup.{is_hash_text}
use glare9_provenance.Attestation.Checks.{sort_keys}
use glare9_provenance.Attestation.Container.{default_file_limits, parse}
use glare9_provenance.Attestation.Epoch.{has_key}
use glare9_provenance.Attestation.Checkpoint.{
  Checkpoint, WitnessStatement, CheckOptions, CheckpointReport, ReceiptReport, signature_of,
  check_trusted, check_previous, validate_checkpoint, validate_witness,
}

pub record ThresholdPolicy : Type 0 where
  pub threshold : ℕ
  pub witness_key_ids : List Text

-- every((id, index) => hex(id) && (index === 0 || ids[index - 1] < id)), behind the one before
unfoldable pub are_sorted : Option Text → List Text → Bool
are_sorted previous [] = true
are_sorted none (id ∷ ids) = is_hash_text id && are_sorted (some id) ids
are_sorted (some previous) (id ∷ ids) =
    is_hash_text id && (before previous id && are_sorted (some id) ids)

abbrev pub max_witnesses : ℕ
max_witnesses = 1_024

unfoldable pub check_policy : ThresholdPolicy → Result (Unit {0})
unfolding are_sorted
check_policy policy =
    invariant (leb 1 policy.threshold) "THRESHOLD_POLICY"
    >> (invariant
          (leb (length policy.witness_key_ids) max_witnesses
            && are_sorted none policy.witness_key_ids)
          "THRESHOLD_POLICY"
        >> invariant (leb policy.threshold (length policy.witness_key_ids)) "THRESHOLD_POLICY")

-- { trustedKeyIds, requireTrustedSigner: true }
abbrev pub trusting : List Text → CheckOptions
trusting key_ids = record {
  limits = default_file_limits;
  trusted_key_ids = key_ids;
  require_trusted_signer = true;
  expected_previous_checkpoint_hash = none;
}

-- The receipt is for the checkpoint and its file.
unfoldable pub is_matching : CheckpointReport → ReceiptReport → Bool
is_matching c r =
    equals r.checkpoint_hash c.checkpoint_hash && equals r.checkpoint_file_hash c.file_hash

-- new Set(receipts.filter(matching).map((receipt) => receipt.witnessKeyId)), in some order
unfoldable pub matching_keys : CheckpointReport → List ReceiptReport → List Text
unfolding is_matching
matching_keys c [] = []
matching_keys c (r ∷ rs) =
    let rest = matching_keys c rs in
    if is_matching c r && not (has_key rest r.witness_key_id) then r.witness_key_id ∷ rest else rest

pub record ThresholdReport : Type 0 where
  pub checkpoint_hash : Text
  pub threshold : ℕ
  pub witness_count : ℕ
  pub witness_key_ids : List Text

module _ (platform : Platform) where
  open platform use {sha256}

  unfoldable pub hash_text : Bytes → Bytes → Text
  hash_text domain content = to_hex (digest sha256 domain (content ∷ []))

  -- verifyCheckpointBytes(bytes, options)
  unfoldable pub verify_checkpoint_bytes : CheckOptions → Bytes → Result CheckpointReport
  unfolding hash_text
  verify_checkpoint_bytes options input = do
    (payload, signature_payload) ←
        parse "ATTESTATION_FILE_LIMIT" "ATTESTATION_END" checkpoint options.limits input
    value ← decode_canonical default_limits payload
    c ← validate_checkpoint platform value
    signature ← decode_canonical default_limits signature_payload
    signed ← signature_of signature c.publisher
    key ← import_public_key platform "CHECKPOINT_PUBLIC_KEY" c.publisher.public_key
    valid ← verify_domain_commitment platform key (codes "checkpoint-signature-v1") payload signed
    invariant valid "CHECKPOINT_SIGNATURE"
    publisher_trusted ← check_trusted options c.publisher.key_id "CHECKPOINT_UNTRUSTED_PUBLISHER"
    linked ← check_previous options.expected_previous_checkpoint_hash c.previous_checkpoint_hash
    ok (record {
      statement = c;
      previous_hash_verified = linked;
      checkpoint_hash = hash_text (codes "checkpoint-v1") payload;
      file_hash = hash_text (codes "checkpoint-file-v1") input;
      publisher_trusted = publisher_trusted;
    })

  -- verifyWitnessReceiptBytes(bytes, options)
  unfoldable pub verify_witness_receipt_bytes : CheckOptions → Bytes → Result ReceiptReport
  unfolding hash_text
  verify_witness_receipt_bytes options input = do
    (payload, signature_payload) ←
        parse "ATTESTATION_FILE_LIMIT" "ATTESTATION_END" witness options.limits input
    value ← decode_canonical default_limits payload
    w ← validate_witness platform value
    signature ← decode_canonical default_limits signature_payload
    signed ← signature_of signature w.signer
    key ← import_public_key platform "WITNESS_PUBLIC_KEY" w.signer.public_key
    valid ← verify_domain_commitment platform key (codes "witness-signature-v1") payload signed
    invariant valid "WITNESS_SIGNATURE"
    witness_trusted ← check_trusted options w.signer.key_id "WITNESS_UNTRUSTED"
    ok (record {
      statement = w;
      checkpoint_hash = to_hex w.checkpoint_hash;
      checkpoint_file_hash = to_hex w.checkpoint_file_hash;
      receipt_hash = hash_text (codes "witness-receipt-v1") payload;
      file_hash = hash_text (codes "witness-file-v1") input;
      witness_key_id = w.signer.key_id;
      witness_trusted = witness_trusted;
    })

  -- Promise.all(witnessReceiptBytes.map(verify)); of several errors the first in the list.
  unfoldable pub verify_receipts : List Text → List Bytes → Result (List ReceiptReport)
  verify_receipts key_ids [] = ok []
  verify_receipts key_ids (input ∷ inputs) = do
    r ← verify_witness_receipt_bytes (trusting key_ids) input
    rs ← verify_receipts key_ids inputs
    ok (r ∷ rs)

  -- verifyThresholdAttestation({ checkpointBytes, witnessReceiptBytes, policy, trustedPublisherKeyIds })
  unfoldable pub verify_threshold_attestation :
      Bytes → List Bytes → ThresholdPolicy → List Text → Result ThresholdReport
  unfolding check_policy
  verify_threshold_attestation checkpoint_bytes receipt_bytes policy publishers = do
    check_policy policy
    invariant (leb (length receipt_bytes) max_witnesses) "THRESHOLD_RECEIPTS"
    c ← verify_checkpoint_bytes (trusting publishers) checkpoint_bytes
    receipts ← verify_receipts policy.witness_key_ids receipt_bytes
    let keys = matching_keys c receipts
    invariant (leb policy.threshold (length keys)) "THRESHOLD_NOT_MET"
    ok (record {
      checkpoint_hash = c.checkpoint_hash;
      threshold = policy.threshold;
      witness_count = length keys;
      witness_key_ids = sort_keys keys;
    })
