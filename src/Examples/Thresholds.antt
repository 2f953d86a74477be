-- ===== src/Examples/Thresholds.antt =====
-- src/checkpoint.js at a checkpoint that one witness has signed.
use glare9_provenance.Prelude.{◌≤◌, Bytes, [], ◌∷◌, List, length, none, Result, ok, ◌≡◌, refl, All}
use glare9_provenance.Codec.Utf8.{Text}
use glare9_provenance.Codec.Value.{
  Value, null, number, integer, pos, string, bytes, array, object, field, no_fields,
}
use glare9_provenance.Codec.Encode.{encode_canonical, default_limits}
use glare9_provenance.Format.Framing.{FrameType, checkpoint, witness}
use glare9_provenance.Crypto.{codes, digest}
use glare9_provenance.Sharding.{shard_id}
use glare9_provenance.Attestation.Checks.{sort_keys}
use glare9_provenance.Attestation.Container.{container}
use glare9_provenance.Attestation.Heads.{head_items}
use glare9_provenance.Attestation.Descriptor.{authority_value}
use glare9_provenance.Crypto.Signatures.{ed25519}
use glare9_provenance.Attestation.Checkpoint.{CheckpointReport}
use glare9_provenance.Attestation.Threshold.{
  ThresholdPolicy, ThresholdReport, trusting, verify_checkpoint_bytes, verify_threshold_attestation,
}
use glare9_provenance.Attestation.Threshold.Signed.{IsCheckpoint}
use glare9_provenance.Attestation.Threshold.Sound.{
  Distinct, HasSigned, verify_threshold_attestation_sound,
}
use glare9_provenance.Examples.Attestations.{
  toy_platform, toy_key, toy_signer, value_or, genesis_written, repeat,
}

-- A statement in its container.
abbrev sealed_statement : FrameType → Bytes → Bytes → Bytes
sealed_statement type payload domain =
    value_or [] (container toy_platform type payload toy_signer domain)

abbrev signer_value : Value
signer_value = authority_value ed25519 (record { key_id = toy_signer.key_id; public_key = toy_key })

abbrev time_value : Value
time_value = string (codes "2026-07-02T00:00:00.000Z")

abbrev one : Value
one = number (integer (pos 1))

unfoldable checkpoint_payload : Bytes
unfolding genesis_written
checkpoint_payload = value_or [] (
    encode_canonical default_limits (
      object (
        field (codes "checkpointNumber") (number (integer (pos 0))) (
          field (codes "createdAt") time_value (
            field (codes "kind") (string (codes "g9p-checkpoint")) (
              field (codes "ledgerId") (string (codes "ledger")) (
                field (codes "previousCheckpointHash") null (
                  field (codes "protocolVersion") one (
                    field (codes "publisher") signer_value (
                      field (codes "routingEpochHash") (bytes (repeat 32 3)) (
                        field (codes "routingEpochNumber") (number (integer (pos 0))) (
                          field (codes "shardHeads")
                            (array (
                              head_items (
                                record { epoch_number = 0; shard = shard_id 0; last_segment = none }
                                ∷ [])))
                            no_fields))))))))))))

unfoldable checkpoint_file : Bytes
unfolding checkpoint_payload
checkpoint_file = sealed_statement checkpoint checkpoint_payload (codes "checkpoint-signature-v1")

abbrev hash_value : Text → Bytes → Value
hash_value domain content = bytes (digest toy_platform.sha256 domain (content ∷ []))

unfoldable receipt_payload : Bytes
unfolding checkpoint_file
receipt_payload = value_or [] (
    encode_canonical default_limits (
      object (
        field (codes "checkpointFileHash") (hash_value (codes "checkpoint-file-v1") checkpoint_file)
          (field (codes "checkpointHash") (hash_value (codes "checkpoint-v1") checkpoint_payload) (
            field (codes "checkpointNumber") (number (integer (pos 0))) (
              field (codes "kind") (string (codes "g9p-witness-receipt")) (
                field (codes "ledgerId") (string (codes "ledger")) (
                  field (codes "observedAt") time_value (
                    field (codes "protocolVersion") one
                      (field (codes "witness") signer_value no_fields))))))))))

unfoldable receipt_file : Bytes
unfolding receipt_payload
receipt_file = sealed_statement witness receipt_payload (codes "witness-signature-v1")

abbrev one_witness : ThresholdPolicy
one_witness = record { threshold = 1; witness_key_ids = toy_signer.key_id ∷ [] }

abbrev no_report : ThresholdReport
no_report = record { checkpoint_hash = []; threshold = 0; witness_count = 0; witness_key_ids = [] }

abbrev toy_attestation : Result ThresholdReport
toy_attestation =
    verify_threshold_attestation toy_platform checkpoint_file (receipt_file ∷ receipt_file ∷ [])
      one_witness (toy_signer.key_id ∷ [])

unfoldable toy_report : ThresholdReport
unfolding receipt_file verify_threshold_attestation
    glare9_provenance.Attestation.Checkpoint.timestamp_of
    glare9_provenance.Attestation.Checkpoint.nullable_hash_of
    glare9_provenance.Attestation.Checkpoint.ledger_of
    glare9_provenance.Attestation.Checkpoint.validate_heads
    glare9_provenance.Attestation.Checkpoint.signature_of
    glare9_provenance.Attestation.Checkpoint.check_trusted
    glare9_provenance.Attestation.Checkpoint.same_hash
    glare9_provenance.Attestation.Checkpoint.check_previous
    glare9_provenance.Attestation.Checkpoint.identity
    glare9_provenance.Attestation.Checkpoint.validate_checkpoint
    glare9_provenance.Attestation.Checkpoint.validate_witness
    glare9_provenance.Attestation.Threshold.are_sorted
    glare9_provenance.Attestation.Threshold.check_policy
    glare9_provenance.Attestation.Threshold.is_matching
    glare9_provenance.Attestation.Threshold.matching_keys
    glare9_provenance.Attestation.Threshold.hash_text
    glare9_provenance.Attestation.Threshold.verify_checkpoint_bytes
    glare9_provenance.Attestation.Threshold.verify_witness_receipt_bytes
    glare9_provenance.Attestation.Threshold.verify_receipts
toy_report = value_or no_report toy_attestation

toy_attestation_accepted : toy_attestation ≡ ok toy_report
unfolding toy_report
toy_attestation_accepted = refl

toy_attestation_count : toy_report.witness_count ≡ 1
unfolding toy_report
toy_attestation_count = refl

verify_threshold_attestation_sound_example :
    (c : CheckpointReport) × (keys : List Text) × IsCheckpoint toy_platform
      (toy_signer.key_id ∷ [])
      checkpoint_file
      c
    × (toy_report.checkpoint_hash ≡ c.checkpoint_hash)
    × (toy_report.witness_key_ids ≡ sort_keys keys)
    × (1 ≤ one_witness.threshold)
    × (one_witness.threshold ≤ length keys)
    × Distinct keys
    × All
        (HasSigned toy_platform one_witness.witness_key_ids (receipt_file ∷ receipt_file ∷ []) c)
        keys
verify_threshold_attestation_sound_example =
    verify_threshold_attestation_sound toy_platform checkpoint_file
      (receipt_file ∷ receipt_file ∷ []) one_witness (toy_signer.key_id ∷ []) toy_report
      toy_attestation_accepted
