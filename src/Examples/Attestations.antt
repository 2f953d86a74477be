-- ===== src/Examples/Attestations.antt =====
-- src/routing-epoch.js and the recovery of its files at concrete epochs.
use glare9_provenance.Prelude.{
  ℕ, zero, suc, ◌+◌, ◌*◌, ◌/◌, ◌%◌, ◌≤◌, Bytes, Bool, true, false, ◌&&◌, [], ◌∷◌, ◌++◌, List, ◌==◌,
  ◌≡◌, refl, length, Option, none, some, Result, ok, err, arith, ◌⊎◌,
}
use glare9_provenance.Prelude.Octets.{equals}
use glare9_provenance.Codec.Utf8.{Text}
use glare9_provenance.Codec.Value.{
  Value, null, number, integer, pos, string, array, no_items, bytes, IsNormal,
}
use glare9_provenance.Crypto.{codes, Collision}
use glare9_provenance.Crypto.Signatures.{Platform, Signer, public_key_id, ed25519}
use glare9_provenance.Sharding.{routing_policy_id}
use glare9_provenance.Attestation.Descriptor.{
  Descriptor, default_epoch_limits, policy_value, authorization_policy,
}
use glare9_provenance.Attestation.Epoch.{
  Request, Written, Report, default_options, write_routing_epoch, verify_routing_epoch_bytes,
  descriptor_for_write, with_hex_hashes,
}
use glare9_provenance.Attestation.Heads.{head_items}
use glare9_provenance.Attestation.Epoch.RoundTrip.{verify_routing_epoch_bytes-write_routing_epoch}
use glare9_provenance.Crypto.Hex.{from_hex}
use glare9_provenance.Sharding.{shard_id}
use glare9_provenance.Ledger.Names.{routing_epoch_file_name, ledger_directory_name}
use glare9_provenance.Ledger.Recovery.{Stored, recover_epochs, last_report}
use glare9_provenance.Ledger.Recovery.History.{IsHistory}
use glare9_provenance.Ledger.Recovery.Linked.{recover_epochs-IsHistory}
use glare9_provenance.Ledger.Recovery.Unique.{recover_epochs_unique, descriptors}

-- A hash of 32 bytes that tells some inputs apart.
unfoldable pub total_bytes : ℕ → Bytes → ℕ
total_bytes total [] = total
total_bytes total (b ∷ bs) = total_bytes ((total * 31 + b) % 65521) bs

unfoldable pub repeat : ℕ → ℕ → Bytes
repeat zero b = []
repeat (suc n) b = b ∷ repeat n b

-- Signatures that repeat the message.
abbrev pub toy_platform : Platform
toy_platform = record {
  PublicKey = Bytes;
  sha256 = λ bytes. (total_bytes 7 bytes / 256) ∷ (total_bytes 7 bytes % 256) ∷ repeat 30 5;
  is_nfc = λ t. true;
  create_public_key = λ der. some der;
  is_ed25519 = λ key. true;
  crypto_verify = λ message key signature. ok (equals signature (message ++ message));
}

abbrev pub toy_key : Bytes
toy_key = repeat 44 9

abbrev pub toy_signer : Signer
toy_signer = record {
  algorithm = ed25519;
  key_id = public_key_id toy_platform toy_key;
  public_key_der = toy_key;
  can_sign = true;
  sign = λ message. ok (message ++ message);
}

abbrev genesis : Request
genesis = record {
  ledger_id = string (codes "ledger");
  epoch_number = number (integer (pos 0));
  created_at = string (codes "2026-07-01T00:00:00.000Z");
  previous_epoch_hash = null;
  previous_shard_heads = array no_items;
  previous_routing_policy = null;
  routing_policy = policy_value (record { id = routing_policy_id; version = 1; shard_count = 2 });
  topology_authority = toy_signer;
  authorization_policy = authorization_policy;
  reason = string (codes "start");
}

abbrev pub value_or : {A : Type 0} → A → Result A → A
value_or other (ok a) = a
value_or other (err code) = other

abbrev nothing_written : Written
nothing_written = record {
  file_bytes = [];
  ledger_id = [];
  epoch_number = 0;
  routing_policy = record { id = []; version = 0; shard_count = 0 };
  epoch_hash = [];
  file_hash = [];
  topology_authority_key_id = [];
  byte_length = 0;
}

unfoldable pub genesis_written : Written
unfolding total_bytes repeat glare9_provenance.Prelude.Octets.equals
    glare9_provenance.Prelude.Octets.before glare9_provenance.Prelude.Octets.write_u32
    glare9_provenance.Prelude.Octets.read_u32 glare9_provenance.Codec.Varint.encode_var_uint
    glare9_provenance.Codec.Varint.read_var_uint glare9_provenance.Codec.Utf8.utf8_char
    glare9_provenance.Codec.Utf8.utf8 glare9_provenance.Codec.Utf8.decode_char
    glare9_provenance.Codec.Utf8.decode_text glare9_provenance.Codec.Value.count_items
    glare9_provenance.Codec.Value.count_fields glare9_provenance.Codec.Encode.encode_length
    glare9_provenance.Codec.Encode.encode_string_value glare9_provenance.Codec.Encode.encode_number
    glare9_provenance.Codec.Encode.sort_fields glare9_provenance.Codec.Encode.encode_items
    glare9_provenance.Codec.Encode.encode_fields glare9_provenance.Codec.Encode.encode_value
    glare9_provenance.Codec.Encode.encode_canonical glare9_provenance.Codec.Decode.read_byte
    glare9_provenance.Codec.Decode.read_bytes glare9_provenance.Codec.Decode.read_length
    glare9_provenance.Codec.Decode.decode_string glare9_provenance.Codec.Decode.decode_integer
    glare9_provenance.Codec.Decode.read_items glare9_provenance.Codec.Decode.read_fields
    glare9_provenance.Codec.Decode.assign_all glare9_provenance.Codec.Decode.decode_tagged
    glare9_provenance.Codec.Decode.decode_value glare9_provenance.Codec.Decode.decode_canonical
    glare9_provenance.Format.Framing.encode_frame glare9_provenance.Format.Framing.read_magic
    glare9_provenance.Format.Framing.read_frame glare9_provenance.Format.Framing.assert_end
    glare9_provenance.Crypto.length_prefix glare9_provenance.Crypto.prefixed
    glare9_provenance.Crypto.prefixed_parts glare9_provenance.Crypto.hash_message
    glare9_provenance.Crypto.digest glare9_provenance.Crypto.domain_hash
    glare9_provenance.Crypto.Hex.from_hex glare9_provenance.Crypto.Signatures.public_key_id
    glare9_provenance.Crypto.Signatures.import_public_key
    glare9_provenance.Crypto.Signatures.validate_signer
    glare9_provenance.Crypto.Signatures.verify_domain_commitment
    glare9_provenance.Crypto.Signatures.sign_domain_with_signer
    glare9_provenance.Ledger.Names.to_hex glare9_provenance.Ledger.Names.number_text
    glare9_provenance.Ledger.Names.padded glare9_provenance.Ledger.Names.routing_epoch_file_name
    glare9_provenance.Ledger.Names.ledger_directory_name
    glare9_provenance.Ledger.Lookup.all_hex_digits glare9_provenance.Sharding.decimal
    glare9_provenance.Sharding.shard_id glare9_provenance.Sharding.is_shard_id
    glare9_provenance.Attestation.Checks.exact_fields glare9_provenance.Attestation.Checks.property
    glare9_provenance.Attestation.Checks.is_text glare9_provenance.Attestation.Checks.is_number
    glare9_provenance.Attestation.Checks.text_of glare9_provenance.Attestation.Checks.bytes_of
    glare9_provenance.Attestation.Checks.natural_of glare9_provenance.Attestation.Checks.is_null
    glare9_provenance.Attestation.Checks.require
    glare9_provenance.Attestation.Timestamp.is_timestamp
    glare9_provenance.Attestation.Container.container glare9_provenance.Attestation.Container.parse
    glare9_provenance.Attestation.Heads.check_head glare9_provenance.Attestation.Heads.check_heads
    glare9_provenance.Attestation.Heads.head_items
    glare9_provenance.Attestation.Descriptor.policy_value
    glare9_provenance.Attestation.Descriptor.authority_value
    glare9_provenance.Attestation.Descriptor.descriptor_value
    glare9_provenance.Attestation.Validation.safe_integer
    glare9_provenance.Attestation.Validation.canonical_timestamp
    glare9_provenance.Attestation.Validation.check_previous_hash
    glare9_provenance.Attestation.Validation.validate_routing_policy
    glare9_provenance.Attestation.Validation.validate_authorization_policy
    glare9_provenance.Attestation.Validation.validate_previous_shard_heads
    glare9_provenance.Attestation.Validation.validate_topology_authority
    glare9_provenance.Attestation.Validation.validate_signature
    glare9_provenance.Attestation.Validation.canonical_text
    glare9_provenance.Attestation.Validation.validate_descriptor
    glare9_provenance.Attestation.Epoch.request_value
    glare9_provenance.Attestation.Epoch.check_previous_shards
    glare9_provenance.Attestation.Epoch.write_routing_epoch
    glare9_provenance.Attestation.Epoch.verify_routing_epoch_bytes
    glare9_provenance.Ledger.Recovery.recover_epoch
genesis_written = value_or nothing_written (write_routing_epoch toy_platform genesis)

genesis_is_written : write_routing_epoch toy_platform genesis ≡ ok genesis_written
unfolding genesis_written
genesis_is_written = refl

-- The next epoch: one shard is empty, and one has a segment.
abbrev second : Request
second = record genesis {
  epoch_number = number (integer (pos 1));
  previous_epoch_hash = bytes (value_or [] (from_hex genesis_written.epoch_hash (some 32)));
  previous_shard_heads = array (
      head_items (
        record { epoch_number = 0; shard = shard_id 0; last_segment = none }
        ∷ record { epoch_number = 0; shard = shard_id 1; last_segment = some (0, repeat 32 1) }
        ∷ []));
  previous_routing_policy =
      policy_value (record { id = routing_policy_id; version = 1; shard_count = 2 });
  reason = string (codes "grow");
}

unfoldable second_written : Written
unfolding genesis_written
second_written = value_or nothing_written (write_routing_epoch toy_platform second)

abbrev two_files : List Stored
two_files =
    record { file_name = routing_epoch_file_name 0; content = genesis_written.file_bytes }
    ∷ record { file_name = routing_epoch_file_name 1; content = second_written.file_bytes }
    ∷ []

abbrev toy_directory : Text
toy_directory = ledger_directory_name toy_platform.sha256 (codes "ledger")

abbrev toy_recovery : Result (List Report)
toy_recovery = recover_epochs toy_platform toy_signer.key_id toy_directory 0 none two_files

unfoldable two_reports : List Report
unfolding second_written recover_epochs
two_reports = value_or [] toy_recovery

two_reports_recovered : toy_recovery ≡ ok two_reports
unfolding two_reports
two_reports_recovered = refl

recover_epochs-IsHistory_example :
    IsHistory toy_platform.sha256 toy_signer.key_id toy_directory none two_reports
recover_epochs-IsHistory_example =
    recover_epochs-IsHistory toy_platform toy_signer.key_id toy_directory two_files two_reports
      two_reports_recovered

two_reports_counted : length two_reports ≡ 2
unfolding two_reports
two_reports_counted = refl

recover_epochs_unique_example :
    (descriptors two_reports ≡ descriptors two_reports) ⊎ Collision toy_platform.sha256
recover_epochs_unique_example =
    recover_epochs_unique toy_platform toy_signer.key_id toy_directory toy_signer.key_id
      toy_directory two_files two_files two_reports two_reports two_reports_recovered
      two_reports_recovered refl

genesis_fits : length genesis_written.file_bytes ≤ 67108864
unfolding genesis_written
genesis_fits = omega arith

genesis_ledger_IsNormal : IsNormal genesis.ledger_id
genesis_ledger_IsNormal = (search arith, refl)

genesis_reason_IsNormal : IsNormal genesis.reason
genesis_reason_IsNormal = (search arith, refl)

verify_routing_epoch_bytes-write_routing_epoch_example :
    (d : Descriptor) × (report : Report) × (descriptor_for_write toy_platform default_epoch_limits
        genesis
      ≡ ok d)
    × (verify_routing_epoch_bytes toy_platform default_options genesis_written.file_bytes
        ≡ ok report)
    × (report.descriptor ≡ with_hex_hashes d)
    × (report.epoch_hash ≡ genesis_written.epoch_hash)
    × (report.file_hash ≡ genesis_written.file_hash)
verify_routing_epoch_bytes-write_routing_epoch_example =
    verify_routing_epoch_bytes-write_routing_epoch toy_platform genesis genesis_written
      genesis_is_written genesis_ledger_IsNormal genesis_reason_IsNormal genesis_fits
