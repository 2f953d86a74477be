-- ===== src/Attestation/Checkpoint.antt =====
-- src/checkpoint.js: the verification of signed checkpoints, of the receipts of witnesses, and of a
-- threshold of them. stat and readFile are left out.
pub mod Named
use glare9_provenance.Prelude.{
  ℕ, Bytes, Bool, true, false, ◌&&◌, [], ◌∷◌, List, leb, ltb, if◌then◌else◌, length, Option, none,
  some, String, Result, ok, ◌>>=◌, ◌>>◌, invariant,
}
use glare9_provenance.Prelude.Octets.{equals}
use glare9_provenance.Codec.Utf8.{Text}
use glare9_provenance.Codec.Value.{Value, Fields, count_items}
use glare9_provenance.Crypto.{codes}
use glare9_provenance.Crypto.Signatures.{Platform, ed25519, public_key_id}
use glare9_provenance.Ledger.Lookup.{is_hash_text}
use glare9_provenance.Attestation.Checks.{
  exact_fields, property, is_null, is_number, is_text, natural_of, bytes_of, text_of, require,
}
use glare9_provenance.Attestation.Timestamp.{is_timestamp}
use glare9_provenance.Attestation.Container.{FileLimits}
use glare9_provenance.Attestation.Heads.{Head, check_heads}
use glare9_provenance.Attestation.Descriptor.{Authority}
use glare9_provenance.Attestation.Validation.{items_of}
use glare9_provenance.Attestation.Epoch.{has_key}

pub record Checkpoint : Type 0 where
  pub ledger_id : Text
  pub checkpoint_number : ℕ
  pub created_at : Text
  pub previous_checkpoint_hash : Option Bytes
  pub routing_epoch_number : ℕ
  pub routing_epoch_hash : Bytes
  pub shard_heads : List Head
  pub publisher : Authority

pub record WitnessStatement : Type 0 where
  pub ledger_id : Text
  pub checkpoint_number : ℕ
  pub checkpoint_hash : Bytes
  pub checkpoint_file_hash : Bytes
  pub observed_at : Text
  pub signer : Authority

-- exact(value, fields, code, name)
abbrev pub exact : String → List Text → Value → Result Fields
exact code fields value = exact_fields code code fields value

-- integer(value, name)
abbrev pub integer_of : Value → Result ℕ
integer_of value = require "ATTESTATION_INTEGER" (natural_of value)

unfoldable pub timestamp_of : Value → Result Text
timestamp_of value = do
  t ← require "ATTESTATION_TIMESTAMP" (text_of value)
  invariant (is_timestamp t) "ATTESTATION_TIMESTAMP"
  ok t

-- hash(value, name)
abbrev pub required_hash : Value → Result Bytes
required_hash value = require "ATTESTATION_HASH" (bytes_of 32 value)

-- hash(value, name, true)
unfoldable pub nullable_hash_of : Value → Result (Option Bytes)
nullable_hash_of value =
    if is_null value then ok none else (required_hash value >>= λ hash. ok (some hash))

-- value.ledgerId, which is a text and not empty.
unfoldable pub ledger_of : String → Value → Result Text
ledger_of code value = do t ← require code (text_of value); invariant (ltb 0 (length t)) code; ok t

unfoldable pub validate_heads : ℕ → Value → Result (List Head)
validate_heads epoch_number value = do
  items ← require "CHECKPOINT_HEADS" (items_of value)
  invariant (leb 1 (count_items items) && leb (count_items items) 65_536) "CHECKPOINT_HEADS"
  check_heads "CHECKPOINT_HEAD" "CHECKPOINT_HEAD" "CHECKPOINT_HEAD" epoch_number 0 items

abbrev pub checkpoint_fields : List Text
checkpoint_fields =
    codes "kind"
    ∷ codes "protocolVersion"
    ∷ codes "ledgerId"
    ∷ codes "checkpointNumber"
    ∷ codes "createdAt"
    ∷ codes "previousCheckpointHash"
    ∷ codes "routingEpochNumber"
    ∷ codes "routingEpochHash"
    ∷ codes "shardHeads"
    ∷ codes "publisher"
    ∷ []

abbrev pub witness_fields : List Text
witness_fields =
    codes "kind"
    ∷ codes "protocolVersion"
    ∷ codes "ledgerId"
    ∷ codes "checkpointNumber"
    ∷ codes "checkpointHash"
    ∷ codes "checkpointFileHash"
    ∷ codes "observedAt"
    ∷ codes "witness"
    ∷ []

-- signature(value, signer): the signature's bytes.
unfoldable pub signature_of : Value → Authority → Result Bytes
signature_of value signer = do
  fs ←
      exact "ATTESTATION_SIGNATURE" (codes "algorithm" ∷ codes "keyId" ∷ codes "signature" ∷ [])
        value
  invariant
      (is_text ed25519 (property (codes "algorithm") fs)
        && is_text signer.key_id (property (codes "keyId") fs))
      "ATTESTATION_SIGNATURE"
  require "ATTESTATION_SIGNATURE" (bytes_of 64 (property (codes "signature") fs))

-- The options of the verifiers; `some none` is an expected null.
pub record CheckOptions : Type 0 where
  pub limits : FileLimits
  pub trusted_key_ids : List Text
  pub require_trusted_signer : Bool
  pub expected_previous_checkpoint_hash : Option Value

-- trusted(options, keyId, requiredCode)
unfoldable pub check_trusted : CheckOptions → Text → String → Result Bool
check_trusted options key_id code =
    if options.require_trusted_signer
    then invariant (has_key options.trusted_key_ids key_id) code >> ok true
    else ok (has_key options.trusted_key_ids key_id)

unfoldable pub same_hash : Option Bytes → Option Bytes → Bool
same_hash none none = true
same_hash none (some h) = false
same_hash (some e) none = false
same_hash (some e) (some h) = equals e h

-- The link to the expected predecessor, and whether it was checked.
unfoldable pub check_previous : Option Value → Option Bytes → Result Bool
unfolding same_hash
check_previous none previous = ok false
check_previous (some value) previous = do
  expected ← nullable_hash_of value
  invariant (same_hash expected previous) "CHECKPOINT_PREVIOUS_HASH"
  ok true

-- What verifyCheckpointBytes reports; the hashes in `statement` are bytes.
pub record CheckpointReport : Type 0 where
  pub statement : Checkpoint
  pub previous_hash_verified : Bool
  pub checkpoint_hash : Text
  pub file_hash : Text
  pub publisher_trusted : Bool

pub record ReceiptReport : Type 0 where
  pub statement : WitnessStatement
  pub checkpoint_hash : Text
  pub checkpoint_file_hash : Text
  pub receipt_hash : Text
  pub file_hash : Text
  pub witness_key_id : Text
  pub witness_trusted : Bool

module _ (platform : Platform) where
  open platform use {sha256}

  -- identity(value, name)
  unfoldable pub identity : Value → Result Authority
  identity value = do
    fs ←
        exact "ATTESTATION_IDENTITY" (codes "algorithm" ∷ codes "keyId" ∷ codes "publicKey" ∷ [])
          value
    key_id ← require "ATTESTATION_IDENTITY" (text_of (property (codes "keyId") fs))
    invariant (is_text ed25519 (property (codes "algorithm") fs) && is_hash_text key_id)
        "ATTESTATION_IDENTITY"
    public_key ← require "ATTESTATION_IDENTITY" (bytes_of 44 (property (codes "publicKey") fs))
    invariant (equals (public_key_id platform public_key) key_id) "ATTESTATION_IDENTITY"
    ok (record { key_id = key_id; public_key = public_key })

  unfoldable pub validate_checkpoint : Value → Result Checkpoint
  validate_checkpoint value = do
    fs ← exact "CHECKPOINT_FIELDS" checkpoint_fields value
    invariant
        (is_text (codes "g9p-checkpoint") (property (codes "kind") fs)
          && is_number 1 (property (codes "protocolVersion") fs))
        "CHECKPOINT_VERSION"
    ledger_id ← ledger_of "CHECKPOINT_VERSION" (property (codes "ledgerId") fs)
    epoch_number ← integer_of (property (codes "routingEpochNumber") fs)
    number ← integer_of (property (codes "checkpointNumber") fs)
    created_at ← timestamp_of (property (codes "createdAt") fs)
    previous ← nullable_hash_of (property (codes "previousCheckpointHash") fs)
    epoch_hash ← required_hash (property (codes "routingEpochHash") fs)
    heads ← validate_heads epoch_number (property (codes "shardHeads") fs)
    publisher ← identity (property (codes "publisher") fs)
    ok (record {
      ledger_id = ledger_id;
      checkpoint_number = number;
      created_at = created_at;
      previous_checkpoint_hash = previous;
      routing_epoch_number = epoch_number;
      routing_epoch_hash = epoch_hash;
      shard_heads = heads;
      publisher = publisher;
    })

  unfoldable pub validate_witness : Value → Result WitnessStatement
  validate_witness value = do
    fs ← exact "WITNESS_FIELDS" witness_fields value
    invariant
        (is_text (codes "g9p-witness-receipt") (property (codes "kind") fs)
          && is_number 1 (property (codes "protocolVersion") fs))
        "WITNESS_VERSION"
    ledger_id ← ledger_of "WITNESS_VERSION" (property (codes "ledgerId") fs)
    number ← integer_of (property (codes "checkpointNumber") fs)
    hash ← required_hash (property (codes "checkpointHash") fs)
    file_hash ← required_hash (property (codes "checkpointFileHash") fs)
    observed_at ← timestamp_of (property (codes "observedAt") fs)
    signer ← identity (property (codes "witness") fs)
    ok (record {
      ledger_id = ledger_id;
      checkpoint_number = number;
      checkpoint_hash = hash;
      checkpoint_file_hash = file_hash;
      observed_at = observed_at;
      signer = signer;
    })
