-- ===== src/Attestation/Validation.antt =====
-- The validation of a routing epoch descriptor in src/routing-epoch.js, in the order of its checks.
pub mod Parts
pub mod Valid
pub mod Normal
use glare9_provenance.Prelude.{
  ℕ, ◌-◌, Bytes, ◌&&◌, [], ◌∷◌, List, leb, ltb, ◌==◌, if◌then◌else◌, length, Option, none, some,
  Result, ok, ◌>>=◌, ◌>>◌, invariant,
}
use glare9_provenance.Codec.Utf8.{Text, utf8}
use glare9_provenance.Codec.Value.{Value, Items, array, count_items, max_safe_integer}
use glare9_provenance.Crypto.{codes}
use glare9_provenance.Crypto.Signatures.{Platform, ed25519}
use glare9_provenance.Ledger.Lookup.{is_hash_text}
use glare9_provenance.Sharding.{RoutingPolicy, routing_policy_id}
use glare9_provenance.Attestation.Checks.{
  exact_fields, property, is_null, is_number, is_text, natural_of, bytes_of, text_of, require,
}
use glare9_provenance.Attestation.Timestamp.{is_timestamp}
use glare9_provenance.Attestation.Heads.{Head, check_heads}
use glare9_provenance.Attestation.Descriptor.{
  EpochLimits, Authority, Descriptor, descriptor_kind, descriptor_fields,
}

-- safeInteger(value, name, { min, max })
unfoldable pub safe_integer : ℕ → ℕ → Value → Result ℕ
safe_integer low high value = do
  n ← require "EPOCH_INTEGER" (natural_of value)
  invariant (leb low n && leb n high) "EPOCH_INTEGER"
  ok n

unfoldable pub canonical_timestamp : Value → Result Text
canonical_timestamp value = do
  t ← require "EPOCH_TIMESTAMP" (text_of value)
  invariant (is_timestamp t) "EPOCH_TIMESTAMP"
  ok t

-- previousEpochHash, after the checks of the epoch's number
unfoldable pub check_previous_hash : ℕ → Value → Result (Option Bytes)
check_previous_hash epoch_number value =
    if epoch_number == 0
    then invariant (is_null value) "EPOCH_GENESIS" >> ok none
    else (require "EPOCH_BYTES" (bytes_of 32 value) >>= λ hash. ok (some hash))

unfoldable pub validate_routing_policy : Value → Result RoutingPolicy
validate_routing_policy value = do
  fs ←
      exact_fields "EPOCH_OBJECT" "EPOCH_FIELDS"
        (codes "id" ∷ codes "version" ∷ codes "shardCount" ∷ []) value
  invariant
      (is_text routing_policy_id (property (codes "id") fs)
        && is_number 1 (property (codes "version") fs))
      "EPOCH_ROUTING_POLICY"
  shard_count ← safe_integer 1 65_536 (property (codes "shardCount") fs)
  ok (record { id = routing_policy_id; version = 1; shard_count = shard_count })

unfoldable pub validate_authorization_policy : Value → Result (Unit {0})
validate_authorization_policy value = do
  fs ←
      exact_fields "EPOCH_OBJECT" "EPOCH_FIELDS"
        (codes "kind" ∷ codes "version" ∷ codes "threshold" ∷ []) value
  invariant
      (is_text (codes "single-ed25519") (property (codes "kind") fs)
        && (is_number 1 (property (codes "version") fs)
            && is_number 1 (property (codes "threshold") fs)))
      "EPOCH_AUTHORIZATION_POLICY"

-- The elements of an array; `none` for what is no array.
unfoldable pub items_of : Value → Option Items
items_of (array items) = some items
items_of _ = none

unfoldable pub validate_previous_shard_heads : EpochLimits → ℕ → Value → Result (List Head)
unfolding items_of
validate_previous_shard_heads limits epoch_number value = do
  items ← require "EPOCH_SHARD_HEADS" (items_of value)
  invariant (leb (count_items items) limits.max_previous_shard_heads) "EPOCH_SHARD_HEADS"
  if epoch_number == 0
      then invariant (count_items items == 0) "EPOCH_GENESIS" >> ok []
      else (invariant (ltb 0 (count_items items)) "EPOCH_SHARD_HEADS"
          >> check_heads "EPOCH_OBJECT" "EPOCH_FIELDS" "EPOCH_SHARD_HEAD" (epoch_number - 1) 0
              items)

unfoldable pub validate_topology_authority : Value → Result Authority
validate_topology_authority value = do
  fs ←
      exact_fields "EPOCH_OBJECT" "EPOCH_FIELDS"
        (codes "algorithm" ∷ codes "keyId" ∷ codes "publicKey" ∷ []) value
  invariant (is_text ed25519 (property (codes "algorithm") fs)) "EPOCH_SIGNATURE_ALGORITHM"
  key_id ← require "EPOCH_KEY_ID" (text_of (property (codes "keyId") fs))
  invariant (is_hash_text key_id) "EPOCH_KEY_ID"
  public_key ← require "EPOCH_PUBLIC_KEY" (bytes_of 44 (property (codes "publicKey") fs))
  ok (record { key_id = key_id; public_key = public_key })

-- validateSignature(value, descriptor): the signature's bytes.
unfoldable pub validate_signature : Value → Descriptor → Result Bytes
validate_signature value descriptor = do
  fs ←
      exact_fields "EPOCH_OBJECT" "EPOCH_FIELDS"
        (codes "algorithm" ∷ codes "keyId" ∷ codes "signature" ∷ []) value
  invariant (is_text ed25519 (property (codes "algorithm") fs)) "EPOCH_SIGNATURE_ALGORITHM"
  invariant (is_text descriptor.topology_authority.key_id (property (codes "keyId") fs))
      "EPOCH_KEY_ID"
  require "EPOCH_SIGNATURE_LENGTH" (bytes_of 64 (property (codes "signature") fs))

module _ (platform : Platform) where
  open platform use {sha256, is_nfc}

  -- canonicalText(value, name, maxBytes)
  unfoldable pub canonical_text : ℕ → Value → Result Text
  canonical_text max_bytes value = do
    t ← require "EPOCH_TEXT" (text_of value)
    invariant (ltb 0 (length t)) "EPOCH_TEXT"
    invariant (is_nfc t) "EPOCH_TEXT"
    invariant (leb (length (utf8 t)) max_bytes) "EPOCH_TEXT"
    ok t

  unfoldable pub validate_descriptor : EpochLimits → Value → Result Descriptor
  validate_descriptor limits value = do
    fs ← exact_fields "EPOCH_OBJECT" "EPOCH_FIELDS" descriptor_fields value
    invariant
        (is_text descriptor_kind (property (codes "kind") fs)
          && is_number 1 (property (codes "protocolVersion") fs))
        "EPOCH_VERSION"
    ledger_id ← canonical_text limits.max_ledger_id_bytes (property (codes "ledgerId") fs)
    epoch_number ← safe_integer 0 max_safe_integer (property (codes "epochNumber") fs)
    created_at ← canonical_timestamp (property (codes "createdAt") fs)
    previous_epoch_hash ← check_previous_hash epoch_number (property (codes "previousEpochHash") fs)
    heads ←
        validate_previous_shard_heads limits epoch_number (property (codes "previousShardHeads") fs)
    routing_policy ← validate_routing_policy (property (codes "routingPolicy") fs)
    authority ← validate_topology_authority (property (codes "topologyAuthority") fs)
    validate_authorization_policy (property (codes "authorizationPolicy") fs)
    reason ← canonical_text limits.max_reason_bytes (property (codes "reason") fs)
    ok (record {
      ledger_id = ledger_id;
      epoch_number = epoch_number;
      created_at = created_at;
      previous_epoch_hash = previous_epoch_hash;
      previous_shard_heads = heads;
      routing_policy = routing_policy;
      topology_authority = authority;
      reason = reason;
    })
