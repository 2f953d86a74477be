-- ===== src/Attestation/Descriptor.antt =====
-- The descriptor of a routing epoch in src/routing-epoch.js, and its object.
use glare9_provenance.Prelude.{ℕ, Bytes, [], ◌∷◌, List, Option, none, some}
use glare9_provenance.Codec.Utf8.{Text}
use glare9_provenance.Codec.Value.{
  pos, integer, Value, null, number, string, bytes, array, object, no_fields, field,
}
use glare9_provenance.Crypto.{codes}
use glare9_provenance.Crypto.Signatures.{ed25519}
use glare9_provenance.Sharding.{RoutingPolicy}
use glare9_provenance.Attestation.Container.{FileLimits, default_file_limits}
use glare9_provenance.Attestation.Heads.{Head, head_items}

pub record EpochLimits : Type 0 where
  pub files : FileLimits
  pub max_previous_shard_heads : ℕ
  pub max_ledger_id_bytes : ℕ
  pub max_reason_bytes : ℕ

-- DEFAULT_LIMITS
abbrev pub default_epoch_limits : EpochLimits
default_epoch_limits = record {
  files = default_file_limits;
  max_previous_shard_heads = 65_536;
  max_ledger_id_bytes = 1024;
  max_reason_bytes = 4096;
}

-- The topology authority; its algorithm is ed25519.
pub record Authority : Type 0 where
  pub key_id : Text
  pub public_key : Bytes

-- A descriptor of kind "g9p-routing-epoch" and protocol version 1, under AUTHORIZATION_POLICY.
pub record Descriptor : Type 0 where
  pub ledger_id : Text
  pub epoch_number : ℕ
  pub created_at : Text
  pub previous_epoch_hash : Option Bytes
  pub previous_shard_heads : List Head
  pub routing_policy : RoutingPolicy
  pub topology_authority : Authority
  pub reason : Text

abbrev pub descriptor_kind : Text
descriptor_kind = codes "g9p-routing-epoch"

abbrev pub descriptor_fields : List Text
descriptor_fields =
    codes "kind"
    ∷ codes "protocolVersion"
    ∷ codes "ledgerId"
    ∷ codes "epochNumber"
    ∷ codes "createdAt"
    ∷ codes "previousEpochHash"
    ∷ codes "previousShardHeads"
    ∷ codes "routingPolicy"
    ∷ codes "topologyAuthority"
    ∷ codes "authorizationPolicy"
    ∷ codes "reason"
    ∷ []

-- AUTHORIZATION_POLICY
abbrev pub authorization_policy : Value
authorization_policy = object (
    field (codes "kind") (string (codes "single-ed25519")) (
      field (codes "threshold") (number (integer (pos 1)))
        (field (codes "version") (number (integer (pos 1))) no_fields)))

unfoldable pub policy_value : RoutingPolicy → Value
policy_value policy = object (
    field (codes "id") (string policy.id) (
      field (codes "shardCount") (number (integer (pos policy.shard_count)))
        (field (codes "version") (number (integer (pos policy.version))) no_fields)))

unfoldable pub authority_value : Text → Authority → Value
authority_value algorithm authority = object (
    field (codes "algorithm") (string algorithm) (
      field (codes "keyId") (string authority.key_id)
        (field (codes "publicKey") (bytes authority.public_key) no_fields)))

-- What the descriptor's object holds, given its fields that are checked.
pub record Parts : Type 0 where
  pub ledger_id : Value
  pub epoch_number : Value
  pub created_at : Value
  pub previous_epoch_hash : Value
  pub previous_shard_heads : Value
  pub routing_policy : Value
  pub topology_authority : Value
  pub authorization_policy : Value
  pub reason : Value

unfoldable pub parts_value : Parts → Value
parts_value parts = object (
    field (codes "authorizationPolicy") parts.authorization_policy (
      field (codes "createdAt") parts.created_at (
        field (codes "epochNumber") parts.epoch_number (
          field (codes "kind") (string descriptor_kind) (
            field (codes "ledgerId") parts.ledger_id (
              field (codes "previousEpochHash") parts.previous_epoch_hash (
                field (codes "previousShardHeads") parts.previous_shard_heads (
                  field (codes "protocolVersion") (number (integer (pos 1))) (
                    field (codes "reason") parts.reason (
                      field (codes "routingPolicy") parts.routing_policy (
                        field (codes "topologyAuthority") parts.topology_authority
                          no_fields)))))))))))

abbrev pub nullable_bytes : Option Bytes → Value
nullable_bytes none = null
nullable_bytes (some b) = bytes b

abbrev pub descriptor_parts : Descriptor → Parts
descriptor_parts d = record {
  ledger_id = string d.ledger_id;
  epoch_number = number (integer (pos d.epoch_number));
  created_at = string d.created_at;
  previous_epoch_hash = nullable_bytes d.previous_epoch_hash;
  previous_shard_heads = array (head_items d.previous_shard_heads);
  routing_policy = policy_value d.routing_policy;
  topology_authority = authority_value ed25519 d.topology_authority;
  authorization_policy = authorization_policy;
  reason = string d.reason;
}

-- The object that validateDescriptor returns.
unfoldable pub descriptor_value : Descriptor → Value
unfolding parts_value
descriptor_value d = parts_value (descriptor_parts d)
