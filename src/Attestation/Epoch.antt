-- ===== src/Attestation/Epoch.antt =====
-- src/routing-epoch.js: the signed descriptors of routing epochs. The storage that a file is
-- published to, and stat and readFile, are left out.
pub mod RoundTrip
pub mod Sound
use glare9_provenance.Prelude.{
  ℕ, Bytes, Bool, false, ◌&&◌, ◌||◌, [], ◌∷◌, List, ltb, ◌==◌, if◌then◌else◌, length, Option, none,
  some, Result, ok, err, ◌>>=◌, ◌>>◌, invariant,
}
use glare9_provenance.Prelude.Octets.{equals}
use glare9_provenance.Codec.Utf8.{Text}
use glare9_provenance.Codec.Value.{Value}
use glare9_provenance.Codec.Encode.{encode_canonical, default_limits}
use glare9_provenance.Codec.Decode.{decode_canonical}
use glare9_provenance.Format.Framing.{routing_epoch}
use glare9_provenance.Crypto.{codes, digest}
use glare9_provenance.Crypto.Signatures.{
  Platform, Signer, ed25519, public_key_id, import_public_key, verify_domain_commitment,
}
use glare9_provenance.Ledger.Names.{to_hex}
use glare9_provenance.Sharding.{RoutingPolicy}
use glare9_provenance.Attestation.Checks.{is_null}
use glare9_provenance.Attestation.Container.{container, parse}
use glare9_provenance.Attestation.Heads.{hex_heads}
use glare9_provenance.Attestation.Descriptor.{
  EpochLimits, default_epoch_limits, Descriptor, Parts, parts_value, descriptor_value,
  authority_value,
}
use glare9_provenance.Attestation.Validation.{
  validate_descriptor, validate_routing_policy, validate_signature,
}

-- What writeRoutingEpoch is given, with its defaults filled in.
pub record Request : Type 0 where
  pub ledger_id : Value
  pub epoch_number : Value
  pub created_at : Value
  pub previous_epoch_hash : Value
  pub previous_shard_heads : Value
  pub previous_routing_policy : Value
  pub routing_policy : Value
  pub topology_authority : Signer
  pub authorization_policy : Value
  pub reason : Value

-- The result of writeRoutingEpoch, and the bytes of the file.
pub record Written : Type 0 where
  pub file_bytes : Bytes
  pub ledger_id : Text
  pub epoch_number : ℕ
  pub routing_policy : RoutingPolicy
  pub epoch_hash : Text
  pub file_hash : Text
  pub topology_authority_key_id : Text
  pub byte_length : ℕ

-- The options of verifyRoutingEpochBytes; `none` is undefined, and `some none` a null.
pub record Options : Type 0 where
  pub limits : EpochLimits
  pub trusted_key_ids : List Text
  pub require_trusted_authority : Bool
  pub expected_ledger_id : Option Text
  pub expected_epoch_number : Option ℕ
  pub expected_previous_epoch_hash : Option (Option Bytes)
  pub expected_previous_routing_policy : Option Value

abbrev pub default_options : Options
default_options = record {
  limits = default_epoch_limits;
  trusted_key_ids = [];
  require_trusted_authority = false;
  expected_ledger_id = none;
  expected_epoch_number = none;
  expected_previous_epoch_hash = none;
  expected_previous_routing_policy = none;
}

-- The result of verifyRoutingEpochBytes: the hashes in the descriptor are hexadecimal texts.
pub record Report : Type 0 where
  pub descriptor : Descriptor
  pub epoch_hash : Text
  pub file_hash : Text
  pub topology_authority_trusted : Bool
  pub byte_length : ℕ

-- trustedKeyIds.has(keyId)
unfoldable pub has_key : List Text → Text → Bool
has_key [] key_id = false
has_key (k ∷ ks) key_id = equals k key_id || has_key ks key_id

-- previousEpochHash and previousShardHeads with toHex
unfoldable pub with_hex_hashes : Descriptor → Descriptor
with_hex_hashes d = record d {
  previous_epoch_hash = elim d.previous_epoch_hash [ none ↦ none | some h ↦ some (to_hex h) ];
  previous_shard_heads = hex_heads d.previous_shard_heads;
}

-- A check that an option asks for.
abbrev pub if_given {ℓ} : {A : Type ℓ} → Option A → (A → Result (Unit {0})) → Result (Unit {0})
if_given none check = ok tt
if_given (some a) check = check a

-- The link to the expected predecessor; buffersEqual throws a TypeError for a null.
unfoldable pub check_link : Option Bytes → Option Bytes → Result (Unit {0})
check_link expected none = if_given expected (λ hash. err "TypeError")
check_link none (some previous) = err "EPOCH_PREVIOUS"
check_link (some hash) (some previous) = invariant (equals previous hash) "EPOCH_PREVIOUS"

-- The previous policy that is expected, and the heads of all its shards.
unfoldable pub check_previous_policy : Descriptor → Value → Result (Unit {0})
check_previous_policy d value = do
  policy ← validate_routing_policy value
  invariant (ltb 0 d.epoch_number) "EPOCH_PREVIOUS_POLICY"
  invariant (length d.previous_shard_heads == policy.shard_count) "EPOCH_SHARD_HEADS"

-- The checks that the options ask for.
unfoldable pub check_options : Options → Descriptor → Result (Unit {0})
unfolding has_key check_link check_previous_policy
check_options options d =
    (if options.require_trusted_authority
      then invariant (has_key options.trusted_key_ids d.topology_authority.key_id)
          "EPOCH_UNTRUSTED_AUTHORITY"
      else ok tt)
    >> (if_given options.expected_ledger_id
          (λ ledger_id. invariant (equals d.ledger_id ledger_id) "EPOCH_LEDGER")
        >> (if_given options.expected_epoch_number
              (λ number. invariant (d.epoch_number == number) "EPOCH_NUMBER")
            >> (if_given options.expected_previous_epoch_hash
                  (λ expected. check_link expected d.previous_epoch_hash)
                >> if_given options.expected_previous_routing_policy (check_previous_policy d))))

abbrev pub request_parts : Request → Parts
request_parts request =
    let signer = request.topology_authority in
    record {
      ledger_id = request.ledger_id;
      epoch_number = request.epoch_number;
      created_at = request.created_at;
      previous_epoch_hash = request.previous_epoch_hash;
      previous_shard_heads = request.previous_shard_heads;
      routing_policy = request.routing_policy;
      topology_authority =
          authority_value signer.algorithm
            (record { key_id = signer.key_id; public_key = signer.public_key_der });
      authorization_policy = request.authorization_policy;
      reason = request.reason;
    }

-- The object that descriptorForWrite validates.
unfoldable pub request_value : Request → Value
request_value request = parts_value (request_parts request)

-- The heads are those of all shards of the previous routing policy.
unfoldable pub check_previous_shards : Value → Descriptor → Result (Unit {0})
check_previous_shards previous_routing_policy d =
    if d.epoch_number == 0
    then invariant (is_null previous_routing_policy) "EPOCH_GENESIS"
    else (validate_routing_policy previous_routing_policy >>= λ previous.
        invariant (length d.previous_shard_heads == previous.shard_count) "EPOCH_SHARD_HEADS")

module _ (platform : Platform) where
  open platform use {sha256}

  unfoldable pub descriptor_for_write : EpochLimits → Request → Result Descriptor
  descriptor_for_write limits request = do
    let signer = request.topology_authority
    invariant (equals signer.algorithm ed25519 && signer.can_sign) "EPOCH_SIGNER"
    invariant (equals signer.key_id (public_key_id platform signer.public_key_der)) "EPOCH_SIGNER"
    d ← validate_descriptor platform limits (request_value request)
    check_previous_shards request.previous_routing_policy d
    ok d

  -- The digests of a statement and of a file, as texts.
  unfoldable pub epoch_hash_text : Bytes → Text
  epoch_hash_text payload = to_hex (digest sha256 (codes "routing-epoch-v1") (payload ∷ []))

  unfoldable pub epoch_file_hash_text : Bytes → Text
  epoch_file_hash_text file = to_hex (digest sha256 (codes "routing-epoch-file-v1") (file ∷ []))

  -- writeRoutingEpoch(request), up to the publication of the file
  unfoldable pub write_routing_epoch : Request → Result Written
  unfolding descriptor_for_write epoch_hash_text epoch_file_hash_text
  write_routing_epoch request = do
    d ← descriptor_for_write default_epoch_limits request
    payload ← encode_canonical default_limits (descriptor_value d)
    file ←
        container platform routing_epoch payload request.topology_authority
          (codes "routing-epoch-signature-v1")
    ok (record {
      file_bytes = file;
      ledger_id = d.ledger_id;
      epoch_number = d.epoch_number;
      routing_policy = d.routing_policy;
      epoch_hash = epoch_hash_text payload;
      file_hash = epoch_file_hash_text file;
      topology_authority_key_id = d.topology_authority.key_id;
      byte_length = length file;
    })

  -- The embedded key has its ID and has signed the statement.
  unfoldable pub check_authority : Descriptor → Bytes → Bytes → Result (Unit {0})
  check_authority d payload signed = do
    invariant
        (equals (public_key_id platform d.topology_authority.public_key)
          d.topology_authority.key_id)
        "EPOCH_KEY_ID"
    key ← import_public_key platform "EPOCH_PUBLIC_KEY" d.topology_authority.public_key
    valid ←
        verify_domain_commitment platform key (codes "routing-epoch-signature-v1") payload signed
    invariant valid "EPOCH_SIGNATURE"

  -- verifyRoutingEpochBytes(bytes, options)
  unfoldable pub verify_routing_epoch_bytes : Options → Bytes → Result Report
  unfolding check_authority check_options with_hex_hashes epoch_hash_text epoch_file_hash_text
  verify_routing_epoch_bytes options input = do
    (payload, signature_payload) ←
        parse "EPOCH_FILE_LIMIT" "EPOCH_END_FRAME" routing_epoch options.limits.files input
    value ← decode_canonical default_limits payload
    d ← validate_descriptor platform options.limits value
    signature ← decode_canonical default_limits signature_payload
    signed ← validate_signature signature d
    check_authority d payload signed
    check_options options d
    ok (record {
      descriptor = with_hex_hashes d;
      epoch_hash = epoch_hash_text payload;
      file_hash = epoch_file_hash_text input;
      topology_authority_trusted = has_key options.trusted_key_ids d.topology_authority.key_id;
      byte_length = length input;
    })
