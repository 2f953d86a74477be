-- ===== src/Attestation/Validation/Valid.antt =====
-- The descriptors that validateDescriptor of src/routing-epoch.js returns, and that it returns each of
-- them again from its own object.
use glare9_provenance.Prelude.{
  ℕ, zero, suc, ◌+◌, ◌-◌, ◌≤◌, ◌<◌, Bytes, Bool, true, false, ◌&&◌, not, [], ◌∷◌, List, leb, ltb,
  ◌==◌, ==_iff, ==_refl, ◌≡◌, refl, length, Option, none, some, Result, ok, arith, leb→le, le→leb,
  ltb→lt, lt→ltb, >>=-eq-ok, invariant-eq-ok, ok-injective, Bool-cases, inl, inr, Option-cases,
  subst, ap, ◌↔◌,
}
use glare9_provenance.Prelude.Octets.{equals, equals_refl}
use glare9_provenance.Codec.Value.{Fields, Value, max_safe_integer}
use glare9_provenance.Crypto.{codes}
use glare9_provenance.Crypto.Signatures.{Platform}
use glare9_provenance.Attestation.Checks.{exact_fields, property, is_number, is_text}
use glare9_provenance.Attestation.Timestamp.{is_timestamp}
use glare9_provenance.Attestation.Descriptor.{
  EpochLimits, Descriptor, descriptor_kind, descriptor_fields, descriptor_value,
}
use glare9_provenance.Attestation.Validation.{
  safe_integer, canonical_timestamp, check_previous_hash, validate_routing_policy,
  validate_authorization_policy, validate_previous_shard_heads, validate_topology_authority,
  canonical_text, validate_descriptor,
}
use glare9_provenance.Attestation.Validation.Parts.{
  TextIsValid, HashIsValid, HeadsAreValid, PolicyIsValid, AuthorityIsValid,
  canonical_text-TextIsValid, canonical_text-string, safe_integer-range, safe_integer-pos,
  canonical_timestamp-is_timestamp, canonical_timestamp-string, check_previous_hash-HashIsValid,
  check_previous_hash-nullable, validate_routing_policy-PolicyIsValid,
  validate_routing_policy-policy_value, validate_authorization_policy-own,
  validate_topology_authority-AuthorityIsValid, validate_topology_authority-authority_value,
  validate_previous_shard_heads-HeadsAreValid, validate_previous_shard_heads-head_items,
}

module _ (platform : Platform) (limits : EpochLimits) where
  -- What is true of a descriptor that was validated.
  pub record IsValid (d : Descriptor) : Type 0 where
    pub ledger : TextIsValid platform limits.max_ledger_id_bytes d.ledger_id
    pub safe : d.epoch_number ≤ max_safe_integer
    pub time : is_timestamp d.created_at ≡ true
    pub link : HashIsValid d.epoch_number d.previous_epoch_hash
    pub heads : HeadsAreValid limits d.epoch_number d.previous_shard_heads
    pub policy : PolicyIsValid d.routing_policy
    pub authority : AuthorityIsValid d.topology_authority
    pub explained : TextIsValid platform limits.max_reason_bytes d.reason

  -- The checks that a descriptor has passed, on the entries of its object.
  pub record IsChecked (fs : Fields) (d : Descriptor) : Type 0 where
    pub ledger :
        canonical_text platform limits.max_ledger_id_bytes (property (codes "ledgerId") fs)
        ≡ ok d.ledger_id
    pub number :
        safe_integer 0 max_safe_integer (property (codes "epochNumber") fs) ≡ ok d.epoch_number
    pub time : canonical_timestamp (property (codes "createdAt") fs) ≡ ok d.created_at
    pub link :
        check_previous_hash d.epoch_number (property (codes "previousEpochHash") fs)
        ≡ ok d.previous_epoch_hash
    pub heads :
        validate_previous_shard_heads limits d.epoch_number
          (property (codes "previousShardHeads") fs)
        ≡ ok d.previous_shard_heads
    pub policy : validate_routing_policy (property (codes "routingPolicy") fs) ≡ ok d.routing_policy
    pub authority :
        validate_topology_authority (property (codes "topologyAuthority") fs)
        ≡ ok d.topology_authority
    pub explained :
        canonical_text platform limits.max_reason_bytes (property (codes "reason") fs) ≡ ok d.reason

  pub validate_descriptor-IsChecked :
      (v : Value) (d : Descriptor)
      → validate_descriptor platform limits v ≡ ok d
      → (fs : Fields) × (exact_fields "EPOCH_OBJECT" "EPOCH_FIELDS" descriptor_fields v ≡ ok fs)
        × IsChecked fs d
  unfolding validate_descriptor
  validate_descriptor-IsChecked v d h =
      let (fs, e, h1) =
        >>=-eq-ok (exact_fields "EPOCH_OBJECT" "EPOCH_FIELDS" descriptor_fields v) _ h in
      let (_, h2) =
        invariant-eq-ok
          (is_text descriptor_kind (property (codes "kind") fs)
            && is_number 1 (property (codes "protocolVersion") fs))
          _ _ h1 in
      let named =
        canonical_text platform limits.max_ledger_id_bytes (property (codes "ledgerId") fs) in
      let (ledger_id, e1, h3) = >>=-eq-ok named _ h2 in
      let numbered = safe_integer 0 max_safe_integer (property (codes "epochNumber") fs) in
      let (n, e2, h4) = >>=-eq-ok numbered _ h3 in
      let (time, e3, h5) = >>=-eq-ok (canonical_timestamp (property (codes "createdAt") fs)) _ h4 in
      let linked = check_previous_hash n (property (codes "previousEpochHash") fs) in
      let (hash, e4, h6) = >>=-eq-ok linked _ h5 in
      let listed =
        validate_previous_shard_heads limits n (property (codes "previousShardHeads") fs) in
      let (heads, e5, h7) = >>=-eq-ok listed _ h6 in
      let routed = validate_routing_policy (property (codes "routingPolicy") fs) in
      let (policy, e6, h8) = >>=-eq-ok routed _ h7 in
      let ruled = validate_topology_authority (property (codes "topologyAuthority") fs) in
      let (authority, e7, h9) = >>=-eq-ok ruled _ h8 in
      let allowed = validate_authorization_policy (property (codes "authorizationPolicy") fs) in
      let (u, e8, h10) = >>=-eq-ok allowed _ h9 in
      let explained =
        canonical_text platform limits.max_reason_bytes (property (codes "reason") fs) in
      let (reason, e9, h11) = >>=-eq-ok explained _ h10 in
      (
        fs,
        e,
        subst (IsChecked fs) (ok-injective _ _ h11) (record {
          ledger = e1;
          number = e2;
          time = e3;
          link = e4;
          heads = e5;
          policy = e6;
          authority = e7;
          explained = e9;
        }),
      )

  -- A descriptor that was validated is valid.
  pub validate_descriptor-IsValid :
      (v : Value) (d : Descriptor) → validate_descriptor platform limits v ≡ ok d → IsValid d
  validate_descriptor-IsValid v d h =
      let (fs, _, c) = validate_descriptor-IsChecked v d h in
      record {
        ledger = canonical_text-TextIsValid platform _ _ d.ledger_id c.ledger;
        safe = (safe_integer-range 0 max_safe_integer d.epoch_number _ c.number).1;
        time = canonical_timestamp-is_timestamp _ d.created_at c.time;
        link = check_previous_hash-HashIsValid d.epoch_number _ d.previous_epoch_hash c.link;
        heads =
            validate_previous_shard_heads-HeadsAreValid limits d.epoch_number _
              d.previous_shard_heads c.heads;
        policy = validate_routing_policy-PolicyIsValid _ d.routing_policy c.policy;
        authority = validate_topology_authority-AuthorityIsValid _ d.topology_authority c.authority;
        explained = canonical_text-TextIsValid platform _ _ d.reason c.explained;
      }

  -- The object of a valid descriptor is validated as that descriptor.
  pub validate_descriptor-descriptor_value :
      (d : Descriptor) → IsValid d → validate_descriptor platform limits (descriptor_value d) ≡ ok d
  unfolding validate_descriptor descriptor_value exact_fields property is_number is_text equals
      glare9_provenance.Prelude.Octets.before
  validate_descriptor-descriptor_value d valid = rw (
    canonical_text-string platform limits.max_ledger_id_bytes d.ledger_id valid.ledger,
    safe_integer-pos 0 max_safe_integer d.epoch_number (omega arith) valid.safe (omega arith),
    canonical_timestamp-string d.created_at valid.time,
    check_previous_hash-nullable d.epoch_number d.previous_epoch_hash valid.link,
    validate_previous_shard_heads-head_items limits d.epoch_number d.previous_shard_heads
        valid.heads,
    validate_routing_policy-policy_value d.routing_policy valid.policy,
    validate_topology_authority-authority_value d.topology_authority valid.authority,
    validate_authorization_policy-own,
    canonical_text-string platform limits.max_reason_bytes d.reason valid.explained,
  )
