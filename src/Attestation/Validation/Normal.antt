-- ===== src/Attestation/Validation/Normal.antt =====
-- The object of a valid descriptor is in the normal form of the codec.
use glare9_provenance.Prelude.{
  ℕ, suc, sym, ◌-◌, ◌≤◌, Bytes, true, [], ◌∷◌, List, ◌≡◌, refl, none, some, arith, All, All-append,
  Option, subst,
}
use glare9_provenance.Codec.Utf8.{Text, utf8, utf8_char, IsScalar, NoBom, IsPlain}
use glare9_provenance.Codec.Value.{IsNormal, ItemsAreNormal, max_safe_integer}
use glare9_provenance.Prelude.Octets.{before}
use glare9_provenance.Sharding.{RoutingPolicy, shard_id, decimal, pad_start, all_digits, is_digit}
use glare9_provenance.Sharding.Names.{all_digits-pad_start, all_digits-decimal}
use glare9_provenance.Crypto.{codes}
use glare9_provenance.Crypto.Signatures.{Platform, ed25519}
use glare9_provenance.Ledger.Lookup.{is_hash_text, all_hex_digits}
use glare9_provenance.Attestation.Timestamp.{is_timestamp-IsPlain}
use glare9_provenance.Attestation.Container.{signature_value}
use glare9_provenance.Attestation.Heads.{Head, head_value, head_items}
use glare9_provenance.Attestation.Heads.Valid.{HeadsFrom, LastIsValid, head_at}
use glare9_provenance.Attestation.Descriptor.{
  EpochLimits, Authority, Descriptor, Parts, parts_value, descriptor_parts, descriptor_value,
  policy_value, authority_value, authorization_policy, nullable_bytes,
}
use glare9_provenance.Attestation.Validation.Parts.{PolicyIsValid, AuthorityIsValid}
use glare9_provenance.Attestation.Validation.Valid.{IsValid}

all_digits-IsScalar : (t : Text) → all_digits t ≡ true → All IsScalar t
unfolding all_digits is_digit
all_digits-IsScalar [] h = tt
all_digits-IsScalar (c ∷ t) h = ((ground arith, ground arith), all_digits-IsScalar t (ground arith))

shard_id-IsPlain : (n : ℕ) → IsPlain (shard_id n)
unfolding shard_id
shard_id-IsPlain n = (
  All-append IsScalar (codes "shard-") (pad_start 4 (decimal 16 n)) (search arith)
      (all_digits-IsScalar _ (all_digits-pad_start _ (all_digits-decimal 16 n))),
  refl,
)

all_hex_digits-IsScalar : (t : Text) → all_hex_digits t ≡ true → All IsScalar t
unfolding all_hex_digits
all_hex_digits-IsScalar [] h = tt
all_hex_digits-IsScalar (c ∷ t) h =
    ((ground arith, ground arith), all_hex_digits-IsScalar t (ground arith))

all_hex_digits-NoBom : (t : Text) → all_hex_digits t ≡ true → NoBom t
unfolding all_hex_digits
all_hex_digits-NoBom [] h = tt
all_hex_digits-NoBom (c ∷ t) h = ground arith

pub is_hash_text-IsPlain : (t : Text) → is_hash_text t ≡ true → IsPlain t
is_hash_text-IsPlain t h =
    let digits : all_hex_digits t ≡ true = ground arith in
    (all_hex_digits-IsScalar t digits, all_hex_digits-NoBom t digits)

pub signature_value-IsNormal :
    (key_id : Text) (content : Bytes)
    → IsPlain key_id
    → IsNormal (signature_value ed25519 key_id content)
unfolding utf8 utf8_char before
signature_value-IsNormal key_id content named = search (arith, named)

module _ (epoch_number index : ℕ) where
  head_value-IsNormal :
      (last : Option (ℕ × Bytes))
      → epoch_number ≤ max_safe_integer
      → LastIsValid last
      → IsNormal (head_value (head_at epoch_number index last))
  unfolding utf8 utf8_char before head_value
  head_value-IsNormal none small valid = search (arith, small, shard_id-IsPlain index)
  head_value-IsNormal (some (n, hash)) small (counted, size) =
      search (arith, small, counted, shard_id-IsPlain index)

head_items-AreNormal :
    (epoch_number index : ℕ) (heads : List Head)
    → epoch_number ≤ max_safe_integer
    → HeadsFrom epoch_number index heads
    → ItemsAreNormal (head_items heads)
unfolding head_items
head_items-AreNormal n index [] small h = tt
head_items-AreNormal n index (head ∷ heads) small ((counted, named, valid), rest) =
    let same : head_at n index head.last_segment ≡ head = cc in
    (
      subst (λ (h : Head). IsNormal (head_value h)) same
          (head_value-IsNormal n index head.last_segment small valid),
      head_items-AreNormal n (suc index) heads small rest,
    )

policy_value-IsNormal :
    (policy : RoutingPolicy) → PolicyIsValid policy → IsNormal (policy_value policy)
unfolding policy_value utf8 utf8_char before
policy_value-IsNormal policy (named, versioned, low, high) =
    let small : policy.shard_count ≤ max_safe_integer = omega arith in
    let first : policy.version ≤ max_safe_integer = omega arith in
    let name : IsPlain policy.id = subst IsPlain (sym named) (search arith, refl) in
    search (arith, name, small, first)

authority_value-IsNormal :
    (authority : Authority)
    → AuthorityIsValid authority
    → IsNormal (authority_value ed25519 authority)
unfolding authority_value utf8 utf8_char before
authority_value-IsNormal authority (named, size) =
    search (arith, is_hash_text-IsPlain authority.key_id named)

nullable_bytes-IsNormal : (hash : Option Bytes) → IsNormal (nullable_bytes hash)
nullable_bytes-IsNormal none = tt
nullable_bytes-IsNormal (some hash) = tt

authorization_policy-IsNormal : IsNormal authorization_policy
unfolding utf8 utf8_char before
authorization_policy-IsNormal = search arith

parts_value-IsNormal :
    (parts : Parts)
    → IsNormal parts.authorization_policy
    → IsNormal parts.created_at
    → IsNormal parts.epoch_number
    → IsNormal parts.ledger_id
    → IsNormal parts.previous_epoch_hash
    → IsNormal parts.previous_shard_heads
    → IsNormal parts.reason
    → IsNormal parts.routing_policy
    → IsNormal parts.topology_authority
    → IsNormal (parts_value parts)
unfolding parts_value utf8 utf8_char before
parts_value-IsNormal parts a b c d e f g h i = search (arith, a, b, c, d, e, f, g, h, i)

-- The object of a valid descriptor is in normal form, if its ledger ID and its reason are plain texts.
pub descriptor_value-IsNormal :
    (platform : Platform) (limits : EpochLimits) (d : Descriptor)
    → IsValid platform limits d
    → IsPlain d.ledger_id
    → IsPlain d.reason
    → IsNormal (descriptor_value d)
unfolding descriptor_value
descriptor_value-IsNormal platform limits d valid named explained =
    parts_value-IsNormal (descriptor_parts d) authorization_policy-IsNormal
      (is_timestamp-IsPlain d.created_at valid.time) valid.safe named
      (nullable_bytes-IsNormal d.previous_epoch_hash)
      (head_items-AreNormal (d.epoch_number - 1) 0 d.previous_shard_heads
        (omega (arith, valid.safe)) valid.heads.0)
      explained (policy_value-IsNormal d.routing_policy valid.policy)
      (authority_value-IsNormal d.topology_authority valid.authority)
