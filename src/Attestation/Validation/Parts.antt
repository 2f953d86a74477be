-- ===== src/Attestation/Validation/Parts.antt =====
-- What the checks of a descriptor's parts in src/routing-epoch.js let pass, and that they let it pass
-- again.
use glare9_provenance.Prelude.{
  ℕ, zero, suc, ◌+◌, ◌-◌, ◌≤◌, ◌<◌, Bytes, Bool, true, false, ◌&&◌, not, [], ◌∷◌, List, leb, ltb,
  ◌==◌, ==_iff, ==_refl, ◌≡◌, refl, length, Option, none, some, Result, ok, arith, leb→le, le→leb,
  ltb→lt, lt→ltb, >>=-eq-ok, invariant-eq-ok, ok-injective, Bool-cases, inl, inr, Option-cases,
  subst, ap, ◌↔◌,
}
use glare9_provenance.Prelude.Octets.{equals, equals_refl}
use glare9_provenance.Codec.Utf8.{Text, IsPlain, utf8}
use glare9_provenance.Codec.Value.{
  bytes, null, IsNormal, pos, integer, Value, number, string, array, count_items, max_safe_integer,
}
use glare9_provenance.Sharding.{RoutingPolicy, routing_policy_id}
use glare9_provenance.Crypto.{codes}
use glare9_provenance.Crypto.Signatures.{Platform, ed25519}
use glare9_provenance.Ledger.Lookup.{is_hash_text}
use glare9_provenance.Attestation.Checks.{
  exact_fields, property, is_null, is_number, is_text, natural_of, bytes_of, text_of, require,
  require-eq-ok,
}
use glare9_provenance.Attestation.Timestamp.{is_timestamp}
use glare9_provenance.Attestation.Heads.{Head, head_items}
use glare9_provenance.Attestation.Heads.Valid.{
  HeadsFrom, check_heads-HeadsFrom, check_heads-head_items, natural_of-pos, bytes_of-size,
  bytes_of-same, bytes_of-bytes, count_items-head_items,
}
use glare9_provenance.Attestation.Descriptor.{
  EpochLimits, Authority, policy_value, authority_value, authorization_policy, nullable_bytes,
}
use glare9_provenance.Attestation.Validation.{
  safe_integer, canonical_timestamp, check_previous_hash, validate_routing_policy,
  validate_authorization_policy, items_of, validate_previous_shard_heads,
  validate_topology_authority, canonical_text,
}

-- Epoch zero has no predecessor, and every other epoch links to one.
abbrev pub HashIsValid : ℕ → Option Bytes → Type 0
HashIsValid epoch_number none = epoch_number ≡ 0
HashIsValid epoch_number (some hash) = (0 < epoch_number) × (length hash ≡ 32)

abbrev pub PolicyIsValid : RoutingPolicy → Type 0
PolicyIsValid policy =
    (policy.id ≡ routing_policy_id)
    × (policy.version ≡ 1)
    × (1 ≤ policy.shard_count)
    × (policy.shard_count ≤ 65_536)

abbrev pub AuthorityIsValid : Authority → Type 0
AuthorityIsValid authority =
    (is_hash_text authority.key_id ≡ true) × (length authority.public_key ≡ 44)

abbrev policy_fields : List Text
policy_fields = codes "id" ∷ codes "version" ∷ codes "shardCount" ∷ []

abbrev authority_fields : List Text
authority_fields = codes "algorithm" ∷ codes "keyId" ∷ codes "publicKey" ∷ []

abbrev policy_at : ℕ → RoutingPolicy
policy_at n = record { id = routing_policy_id; version = 1; shard_count = n }

-- The heads of the epoch before, none in epoch zero.
abbrev pub HeadsAreValid : EpochLimits → ℕ → List Head → Type 0
HeadsAreValid limits epoch_number heads =
    HeadsFrom (epoch_number - 1) 0 heads
    × (length heads ≤ limits.max_previous_shard_heads)
    × ((length heads ≡ 0) ↔ (epoch_number ≡ 0))

text_of-IsPlain : (v : Value) (t : Text) → text_of v ≡ some t → IsNormal v → IsPlain t
unfolding text_of
text_of-IsPlain (string u) t h normal = subst IsPlain (cc) normal
text_of-IsPlain null t h normal = cc
text_of-IsPlain _ t h normal = cc

module _ (platform : Platform) where
  open platform use {is_nfc}

  abbrev pub TextIsValid : ℕ → Text → Type 0
  TextIsValid max_bytes t = (0 < length t) × (is_nfc t ≡ true) × (length (utf8 t) ≤ max_bytes)

  pub canonical_text-TextIsValid :
      (max_bytes : ℕ) (v : Value) (t : Text)
      → canonical_text platform max_bytes v ≡ ok t
      → TextIsValid max_bytes t
  unfolding canonical_text
  canonical_text-TextIsValid m v t h =
      let (t', required, h1) = >>=-eq-ok (require "EPOCH_TEXT" (text_of v)) _ h in
      let (some_text, h2) = invariant-eq-ok (ltb 0 (length t')) _ _ h1 in
      let (normal, h3) = invariant-eq-ok (is_nfc t') _ _ h2 in
      let (short, h4) = invariant-eq-ok (leb (length (utf8 t')) m) _ _ h3 in
      subst (TextIsValid m) (ok-injective _ _ h4) (ltb→lt _ _ some_text, normal, leb→le _ _ short)

  pub canonical_text-IsPlain :
      (max_bytes : ℕ) (v : Value) (t : Text)
      → canonical_text platform max_bytes v ≡ ok t
      → IsNormal v
      → IsPlain t
  unfolding canonical_text
  canonical_text-IsPlain m v t h normal =
      let (t', required, h1) = >>=-eq-ok (require "EPOCH_TEXT" (text_of v)) _ h in
      let (_, h2) = invariant-eq-ok (ltb 0 (length t')) _ _ h1 in
      let (_, h3) = invariant-eq-ok (is_nfc t') _ _ h2 in
      let (_, h4) = invariant-eq-ok (leb (length (utf8 t')) m) _ _ h3 in
      subst IsPlain (ok-injective _ _ h4)
        (text_of-IsPlain v t' (require-eq-ok _ _ _ required) normal)

  pub canonical_text-string :
      (max_bytes : ℕ) (t : Text)
      → TextIsValid max_bytes t
      → canonical_text platform max_bytes (string t) ≡ ok t
  unfolding canonical_text text_of require
  canonical_text-string m t (some_text, normal, short) =
      rw (lt→ltb _ _ some_text, normal, le→leb _ _ short)

pub safe_integer-range :
    (low high n : ℕ) (v : Value) → safe_integer low high v ≡ ok n → (low ≤ n) × (n ≤ high)
unfolding safe_integer
safe_integer-range low high n v h =
    let (m, required, h1) = >>=-eq-ok (require "EPOCH_INTEGER" (natural_of v)) _ h in
    let (ranged, h2) = invariant-eq-ok (leb low m && leb m high) _ _ h1 in
    let same = ok-injective _ _ h2 in (ground arith, ground arith)

pub safe_integer-pos :
    (low high n : ℕ)
    → low ≤ n
    → n ≤ high
    → high ≤ max_safe_integer
    → safe_integer low high (number (integer (pos n))) ≡ ok n
unfolding safe_integer require
safe_integer-pos low high n below above small =
    rw (natural_of-pos n (omega arith), le→leb _ _ below, le→leb _ _ above)

pub canonical_timestamp-is_timestamp :
    (v : Value) (t : Text) → canonical_timestamp v ≡ ok t → is_timestamp t ≡ true
unfolding canonical_timestamp
canonical_timestamp-is_timestamp v t h =
    let (t', required, h1) = >>=-eq-ok (require "EPOCH_TIMESTAMP" (text_of v)) _ h in
    let (canonical, h2) = invariant-eq-ok (is_timestamp t') _ _ h1 in
    subst (λ (r : Text). is_timestamp r ≡ true) (ok-injective _ _ h2) canonical

pub canonical_timestamp-string :
    (t : Text) → is_timestamp t ≡ true → canonical_timestamp (string t) ≡ ok t
unfolding canonical_timestamp text_of require
canonical_timestamp-string t h = rw h

pub check_previous_hash-HashIsValid :
    (n : ℕ) (v : Value) (hash : Option Bytes)
    → check_previous_hash n v ≡ ok hash
    → HashIsValid n hash
unfolding check_previous_hash
check_previous_hash-HashIsValid n v hash h = elim (Bool-cases (n == 0)) [
  | inl first ↦
      (let (_, h1) = invariant-eq-ok (is_null v) "EPOCH_GENESIS" _ (rw first at h) in
        subst (HashIsValid n) (ok-injective _ _ h1) (ground arith))
  | inr later ↦
      (let (b, required, h1) =
          >>=-eq-ok (require "EPOCH_BYTES" (bytes_of 32 v)) _ (rw later at h) in
        subst (HashIsValid n) (ok-injective _ _ h1)
          (ground arith, bytes_of-size 32 v b (require-eq-ok _ _ _ required)))
]

pub check_previous_hash-nullable :
    (n : ℕ) (hash : Option Bytes)
    → HashIsValid n hash
    → check_previous_hash n (nullable_bytes hash) ≡ ok hash
unfolding check_previous_hash is_null require
check_previous_hash-nullable n none h = rw h
check_previous_hash-nullable n (some hash) (positive, size) =
    let later : (n == 0) ≡ false = ground arith in rw (later, bytes_of-bytes 32 hash size)

pub validate_routing_policy-PolicyIsValid :
    (v : Value) (policy : RoutingPolicy)
    → validate_routing_policy v ≡ ok policy
    → PolicyIsValid policy
unfolding validate_routing_policy
validate_routing_policy-PolicyIsValid v policy h =
    let (fs, _, h1) = >>=-eq-ok (exact_fields "EPOCH_OBJECT" "EPOCH_FIELDS" policy_fields v) _ h in
    let (_, h2) =
      invariant-eq-ok
        (is_text routing_policy_id (property (codes "id") fs)
          && is_number 1 (property (codes "version") fs))
        _ _ h1 in
    let (n, safe, h3) = >>=-eq-ok (safe_integer 1 65_536 (property (codes "shardCount") fs)) _ h2 in
    let (low, high) = safe_integer-range 1 65_536 n _ safe in
    subst PolicyIsValid (ok-injective _ _ h3) (refl, refl, low, high)

policy_at-valid :
    (n : ℕ)
    → 1 ≤ n
    → n ≤ 65_536
    → validate_routing_policy (policy_value (policy_at n)) ≡ ok (policy_at n)
unfolding validate_routing_policy policy_value exact_fields property is_number is_text equals
    glare9_provenance.Prelude.Octets.before
policy_at-valid n low high = rw (safe_integer-pos 1 65_536 n low high (omega arith))

pub validate_routing_policy-policy_value :
    (policy : RoutingPolicy)
    → PolicyIsValid policy
    → validate_routing_policy (policy_value policy) ≡ ok policy
validate_routing_policy-policy_value policy (named, versioned, low, high) =
    let same : policy_at policy.shard_count ≡ policy = cc in
    subst (λ (p : RoutingPolicy). validate_routing_policy (policy_value p) ≡ ok p) same
      (policy_at-valid policy.shard_count low high)

pub validate_authorization_policy-own : validate_authorization_policy authorization_policy ≡ ok tt
unfolding validate_authorization_policy exact_fields property is_number is_text equals
    glare9_provenance.Prelude.Octets.before
validate_authorization_policy-own = refl

pub validate_topology_authority-AuthorityIsValid :
    (v : Value) (authority : Authority)
    → validate_topology_authority v ≡ ok authority
    → AuthorityIsValid authority
unfolding validate_topology_authority
validate_topology_authority-AuthorityIsValid v authority h =
    let (fs, _, h1) =
      >>=-eq-ok (exact_fields "EPOCH_OBJECT" "EPOCH_FIELDS" authority_fields v) _ h in
    let (_, h2) = invariant-eq-ok (is_text ed25519 (property (codes "algorithm") fs)) _ _ h1 in
    let (key_id, _, h3) =
      >>=-eq-ok (require "EPOCH_KEY_ID" (text_of (property (codes "keyId") fs))) _ h2 in
    let (named, h4) = invariant-eq-ok (is_hash_text key_id) _ _ h3 in
    let key = bytes_of 44 (property (codes "publicKey") fs) in
    let (public_key, required, h5) = >>=-eq-ok (require "EPOCH_PUBLIC_KEY" key) _ h4 in
    subst AuthorityIsValid (ok-injective _ _ h5)
      (named, bytes_of-size 44 _ public_key (require-eq-ok _ _ _ required))

-- The authority that comes out is the one that the object was made of.
pub validate_topology_authority-same :
    (authority result : Authority)
    → validate_topology_authority (authority_value ed25519 authority) ≡ ok result
    → authority ≡ result
unfolding validate_topology_authority authority_value exact_fields property is_text text_of equals
    require glare9_provenance.Prelude.Octets.before
validate_topology_authority-same authority result h =
    let (_, h1) = invariant-eq-ok (is_hash_text authority.key_id) "EPOCH_KEY_ID" _ h in
    let key = bytes_of 44 (bytes authority.public_key) in
    let (public_key, required, h2) = >>=-eq-ok (require "EPOCH_PUBLIC_KEY" key) _ h1 in
    let same = bytes_of-same 44 authority.public_key public_key (require-eq-ok _ _ _ required) in cc

pub validate_topology_authority-authority_value :
    (authority : Authority)
    → AuthorityIsValid authority
    → validate_topology_authority (authority_value ed25519 authority) ≡ ok authority
unfolding validate_topology_authority authority_value exact_fields property is_text text_of equals
    require glare9_provenance.Prelude.Octets.before
validate_topology_authority-authority_value authority (named, size) =
    rw (named, bytes_of-bytes 44 authority.public_key size)

length-eq-zero : (heads : List Head) → length heads ≡ 0 → [] ≡ heads
length-eq-zero [] h = refl
length-eq-zero (head ∷ heads) h = absurd (omega arith)

positive_length : {m n : ℕ} → (m ≡ 0 → n ≡ 0) → (n == 0) ≡ false → 0 < m
positive_length {m = zero} {n} h later = absurd (ground (arith, h refl))
positive_length {m = suc m} h later = omega arith

module _ (limits : EpochLimits) where
  pub validate_previous_shard_heads-HeadsAreValid :
      (n : ℕ) (v : Value) (heads : List Head)
      → validate_previous_shard_heads limits n v ≡ ok heads
      → HeadsAreValid limits n heads
  unfolding validate_previous_shard_heads
  validate_previous_shard_heads-HeadsAreValid n v heads h =
      let (items, _, h1) = >>=-eq-ok (require "EPOCH_SHARD_HEADS" (items_of v)) _ h in
      let (few, h2) =
        invariant-eq-ok (leb (count_items items) limits.max_previous_shard_heads) _ _ h1 in
      elim (Bool-cases (n == 0)) [
        | inl first ↦
            (let (_, h3) =
                invariant-eq-ok (count_items items == 0) "EPOCH_GENESIS" _ (rw first at h2) in
              subst (HeadsAreValid limits n) (ok-injective _ _ h3)
                (tt, omega arith, (λ _. ground arith, λ _. refl)))
        | inr later ↦
            (let (many, h3) =
                invariant-eq-ok (ltb 0 (count_items items)) "EPOCH_SHARD_HEADS" _
                  (rw later at h2) in
              let (each, counted) = check_heads-HeadsFrom _ _ _ (n - 1) 0 items heads h3 in
              (each, ground arith, (λ e. ground arith, λ e. ground arith)))
      ]

  pub validate_previous_shard_heads-head_items :
      (n : ℕ) (heads : List Head)
      → HeadsAreValid limits n heads
      → validate_previous_shard_heads limits n (array (head_items heads)) ≡ ok heads
  unfolding validate_previous_shard_heads items_of require
  validate_previous_shard_heads-head_items n heads (each, few, (none_first, first_none)) =
      let counted = count_items-head_items heads in
      let checked =
        check_heads-head_items "EPOCH_OBJECT" "EPOCH_FIELDS" "EPOCH_SHARD_HEAD" (n - 1) 0 heads
          each in
      elim (Bool-cases (n == 0)) [
        | inl first ↦
            (let empty : length heads ≡ 0 = first_none (ground arith) in
              let is_empty : [] ≡ heads = length-eq-zero heads empty in
              rw (first, counted, le→leb _ _ few, empty) (ap ok is_empty))
        | inr later ↦
            (let full : 0 < length heads = positive_length none_first later in
              rw (later, counted, le→leb _ _ few, lt→ltb _ _ full) checked)
      ]
