-- ===== src/Ledger/Recovery/History.antt =====
-- The histories of routing epochs that #loadRoutingEpochs of services/ledger/src/local-ledger.js
-- accepts.
use glare9_provenance.Prelude.{
  ℕ, suc, Bytes, true, [], ◌∷◌, List, ltb, ◌==◌, ==_iff, ◌≡◌, refl, sym, length, Option, none, some,
  ok, arith, >>=-eq-ok, invariant-eq-ok, invariant-holds, ap,
}
use glare9_provenance.Prelude.Octets.{equals, equals→eq}
use glare9_provenance.Codec.Utf8.{Text}
use glare9_provenance.Sharding.{RoutingPolicy, shard_id}
use glare9_provenance.Ledger.Names.{to_hex, ledger_directory_name}
use glare9_provenance.Attestation.Heads.{Head, hex_heads}
use glare9_provenance.Attestation.Heads.Valid.{HeadsFrom}
use glare9_provenance.Attestation.Descriptor.{Descriptor, policy_value}
use glare9_provenance.Attestation.Validation.Parts.{
  PolicyIsValid, validate_routing_policy-policy_value,
}
use glare9_provenance.Attestation.Epoch.{
  Report, has_key, check_link, check_previous_policy, check_options,
}
use glare9_provenance.Ledger.Recovery.{Previous, recovery_options}

-- The heads are those of the shards of an epoch, in order from an index on.
abbrev pub Names : ℕ → ℕ → List Head → Type 0
Names epoch_number index [] = Unit
Names epoch_number index (head ∷ heads) =
    ((head.epoch_number ≡ epoch_number) × (head.shard ≡ shard_id index))
    × Names epoch_number (suc index) heads

pub Names-hex_heads :
    (epoch_number index : ℕ) (heads : List Head)
    → HeadsFrom epoch_number index heads
    → Names epoch_number index (hex_heads heads) × (length (hex_heads heads) ≡ length heads)
unfolding hex_heads
Names-hex_heads n i [] h = (tt, refl)
Names-hex_heads n i (head ∷ heads) ((counted, named, _), rest) =
    let (names, size) = Names-hex_heads n (suc i) heads rest in
    (((counted, named), names), ap suc size)

-- The first epoch of a history.
pub record Starts (r : Report) : Type 0 where
  pub number : r.descriptor.epoch_number ≡ 0
  pub link : r.descriptor.previous_epoch_hash ≡ none

-- An epoch that comes behind another, and names the head of each of its shards.
pub record Follows (p r : Report) : Type 0 where
  pub number : r.descriptor.epoch_number ≡ suc p.descriptor.epoch_number
  pub link : r.descriptor.previous_epoch_hash ≡ some p.epoch_hash
  pub ledger : r.descriptor.ledger_id ≡ p.descriptor.ledger_id
  pub heads : Names p.descriptor.epoch_number 0 r.descriptor.previous_shard_heads
  pub complete : length r.descriptor.previous_shard_heads ≡ p.descriptor.routing_policy.shard_count

abbrev pub Succeeds : Option Report → Report → Type 0
Succeeds none r = Starts r
Succeeds (some p) r = Follows p r

module _ (sha256 : Bytes → Bytes) (authority directory : Text) where
  -- Each report succeeds the one before it, is of the authority, and belongs to the directory.
  abbrev pub IsHistory : Option Report → List Report → Type 0
  IsHistory previous [] = Unit
  IsHistory previous (r ∷ rs) =
      (Succeeds previous r
        × (r.descriptor.topology_authority.key_id ≡ authority)
        × (ledger_directory_name sha256 r.descriptor.ledger_id ≡ directory))
      × IsHistory (some r) rs

-- What the loop carries on stands for the report before.
abbrev pub Carries : ℕ → Option Previous → Option Report → Type 0
Carries n none none = n ≡ 0
Carries n none (some r) = ⊥
Carries n (some p) none = ⊥
Carries n (some p) (some r) =
    (n ≡ suc r.descriptor.epoch_number)
    × (to_hex p.epoch_hash ≡ r.epoch_hash)
    × (p.policy ≡ r.descriptor.routing_policy)
    × (p.ledger_id ≡ r.descriptor.ledger_id)
    × PolicyIsValid p.policy

has_key-one : (k key_id : Text) → has_key (k ∷ []) key_id ≡ true → key_id ≡ k
unfolding has_key
has_key-one k key_id h = sym (equals→eq k key_id (ground arith))

check_link-none : (hash : Option Bytes) → check_link none hash ≡ ok tt → hash ≡ none
unfolding check_link
check_link-none none h = refl
check_link-none (some b) h = cc

check_link-some :
    (expected : Bytes) (hash : Option Bytes)
    → check_link (some expected) hash ≡ ok tt
    → hash ≡ some expected
unfolding check_link
check_link-some expected none h = cc
check_link-some expected (some b) h =
    ap some (equals→eq b expected (invariant-holds (equals b expected) _ tt h))

check_previous_policy_complete :
    (d : Descriptor) (policy : RoutingPolicy)
    → PolicyIsValid policy
    → check_previous_policy d (policy_value policy) ≡ ok tt
    → length d.previous_shard_heads ≡ policy.shard_count
unfolding check_previous_policy
check_previous_policy_complete d policy valid h =
    let read = rw (validate_routing_policy-policy_value policy valid) at h in
    let (_, counted) = invariant-eq-ok (ltb 0 d.epoch_number) "EPOCH_PREVIOUS_POLICY" _ read in
    (==_iff _ _).0
      (invariant-holds (length d.previous_shard_heads == policy.shard_count) _ tt counted)

-- What the options of the recovery ask for.
pub options-first :
    (authority : Text) (n : ℕ) (d : Descriptor)
    → check_options (recovery_options authority n none) d ≡ ok tt
    → (d.topology_authority.key_id ≡ authority)
      × (d.epoch_number ≡ n)
      × (d.previous_epoch_hash ≡ none)
unfolding check_options recovery_options
options-first authority n d h =
    let key = has_key (authority ∷ []) d.topology_authority.key_id in
    let (trusted, h1) = invariant-eq-ok key "EPOCH_UNTRUSTED_AUTHORITY" _ h in
    let (numbered, h2) = invariant-eq-ok (d.epoch_number == n) "EPOCH_NUMBER" _ h1 in
    let (_, linked, _) = >>=-eq-ok (check_link none d.previous_epoch_hash) _ h2 in
    (has_key-one _ _ trusted, (==_iff _ _).0 numbered, check_link-none _ (cc))

pub options-next :
    (authority : Text) (n : ℕ) (p : Previous) (d : Descriptor)
    → PolicyIsValid p.policy
    → check_options (recovery_options authority n (some p)) d ≡ ok tt
    → (d.topology_authority.key_id ≡ authority)
      × (d.epoch_number ≡ n)
      × (d.previous_epoch_hash ≡ some p.epoch_hash)
      × (length d.previous_shard_heads ≡ p.policy.shard_count)
unfolding check_options recovery_options
options-next authority n p d valid h =
    let key = has_key (authority ∷ []) d.topology_authority.key_id in
    let (trusted, h1) = invariant-eq-ok key "EPOCH_UNTRUSTED_AUTHORITY" _ h in
    let (numbered, h2) = invariant-eq-ok (d.epoch_number == n) "EPOCH_NUMBER" _ h1 in
    let (_, linked, h3) = >>=-eq-ok (check_link (some p.epoch_hash) d.previous_epoch_hash) _ h2 in
    (
      has_key-one _ _ trusted,
      (==_iff _ _).0 numbered,
      check_link-some _ _ (cc),
      check_previous_policy_complete d p.policy valid h3,
    )
