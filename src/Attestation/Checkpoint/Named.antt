-- ===== src/Attestation/Checkpoint/Named.antt =====
-- The keys that the statements of src/checkpoint.js name.
use glare9_provenance.Prelude.{
  [], ◌∷◌, ok, ◌≡◌, sym, subst, >>=-eq-ok, invariant-eq-ok, ok-injective,
}
use glare9_provenance.Prelude.Octets.{equals, equals→eq}
use glare9_provenance.Codec.Value.{Value}
use glare9_provenance.Crypto.{codes}
use glare9_provenance.Crypto.Signatures.{Platform, public_key_id}
use glare9_provenance.Attestation.Descriptor.{Authority}
use glare9_provenance.Attestation.Checkpoint.{
  Checkpoint, WitnessStatement, identity, validate_checkpoint, validate_witness, exact, integer_of,
  required_hash, ledger_of, timestamp_of, nullable_hash_of, validate_heads, checkpoint_fields,
  witness_fields,
}
use glare9_provenance.Attestation.Checks.{property, text_of, bytes_of, require}
use glare9_provenance.Attestation.Checks.{property, text_of, bytes_of, require}

module _ (platform : Platform) where
  identity-named :
      (value : Value) (signer : Authority)
      → identity platform value ≡ ok signer
      → signer.key_id ≡ public_key_id platform signer.public_key
  unfolding identity
  identity-named value signer h =
      let (fs, _, h1) =
        >>=-eq-ok
          (exact "ATTESTATION_IDENTITY" (codes "algorithm" ∷ codes "keyId" ∷ codes "publicKey" ∷ [])
            value)
          _ h in
      let (key_id, _, h2) =
        >>=-eq-ok (require "ATTESTATION_IDENTITY" (text_of (property (codes "keyId") fs))) _ h1 in
      let (_, h3) = invariant-eq-ok _ "ATTESTATION_IDENTITY" _ h2 in
      let (public_key, _, h4) =
        >>=-eq-ok (require "ATTESTATION_IDENTITY" (bytes_of 44 (property (codes "publicKey") fs))) _
          h3 in
      let (same, h5) =
        invariant-eq-ok (equals (public_key_id platform public_key) key_id) "ATTESTATION_IDENTITY" _
          h4 in
      subst (λ (x : Authority). x.key_id ≡ public_key_id platform x.public_key)
        (ok-injective _ _ h5) (sym (equals→eq _ _ same))

  pub validate_witness-named :
      (value : Value) (w : WitnessStatement)
      → validate_witness platform value ≡ ok w
      → w.signer.key_id ≡ public_key_id platform w.signer.public_key
  unfolding validate_witness
  validate_witness-named value w h =
      let (fs, _, h1) = >>=-eq-ok (exact "WITNESS_FIELDS" witness_fields value) _ h in
      let (_, h2) = invariant-eq-ok _ "WITNESS_VERSION" _ h1 in
      let (_, _, h3) =
        >>=-eq-ok (ledger_of "WITNESS_VERSION" (property (codes "ledgerId") fs)) _ h2 in
      let (_, _, h4) = >>=-eq-ok (integer_of (property (codes "checkpointNumber") fs)) _ h3 in
      let (_, _, h5) = >>=-eq-ok (required_hash (property (codes "checkpointHash") fs)) _ h4 in
      let (_, _, h6) = >>=-eq-ok (required_hash (property (codes "checkpointFileHash") fs)) _ h5 in
      let (_, _, h7) = >>=-eq-ok (timestamp_of (property (codes "observedAt") fs)) _ h6 in
      let (signer, identified, h8) =
        >>=-eq-ok (identity platform (property (codes "witness") fs)) _ h7 in
      subst (λ (x : WitnessStatement). x.signer.key_id ≡ public_key_id platform x.signer.public_key)
        (ok-injective _ _ h8) (identity-named _ signer identified)

  pub validate_checkpoint-named :
      (value : Value) (c : Checkpoint)
      → validate_checkpoint platform value ≡ ok c
      → c.publisher.key_id ≡ public_key_id platform c.publisher.public_key
  unfolding validate_checkpoint
  validate_checkpoint-named value c h =
      let (fs, _, h1) = >>=-eq-ok (exact "CHECKPOINT_FIELDS" checkpoint_fields value) _ h in
      let (_, h2) = invariant-eq-ok _ "CHECKPOINT_VERSION" _ h1 in
      let (_, _, h3) =
        >>=-eq-ok (ledger_of "CHECKPOINT_VERSION" (property (codes "ledgerId") fs)) _ h2 in
      let (epoch_number, _, h4) =
        >>=-eq-ok (integer_of (property (codes "routingEpochNumber") fs)) _ h3 in
      let (_, _, h5) = >>=-eq-ok (integer_of (property (codes "checkpointNumber") fs)) _ h4 in
      let (_, _, h6) = >>=-eq-ok (timestamp_of (property (codes "createdAt") fs)) _ h5 in
      let (_, _, h7) =
        >>=-eq-ok (nullable_hash_of (property (codes "previousCheckpointHash") fs)) _ h6 in
      let (_, _, h8) = >>=-eq-ok (required_hash (property (codes "routingEpochHash") fs)) _ h7 in
      let (_, _, h9) =
        >>=-eq-ok (validate_heads epoch_number (property (codes "shardHeads") fs)) _ h8 in
      let (publisher, identified, h10) =
        >>=-eq-ok (identity platform (property (codes "publisher") fs)) _ h9 in
      subst (λ (x : Checkpoint). x.publisher.key_id ≡ public_key_id platform x.publisher.public_key)
        (ok-injective _ _ h10) (identity-named _ publisher identified)
