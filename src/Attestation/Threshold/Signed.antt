-- ===== src/Attestation/Threshold/Signed.antt =====
-- What the verifiers of checkpoints and of witness receipts of src/checkpoint.js have checked.
use glare9_provenance.Prelude.{
  Bytes, true, not, [], ◌∷◌, List, ◌==◌, length, ok, some, String, ◌≡◌, refl, subst, Bool, none,
  >>=-eq-ok, invariant-eq-ok, ok-injective,
}
use glare9_provenance.Codec.Utf8.{Text}
use glare9_provenance.Codec.Value.{Value}
use glare9_provenance.Codec.Encode.{default_limits}
use glare9_provenance.Codec.Decode.{decode_canonical}
use glare9_provenance.Format.Framing.{checkpoint, witness}
use glare9_provenance.Crypto.{codes, digest, domain_hash}
use glare9_provenance.Crypto.Signatures.{
  Platform, public_key_id, import_public_key, verify_domain_commitment,
}
use glare9_provenance.Crypto.Signatures.Signed.{import_public_key-eq-ok}
use glare9_provenance.Ledger.Names.{to_hex}
use glare9_provenance.Attestation.Container.{default_file_limits, parse}
use glare9_provenance.Attestation.Descriptor.{Authority}
use glare9_provenance.Attestation.Epoch.{has_key}
use glare9_provenance.Attestation.Checkpoint.{
  CheckpointReport, ReceiptReport, signature_of, check_trusted, check_previous, validate_checkpoint,
  validate_witness,
}
use glare9_provenance.Attestation.Threshold.{
  trusting, hash_text, verify_checkpoint_bytes, verify_witness_receipt_bytes,
}
use glare9_provenance.Attestation.Checkpoint.Named.{
  validate_witness-named, validate_checkpoint-named,
}

check_trusted-has_key :
    (key_ids : List Text) (id : Text) (code : String) (b : Bool)
    → check_trusted (trusting key_ids) id code ≡ ok b
    → has_key key_ids id ≡ true
unfolding check_trusted
check_trusted-has_key key_ids id code b h =
    (invariant-eq-ok (has_key key_ids id) code (ok true) h).0

module _ (platform : Platform) where
  open platform use {PublicKey, sha256, create_public_key, crypto_verify}

  -- The payload carries a signature that is valid under the domain, by the signer's key.
  pub record IsSignedBy (domain payload : Bytes) (signature : Value) (signer : Authority)
      : Type 0 where
    pub key : PublicKey
    pub content : Bytes
    pub imported : create_public_key signer.public_key ≡ some key
    pub named : signer.key_id ≡ public_key_id platform signer.public_key
    pub carried : signature_of signature signer ≡ ok content
    pub verified : crypto_verify (digest sha256 domain (payload ∷ [])) key content ≡ ok true

  -- The bytes hold a statement of a witness that is among the keys, and its valid signature.
  pub record IsReceipt (key_ids : List Text) (input : Bytes) (r : ReceiptReport) : Type 0 where
    pub payload : Bytes
    pub signature_payload : Bytes
    pub value : Value
    pub signature : Value
    pub parsed :
        parse "ATTESTATION_FILE_LIMIT" "ATTESTATION_END" witness default_file_limits input
        ≡ ok (payload, signature_payload)
    pub decoded : decode_canonical default_limits payload ≡ ok value
    pub validated : validate_witness platform value ≡ ok r.statement
    pub signature_decoded : decode_canonical default_limits signature_payload ≡ ok signature
    pub signed : IsSignedBy (codes "witness-signature-v1") payload signature r.statement.signer
    pub trusted : has_key key_ids r.statement.signer.key_id ≡ true
    pub of_checkpoint : r.checkpoint_hash ≡ to_hex r.statement.checkpoint_hash
    pub of_file : r.checkpoint_file_hash ≡ to_hex r.statement.checkpoint_file_hash
    pub by_signer : r.witness_key_id ≡ r.statement.signer.key_id

  -- The bytes hold a checkpoint of a publisher that is among the keys, and its valid signature.
  pub record IsCheckpoint (key_ids : List Text) (input : Bytes) (c : CheckpointReport)
      : Type 0 where
    pub payload : Bytes
    pub signature_payload : Bytes
    pub value : Value
    pub signature : Value
    pub parsed :
        parse "ATTESTATION_FILE_LIMIT" "ATTESTATION_END" checkpoint default_file_limits input
        ≡ ok (payload, signature_payload)
    pub decoded : decode_canonical default_limits payload ≡ ok value
    pub validated : validate_checkpoint platform value ≡ ok c.statement
    pub signature_decoded : decode_canonical default_limits signature_payload ≡ ok signature
    pub signed :
        IsSignedBy (codes "checkpoint-signature-v1") payload signature c.statement.publisher
    pub trusted : has_key key_ids c.statement.publisher.key_id ≡ true
    pub hash : c.checkpoint_hash ≡ hash_text platform (codes "checkpoint-v1") payload
    pub file_hash : c.file_hash ≡ hash_text platform (codes "checkpoint-file-v1") input

  -- A signature that was verified under a domain that is not empty.
  verify_domain_commitment-true :
      (key : PublicKey) (domain payload content : Bytes) (valid : Bool)
      → verify_domain_commitment platform key domain payload content ≡ ok valid
      → valid ≡ true
      → crypto_verify (digest sha256 domain (payload ∷ [])) key content ≡ ok true
  unfolding verify_domain_commitment domain_hash
  verify_domain_commitment-true key domain payload content valid h accepted =
      let (message, hashed, checked) = >>=-eq-ok (domain_hash sha256 domain (payload ∷ [])) _ h in
      let (_, digested) = invariant-eq-ok (not (length domain == 0)) _ _ hashed in cc

  pub verify_witness_receipt_bytes-IsReceipt :
      (key_ids : List Text) (input : Bytes) (r : ReceiptReport)
      → verify_witness_receipt_bytes platform (trusting key_ids) input ≡ ok r
      → IsReceipt key_ids input r
  unfolding verify_witness_receipt_bytes
  verify_witness_receipt_bytes-IsReceipt key_ids input r h =
      let ((payload, signed_payload), parsed, h1) =
        >>=-eq-ok
          (parse "ATTESTATION_FILE_LIMIT" "ATTESTATION_END" witness default_file_limits input) _
          h in
      let (value, decoded, h2) = >>=-eq-ok (decode_canonical default_limits payload) _ h1 in
      let (w, validated, h3) = >>=-eq-ok (validate_witness platform value) _ h2 in
      let (carrier, carrier_decoded, h4) =
        >>=-eq-ok (decode_canonical default_limits signed_payload) _ h3 in
      let (content, carried, h5) = >>=-eq-ok (signature_of carrier w.signer) _ h4 in
      let (key, imported, h6) =
        >>=-eq-ok (import_public_key platform "WITNESS_PUBLIC_KEY" w.signer.public_key) _ h5 in
      let (valid, checked, h7) =
        >>=-eq-ok
          (verify_domain_commitment platform key (codes "witness-signature-v1") payload content) _
          h6 in
      let (accepted, h8) = invariant-eq-ok valid "WITNESS_SIGNATURE" _ h7 in
      let (is_trusted, allowed, h9) =
        >>=-eq-ok (check_trusted (trusting key_ids) w.signer.key_id "WITNESS_UNTRUSTED") _ h8 in
      subst (IsReceipt key_ids input) (ok-injective _ _ h9) (record {
        payload = payload;
        signature_payload = signed_payload;
        value = value;
        signature = carrier;
        parsed = parsed;
        decoded = decoded;
        validated = validated;
        signature_decoded = carrier_decoded;
        signed = record {
          key = key;
          content = content;
          imported = import_public_key-eq-ok platform "WITNESS_PUBLIC_KEY" _ key imported;
          named = validate_witness-named platform value w validated;
          carried = carried;
          verified = verify_domain_commitment-true key _ payload content valid checked accepted;
        };
        trusted = check_trusted-has_key key_ids w.signer.key_id _ is_trusted allowed;
        of_checkpoint = refl;
        of_file = refl;
        by_signer = refl;
      })

  pub verify_checkpoint_bytes-IsCheckpoint :
      (key_ids : List Text) (input : Bytes) (c : CheckpointReport)
      → verify_checkpoint_bytes platform (trusting key_ids) input ≡ ok c
      → IsCheckpoint key_ids input c
  unfolding verify_checkpoint_bytes
  verify_checkpoint_bytes-IsCheckpoint key_ids input c h =
      let ((payload, signed_payload), parsed, h1) =
        >>=-eq-ok
          (parse "ATTESTATION_FILE_LIMIT" "ATTESTATION_END" checkpoint default_file_limits input) _
          h in
      let (value, decoded, h2) = >>=-eq-ok (decode_canonical default_limits payload) _ h1 in
      let (d, validated, h3) = >>=-eq-ok (validate_checkpoint platform value) _ h2 in
      let (carrier, carrier_decoded, h4) =
        >>=-eq-ok (decode_canonical default_limits signed_payload) _ h3 in
      let (content, carried, h5) = >>=-eq-ok (signature_of carrier d.publisher) _ h4 in
      let (key, imported, h6) =
        >>=-eq-ok (import_public_key platform "CHECKPOINT_PUBLIC_KEY" d.publisher.public_key) _
          h5 in
      let (valid, checked, h7) =
        >>=-eq-ok
          (verify_domain_commitment platform key (codes "checkpoint-signature-v1") payload content)
          _ h6 in
      let (accepted, h8) = invariant-eq-ok valid "CHECKPOINT_SIGNATURE" _ h7 in
      let (is_trusted, allowed, h9) =
        >>=-eq-ok
          (check_trusted (trusting key_ids) d.publisher.key_id "CHECKPOINT_UNTRUSTED_PUBLISHER") _
          h8 in
      let (linked, _, h10) = >>=-eq-ok (check_previous none d.previous_checkpoint_hash) _ h9 in
      subst (IsCheckpoint key_ids input) (ok-injective _ _ h10) (record {
        payload = payload;
        signature_payload = signed_payload;
        value = value;
        signature = carrier;
        parsed = parsed;
        decoded = decoded;
        validated = validated;
        signature_decoded = carrier_decoded;
        signed = record {
          key = key;
          content = content;
          imported = import_public_key-eq-ok platform "CHECKPOINT_PUBLIC_KEY" _ key imported;
          named = validate_checkpoint-named platform value d validated;
          carried = carried;
          verified = verify_domain_commitment-true key _ payload content valid checked accepted;
        };
        trusted = check_trusted-has_key key_ids d.publisher.key_id _ is_trusted allowed;
        hash = refl;
        file_hash = refl;
      })
