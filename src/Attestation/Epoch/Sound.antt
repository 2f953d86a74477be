-- ===== src/Attestation/Epoch/Sound.antt =====
-- What verifyRoutingEpochBytes of src/routing-epoch.js has checked of a file that it accepts.
use glare9_provenance.Prelude.{
  Bytes, [], ◌∷◌, leb, ◌≡◌, sym, length, ok, arith, leb→le, >>=-eq-ok, invariant-eq-ok,
  ok-injective, ap, ◌∙◌, ◌⊎◌, inl, inr,
}
use glare9_provenance.Codec.Value.{Value}
use glare9_provenance.Codec.Encode.{default_limits}
use glare9_provenance.Codec.Decode.{decode_canonical}
use glare9_provenance.Format.Framing.{routing_epoch}
use glare9_provenance.Crypto.{codes, Collision}
use glare9_provenance.Crypto.Hex.{to_hex-injective}
use glare9_provenance.Crypto.Injective.{IsShort, digest-injective}
use glare9_provenance.Crypto.Signatures.{Platform}
use glare9_provenance.Attestation.Container.{parse}
use glare9_provenance.Attestation.Descriptor.{Descriptor}
use glare9_provenance.Attestation.Validation.{validate_descriptor, validate_signature}
use glare9_provenance.Attestation.Epoch.{
  Options, Report, with_hex_hashes, check_options, epoch_hash_text, check_authority,
  verify_routing_epoch_bytes,
}

module _ (platform : Platform) where
  open platform use {sha256}

  -- The statement of a report, of the same limits.
  pub record Attests (options : Options) (file : Bytes) (report : Report) : Type 0 where
    pub d : Descriptor
    pub payload : Bytes
    pub signature_payload : Bytes
    pub value : Value
    pub signature : Value
    pub signed : Bytes
    pub parsed :
        parse "EPOCH_FILE_LIMIT" "EPOCH_END_FRAME" routing_epoch options.limits.files file
        ≡ ok (payload, signature_payload)
    pub decoded : decode_canonical default_limits payload ≡ ok value
    pub validated : validate_descriptor platform options.limits value ≡ ok d
    pub signature_decoded : decode_canonical default_limits signature_payload ≡ ok signature
    pub signature_valid : validate_signature signature d ≡ ok signed
    pub authority : check_authority platform d payload signed ≡ ok tt
    pub allowed : check_options options d ≡ ok tt
    pub described : report.descriptor ≡ with_hex_hashes d
    pub hashed : report.epoch_hash ≡ epoch_hash_text platform payload

  pub verify_routing_epoch_bytes-Attests :
      (options : Options) (file : Bytes) (report : Report)
      → verify_routing_epoch_bytes platform options file ≡ ok report
      → Attests options file report
  unfolding verify_routing_epoch_bytes
  verify_routing_epoch_bytes-Attests options file report h =
      let ((payload, signature_payload), parsed, h1) =
        >>=-eq-ok
          (parse "EPOCH_FILE_LIMIT" "EPOCH_END_FRAME" routing_epoch options.limits.files file) _
          h in
      let (value, decoded, h2) = >>=-eq-ok (decode_canonical default_limits payload) _ h1 in
      let (d, validated, h3) = >>=-eq-ok (validate_descriptor platform options.limits value) _ h2 in
      let (signature, signature_decoded, h4) =
        >>=-eq-ok (decode_canonical default_limits signature_payload) _ h3 in
      let (signed, signature_valid, h5) = >>=-eq-ok (validate_signature signature d) _ h4 in
      let (_, authority, h6) = >>=-eq-ok (check_authority platform d payload signed) _ h5 in
      let (_, allowed, h7) = >>=-eq-ok (check_options options d) _ h6 in
      let same = ok-injective _ _ h7 in
      record {
        d = d;
        payload = payload;
        signature_payload = signature_payload;
        value = value;
        signature = signature;
        signed = signed;
        parsed = parsed;
        decoded = decoded;
        validated = validated;
        signature_decoded = signature_decoded;
        signature_valid = signature_valid;
        authority = authority;
        allowed = allowed;
        described = sym (ap (λ (r : Report). r.descriptor) same);
        hashed = sym (ap (λ (r : Report). r.epoch_hash) same);
      }

  decode_canonical-IsShort :
      (payload : Bytes) (value : Value)
      → decode_canonical default_limits payload ≡ ok value
      → IsShort payload
  unfolding decode_canonical
  decode_canonical-IsShort payload value h =
      let (short, _) = invariant-eq-ok (leb (length payload) 67108864) _ _ h in
      let small = leb→le (length payload) 67108864 short in omega (arith, small)

  -- The descriptors of two files that are accepted under the same limits are equal if their epoch
  -- hashes are, or two inputs of the hash collide.
  pub epoch_hash-descriptor :
      (left right : Options) (x y : Bytes) (r s : Report)
      → left.limits ≡ right.limits
      → verify_routing_epoch_bytes platform left x ≡ ok r
      → verify_routing_epoch_bytes platform right y ≡ ok s
      → r.epoch_hash ≡ s.epoch_hash
      → (r.descriptor ≡ s.descriptor) ⊎ Collision sha256
  unfolding epoch_hash_text
  epoch_hash-descriptor left right x y r s limits hx hy same =
      let a = verify_routing_epoch_bytes-Attests left x r hx in
      let b = verify_routing_epoch_bytes-Attests right y s hy in
      let texts = sym a.hashed ∙ same ∙ b.hashed in
      let digests = to_hex-injective _ _ texts in
      let domain = codes "routing-epoch-v1" in
      elim (digest-injective sha256 domain domain (a.payload ∷ []) (b.payload ∷ []) (omega arith)
        (omega arith) (decode_canonical-IsShort a.payload a.value a.decoded, tt)
        (decode_canonical-IsShort b.payload b.value b.decoded, tt) digests) [
          | inl (_, payloads) ↦
              (let values : a.value ≡ b.value = cc in
                let one : a.d ≡ b.d =
                  ok-injective _ _ (sym (rw (limits, values) at a.validated) ∙ b.validated) in
                inl (cc))
          | inr collision ↦ inr collision
        ]
