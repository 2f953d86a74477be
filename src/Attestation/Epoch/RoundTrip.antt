-- ===== src/Attestation/Epoch/RoundTrip.antt =====
-- writeRoutingEpoch and verifyRoutingEpochBytes of src/routing-epoch.js against each other.
use glare9_provenance.Prelude.{
  ℕ, ◌+◌, ◌≤◌, Bytes, Bool, true, false, ◌&&◌, [], ◌∷◌, List, leb, ltb, ◌==◌, ==_refl, ◌≡◌, refl,
  sym, length, Option, none, some, Result, ok, arith, leb→le, >>=-eq-ok, invariant-eq-ok,
  ok-injective, Bool-cases, inl, inr, subst, ap, ◌∙◌, if◌then◌else◌,
}
use glare9_provenance.Prelude.Octets.{equals, equals→eq, equals_refl}
use glare9_provenance.Codec.Utf8.{IsPlain}
use glare9_provenance.Codec.Value.{Fields, IsNormal}
use glare9_provenance.Codec.Encode.{encode_canonical, default_limits}
use glare9_provenance.Codec.RoundTrip.{decode_canonical-encode_canonical}
use glare9_provenance.Format.Framing.{routing_epoch}
use glare9_provenance.Crypto.{codes, domain_hash}
use glare9_provenance.Crypto.Signatures.{
  Platform, Signer, ed25519, public_key_id, verify_domain_commitment, sign_domain_with_signer,
}
use glare9_provenance.Crypto.Signatures.Signed.{
  IsSigned, import_public_key-created, sign_domain_with_signer-IsSigned,
}
use glare9_provenance.Attestation.Checks.{exact_fields, property, is_text, require}
use glare9_provenance.Attestation.Container.{default_file_limits, signature_value, container}
use glare9_provenance.Attestation.Container.RoundTrip.{
  container_bytes, concat_frames-eq-ok, parse-container_bytes, length-container_bytes,
}
use glare9_provenance.Attestation.Descriptor.{
  default_epoch_limits, Descriptor, Parts, descriptor_fields, parts_value, descriptor_value,
}
use glare9_provenance.Attestation.Heads.Valid.{bytes_of-bytes}
use glare9_provenance.Attestation.Validation.{validate_descriptor, validate_signature}
use glare9_provenance.Attestation.Validation.Parts.{
  validate_topology_authority-same, canonical_text-IsPlain,
}
use glare9_provenance.Attestation.Validation.Valid.{
  IsValid, validate_descriptor-IsValid, validate_descriptor-IsChecked,
  validate_descriptor-descriptor_value,
}
use glare9_provenance.Attestation.Validation.Normal.{
  descriptor_value-IsNormal, signature_value-IsNormal, is_hash_text-IsPlain,
}
use glare9_provenance.Attestation.Epoch.{
  Request, request_parts, request_value, Written, default_options, Report, with_hex_hashes,
  check_previous_shards, descriptor_for_write, epoch_hash_text, epoch_file_hash_text,
  write_routing_epoch, check_authority, verify_routing_epoch_bytes,
}

-- The fields of the object that was made of the parts.
opened_parts :
    (parts : Parts) (fs : Fields)
    → exact_fields "EPOCH_OBJECT" "EPOCH_FIELDS" descriptor_fields (parts_value parts) ≡ ok fs
    → (property (codes "topologyAuthority") fs ≡ parts.topology_authority)
      × (property (codes "ledgerId") fs ≡ parts.ledger_id)
      × (property (codes "reason") fs ≡ parts.reason)
unfolding parts_value exact_fields property equals glare9_provenance.Prelude.Octets.before
opened_parts parts fs h = (
  sym (ap (property (codes "topologyAuthority")) (ok-injective _ _ h)),
  sym (ap (property (codes "ledgerId")) (ok-injective _ _ h)),
  sym (ap (property (codes "reason")) (ok-injective _ _ h)),
)

validate_signature-signature_value :
    (d : Descriptor) (content : Bytes)
    → length content ≡ 64
    → validate_signature (signature_value ed25519 d.topology_authority.key_id content) d
      ≡ ok content
unfolding validate_signature exact_fields property is_text equals require
    glare9_provenance.Prelude.Octets.before
validate_signature-signature_value d content size =
    rw (equals_refl d.topology_authority.key_id, bytes_of-bytes 64 content size)

module _ (platform : Platform) where
  open platform use {sha256}

  -- What writeRoutingEpoch has made when it succeeds.
  pub record HasWritten (request : Request) (written : Written) : Type 0 where
    pub d : Descriptor
    pub payload : Bytes
    pub content : Bytes
    pub signed : Bytes
    pub described : descriptor_for_write platform default_epoch_limits request ≡ ok d
    pub encoded : encode_canonical default_limits (descriptor_value d) ≡ ok payload
    pub signature :
        sign_domain_with_signer platform request.topology_authority
          (codes "routing-epoch-signature-v1")
          payload
        ≡ ok content
    pub signature_encoded :
        encode_canonical default_limits (
          signature_value request.topology_authority.algorithm request.topology_authority.key_id
            content)
        ≡ ok signed
    pub small : length payload ≤ 0xffff_ffff
    pub signature_small : length signed ≤ 0xffff_ffff
    pub bytes : written.file_bytes ≡ container_bytes routing_epoch payload signed
    pub hash : written.epoch_hash ≡ epoch_hash_text platform payload
    pub file_hash : written.file_hash ≡ epoch_file_hash_text platform written.file_bytes

  pub write_routing_epoch-HasWritten :
      (request : Request) (written : Written)
      → write_routing_epoch platform request ≡ ok written
      → HasWritten request written
  unfolding write_routing_epoch container
  write_routing_epoch-HasWritten request written h =
      let signer = request.topology_authority in
      let domain = codes "routing-epoch-signature-v1" in
      let (d, described, h1) =
        >>=-eq-ok (descriptor_for_write platform default_epoch_limits request) _ h in
      let (payload, encoded, h2) =
        >>=-eq-ok (encode_canonical default_limits (descriptor_value d)) _ h1 in
      let (file, contained, h3) =
        >>=-eq-ok (container platform routing_epoch payload signer domain) _ h2 in
      let (content, made, c1) =
        >>=-eq-ok (sign_domain_with_signer platform signer domain payload) _ contained in
      let (signed, signature_encoded, c2) =
        >>=-eq-ok
          (encode_canonical default_limits (signature_value signer.algorithm signer.key_id content))
          _ c1 in
      let (bytes, small, signature_small) =
        concat_frames-eq-ok routing_epoch payload signed file c2 in
      let same = ok-injective _ _ h3 in
      record {
        d = d;
        payload = payload;
        content = content;
        signed = signed;
        described = described;
        encoded = encoded;
        signature = made;
        signature_encoded = signature_encoded;
        small = small;
        signature_small = signature_small;
        bytes = sym (ap (λ (w : Written). w.file_bytes) same) ∙ bytes;
        hash = sym (ap (λ (w : Written). w.epoch_hash) same);
        file_hash = cc;
      }

  -- The descriptor that is written was validated, is plain where the request is, and names the signer.
  record IsDescribed (request : Request) (d : Descriptor) : Type 0 where
    valid : IsValid platform default_epoch_limits d
    ledger : IsPlain d.ledger_id
    explained : IsPlain d.reason
    key_id : d.topology_authority.key_id ≡ request.topology_authority.key_id
    public_key : d.topology_authority.public_key ≡ request.topology_authority.public_key_der

  descriptor_for_write-IsDescribed :
      (request : Request) (d : Descriptor)
      → descriptor_for_write platform default_epoch_limits request ≡ ok d
      → request.topology_authority.algorithm ≡ ed25519
      → IsNormal request.ledger_id
      → IsNormal request.reason
      → IsDescribed request d
  unfolding descriptor_for_write request_value
  descriptor_for_write-IsDescribed request d h algorithm named explained =
      let limits = default_epoch_limits in
      let signer = request.topology_authority in
      let (_, h1) = invariant-eq-ok (equals signer.algorithm ed25519 && signer.can_sign) _ _ h in
      let (_, h2) =
        invariant-eq-ok (equals signer.key_id (public_key_id platform signer.public_key_der)) _ _
          h1 in
      let (d', validated', h3) =
        >>=-eq-ok (validate_descriptor platform limits (request_value request)) _ h2 in
      let (_, _, h4) = >>=-eq-ok (check_previous_shards request.previous_routing_policy d') _ h3 in
      let validated =
        subst
          (λ (e : Descriptor). validate_descriptor platform limits (request_value request) ≡ ok e)
          (ok-injective _ _ h4) validated' in
      let (fs, opened, checked) = validate_descriptor-IsChecked platform limits _ d validated in
      let (authority, ledger, reason) = opened_parts (request_parts request) fs opened in
      let same =
        validate_topology_authority-same
          (record { key_id = signer.key_id; public_key = signer.public_key_der })
          d.topology_authority (rw (authority, algorithm) at checked.authority) in
      record {
        valid = validate_descriptor-IsValid platform limits _ d validated;
        ledger = canonical_text-IsPlain platform _ _ _ (rw ledger at checked.ledger) named;
        explained =
            canonical_text-IsPlain platform _ _ _ (rw reason at checked.explained) explained;
        key_id = cc;
        public_key = cc;
      }

  check_authority-IsSigned :
      (signer : Signer) (d : Descriptor) (payload content : Bytes)
      → IsSigned platform signer (codes "routing-epoch-signature-v1") payload content
      → d.topology_authority.key_id ≡ signer.key_id
      → d.topology_authority.public_key ≡ signer.public_key_der
      → check_authority platform d payload content ≡ ok tt
  unfolding check_authority verify_domain_commitment domain_hash
  check_authority-IsSigned signer d payload content signed named held = rw (
    held,
    named,
    signed.key_id,
    equals_refl (public_key_id platform signer.public_key_der),
    import_public_key-created platform "EPOCH_PUBLIC_KEY" signer.public_key_der signed.key
        signed.imported,
    signed.verified,
  )

  -- The report of a file that was written, with nothing known of its signer.
  abbrev pub report_of : Descriptor → Bytes → Bytes → Report
  report_of d payload file = record {
    descriptor = with_hex_hashes d;
    epoch_hash = epoch_hash_text platform payload;
    file_hash = epoch_file_hash_text platform file;
    topology_authority_trusted = false;
    byte_length = length file;
  }

  verify-written :
      (request : Request) (written : Written) (w : HasWritten request written)
      → IsNormal request.ledger_id
      → IsNormal request.reason
      → length written.file_bytes ≤ 67108864
      → verify_routing_epoch_bytes platform default_options written.file_bytes
        ≡ ok (report_of w.d w.payload written.file_bytes)
  unfolding verify_routing_epoch_bytes
  verify-written request written w named explained fits =
      let s =
        sign_domain_with_signer-IsSigned platform request.topology_authority _ w.payload w.content
          w.signature in
      let about =
        descriptor_for_write-IsDescribed request w.d w.described s.algorithm named explained in
      let key_id = w.d.topology_authority.key_id in
      let size = length-container_bytes routing_epoch w.payload w.signed in
      let total : length (container_bytes routing_epoch w.payload w.signed) ≤ 67108864 =
        omega (arith, ap length w.bytes) in
      let parsed =
        parse-container_bytes "EPOCH_FILE_LIMIT" "EPOCH_END_FRAME" routing_epoch default_file_limits
          w.payload w.signed w.small w.signature_small total (omega arith) in
      let decoded =
        decode_canonical-encode_canonical default_limits (descriptor_value w.d) w.payload
          (descriptor_value-IsNormal platform default_epoch_limits w.d about.valid about.ledger
            about.explained)
          w.encoded (omega arith) in
      let signature_decoded =
        decode_canonical-encode_canonical default_limits (signature_value ed25519 key_id w.content)
          w.signed
          (signature_value-IsNormal key_id w.content
            (is_hash_text-IsPlain key_id about.valid.authority.0))
          (rw (s.algorithm, sym about.key_id) at w.signature_encoded) (omega arith) in
      rw (
        w.bytes,
        parsed,
        decoded,
        validate_descriptor-descriptor_value platform default_epoch_limits w.d about.valid,
        signature_decoded,
        validate_signature-signature_value w.d w.content s.size,
        check_authority-IsSigned request.topology_authority w.d w.payload w.content s about.key_id
            about.public_key,
      )

  -- A routing epoch that writeRoutingEpoch has written is accepted by verifyRoutingEpochBytes under the
  -- default options, if its ledger ID and its reason are plain texts and the file is within 64 MiB: the
  -- verifier reports the descriptor that was written, and the hashes that the writer returned.
  pub verify_routing_epoch_bytes-write_routing_epoch :
      (request : Request) (written : Written)
      → write_routing_epoch platform request ≡ ok written
      → IsNormal request.ledger_id
      → IsNormal request.reason
      → length written.file_bytes ≤ 67108864
      → (d : Descriptor) × (report : Report) × (descriptor_for_write platform default_epoch_limits
            request
          ≡ ok d)
        × (verify_routing_epoch_bytes platform default_options written.file_bytes ≡ ok report)
        × (report.descriptor ≡ with_hex_hashes d)
        × (report.epoch_hash ≡ written.epoch_hash)
        × (report.file_hash ≡ written.file_hash)
  verify_routing_epoch_bytes-write_routing_epoch request written h named explained fits =
      let w = write_routing_epoch-HasWritten request written h in
      (
        w.d,
        report_of w.d w.payload written.file_bytes,
        w.described,
        verify-written request written w named explained fits,
        refl,
        sym w.hash,
        sym w.file_hash,
      )
