-- ===== src/Attestation/Container.antt =====
-- The signed containers of src/checkpoint.js, which src/routing-epoch.js writes and reads in the same
-- way: the magic of version 2, the statement, its signature and an empty end frame. An object is
-- given with its entries in the order in which encodeCanonical sorts them.
pub mod RoundTrip
use glare9_provenance.Prelude.{
  ℕ, Bytes, Bool, true, false, ◌&&◌, [], ◌∷◌, ◌++◌, List, leb, ◌==◌, length, some, none, String,
  Result, ok, ◌>>=◌, ◌>>◌, invariant,
}
use glare9_provenance.Prelude.Octets.{equals}
use glare9_provenance.Codec.Utf8.{Text}
use glare9_provenance.Codec.Value.{Value, string, bytes, object, no_fields, field}
use glare9_provenance.Codec.Encode.{encode_canonical, default_limits}
use glare9_provenance.Format.Framing.{
  FrameType, signature, end_of_file, type_name, magic_v2, encode_frame, new_reader, read_magic,
  read_frame, assert_end,
}
use glare9_provenance.Crypto.{codes}
use glare9_provenance.Crypto.Signatures.{Platform, Signer, sign_domain_with_signer}

-- { algorithm, keyId, signature }
abbrev pub signature_value : Text → Text → Bytes → Value
signature_value algorithm key_id content = object (
    field (codes "algorithm") (string algorithm)
      (field (codes "keyId") (string key_id) (field (codes "signature") (bytes content) no_fields)))

-- Buffer.concat([G9P_MAGIC_V2, encodeFrame(type, payload), ...])
unfoldable pub concat_frames : FrameType → Bytes → Bytes → Result Bytes
concat_frames type payload signature_payload = do
  statement ← encode_frame (type_name type) payload
  signed ← encode_frame (type_name signature) signature_payload
  ending ← encode_frame (type_name end_of_file) []
  ok (magic_v2 ++ (statement ++ (signed ++ ending)))

-- container(frameType, payload, signer, signatureDomain)
unfoldable pub container : Platform → FrameType → Bytes → Signer → Bytes → Result Bytes
unfolding concat_frames
container platform type payload signer domain = do
  content ← sign_domain_with_signer platform signer domain payload
  signature_payload ←
      encode_canonical default_limits (signature_value signer.algorithm signer.key_id content)
  concat_frames type payload signature_payload

pub record FileLimits : Type 0 where
  pub max_file_bytes : ℕ
  pub max_frame_bytes : ℕ

abbrev pub default_file_limits : FileLimits
default_file_limits = record { max_file_bytes = 67108864; max_frame_bytes = 67108864 }

-- parse(bytes, frameType, limits), with the codes of the limit and of the end frame: the payloads of
-- the statement and of the signature.
unfoldable pub parse : String → String → FrameType → FileLimits → Bytes → Result (Bytes × Bytes)
parse limit_code end_code type limits input = do
  invariant (leb (length input) limits.max_file_bytes) limit_code
  reader ← read_magic magic_v2 (new_reader input limits.max_frame_bytes)
  (statement, after_statement) ← read_frame (type_name type) reader
  (signed, after_signed) ← read_frame (type_name signature) after_statement
  (ending, after_end) ← read_frame (type_name end_of_file) after_signed
  invariant (length ending == 0) end_code
  assert_end after_end
  ok (statement, signed)
