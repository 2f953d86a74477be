-- ===== src/Examples/Codecs.antt =====
-- src/codec/canonical.js at concrete values.
use glare9_provenance.Prelude.{ℕ, ◌<◌, Bytes, [], ◌∷◌, ◌≡◌, refl, ok, err, arith}
use glare9_provenance.Prelude.Octets.{before}
use glare9_provenance.Codec.Varint.{encode_var_uint}
use glare9_provenance.Codec.Utf8.{Text, utf8, decode_text, strip_bom, IsScalar}
use glare9_provenance.Codec.Value.{
  Value, null, number, string, array, object, integer, pos, negsuc, item, no_items, field,
  no_fields, IsNormal,
}
use glare9_provenance.Codec.Encode.{default_limits, encode_canonical}
use glare9_provenance.Codec.Decode.{decode_canonical}
use glare9_provenance.Codec.RoundTrip.{
  decode_canonical-encode_canonical, encode_canonical-decode_canonical,
}
use glare9_provenance.Codec.RoundTrip.ByteOrderMark.{decode_canonical-bom}

-- { a: [-1], b: "h" }
abbrev sample : Value
sample = object (
    field (b'a' ∷ []) (array (item (number (integer (negsuc 0))) no_items))
      (field (b'b' ∷ []) (string (b'h' ∷ [])) no_fields))

abbrev sample_bytes : Bytes
sample_bytes =
    0x50 ∷ 2 ∷ 0x20 ∷ 1 ∷ b'a' ∷ 0x40 ∷ 1 ∷ 0x10 ∷ 1 ∷ 0x20 ∷ 1 ∷ b'b' ∷ 0x20 ∷ 1 ∷ b'h' ∷ []

sample_encoded : encode_canonical default_limits sample ≡ ok sample_bytes
unfolding encode_canonical glare9_provenance.Codec.Encode.encode_value
    glare9_provenance.Codec.Value.count_fields glare9_provenance.Codec.Encode.encode_length
    encode_var_uint glare9_provenance.Codec.Encode.encode_fields
    glare9_provenance.Codec.Encode.sort_fields before utf8 glare9_provenance.Codec.Utf8.utf8_char
    glare9_provenance.Codec.Encode.encode_string_value glare9_provenance.Codec.Value.count_items
    glare9_provenance.Codec.Encode.encode_items glare9_provenance.Codec.Encode.encode_number
sample_encoded = refl

scalar : (c : ℕ) → c < 0xd800 → IsScalar c
scalar c h = ground arith

sample-IsNormal : IsNormal sample
unfolding before utf8 glare9_provenance.Codec.Utf8.utf8_char
sample-IsNormal = (
  ((scalar b'a' (omega arith), tt), refl),
  (refl, tt),
  (omega arith, tt),
  (((scalar b'b' (omega arith), tt), refl), tt, ((scalar b'h' (omega arith), tt), refl), tt),
)

sample_decoded : decode_canonical default_limits sample_bytes ≡ ok sample
sample_decoded =
    decode_canonical-encode_canonical default_limits sample sample_bytes sample-IsNormal
      sample_encoded (omega arith)

decode_canonical-encode_canonical_example : decode_canonical default_limits sample_bytes ≡ ok sample
decode_canonical-encode_canonical_example =
    decode_canonical-encode_canonical default_limits sample sample_bytes sample-IsNormal
      sample_encoded (omega arith)

encode_canonical-decode_canonical_example : encode_canonical default_limits sample ≡ ok sample_bytes
encode_canonical-decode_canonical_example =
    encode_canonical-decode_canonical default_limits sample sample_bytes sample_decoded

abbrev marked_bytes : Bytes
marked_bytes = 0x20 ∷ 4 ∷ 0xef ∷ 0xbb ∷ 0xbf ∷ b'A' ∷ []

marked_encoded : encode_canonical default_limits (string (0xfeff ∷ b'A' ∷ [])) ≡ ok marked_bytes
unfolding encode_canonical glare9_provenance.Codec.Encode.encode_value
    glare9_provenance.Codec.Value.count_fields glare9_provenance.Codec.Encode.encode_length
    encode_var_uint glare9_provenance.Codec.Encode.encode_fields
    glare9_provenance.Codec.Encode.sort_fields before utf8 glare9_provenance.Codec.Utf8.utf8_char
    glare9_provenance.Codec.Encode.encode_string_value glare9_provenance.Codec.Value.count_items
    glare9_provenance.Codec.Encode.encode_items glare9_provenance.Codec.Encode.encode_number
marked_encoded = refl

decode_canonical-bom_example :
    decode_canonical default_limits marked_bytes ≡ err "DECODE_NON_CANONICAL"
decode_canonical-bom_example =
    decode_canonical-bom default_limits (b'A' ∷ []) marked_bytes (scalar b'A' (omega arith), tt)
      marked_encoded (omega arith)

var_uint_300 : encode_var_uint 300 ≡ ok (172 ∷ 2 ∷ [])
unfolding encode_var_uint
var_uint_300 = refl
