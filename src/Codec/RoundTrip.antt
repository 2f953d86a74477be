-- ===== src/Codec/RoundTrip.antt =====
-- Decoding what was encoded.
pub mod Parts
pub mod Objects
pub mod Loops
pub mod Levels
pub mod ByteOrderMark
use glare9_provenance.Prelude.{
  ℕ, zero, suc, ◌+◌, ◌≤◌, Bytes, true, false, [], ◌∷◌, ◌++◌, leb, ◌==◌, ◌≡◌, refl, ap, length,
  length-append, le→leb, leb→le, Option, none, some, Result, ok, fail, >>=-eq-ok, invariant-eq-ok,
  append_assoc, append-nil, arith,
}
use glare9_provenance.Prelude.Octets.{before, equals, equals_refl, equals→eq}
use glare9_provenance.Codec.Varint.{encode_var_uint}
use glare9_provenance.Codec.Utf8.{Text, utf8}
use glare9_provenance.Codec.Value.{
  Value, Items, Fields, null, bool, number, integer, double, string, bytes, array, object, no_items,
  item, no_fields, field, count_items, count_fields, KeysAfter, IsNormal, ItemsAreNormal,
  FieldsAreNormal, is_finite,
}
use glare9_provenance.Codec.Encode.{
  Limits, encode_length, encode_string_value, encode_number, encode_items, encode_fields,
  encode_value, encode_canonical, sort_fields, write_double, zig_zag,
}
use glare9_provenance.Codec.Decode.{
  Reader, read_byte, read_items, read_fields, in_order, decode_tagged, decode_value,
  decode_canonical, decode_string,
}
use Parts.{
  read_length-encode_length, encode_length-safe, read_bytes-append, decode_float64-write_double,
  decode_integer-encode_var_uint, decode_string-utf8, length-write_double,
}
use Objects.{Ascends, FieldsAreNormal-Ascends, sort_fields-Ascends, assign_all-Ascends}
use Loops.{Reads}
use Levels.{decode_scalar}

decode_value-encode_value :
    (limits : Limits) (room : ℕ)
    → Reads limits (encode_value limits room) (decode_value limits room)
unfolding encode_value
decode_value-encode_value limits zero v bs rest normal h fits = cc
decode_value-encode_value limits (suc room) v bs rest normal h fits =
    decode_scalar limits room (decode_value-encode_value limits room) v bs rest normal h fits

decode_value-encode_canonical :
    (limits : Limits) (v : Value) (bs : Bytes)
    → IsNormal v
    → encode_canonical limits v ≡ ok bs
    → length bs ≤ limits.max_bytes
    → decode_value limits (suc limits.max_depth) bs ≡ ok (v, [])
unfolding encode_canonical
decode_value-encode_canonical limits v bs normal h fits =
    let read = decode_value-encode_value limits (suc limits.max_depth) v bs [] normal h fits in
    rw append-nil at read

-- If a value in normal form is encoded within the byte limit, decoding the bytes gives that value:
-- every check of the decoder, and the comparison with a second encoding, lets it pass.
pub decode_canonical-encode_canonical :
    (limits : Limits) (v : Value) (bs : Bytes)
    → IsNormal v
    → encode_canonical limits v ≡ ok bs
    → length bs ≤ limits.max_bytes
    → decode_canonical limits bs ≡ ok v
unfolding decode_canonical
decode_canonical-encode_canonical limits v bs normal h fits =
    rw (le→leb _ _ fits, decode_value-encode_canonical limits v bs normal h fits, h, equals_refl bs)

-- What the decoder accepts is, byte for byte, the encoding of the value that it returns.
pub encode_canonical-decode_canonical :
    (limits : Limits) (v : Value) (bs : Bytes)
    → decode_canonical limits bs ≡ ok v
    → encode_canonical limits v ≡ ok bs
unfolding decode_canonical
encode_canonical-decode_canonical limits v bs h =
    let (size, after_size) = invariant-eq-ok (leb (length bs) limits.max_bytes) _ _ h in
    let (read, read_eq, after_read) =
      >>=-eq-ok (decode_value limits (suc limits.max_depth) bs) _ after_size in
    let (ended, after_end) = invariant-eq-ok (length read.1 == 0) _ _ after_read in
    let (encoded, encoded_eq, compared) = >>=-eq-ok (encode_canonical limits read.0) _ after_end in
    let (same, returned) = invariant-eq-ok (equals bs encoded) _ _ compared in
    cc (equals→eq bs encoded same)
