-- ===== src/Codec/RoundTrip/Levels.antt =====
-- The branches of decodeValue read back what the branches of encodeValue write.
use glare9_provenance.Prelude.{
  ℕ, suc, ◌≤◌, Bytes, true, false, ◌∷◌, ◌++◌, leb, ◌≡◌, ap, length, length-append, leb→le, none, ok,
  >>=-eq-ok, invariant-eq-ok, append_assoc, arith,
}
use glare9_provenance.Codec.Varint.{encode_var_uint}
use glare9_provenance.Codec.Utf8.{utf8}
use glare9_provenance.Codec.Value.{
  Value, Items, Fields, null, bool, number, integer, double, string, bytes, array, object,
  count_items, count_fields, IsNormal, ItemsAreNormal, FieldsAreNormal, is_finite,
}
use glare9_provenance.Codec.Encode.{
  Limits, encode_length, encode_string_value, encode_number, encode_items, encode_fields,
  encode_value, sort_fields, write_double, zig_zag,
}
use glare9_provenance.Codec.Decode.{read_byte, decode_tagged, decode_value}
use glare9_provenance.Codec.RoundTrip.Parts.{
  read_length-encode_length, encode_length-safe, read_bytes-append, decode_float64-write_double,
  decode_integer-encode_var_uint, decode_string-utf8, length-write_double,
}
use glare9_provenance.Codec.RoundTrip.Objects.{
  FieldsAreNormal-Ascends, sort_fields-Ascends, assign_all-Ascends,
}
use glare9_provenance.Codec.RoundTrip.Loops.{
  Reads, read_items-encode_items, read_fields-encode_fields,
}

-- One level: the values of a nonzero room, where the level below reads what it writes.
module _ (limits : Limits) (room : ℕ)
    (reads : Reads limits (encode_value limits room) (decode_value limits room)) where
  decode_array :
      (xs : Items) (bs rest : Bytes)
      → ItemsAreNormal xs
      → encode_value limits (suc room) (array xs) ≡ ok bs
      → length bs ≤ limits.max_bytes
      → decode_value limits (suc room) (bs ++ rest) ≡ ok (array xs, rest)
  unfolding encode_value decode_value decode_tagged read_byte
  decode_array xs bs rest normal h fits =
      let (few, after_limit) =
        invariant-eq-ok (leb (count_items xs) limits.max_collection_entries) _ _ h in
      let (size, size_eq, after) = >>=-eq-ok (encode_length (count_items xs)) _ after_limit in
      let (body, body_eq, whole) = >>=-eq-ok (encode_items (encode_value limits room) xs) _ after in
      let parts : 0x40 ∷ (size ++ body) ≡ bs = cc in
      let bound = ap length parts in
      rw (
        ← parts,
        append_assoc size body rest,
        read_length-encode_length (count_items xs) size (body ++ rest) size_eq,
        few,
        read_items-encode_items limits (encode_value limits room) (decode_value limits room) reads
            xs body rest normal body_eq (omega (arith, bound, length-append {0})),
      )

  decode_object :
      (fs : Fields) (bs rest : Bytes)
      → FieldsAreNormal fs
      → encode_value limits (suc room) (object fs) ≡ ok bs
      → length bs ≤ limits.max_bytes
      → decode_value limits (suc room) (bs ++ rest) ≡ ok (object fs, rest)
  unfolding encode_value decode_value decode_tagged read_byte
  decode_object fs bs rest normal h fits =
      let ascends = FieldsAreNormal-Ascends fs normal in
      let (few, after_limit) =
        invariant-eq-ok (leb (count_fields fs) limits.max_collection_entries) _ _ h in
      let (size, size_eq, after) = >>=-eq-ok (encode_length (count_fields fs)) _ after_limit in
      let (body, body_eq, whole) =
        >>=-eq-ok (encode_fields (encode_value limits room) (sort_fields fs)) _ after in
      let parts : 0x50 ∷ (size ++ body) ≡ bs = cc in
      let bound = ap length parts in
      rw (
        ← parts,
        append_assoc size body rest,
        read_length-encode_length (count_fields fs) size (body ++ rest) size_eq,
        few,
        read_fields-encode_fields limits (encode_value limits room) (decode_value limits room) reads
            fs none body rest normal tt (rw (sort_fields-Ascends fs ascends) at body_eq)
            (omega (arith, bound, length-append {0})),
        assign_all-Ascends fs ascends,
      )

  pub decode_scalar :
      (v : Value) (bs rest : Bytes)
      → IsNormal v
      → encode_value limits (suc room) v ≡ ok bs
      → length bs ≤ limits.max_bytes
      → decode_value limits (suc room) (bs ++ rest) ≡ ok (v, rest)
  unfolding encode_value encode_string_value encode_number decode_value decode_tagged read_byte
  decode_scalar null bs rest normal h fits = ground arith
  decode_scalar (bool false) bs rest normal h fits = ground arith
  decode_scalar (bool true) bs rest normal h fits = ground arith
  decode_scalar (number (integer z)) bs rest normal h fits =
      let (digits, digits_eq, whole) = >>=-eq-ok (encode_var_uint (zig_zag z)) _ h in
      let parts : 0x10 ∷ digits ≡ bs = cc in
      rw (← parts, decode_integer-encode_var_uint z digits rest normal digits_eq)
  decode_scalar (number (double bits)) bs rest normal h fits =
      let (finite, whole) = invariant-eq-ok (is_finite (double bits)) _ _ h in
      let parts : 0x11 ∷ write_double bits ≡ bs = cc in
      let size = length-write_double bits in
      let bound = ap length parts in
      rw (← parts, decode_float64-write_double limits bits rest normal finite (omega arith))
  decode_scalar (string t) bs rest normal h fits =
      let (size, size_eq, whole) = >>=-eq-ok (encode_length (length (utf8 t))) _ h in
      let parts : 0x20 ∷ (size ++ utf8 t) ≡ bs = cc in
      rw (
        ← parts,
        append_assoc size (utf8 t) rest,
        decode_string-utf8 limits t size rest normal size_eq
            (omega (arith, ap length parts, length-append {0})),
      )
  decode_scalar (bytes b) bs rest normal h fits =
      let (few, after_limit) = invariant-eq-ok (leb (length b) limits.max_bytes) _ _ h in
      let (size, size_eq, whole) = >>=-eq-ok (encode_length (length b)) _ after_limit in
      let parts : 0x30 ∷ (size ++ b) ≡ bs = cc in
      rw (
        ← parts,
        append_assoc size b rest,
        read_length-encode_length (length b) size (b ++ rest) size_eq,
        read_bytes-append limits b rest (encode_length-safe (length b) size size_eq)
            (leb→le _ _ few),
      )
  decode_scalar (array xs) bs rest normal h fits = decode_array xs bs rest normal h fits
  decode_scalar (object fs) bs rest normal h fits = decode_object fs bs rest normal h fits
