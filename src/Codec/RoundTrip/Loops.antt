-- ===== src/Codec/RoundTrip/Loops.antt =====
-- The loops over items and entries read back what their encoders write.
use glare9_provenance.Prelude.{
  ◌+◌, ◌≤◌, Bytes, true, ◌∷◌, ◌++◌, ◌≡◌, refl, ap, length, length-append, Option, none, some,
  Result, ok, >>=-eq-ok, append_assoc, arith,
}
use glare9_provenance.Codec.Utf8.{Text, utf8}
use glare9_provenance.Codec.Value.{
  Value, Items, Fields, no_items, item, no_fields, field, count_items, count_fields, KeysAfter,
  IsNormal, ItemsAreNormal, FieldsAreNormal,
}
use glare9_provenance.Codec.Encode.{
  Limits, encode_length, encode_string_value, encode_items, encode_fields,
}
use glare9_provenance.Codec.Decode.{Reader, read_byte, read_items, read_fields, in_order}
use glare9_provenance.Codec.RoundTrip.Parts.{decode_string-utf8}

-- `decode` reads back what `encode` writes, within the byte limit.
abbrev pub Reads : Limits → (Value → Result Bytes) → Reader Value → Type 0
Reads limits encode decode =
    (v : Value) (bs rest : Bytes)
    → IsNormal v
    → encode v ≡ ok bs
    → length bs ≤ limits.max_bytes
    → decode (bs ++ rest) ≡ ok (v, rest)

-- The keys come after the previous one, if there is one.
abbrev pub Follows : Option Bytes → Fields → Type 0
Follows none fs = Unit
Follows (some key) fs = KeysAfter key fs

in_order-Follows :
    (previous : Option Bytes) (k : Text) (v : Value) (fs : Fields)
    → Follows previous (field k v fs)
    → in_order previous (utf8 k) ≡ true
unfolding in_order
in_order-Follows none k v fs h = refl
in_order-Follows (some key) k v fs h = h.0

-- The parts of an encoded entry, with its tag in front, are no longer than the whole.
entry_bounds :
    (size key first others bs : Bytes)
    → (0x20 ∷ (size ++ key)) ++ (first ++ others) ≡ bs
    → (length key ≤ length bs) × (length first ≤ length bs) × (length others ≤ length bs)
entry_bounds size key first others bs e =
    let whole = ap length e in
    let (outer, left, right) = sizes in (omega arith, omega arith, omega arith)
  where
    sizes :
        (length ((size ++ key) ++ (first ++ others))
          ≡ length (size ++ key) + length (first ++ others))
        × (length (size ++ key) ≡ length size + length key)
        × (length (first ++ others) ≡ length first + length others)
    sizes = (
      length-append (size ++ key) (first ++ others),
      length-append size key,
      length-append first others,
    )

module _ (limits : Limits) (encode : Value → Result Bytes) (decode : Reader Value)
    (reads : Reads limits encode decode) where
  pub read_items-encode_items :
      (xs : Items) (bs rest : Bytes)
      → ItemsAreNormal xs
      → encode_items encode xs ≡ ok bs
      → length bs ≤ limits.max_bytes
      → read_items decode (count_items xs) (bs ++ rest) ≡ ok (xs, rest)
  unfolding encode_items read_items count_items
  read_items-encode_items no_items bs rest normal h fits = ground arith
  read_items-encode_items (item v xs) bs rest (normal, normals) h fits =
      let (first, first_eq, after) = >>=-eq-ok (encode v) _ h in
      let (others, others_eq, whole) = >>=-eq-ok (encode_items encode xs) _ after in
      let parts : first ++ others ≡ bs = cc in
      let size = length-append first others in
      rw (
        ← parts,
        append_assoc first others rest,
        reads v first (others ++ rest) normal first_eq (omega (arith, size, ap length parts)),
        read_items-encode_items xs others rest normals others_eq
            (omega (arith, size, ap length parts)),
      )

  pub read_fields-encode_fields :
      (fs : Fields) (previous : Option Bytes) (bs rest : Bytes)
      → FieldsAreNormal fs
      → Follows previous fs
      → encode_fields encode fs ≡ ok bs
      → length bs ≤ limits.max_bytes
      → read_fields limits decode (count_fields fs) previous (bs ++ rest) ≡ ok (fs, rest)
  unfolding encode_fields encode_string_value read_fields count_fields read_byte
  read_fields-encode_fields no_fields previous bs rest normal follows h fits = ground arith
  read_fields-encode_fields (field k v fs) previous bs rest (plain, ascends, normal, normals)
        follows h fits =
      let (key, key_eq, after_key) = >>=-eq-ok (encode_string_value k) _ h in
      let (size, size_eq, key_parts) = >>=-eq-ok (encode_length (length (utf8 k))) _ key_eq in
      let (first, first_eq, after) = >>=-eq-ok (encode v) _ after_key in
      let (others, others_eq, whole) = >>=-eq-ok (encode_fields encode fs) _ after in
      let parts : (0x20 ∷ (size ++ utf8 k)) ++ (first ++ others) ≡ bs = cc in
      let (key_fits, first_fits, others_fit) = entry_bounds size (utf8 k) first others bs parts in
      let joined : ((size ++ utf8 k) ++ (first ++ others)) ++ rest
          ≡ size ++ (utf8 k ++ (first ++ (others ++ rest))) =
        simp append_assoc in
      rw (
        ← parts,
        joined,
        decode_string-utf8 limits k size (first ++ (others ++ rest)) plain size_eq
            (omega (arith, key_fits)),
        in_order-Follows previous k v fs follows,
        reads v first (others ++ rest) normal first_eq (omega (arith, first_fits)),
        read_fields-encode_fields fs (some (utf8 k)) others rest normals ascends others_eq
            (omega (arith, others_fit)),
      )
