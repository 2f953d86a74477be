-- ===== src/Codec/Encode.antt =====
-- encodeCanonical of src/codec/canonical.js. `room` is `limits.maxDepth + 1 - depth`: the guard on
-- the depth fails exactly where no room is left.
use glare9_provenance.Prelude.{
  ℕ, zero, suc, ◌+◌, ◌*◌, ◌/◌, ◌%◌, ◌^◌, Bytes, true, false, [], ◌∷◌, ◌++◌, leb, if◌then◌else◌,
  length, Result, ok, ◌>>=◌, ◌>>◌, fail, invariant,
}
use glare9_provenance.Prelude.Octets.{before, write_u32}
use glare9_provenance.Codec.Varint.{encode_var_uint}
use glare9_provenance.Codec.Utf8.{Text, utf8}
use glare9_provenance.Codec.Value.{
  ℤ, pos, negsuc, Number, integer, double, Value, Items, Fields, null, bool, number, string, bytes,
  array, object, no_items, item, no_fields, field, max_safe_integer, is_finite, count_items,
  count_fields,
}

pub record Limits : Type 0 where
  pub max_bytes : ℕ
  pub max_collection_entries : ℕ
  pub max_depth : ℕ

-- DEFAULT_LIMITS
abbrev pub default_limits : Limits
default_limits = record { max_bytes = 67108864; max_collection_entries = 1000000; max_depth = 64 }

abbrev pub tag_null : ℕ
tag_null = 0x00

abbrev pub tag_false : ℕ
tag_false = 0x01

abbrev pub tag_true : ℕ
tag_true = 0x02

abbrev pub tag_integer : ℕ
tag_integer = 0x10

abbrev pub tag_float64 : ℕ
tag_float64 = 0x11

abbrev pub tag_string : ℕ
tag_string = 0x20

abbrev pub tag_bytes : ℕ
tag_bytes = 0x30

abbrev pub tag_array : ℕ
tag_array = 0x40

abbrev pub tag_map : ℕ
tag_map = 0x50

unfoldable pub encode_length : ℕ → Result Bytes
encode_length value =
    invariant (leb value max_safe_integer) "ENCODE_LENGTH" >> encode_var_uint value

unfoldable pub encode_string_value : Text → Result Bytes
encode_string_value value = do
  size ← encode_length (length (utf8 value))
  ok (tag_string ∷ (size ++ utf8 value))

-- integer >= 0 ? integer * 2 : -integer * 2 - 1
unfoldable pub zig_zag : ℤ → ℕ
zig_zag (pos n) = n * 2
zig_zag (negsuc n) = n * 2 + 1

-- writeDoubleBE
unfoldable pub write_double : ℕ → Bytes
write_double bits = write_u32 (bits / 2 ^ 32) ++ write_u32 (bits % 2 ^ 32)

-- The constructor is the answer of Number.isSafeInteger.
unfoldable pub encode_number : Number → Result Bytes
unfolding zig_zag
encode_number (integer z) = do digits ← encode_var_uint (zig_zag z); ok (tag_integer ∷ digits)
encode_number (double bits) =
    invariant (is_finite (double bits)) "ENCODE_NUMBER" >> ok (tag_float64 ∷ write_double bits)

-- entries.sort((left, right) => Buffer.compare(left.keyBytes, right.keyBytes)), which is stable.
unfoldable pub insert_field : Text → Value → Fields → Fields
insert_field key value no_fields = field key value no_fields
insert_field key value (field k v fs) =
    if before (utf8 k) (utf8 key)
    then field k v (insert_field key value fs)
    else field key value (field k v fs)

unfoldable pub sort_fields : Fields → Fields
unfolding insert_field
sort_fields no_fields = no_fields
sort_fields (field k v fs) = insert_field k v (sort_fields fs)

-- value.map((item) => encodeValue(item, depth + 1, limits)), concatenated
unfoldable pub encode_items : (Value → Result Bytes) → Items → Result Bytes
encode_items encode no_items = ok []
encode_items encode (item v xs) = do
  first ← encode v
  others ← encode_items encode xs
  ok (first ++ others)

-- entries.flatMap(({ key, entryValue }) => [encodeStringValue(key), encodeValue(entryValue, ...)])
unfoldable pub encode_fields : (Value → Result Bytes) → Fields → Result Bytes
encode_fields encode no_fields = ok []
encode_fields encode (field k v fs) = do
  key ← encode_string_value k
  value ← encode v
  others ← encode_fields encode fs
  ok (key ++ (value ++ others))

unfoldable pub encode_value : Limits → ℕ → Value → Result Bytes
encode_value limits zero value = fail "ENCODE_DEPTH"
encode_value limits (suc room) null = ok (tag_null ∷ [])
encode_value limits (suc room) (bool false) = ok (tag_false ∷ [])
encode_value limits (suc room) (bool true) = ok (tag_true ∷ [])
encode_value limits (suc room) (number n) = encode_number n
encode_value limits (suc room) (string t) = encode_string_value t
encode_value limits (suc room) (bytes b) =
    invariant (leb (length b) limits.max_bytes) "ENCODE_BYTES_LIMIT"
    >> (encode_length (length b) >>= λ size. ok (tag_bytes ∷ (size ++ b)))
encode_value limits (suc room) (array xs) =
    invariant (leb (count_items xs) limits.max_collection_entries) "ENCODE_ARRAY_LIMIT"
    >> (encode_length (count_items xs) >>= λ size.
        encode_items (encode_value limits room) xs >>= λ body. ok (tag_array ∷ (size ++ body)))
encode_value limits (suc room) (object fs) =
    invariant (leb (count_fields fs) limits.max_collection_entries) "ENCODE_MAP_LIMIT"
    >> (encode_length (count_fields fs) >>= λ size.
        encode_fields (encode_value limits room) (sort_fields fs) >>= λ body.
        ok (tag_map ∷ (size ++ body)))

-- encodeCanonical(value, limits)
unfoldable pub encode_canonical : Limits → Value → Result Bytes
encode_canonical limits value = encode_value limits (suc limits.max_depth) value
