-- ===== src/Codec/Decode.antt =====
-- decodeCanonical of src/codec/canonical.js. The decoder's `bytes` and `offset` are the list of
-- the bytes that remain. `room` is `limits.maxDepth + 1 - depth`, as in the encoder.
use glare9_provenance.Prelude.{
  ℕ, zero, suc, ◌+◌, ◌*◌, ◌/◌, ◌%◌, ◌^◌, Bytes, Bool, true, false, not, [], ◌∷◌, leb, ◌==◌,
  if◌then◌else◌, length, take, drop, Option, none, some, Result, ok, ◌>>=◌, ◌>>◌, fail, invariant,
}
use glare9_provenance.Prelude.Octets.{equals, before, read_u32}
use glare9_provenance.Codec.Varint.{read_var_uint}
use glare9_provenance.Codec.Utf8.{Text, decode_text}
use glare9_provenance.Codec.Value.{
  ℤ, pos, negate, magnitude, integer, Value, Items, Fields, null, bool, number, string, bytes,
  array, object, no_items, item, no_fields, field, max_safe_integer, number_of_bits, is_finite,
  is_safe_integer,
}
use glare9_provenance.Codec.Encode.{
  Limits, encode_canonical, tag_null, tag_false, tag_true, tag_integer, tag_float64, tag_string,
  tag_bytes, tag_array, tag_map,
}

-- A method of the decoder: from the bytes that remain to its result and what remains after it.
abbrev pub Reader {ℓ} : Type ℓ → Type ℓ
Reader A = Bytes → Result (A × Bytes)

unfoldable pub read_byte : Reader ℕ
read_byte [] = fail "DECODE_TRUNCATED"
read_byte (b ∷ rest) = ok (b, rest)

unfoldable pub read_bytes : Limits → ℕ → Reader Bytes
read_bytes limits size remaining =
    invariant (leb size max_safe_integer) "DECODE_LENGTH"
    >> (invariant (leb size limits.max_bytes) "DECODE_BYTES_LIMIT"
        >> (invariant (leb size (length remaining)) "DECODE_TRUNCATED"
            >> ok (take size remaining, drop size remaining)))

unfoldable pub read_length : Reader ℕ
read_length remaining = do
  (value, rest) ← read_var_uint remaining
  invariant (leb value max_safe_integer) "DECODE_LENGTH"
  ok (value, rest)

text_or_fail : Option Text → Result Text
text_or_fail none = fail "DECODE_UTF8"
text_or_fail (some t) = ok t

-- The text, and its bytes.
unfoldable pub decode_string : Limits → Reader (Text × Bytes)
unfolding text_or_fail
decode_string limits remaining = do
  (size, after_size) ← read_length remaining
  (content, rest) ← read_bytes limits size after_size
  text ← text_or_fail (decode_text content)
  ok ((text, content), rest)

-- (zigZag & 1n) === 0n ? zigZag / 2n : -((zigZag + 1n) / 2n)
unfoldable pub un_zig_zag : ℕ → ℤ
un_zig_zag n = if n % 2 == 0 then pos (n / 2) else negate ((n + 1) / 2)

unfoldable pub decode_integer : Reader Value
unfolding un_zig_zag
decode_integer remaining = do
  (digits, rest) ← read_var_uint remaining
  invariant (leb (magnitude (un_zig_zag digits)) max_safe_integer) "DECODE_INTEGER"
  ok (number (integer (un_zig_zag digits)), rest)

-- readDoubleBE over eight bytes
unfoldable pub read_double : Bytes → ℕ
read_double content = elim (read_u32 content) [
  | none ↦ 0
  | some (high, rest) ↦ elim (read_u32 rest) [ none ↦ 0 | some (low, _) ↦ high * 2 ^ 32 + low ]
]

unfoldable pub decode_float64 : Limits → Reader Value
unfolding read_double
decode_float64 limits remaining = do
  (content, rest) ← read_bytes limits 8 remaining
  let value = number_of_bits (read_double content)
  invariant (is_finite value) "DECODE_NUMBER"
  invariant (not (is_safe_integer value)) "DECODE_NON_CANONICAL"
  ok (number value, rest)

-- The loop of the array branch, with `n` rounds left.
unfoldable pub read_items : Reader Value → ℕ → Reader Items
read_items decode zero remaining = ok (no_items, remaining)
read_items decode (suc n) remaining = do
  (v, rest) ← decode remaining
  (xs, others) ← read_items decode n rest
  ok (item v xs, others)

-- previousKeyBytes === null, or the previous key comes first
unfoldable pub in_order : Option Bytes → Bytes → Bool
in_order none key = true
in_order (some previous) key = before previous key

-- The loop of the map branch, with `n` rounds left: the entries in the order read.
unfoldable pub read_fields : Limits → Reader Value → ℕ → Option Bytes → Reader Fields
unfolding in_order
read_fields limits decode zero previous remaining = ok (no_fields, remaining)
read_fields limits decode (suc n) previous remaining = do
  (tag, after_tag) ← read_byte remaining
  invariant (tag == tag_string) "DECODE_MAP_KEY"
  ((key, key_bytes), after_key) ← decode_string limits after_tag
  invariant (in_order previous key_bytes) "DECODE_MAP_ORDER"
  (v, rest) ← decode after_key
  (fs, others) ← read_fields limits decode n (some key_bytes) rest
  ok (field key v fs, others)

-- result[key] = value: an own entry of that name is overwritten in its place.
unfoldable pub assign : Text → Value → Fields → Fields
assign key value no_fields = field key value no_fields
assign key value (field k v fs) =
    if equals k key then field k value fs else field k v (assign key value fs)

unfoldable pub assign_all : Fields → Fields → Fields
unfolding assign
assign_all result no_fields = result
assign_all result (field k v fs) = assign_all (assign k v result) fs

-- The branches on the tag; `decode` is the call at the next depth.
unfoldable pub decode_tagged : Limits → Reader Value → ℕ → Reader Value
decode_tagged limits decode tag remaining =
    if tag == tag_null
    then ok (null, remaining)
    else if tag == tag_false
    then ok (bool false, remaining)
    else if tag == tag_true
    then ok (bool true, remaining)
    else if tag == tag_integer
    then decode_integer remaining
    else if tag == tag_float64
    then decode_float64 limits remaining
    else if tag == tag_string
    then (decode_string limits remaining >>= λ ((t, content), rest). ok (string t, rest))
    else if tag == tag_bytes
    then (do
      (size, after_size) ← read_length remaining
      (content, rest) ← read_bytes limits size after_size
      ok (bytes content, rest))
    else if tag == tag_array
    then (do
      (size, after_size) ← read_length remaining
      invariant (leb size limits.max_collection_entries) "DECODE_ARRAY_LIMIT"
      (xs, rest) ← read_items decode size after_size
      ok (array xs, rest))
    else if tag == tag_map
    then (do
      (size, after_size) ← read_length remaining
      invariant (leb size limits.max_collection_entries) "DECODE_MAP_LIMIT"
      (fs, rest) ← read_fields limits decode size none after_size
      ok (object (assign_all no_fields fs), rest))
    else fail "DECODE_TAG"

unfoldable pub decode_value : Limits → ℕ → Reader Value
decode_value limits zero remaining = fail "DECODE_DEPTH"
decode_value limits (suc room) remaining = do
  (tag, rest) ← read_byte remaining
  decode_tagged limits (decode_value limits room) tag rest

-- decodeCanonical(bytes, limits)
unfoldable pub decode_canonical : Limits → Bytes → Result Value
decode_canonical limits input = do
  invariant (leb (length input) limits.max_bytes) "DECODE_INPUT_LIMIT"
  (value, remaining) ← decode_value limits (suc limits.max_depth) input
  invariant (length remaining == 0) "DECODE_TRAILING"
  encoded ← encode_canonical limits value
  invariant (equals input encoded) "DECODE_NON_CANONICAL"
  ok value
