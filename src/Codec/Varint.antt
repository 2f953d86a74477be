-- ===== src/Codec/Varint.antt =====
-- encodeVarUint and Decoder.readVarUint of src/codec/canonical.js: little-endian groups of seven
-- bits. `room` is the number of bytes that are still allowed, ten at the start.
pub mod RoundTrip
use glare9_provenance.Prelude.{
  ℕ, zero, suc, ◌+◌, ◌*◌, ◌/◌, ◌%◌, Bytes, Bool, true, false, ◌||◌, not, [], ◌∷◌, ltb, ◌==◌,
  if◌then◌else◌, Result, ok, err, ◌>>=◌, ◌>>◌, fail, invariant,
}

-- MAX_VARUINT_BYTES
abbrev pub max_var_uint_bytes : ℕ
max_var_uint_bytes = 10

-- The do-while loop: a byte is marked by 0x80 where more of the value remains.
unfoldable pub var_uint_loop : ℕ → ℕ → Result Bytes
var_uint_loop zero remaining = fail "ENCODE_VARUINT_LIMIT"
var_uint_loop (suc room) remaining =
    let more = var_uint_loop room (remaining / 128) in
    if remaining / 128 == 0
    then ok (remaining % 128 ∷ [])
    else more >>= λ bytes. ok ((remaining % 128 + 128) ∷ bytes)

unfoldable pub encode_var_uint : ℕ → Result Bytes
unfolding var_uint_loop
encode_var_uint value = var_uint_loop max_var_uint_bytes value

-- The loop of readVarUint. `scale` is 2 ^ shift; the bits that `|=` sets are clear before, so it is
-- an addition. `first` says that count is 0.
unfoldable pub read_var_uint_loop : ℕ → ℕ → ℕ → Bool → Bytes → Result (ℕ × Bytes)
read_var_uint_loop zero scale value first bytes = fail "DECODE_VARUINT"
read_var_uint_loop (suc room) scale value first [] = fail "DECODE_TRUNCATED"
read_var_uint_loop (suc room) scale value first (byte ∷ rest) =
    let more = read_var_uint_loop room (scale * 128) (value + byte % 128 * scale) false rest in
    if ltb byte 128
    then (invariant (first || not (byte % 128 == 0)) "DECODE_NON_CANONICAL"
        >> ok (value + byte % 128 * scale, rest))
    else more

unfoldable pub read_var_uint : Bytes → Result (ℕ × Bytes)
unfolding read_var_uint_loop
read_var_uint bytes = read_var_uint_loop max_var_uint_bytes 1 0 true bytes
