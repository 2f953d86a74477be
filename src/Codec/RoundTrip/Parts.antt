-- ===== src/Codec/RoundTrip/Parts.antt =====
-- What the decoder's methods read back of the parts that the encoder writes.
use glare9_provenance.Prelude.{
  ℕ, ◌/◌, ◌%◌, ◌^◌, ◌≤◌, ◌<◌, Bytes, true, [], ◌++◌, leb, ◌≡◌, refl, length, take-append,
  drop-append, length-append, le→leb, none, some, ok, invariant-eq-ok, append-nil, arith,
}
use glare9_provenance.Prelude.Octets.{read_u32, write_u32, read_u32-write_u32}
use glare9_provenance.Codec.Varint.{encode_var_uint}
use glare9_provenance.Codec.Varint.RoundTrip.{read_var_uint-encode_var_uint}
use glare9_provenance.Codec.Utf8.{Text, utf8, IsPlain}
use glare9_provenance.Codec.Utf8.RoundTrip.{decode_text-utf8_plain}
use glare9_provenance.Codec.Value.{
  ℤ, pos, negsuc, magnitude, integer, double, max_safe_integer, number_of_bits,
  safe_integer_of_bits, is_finite, is_safe_integer, NumberIsNormal, number,
}
use glare9_provenance.Codec.Encode.{Limits, encode_length, zig_zag, write_double}
use glare9_provenance.Codec.Decode.{
  read_bytes, read_length, decode_string, un_zig_zag, decode_integer, read_double, decode_float64,
}

pub read_length-encode_length :
    (n : ℕ) (size rest : Bytes)
    → encode_length n ≡ ok size
    → read_length (size ++ rest) ≡ ok (n, rest)
unfolding encode_length read_length
read_length-encode_length n size rest h =
    let (safe, digits) = invariant-eq-ok (leb n max_safe_integer) _ _ h in
    ground (arith, read_var_uint-encode_var_uint n size rest digits)

pub encode_length-safe : (n : ℕ) (size : Bytes) → encode_length n ≡ ok size → n ≤ max_safe_integer
unfolding encode_length
encode_length-safe n size h = ground arith

pub read_bytes-append :
    (limits : Limits) (content rest : Bytes)
    → length content ≤ max_safe_integer
    → length content ≤ limits.max_bytes
    → read_bytes limits (length content) (content ++ rest) ≡ ok (content, rest)
unfolding read_bytes
read_bytes-append limits content rest safe fits = rw (
  le→leb _ _ safe,
  le→leb _ _ fits,
  le→leb (length content) (length (content ++ rest)) (omega (arith, length-append content rest)),
  take-append content rest,
  drop-append content rest,
)

pub un_zig_zag-zig_zag : (z : ℤ) → un_zig_zag (zig_zag z) ≡ z
unfolding un_zig_zag zig_zag
un_zig_zag-zig_zag (pos n) = ground arith
un_zig_zag-zig_zag (negsuc n) = ground arith

read_u32-write_u32_last : (n : ℕ) → n < 4294967296 → read_u32 (write_u32 n) ≡ some (n, [])
read_u32-write_u32_last n h = rw append-nil at (read_u32-write_u32 n [] h)

pub read_double-write_double : (bits : ℕ) → bits < 2 ^ 64 → read_double (write_double bits) ≡ bits
unfolding read_double write_double
read_double-write_double bits h = ground (
  arith,
  read_u32-write_u32 (bits / 2 ^ 32) (write_u32 (bits % 2 ^ 32)),
  read_u32-write_u32_last (bits % 2 ^ 32),
)

pub length-write_double : (bits : ℕ) → length (write_double bits) ≡ 8
unfolding write_double write_u32
length-write_double bits = refl

number_of_bits-double :
    (bits : ℕ) → safe_integer_of_bits bits ≡ none → number_of_bits bits ≡ double bits
unfolding number_of_bits
number_of_bits-double bits h = ground arith

pub decode_float64-write_double :
    (limits : Limits) (bits : ℕ) (rest : Bytes)
    → NumberIsNormal (double bits)
    → is_finite (double bits) ≡ true
    → 8 ≤ limits.max_bytes
    → decode_float64 limits (write_double bits ++ rest) ≡ ok (number (double bits), rest)
unfolding decode_float64 is_safe_integer
decode_float64-write_double limits bits rest (width, unsafe) finite fits =
    let size = length-write_double bits in
    let content = read_bytes-append limits (write_double bits) rest (omega arith) (omega arith) in
    rw (
      (rw size at content),
      read_double-write_double bits width,
      number_of_bits-double bits unsafe,
      finite,
    )

pub decode_integer-encode_var_uint :
    (z : ℤ) (digits rest : Bytes)
    → magnitude z ≤ max_safe_integer
    → encode_var_uint (zig_zag z) ≡ ok digits
    → decode_integer (digits ++ rest) ≡ ok (number (integer z), rest)
unfolding decode_integer
decode_integer-encode_var_uint z digits rest safe h =
    rw (
      read_var_uint-encode_var_uint (zig_zag z) digits rest h,
      un_zig_zag-zig_zag z,
      le→leb _ _ safe,
    )

pub decode_string-utf8 :
    (limits : Limits) (t : Text) (size rest : Bytes)
    → IsPlain t
    → encode_length (length (utf8 t)) ≡ ok size
    → length (utf8 t) ≤ limits.max_bytes
    → decode_string limits (size ++ (utf8 t ++ rest)) ≡ ok ((t, utf8 t), rest)
unfolding decode_string
decode_string-utf8 limits t size rest plain h fits = rw (
  read_length-encode_length (length (utf8 t)) size (utf8 t ++ rest) h,
  read_bytes-append limits (utf8 t) rest (encode_length-safe _ _ h) fits,
  decode_text-utf8_plain t plain,
)
