-- ===== src/Codec/RoundTrip/ByteOrderMark.antt =====
-- Strings that begin with U+FEFF: the decoder drops the mark, so it refuses what the encoder wrote.
use glare9_provenance.Prelude.{
  ℕ, ◌≤◌, Bytes, [], ◌∷◌, ◌++◌, ◌≡◌, refl, ap, inl, inr, false, le→leb, length, length-append, All,
  append-nil, Bool-cases, ok, err, >>=-eq-ok, arith,
}
use glare9_provenance.Prelude.Octets.{equals, equals→eq}
use glare9_provenance.Codec.Varint.RoundTrip.{encode_var_uint_total}
use glare9_provenance.Codec.Utf8.{Text, utf8, utf8_char, strip_bom, IsScalar}
use glare9_provenance.Codec.Utf8.RoundTrip.{decode_text-utf8}
use glare9_provenance.Codec.Value.{string, max_safe_integer}
use glare9_provenance.Codec.Encode.{
  Limits, encode_length, encode_string_value, encode_value, encode_canonical,
}
use glare9_provenance.Codec.Decode.{
  read_byte, decode_string, decode_tagged, decode_value, decode_canonical,
}
use glare9_provenance.Codec.RoundTrip.Parts.{
  read_length-encode_length, encode_length-safe, read_bytes-append,
}

utf8-bom : (t : Text) → utf8 (0xfeff ∷ t) ≡ 0xef ∷ 0xbb ∷ 0xbf ∷ utf8 t
unfolding utf8 utf8_char
utf8-bom t = ground arith

encode_length_total : (n : ℕ) → n ≤ max_safe_integer → (size : Bytes) × (encode_length n ≡ ok size)
unfolding encode_length
encode_length_total n safe =
    let (size, e) = encode_var_uint_total n (omega arith) in (size, rw (le→leb _ _ safe) e)

decode_string-bom :
    (limits : Limits) (t : Text) (size rest : Bytes)
    → All IsScalar t
    → encode_length (length (utf8 (0xfeff ∷ t))) ≡ ok size
    → length (utf8 (0xfeff ∷ t)) ≤ limits.max_bytes
    → decode_string limits (size ++ (utf8 (0xfeff ∷ t) ++ rest)) ≡ ok ((t, utf8 (0xfeff ∷ t)), rest)
unfolding decode_string strip_bom
decode_string-bom limits t size rest scalars h fits = rw (
  read_length-encode_length (length (utf8 (0xfeff ∷ t))) size (utf8 (0xfeff ∷ t) ++ rest) h,
  read_bytes-append limits (utf8 (0xfeff ∷ t)) rest (encode_length-safe _ _ h) fits,
  decode_text-utf8 (0xfeff ∷ t) ((omega arith, refl), scalars),
)

-- The string with the mark and the one without it have different encodings.
encodings_differ :
    (t : Text) (size size' : Bytes)
    → encode_length (length (utf8 (0xfeff ∷ t))) ≡ ok size
    → encode_length (length (utf8 t)) ≡ ok size'
    → equals (0x20 ∷ (size ++ utf8 (0xfeff ∷ t))) (0x20 ∷ (size' ++ utf8 t)) ≡ false
encodings_differ t size size' h h' =
    elim (Bool-cases (equals (0x20 ∷ (size ++ utf8 (0xfeff ∷ t))) (0x20 ∷ (size' ++ utf8 t)))) [
      | inr apart ↦ apart
      | inl same ↦
          let e = equals→eq _ _ same in
          let tails : size ++ utf8 (0xfeff ∷ t) ≡ size' ++ utf8 t = cc in
          let r =
            read_length-encode_length (length (utf8 (0xfeff ∷ t))) size (utf8 (0xfeff ∷ t)) h in
          let r' = read_length-encode_length (length (utf8 t)) size' (utf8 t) h' in
          let lengths : length (utf8 (0xfeff ∷ t)) ≡ length (utf8 t) = cc in
          absurd (omega (arith, ap length (utf8-bom t)))
    ]

-- When a string of U+FEFF and scalar values is encoded within the byte limit, the decoder refuses its
-- encoding as non-canonical.
pub decode_canonical-bom :
    (limits : Limits) (t : Text) (bs : Bytes)
    → All IsScalar t
    → encode_canonical limits (string (0xfeff ∷ t)) ≡ ok bs
    → length bs ≤ limits.max_bytes
    → decode_canonical limits bs ≡ err "DECODE_NON_CANONICAL"
unfolding encode_canonical encode_value encode_string_value decode_canonical decode_value
    decode_tagged read_byte
decode_canonical-bom limits t bs scalars h fits =
    let (size, size_eq, whole) = >>=-eq-ok (encode_length (length (utf8 (0xfeff ∷ t)))) _ h in
    let parts : 0x20 ∷ (size ++ utf8 (0xfeff ∷ t)) ≡ bs = cc in
    let total = length-append size (utf8 (0xfeff ∷ t)) in
    let (size', size_eq') =
      encode_length_total (length (utf8 t))
        (omega (arith, encode_length-safe _ _ size_eq, ap length (utf8-bom t))) in
    let read =
      decode_string-bom limits t size [] scalars size_eq (omega (arith, ap length parts)) in
    rw (
      ← parts,
      le→leb (length (0x20 ∷ (size ++ utf8 (0xfeff ∷ t)))) limits.max_bytes
          (omega (arith, ap length parts)),
      rw append-nil at read,
      size_eq',
      encodings_differ t size size' size_eq size_eq',
    )
