-- ===== src/Codec/Utf8/RoundTrip.antt =====
-- What is decoded from the UTF-8 form of a text.
use glare9_provenance.Prelude.{
  ℕ, zero, suc, ◌≤◌, ◌<◌, Bytes, [], ◌∷◌, ◌++◌, ◌≡◌, refl, ◌∙◌, ap, some, length, length-append,
  All, arith,
}
use glare9_provenance.Codec.Utf8.{
  Text, utf8_char, utf8, decode_char, decode_chars, strip_bom, decode_text, IsScalar, IsPlain,
}

pub decode_char-utf8_char :
    (c : ℕ) (rest : Bytes) → IsScalar c → decode_char (utf8_char c ++ rest) ≡ some (c, rest)
unfolding decode_char utf8_char
decode_char-utf8_char c rest (below, scalar) = ground arith

length-utf8_char_pos : (c : ℕ) → 0 < length (utf8_char c)
unfolding utf8_char
length-utf8_char_pos c = ground arith

decode_chars-step :
    (n c : ℕ) (bs rest : Bytes) (t : Text)
    → 0 < length bs
    → decode_char bs ≡ some (c, rest)
    → decode_chars n rest ≡ some t
    → decode_chars (suc n) bs ≡ some (c ∷ t)
unfolding decode_chars
decode_chars-step n c [] rest t pos p q = absurd (omega arith)
decode_chars-step n c (b ∷ bs) rest t pos p q = ground arith

decode_chars-utf8 :
    (t : Text) (n : ℕ) → All IsScalar t → length (utf8 t) ≤ n → decode_chars n (utf8 t) ≡ some t
unfolding utf8
decode_chars-utf8 [] n scalars fits = unfold decode_chars in refl
decode_chars-utf8 (c ∷ t) zero scalars fits =
    absurd (omega (arith, length-append (utf8_char c) (utf8 t), length-utf8_char_pos c))
decode_chars-utf8 (c ∷ t) (suc n) (scalar, scalars) fits =
    let size = length-append (utf8_char c) (utf8 t) in
    decode_chars-step n c (utf8_char c ++ utf8 t) (utf8 t) t
      (omega (arith, size, length-utf8_char_pos c)) (decode_char-utf8_char c (utf8 t) scalar)
      (decode_chars-utf8 t n scalars (omega (arith, size, length-utf8_char_pos c)))

-- Text of scalar values is decoded as it was, less a byte order mark at its front.
pub decode_text-utf8 : (t : Text) → All IsScalar t → decode_text (utf8 t) ≡ some (strip_bom t)
unfolding decode_text
decode_text-utf8 t scalars =
    ground (arith, decode_chars-utf8 t (length (utf8 t)) scalars (omega arith))

pub strip_bom-IsPlain : (t : Text) → IsPlain t → strip_bom t ≡ t
unfolding strip_bom
strip_bom-IsPlain [] plain = refl
strip_bom-IsPlain (c ∷ t) plain = rw plain.1

pub decode_text-utf8_plain : (t : Text) → IsPlain t → decode_text (utf8 t) ≡ some t
decode_text-utf8_plain t plain = decode_text-utf8 t plain.0 ∙ ap some (strip_bom-IsPlain t plain)

-- Two texts with one UTF-8 form are equal, if they are plain.
pub utf8-injective : (t u : Text) → IsPlain t → IsPlain u → utf8 t ≡ utf8 u → t ≡ u
utf8-injective t u plain_t plain_u p =
    cc (decode_text-utf8_plain t plain_t, decode_text-utf8_plain u plain_u)
