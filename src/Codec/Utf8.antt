-- ===== src/Codec/Utf8.antt =====
-- The conversions between text and UTF-8 that src/codec/canonical.js takes from the platform:
-- `Buffer.from(value, "utf8")` and `new TextDecoder("utf-8", { fatal: true }).decode(bytes)`.
--
-- A JavaScript string is the list of its code points. A surrogate that is not part of a pair is a
-- code point of its own, which `Buffer.from` writes as U+FFFD. The decoder is not told to ignore the
-- byte order mark, so it drops one U+FEFF at the front.
pub mod RoundTrip
use glare9_provenance.Prelude.{
  ℕ, zero, suc, ◌+◌, ◌-◌, ◌*◌, ◌/◌, ◌%◌, ◌<◌, ◌≤◌, Bytes, Bool, true, false, ◌&&◌, not, [], ◌∷◌,
  ◌++◌, ◌≡◌, List, Option, none, some, ltb, leb, ◌==◌, if◌then◌else◌, length, All,
}

abbrev pub Text : Type 0
Text = List ℕ

abbrev pub is_surrogate : ℕ → Bool
is_surrogate c = leb 0xd800 c && ltb c 0xe000

-- The number of UTF-16 code units, `value.length`.
unfoldable pub text_length : Text → ℕ
text_length [] = 0
text_length (c ∷ t) = (if ltb c 0x10000 then 1 else 2) + text_length t

unfoldable pub utf8_char : ℕ → Bytes
utf8_char c =
    if ltb c 0x80
    then c ∷ []
    else if ltb c 0x800
    then (0xc0 + c / 64) ∷ (0x80 + c % 64) ∷ []
    else if is_surrogate c
    then 0xef ∷ 0xbf ∷ 0xbd ∷ []
    else if ltb c 0x10000
    then (0xe0 + c / 4096) ∷ (0x80 + c / 64 % 64) ∷ (0x80 + c % 64) ∷ []
    else (0xf0 + c / 262144) ∷ (0x80 + c / 4096 % 64) ∷ (0x80 + c / 64 % 64) ∷ (0x80 + c % 64) ∷ []

-- Buffer.from(value, "utf8")
unfoldable pub utf8 : Text → Bytes
utf8 [] = []
utf8 (c ∷ t) = utf8_char c ++ utf8 t

is_continuation : ℕ → Bool
is_continuation b = leb 0x80 b && ltb b 0xc0

two_bytes : ℕ → Bytes → Option (ℕ × Bytes)
two_bytes a (b ∷ rest) =
    if is_continuation b then some ((a - 0xc0) * 64 + (b - 0x80), rest) else none
two_bytes a _ = none

three_bytes : ℕ → Bytes → Option (ℕ × Bytes)
three_bytes a (b ∷ c ∷ rest) =
    let point = (a - 0xe0) * 4096 + (b - 0x80) * 64 + (c - 0x80) in
    if is_continuation b && (is_continuation c && (leb 0x800 point && not (is_surrogate point)))
    then some (point, rest)
    else none
three_bytes a _ = none

four_bytes : ℕ → Bytes → Option (ℕ × Bytes)
four_bytes a (b ∷ c ∷ d ∷ rest) =
    let point = (a - 0xf0) * 262144 + (b - 0x80) * 4096 + (c - 0x80) * 64 + (d - 0x80) in
    if is_continuation b
      && (is_continuation c && (is_continuation d && (leb 0x10000 point && leb point 0x10ffff)))
    then some (point, rest)
    else none
four_bytes a _ = none

-- One code point off the front; `none` for an ill-formed sequence.
unfoldable pub decode_char : Bytes → Option (ℕ × Bytes)
unfolding is_continuation two_bytes three_bytes four_bytes
decode_char [] = none
decode_char (a ∷ rest) =
    if ltb a 0x80
    then some (a, rest)
    else if ltb a 0xc2
    then none
    else if ltb a 0xe0
    then two_bytes a rest
    else if ltb a 0xf0
    then three_bytes a rest
    else if ltb a 0xf5
    then four_bytes a rest
    else none

-- Each round takes at least one byte, so as many rounds as there are bytes are enough.
unfoldable pub decode_chars : ℕ → Bytes → Option Text
decode_chars rounds [] = some []
decode_chars zero (b ∷ bs) = none
decode_chars (suc rounds) (b ∷ bs) = elim (decode_char (b ∷ bs)) [
  | none ↦ none
  | some (c, rest) ↦ elim (decode_chars rounds rest) [ none ↦ none | some t ↦ some (c ∷ t) ]
]

unfoldable pub strip_bom : Text → Text
strip_bom [] = []
strip_bom (c ∷ t) = if c == 0xfeff then t else c ∷ t

-- textDecoder.decode(bytes); `none` is the TypeError of the fatal mode.
unfoldable pub decode_text : Bytes → Option Text
unfolding decode_chars strip_bom
decode_text bytes = elim (decode_chars (length bytes) bytes) [
  | none ↦ none
  | some t ↦ some (strip_bom t)
]

-- A code point that is no surrogate.
abbrev pub IsScalar : ℕ → Type 0
IsScalar c = (c < 0x110000) × (is_surrogate c ≡ false)

abbrev pub NoBom : Text → Type 0
NoBom [] = Unit
NoBom (c ∷ t) = (c == 0xfeff) ≡ false

-- The texts that come back from their UTF-8 form.
abbrev pub IsPlain : Text → Type 0
IsPlain t = All IsScalar t × NoBom t
