-- ===== src/Crypto/Hex.antt =====
-- toHex and fromHex of src/crypto.js undo each other.
use glare9_provenance.Prelude.{
  ℕ, ◌+◌, ◌-◌, ◌*◌, ◌/◌, ◌%◌, ◌<◌, Bytes, true, ◌&&◌, not, [], ◌∷◌, leb, ◌==◌, if◌then◌else◌,
  length, Option, none, some, ◌≡◌, refl, ap₂, Result, ok, ◌>>◌, invariant, invariant-eq-ok, arith,
  >>=-eq-ok, ok-injective,
}
use glare9_provenance.Codec.Utf8.{Text}
use glare9_provenance.Ledger.Names.{to_hex, hex_digit}
use glare9_provenance.Ledger.Lookup.{is_lower_hex, all_hex_digits}

abbrev pub hex_value : ℕ → ℕ
hex_value c = if leb c b'9' then c - b'0' else c - b'W'

-- Buffer.from(value, "hex"), of digits
unfoldable pub hex_bytes : Text → Bytes
hex_bytes (a ∷ b ∷ t) = (hex_value a * 16 + hex_value b) ∷ hex_bytes t
hex_bytes _ = []

check_length : Option ℕ → ℕ → Result (Unit {0})
check_length none size = ok tt
check_length (some n) size = invariant (size == n) "HEX_LENGTH"

-- fromHex(value, expectedBytes)
unfoldable pub from_hex : Text → Option ℕ → Result Bytes
unfolding hex_bytes check_length
from_hex value expected =
    invariant (not (length value == 0) && (all_hex_digits value && length value % 2 == 0))
      "HEX_VALUE"
    >> (check_length expected (length (hex_bytes value)) >> ok (hex_bytes value))

-- The digits of a value that stands in two digits.
high_digit :
    (a b : ℕ)
    → is_lower_hex a ≡ true
    → is_lower_hex b ≡ true
    → hex_digit ((hex_value a * 16 + hex_value b) / 16) ≡ a
high_digit a b ha hb =
    let small : hex_value b < 16 = ground arith in
    let quotient : (hex_value a * 16 + hex_value b) / 16 ≡ hex_value a = omega (arith, small) in
    rw quotient (ground arith)

low_digit :
    (a b : ℕ) → is_lower_hex b ≡ true → hex_digit ((hex_value a * 16 + hex_value b) % 16) ≡ b
low_digit a b hb =
    let small : hex_value b < 16 = ground arith in
    let remainder : (hex_value a * 16 + hex_value b) % 16 ≡ hex_value b = omega (arith, small) in
    rw remainder (ground arith)

to_hex-hex_bytes :
    (t : Text) → all_hex_digits t ≡ true → length t % 2 ≡ 0 → to_hex (hex_bytes t) ≡ t
unfolding to_hex hex_bytes all_hex_digits
to_hex-hex_bytes [] h even = refl
to_hex-hex_bytes (a ∷ []) h even = absurd (omega (arith, even))
to_hex-hex_bytes (a ∷ b ∷ t) h even =
    let first : is_lower_hex a ≡ true = ground arith in
    let second : is_lower_hex b ≡ true = ground arith in
    let rest = to_hex-hex_bytes t (ground arith) (omega (arith, even)) in
    rw (high_digit a b first second, low_digit a b second, rest)

-- What is read as hexadecimal is written again as the same text.
pub to_hex-from_hex :
    (t : Text) (expected : Option ℕ) (b : Bytes) → from_hex t expected ≡ ok b → to_hex b ≡ t
unfolding from_hex
to_hex-from_hex t expected b h =
    let (digits, h1) =
      invariant-eq-ok (not (length t == 0) && (all_hex_digits t && length t % 2 == 0)) _ _ h in
    let (_, _, h2) = >>=-eq-ok (check_length expected (length (hex_bytes t))) _ h1 in
    let same = ok-injective _ _ h2 in rw (← same) (to_hex-hex_bytes t (ground arith) (ground arith))

hex_digit-injective : (m n : ℕ) → hex_digit m ≡ hex_digit n → m ≡ n
hex_digit-injective m n h = ground arith

-- Different bytes have different texts.
pub to_hex-injective : (x y : Bytes) → to_hex x ≡ to_hex y → x ≡ y
unfolding to_hex
to_hex-injective [] [] h = refl
to_hex-injective [] (b ∷ bs) h = cc
to_hex-injective (a ∷ as') [] h = cc
to_hex-injective (a ∷ as') (b ∷ bs) h =
    let high = hex_digit-injective (a / 16) (b / 16) (cc) in
    let low = hex_digit-injective (a % 16) (b % 16) (cc) in
    ap₂ ◌∷◌ (omega (arith, high, low)) (to_hex-injective as' bs (cc))
