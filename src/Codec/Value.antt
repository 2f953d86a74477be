-- ===== src/Codec/Value.antt =====
-- The values that src/codec/canonical.js encodes: null, booleans, numbers, strings, byte strings,
-- arrays and plain objects.
--
-- A JavaScript number is either a safe integer, with 0 and -0 as one, or any other double, which is
-- kept as its 64 bits. An object is the list of its own entries.
use glare9_provenance.Prelude.{
  ℕ, zero, suc, ◌+◌, ◌-◌, ◌/◌, ◌%◌, ◌^◌, ◌<◌, ◌≤◌, Bytes, Bool, true, false, ◌&&◌, not, ◌≡◌, Option,
  none, some, leb, ◌==◌, if◌then◌else◌,
}
use glare9_provenance.Codec.Utf8.{Text, utf8, IsPlain}
use glare9_provenance.Prelude.Octets.{before}

-- `negsuc n` is -(n + 1).
pub data ℤ : Type 0 where
  pos : ℕ → ℤ
  negsuc : ℕ → ℤ

pub data Number : Type 0 where
  integer : ℤ → Number
  double : ℕ → Number

mutual
  pub data Value : Type 0 where
    null : Value
    bool : Bool → Value
    number : Number → Value
    string : Text → Value
    bytes : Bytes → Value
    array : Items → Value
    object : Fields → Value

  pub data Items : Type 0 where
    no_items : Items
    item : Value → Items → Items

  pub data Fields : Type 0 where
    no_fields : Fields
    field : Text → Value → Fields → Fields

-- Number.MAX_SAFE_INTEGER
abbrev pub max_safe_integer : ℕ
max_safe_integer = 9007199254740991

abbrev pub negate : ℕ → ℤ
negate zero = pos 0
negate (suc n) = negsuc n

abbrev pub magnitude : ℤ → ℕ
magnitude (pos n) = n
magnitude (negsuc n) = suc n

-- The integer that the bits of a double stand for, where it is a safe integer: the exponent field
-- leaves no bit of the significand behind the point, and none above 2 ^ 53.
unfoldable pub safe_integer_of_bits : ℕ → Option ℤ
safe_integer_of_bits bits =
    let exponent = bits / 2 ^ 52 % 2048 in
    let fraction = bits % 2 ^ 52 in
    let significand = 2 ^ 52 + fraction in
    let unit = 2 ^ (1075 - exponent) in
    if exponent == 0 && fraction == 0
    then some (pos 0)
    else if leb 1023 exponent && (leb exponent 1075 && significand % unit == 0)
    then some (if bits / 2 ^ 63 == 0 then pos (significand / unit) else negate (significand / unit))
    else none

-- The number that is read from the bits of a double.
unfoldable pub number_of_bits : ℕ → Number
number_of_bits bits = elim (safe_integer_of_bits bits) [ none ↦ double bits | some z ↦ integer z ]

-- Number.isFinite
unfoldable pub is_finite : Number → Bool
is_finite (integer z) = true
is_finite (double bits) = not (bits / 2 ^ 52 % 2048 == 2047)

-- Number.isSafeInteger
unfoldable pub is_safe_integer : Number → Bool
is_safe_integer (integer z) = true
is_safe_integer (double bits) = false

unfoldable pub count_items : Items → ℕ
count_items no_items = 0
count_items (item v xs) = suc (count_items xs)

unfoldable pub count_fields : Fields → ℕ
count_fields no_fields = 0
count_fields (field k v fs) = suc (count_fields fs)

-- Every key of the fields comes after `key` in the order of their bytes.
abbrev pub KeysAfter : Bytes → Fields → Type 0
KeysAfter key no_fields = Unit
KeysAfter key (field k v fs) = (before key (utf8 k) ≡ true) × KeysAfter key fs

-- The values in the form that the decoder gives back: integers are safe, doubles are no safe
-- integers, text is plain, and an object's keys stand in strictly ascending order of their bytes.
abbrev pub NumberIsNormal : Number → Type 0
NumberIsNormal (integer z) = magnitude z ≤ max_safe_integer
NumberIsNormal (double bits) = (bits < 2 ^ 64) × (safe_integer_of_bits bits ≡ none)

abbrev mutual
  pub IsNormal : Value → Type 0
  IsNormal null = Unit
  IsNormal (bool b) = Unit
  IsNormal (number n) = NumberIsNormal n
  IsNormal (string t) = IsPlain t
  IsNormal (bytes b) = Unit
  IsNormal (array xs) = ItemsAreNormal xs
  IsNormal (object fs) = FieldsAreNormal fs

  pub ItemsAreNormal : Items → Type 0
  ItemsAreNormal no_items = Unit
  ItemsAreNormal (item v xs) = IsNormal v × ItemsAreNormal xs

  pub FieldsAreNormal : Fields → Type 0
  FieldsAreNormal no_fields = Unit
  FieldsAreNormal (field k v fs) =
      IsPlain k × KeysAfter (utf8 k) fs × IsNormal v × FieldsAreNormal fs
