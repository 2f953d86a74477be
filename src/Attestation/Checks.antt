-- ===== src/Attestation/Checks.antt =====
-- How src/routing-epoch.js and src/checkpoint.js look into a value: objects with exactly given
-- fields, and the tests on what a field holds.
use glare9_provenance.Prelude.{
  ℕ, ◌+◌, ◌-◌, ◌/◌, ◌%◌, Bytes, Bool, true, false, ◌&&◌, [], ◌∷◌, List, leb, ltb, ◌==◌,
  if◌then◌else◌, length, Option, none, some, String, Result, ok, err, ◌>>◌, invariant, ◌≡◌,
}
use glare9_provenance.Prelude.Octets.{equals, before}
use glare9_provenance.Codec.Utf8.{Text}
use glare9_provenance.Codec.Value.{
  pos, integer, Value, Fields, null, number, string, bytes, object, no_fields, field,
  max_safe_integer,
}

-- The UTF-16 code units of a text.
unfoldable pub code_units : Text → Text
code_units [] = []
code_units (c ∷ t) =
    if ltb c 0x1_0000
    then c ∷ code_units t
    else (0xd800 + (c - 0x1_0000) / 1024) ∷ (0xdc00 + (c - 0x1_0000) % 1024) ∷ code_units t

-- Object.keys(value)
unfoldable pub keys : Fields → List Text
keys no_fields = []
keys (field k v fs) = k ∷ keys fs

unfoldable pub insert_key : Text → List Text → List Text
insert_key key [] = key ∷ []
insert_key key (k ∷ ks) =
    if before (code_units k) (code_units key) then k ∷ insert_key key ks else key ∷ k ∷ ks

-- names.sort(), by code units
unfoldable pub sort_keys : List Text → List Text
unfolding insert_key code_units
sort_keys [] = []
sort_keys (k ∷ ks) = insert_key k (sort_keys ks)

unfoldable pub same_keys : List Text → List Text → Bool
same_keys [] [] = true
same_keys [] (k ∷ ks) = false
same_keys (j ∷ js) [] = false
same_keys (j ∷ js) (k ∷ ks) = equals j k && same_keys js ks

-- The entries of an object; `none` for what is no plain object.
unfoldable pub entries : Value → Option Fields
entries (object fs) = some fs
entries _ = none

-- The entries of an object that has exactly the fields named: plainObject and exactFields.
unfoldable pub exact_fields : String → String → List Text → Value → Result Fields
unfolding entries keys sort_keys same_keys
exact_fields object_code fields_code names value = elim (entries value) [
  | none ↦ err object_code
  | some fs ↦ invariant (same_keys (sort_keys (keys fs)) (sort_keys names)) fields_code >> ok fs
]

-- value[name], of a field that the object has.
unfoldable pub property : Text → Fields → Value
property name no_fields = null
property name (field k v fs) = if equals k name then v else property name fs

-- value === literal, for a text
unfoldable pub is_text : Text → Value → Bool
is_text literal (string t) = equals t literal
is_text literal _ = false

-- value === literal, for a natural number
unfoldable pub is_number : ℕ → Value → Bool
is_number literal (number (integer (pos n))) = n == literal
is_number literal _ = false

-- The text that a value is; `none` if typeof value !== "string".
unfoldable pub text_of : Value → Option Text
text_of (string t) = some t
text_of _ = none

-- The bytes that a value is; `none` for what is no Uint8Array of that length.
unfoldable pub bytes_of : ℕ → Value → Option Bytes
bytes_of size (bytes b) = if length b == size then some b else none
bytes_of size _ = none

-- Number.isSafeInteger(value) && value >= 0
unfoldable pub natural_of : Value → Option ℕ
natural_of (number (integer (pos n))) = if leb n max_safe_integer then some n else none
natural_of _ = none

unfoldable pub is_null : Value → Bool
is_null null = true
is_null _ = false

-- invariant(value is of the form, code), and then the value
unfoldable pub require {ℓ} : {A : Type ℓ} → String → Option A → Result A
require code none = err code
require code (some a) = ok a

pub require-eq-ok {ℓ} :
    {A : Type ℓ} (code : String) (o : Option A) (a : A) → require code o ≡ ok a → o ≡ some a
unfolding require
require-eq-ok code none a h = cc
require-eq-ok code (some b) a h = cc
