-- ===== src/Events.antt =====
-- src/event.js: the validation of events and their canonical bytes. An event is a value of the codec,
-- and a field that an object does not have is undefined.
use glare9_provenance.Prelude.{
  ℕ, zero, suc, ◌/◌, ◌%◌, ◌^◌, Bytes, Bool, true, false, ◌&&◌, ◌||◌, not, [], ◌∷◌, List, leb, ◌==◌,
  if◌then◌else◌, Option, none, some, String, Result, ok, err, ◌>>=◌, ◌>>◌, invariant, ◌≡◌,
  >>=-eq-ok, ok-injective, subst,
}
use glare9_provenance.Prelude.Octets.{equals}
use glare9_provenance.Codec.Utf8.{Text, text_length}
use glare9_provenance.Codec.Value.{
  Number, integer, double, Value, Items, Fields, null, bool, number, string, bytes, array, object,
  no_items, item, no_fields, field, is_finite,
}
use glare9_provenance.Codec.Encode.{encode_canonical, default_limits}
use glare9_provenance.Codec.Decode.{decode_canonical}
use glare9_provenance.Codec.RoundTrip.{encode_canonical-decode_canonical}
use glare9_provenance.Crypto.{codes}
use glare9_provenance.Crypto.Signatures.{Platform}
use glare9_provenance.Ledger.Lookup.{is_hash_text}
use glare9_provenance.Attestation.Checks.{entries, is_number, natural_of, text_of, require}
use glare9_provenance.Attestation.Epoch.{has_key}
use glare9_provenance.Attestation.Timestamp.{is_timestamp}

-- EVENT_FIELDS
abbrev pub event_fields : List Text
event_fields =
    codes "version"
    ∷ codes "eventId"
    ∷ codes "ledgerId"
    ∷ codes "subject"
    ∷ codes "type"
    ∷ codes "schemaVersion"
    ∷ codes "occurredAt"
    ∷ codes "recordedAt"
    ∷ codes "source"
    ∷ codes "payload"
    ∷ codes "payloadHash"
    ∷ codes "previousStateHash"
    ∷ codes "resultingStateHash"
    ∷ codes "correlationId"
    ∷ codes "causationId"
    ∷ codes "policyReference"
    ∷ codes "metadata"
    ∷ []

-- SOURCE_FIELDS
abbrev pub source_fields : List Text
source_fields = codes "kind" ∷ codes "identity" ∷ codes "keyId" ∷ []

-- SOURCE_KINDS
abbrev pub source_kinds : List Text
source_kinds =
    codes "semantic" ∷ codes "outbox" ∷ codes "cdc" ∷ codes "webhook" ∷ codes "batch" ∷ []

-- value[name]; `none` is undefined.
unfoldable pub own_field : Text → Fields → Option Value
own_field name no_fields = none
own_field name (field k v fs) = if equals k name then some v else own_field name fs

-- rejectUnknownFields(value, allowed, name)
unfoldable pub reject_unknown_fields : List Text → Fields → Result (Unit {0})
reject_unknown_fields allowed no_fields = ok tt
reject_unknown_fields allowed (field k v fs) =
    invariant (has_key allowed k) "EVENT_UNKNOWN_FIELD" >> reject_unknown_fields allowed fs

-- A field that must be there, and one that may be undefined.
abbrev pub given : (Value → Result (Unit {0})) → String → Option Value → Result (Unit {0})
given check code none = err code
given check code (some v) = check v

abbrev pub optional : (Value → Result (Unit {0})) → Option Value → Result (Unit {0})
optional check none = ok tt
optional check (some v) = check v

abbrev pub is_defined : Option Value → Bool
is_defined none = false
is_defined (some v) = true

-- value.includes("\0")
unfoldable pub has_null : Text → Bool
has_null [] = false
has_null (c ∷ t) = c == 0 || has_null t

-- A double that is no safe integer is an integer from 2 ^ 53 on.
unfoldable pub is_unsafe_integer : Number → Bool
is_unsafe_integer (integer z) = false
is_unsafe_integer (double bits) = leb 1076 (bits / 2 ^ 52 % 2048)

unfoldable pub validate_hash : Value → Result (Unit {0})
validate_hash value = do
  t ← require "EVENT_HASH" (text_of value)
  invariant (is_hash_text t) "EVENT_HASH"

unfoldable pub check_schema_version : Value → Result (Unit {0})
check_schema_version value = do
  n ← require "EVENT_SCHEMA_VERSION" (natural_of value)
  invariant (leb 1 n) "EVENT_SCHEMA_VERSION"

module _ (platform : Platform) where
  open platform use {is_nfc}

  -- validateText(value, name, { min: 1, max })
  unfoldable pub validate_text : ℕ → Value → Result (Unit {0})
  validate_text most value = do
    t ← require "EVENT_TEXT" (text_of value)
    invariant (leb 1 (text_length t) && leb (text_length t) most) "EVENT_TEXT_LENGTH"
    invariant (is_nfc t) "EVENT_TEXT_NORMALIZATION"
    invariant (not (has_null t)) "EVENT_TEXT_NULL"

  unfoldable pub validate_timestamp : Value → Result (Unit {0})
  validate_timestamp value = do
    validate_text 64 value
    t ← require "EVENT_TIMESTAMP" (text_of value)
    invariant (is_timestamp t) "EVENT_TIMESTAMP"

  unfoldable pub validate_number : Number → Result (Unit {0})
  validate_number n =
      invariant (is_finite n) "EVENT_DATA_NUMBER"
      >> invariant (not (is_unsafe_integer n)) "EVENT_DATA_INTEGER"

  -- The loops over an array and over an object, with the call at the next depth.
  unfoldable pub validate_items : (Value → Result (Unit {0})) → Items → Result (Unit {0})
  validate_items check no_items = ok tt
  validate_items check (item v vs) = check v >> validate_items check vs

  unfoldable pub validate_entries : (Value → Result (Unit {0})) → Fields → Result (Unit {0})
  validate_entries check no_fields = ok tt
  validate_entries check (field k v fs) =
      validate_text 256 (string k) >> (check v >> validate_entries check fs)

  -- validateData(value, path, depth), with `room` = 65 - depth
  unfoldable pub validate_data : ℕ → Value → Result (Unit {0})
  validate_data zero value = err "EVENT_DATA_DEPTH"
  validate_data (suc room) null = ok tt
  validate_data (suc room) (bool b) = ok tt
  validate_data (suc room) (string t) = invariant (is_nfc t) "EVENT_DATA_NORMALIZATION"
  validate_data (suc room) (number n) = validate_number n
  validate_data (suc room) (bytes b) = ok tt
  validate_data (suc room) (array vs) = validate_items (validate_data room) vs
  validate_data (suc room) (object fs) = validate_entries (validate_data room) fs

  unfoldable pub validate_source : Value → Result (Unit {0})
  validate_source value = do
    fs ← require "EVENT_SOURCE" (entries value)
    reject_unknown_fields source_fields fs
    kind ← require "EVENT_SOURCE_KIND" (own_field (codes "kind") fs)
    name ← require "EVENT_SOURCE_KIND" (text_of kind)
    invariant (has_key source_kinds name) "EVENT_SOURCE_KIND"
    given (validate_text 256) "EVENT_TEXT" (own_field (codes "identity") fs)
    optional (validate_text 256) (own_field (codes "keyId") fs)

  unfoldable pub validate_event : Value → Result (Unit {0})
  validate_event event = do
    fs ← require "EVENT_OBJECT" (entries event)
    reject_unknown_fields event_fields fs
    given (λ v. invariant (is_number 1 v) "EVENT_VERSION") "EVENT_VERSION"
        (own_field (codes "version") fs)
    given (validate_text 128) "EVENT_TEXT" (own_field (codes "eventId") fs)
    given (validate_text 128) "EVENT_TEXT" (own_field (codes "ledgerId") fs)
    given (validate_text 512) "EVENT_TEXT" (own_field (codes "subject") fs)
    given (validate_text 256) "EVENT_TEXT" (own_field (codes "type") fs)
    given check_schema_version "EVENT_SCHEMA_VERSION" (own_field (codes "schemaVersion") fs)
    given validate_timestamp "EVENT_TEXT" (own_field (codes "occurredAt") fs)
    given validate_timestamp "EVENT_TEXT" (own_field (codes "recordedAt") fs)
    given validate_source "EVENT_SOURCE" (own_field (codes "source") fs)
    optional (validate_data 65) (own_field (codes "payload") fs)
    optional (validate_data 65) (own_field (codes "metadata") fs)
    optional validate_hash (own_field (codes "payloadHash") fs)
    optional validate_hash (own_field (codes "previousStateHash") fs)
    optional validate_hash (own_field (codes "resultingStateHash") fs)
    optional (validate_text 512) (own_field (codes "correlationId") fs)
    optional (validate_text 512) (own_field (codes "causationId") fs)
    optional (validate_text 512) (own_field (codes "policyReference") fs)
    invariant
        (is_defined (own_field (codes "payload") fs)
          || is_defined (own_field (codes "payloadHash") fs))
        "EVENT_PAYLOAD"

  -- canonicalEventBytes(event)
  unfoldable pub canonical_event_bytes : Value → Result Bytes
  canonical_event_bytes event = validate_event event >> encode_canonical default_limits event

  -- decodeEvent(bytes)
  unfoldable pub decode_event : Bytes → Result Value
  decode_event input =
      decode_canonical default_limits input >>= λ event. validate_event event >> ok event

  -- The canonical bytes of an event that was decoded are, byte for byte, those it was decoded from.
  pub canonical_event_bytes-decode_event :
      (input : Bytes) (event : Value)
      → decode_event input ≡ ok event
      → canonical_event_bytes event ≡ ok input
  unfolding decode_event canonical_event_bytes
  canonical_event_bytes-decode_event input event h =
      let (v, decoded, h1) = >>=-eq-ok (decode_canonical default_limits input) _ h in
      let (_, valid, h2) = >>=-eq-ok (validate_event v) _ h1 in
      subst (λ (e : Value). canonical_event_bytes e ≡ ok input) (ok-injective _ _ h2)
        (rw (valid, encode_canonical-decode_canonical default_limits v input decoded))
