-- ===== src/Examples/Evidence.antt =====
-- src/event.js at an event.
use glare9_provenance.Prelude.{true, Bytes, [], ◌∷◌, ok, ◌≡◌, refl}
use glare9_provenance.Codec.Value.{
  Value, number, integer, pos, string, bytes, bool, array, object, item, no_items, field, no_fields,
}
use glare9_provenance.Codec.Encode.{encode_canonical, default_limits}
use glare9_provenance.Crypto.{codes}
use glare9_provenance.Events.{
  decode_event, canonical_event_bytes, canonical_event_bytes-decode_event,
}
use glare9_provenance.Examples.Attestations.{toy_platform, value_or, genesis_written}

abbrev small_event : Value
small_event = object (
    field (codes "eventId") (string (codes "e1")) (
      field (codes "ledgerId") (string (codes "ledger")) (
        field (codes "occurredAt") (string (codes "2026-07-02T00:00:00.000Z")) (
          field (codes "payload") (array (item (bool true) (item (bytes (1 ∷ [])) no_items))) (
            field (codes "recordedAt") (string (codes "2026-07-02T00:00:01.000Z")) (
              field (codes "schemaVersion") (number (integer (pos 1))) (
                field (codes "source")
                  (object (
                    field (codes "identity") (string (codes "app"))
                      (field (codes "kind") (string (codes "outbox")) no_fields)))
                  (field (codes "subject") (string (codes "order")) (
                    field (codes "type") (string (codes "placed"))
                      (field (codes "version") (number (integer (pos 1))) no_fields))))))))))

unfoldable small_event_bytes : Bytes
unfolding genesis_written
small_event_bytes = value_or [] (encode_canonical default_limits small_event)

small_event_decoded : decode_event toy_platform small_event_bytes ≡ ok small_event
unfolding small_event_bytes decode_event glare9_provenance.Events.own_field
    glare9_provenance.Events.reject_unknown_fields glare9_provenance.Events.has_null
    glare9_provenance.Events.is_unsafe_integer glare9_provenance.Events.validate_hash
    glare9_provenance.Events.check_schema_version glare9_provenance.Events.validate_text
    glare9_provenance.Events.validate_timestamp glare9_provenance.Events.validate_number
    glare9_provenance.Events.validate_items glare9_provenance.Events.validate_entries
    glare9_provenance.Events.validate_data glare9_provenance.Events.validate_source
    glare9_provenance.Events.validate_event glare9_provenance.Codec.Utf8.text_length
small_event_decoded = refl

canonical_event_bytes-decode_event_example :
    canonical_event_bytes toy_platform small_event ≡ ok small_event_bytes
canonical_event_bytes-decode_event_example =
    canonical_event_bytes-decode_event toy_platform small_event_bytes small_event
      small_event_decoded
