-- ===== src/Codec.antt =====
-- src/codec/canonical.js: the deterministic byte encoding of JSON-like values.
pub mod Varint
pub mod Utf8
pub mod Value
pub mod Encode
pub mod Decode
pub mod RoundTrip
