-- ===== src/Format/Framing.antt =====
-- src/format/framing.js: typed, length-prefixed frames after a magic header. A frame type is the
-- list of its four ASCII codes.
pub mod RoundTrip
pub mod Rejects
use glare9_provenance.Prelude.{
  ℕ, zero, suc, ◌+◌, ◌-◌, ◌*◌, ◌%◌, Bytes, Bool, true, false, ◌&&◌, ◌||◌, [], ◌∷◌, ◌++◌, map, leb,
  ◌==◌, if◌then◌else◌, length, take, drop, Option, none, some, Result, ok, err, ◌>>=◌, ◌>>◌,
  invariant,
}
use glare9_provenance.Prelude.Octets.{equals, write_u32, read_u32}

abbrev pub magic_v1 : Bytes
magic_v1 = 0x47 ∷ 0x39 ∷ 0x50 ∷ 0x0d ∷ 0x0a ∷ 0x1a ∷ 0x0a ∷ 0x01 ∷ []

abbrev pub magic_v2 : Bytes
magic_v2 = 0x47 ∷ 0x39 ∷ 0x50 ∷ 0x0d ∷ 0x0a ∷ 0x1a ∷ 0x0a ∷ 0x02 ∷ []

abbrev pub frame_header_bytes : ℕ
frame_header_bytes = 8

-- FRAME_TYPES
pub data FrameType : Type 0 where
  header header_v2 block manifest manifest_v2 routing_epoch : FrameType
  checkpoint witness signature end_of_file : FrameType

abbrev pub type_name : FrameType → Bytes
type_name header = b'H' ∷ b'E' ∷ b'A' ∷ b'D' ∷ []
type_name header_v2 = b'H' ∷ b'E' ∷ b'D' ∷ b'2' ∷ []
type_name block = b'B' ∷ b'L' ∷ b'K' ∷ b'1' ∷ []
type_name manifest = b'M' ∷ b'N' ∷ b'F' ∷ b'1' ∷ []
type_name manifest_v2 = b'M' ∷ b'N' ∷ b'F' ∷ b'2' ∷ []
type_name routing_epoch = b'R' ∷ b'T' ∷ b'E' ∷ b'1' ∷ []
type_name checkpoint = b'C' ∷ b'H' ∷ b'K' ∷ b'1' ∷ []
type_name witness = b'W' ∷ b'I' ∷ b'T' ∷ b'1' ∷ []
type_name signature = b'S' ∷ b'I' ∷ b'G' ∷ b'1' ∷ []
type_name end_of_file = b'E' ∷ b'N' ∷ b'D' ∷ b'!' ∷ []

-- [A-Z0-9!]
unfoldable pub is_type_code : ℕ → Bool
is_type_code c = (leb b'A' c && leb c b'Z') || ((leb b'0' c && leb c b'9') || c == b'!')

all_type_codes : Bytes → Bool
all_type_codes [] = true
all_type_codes (c ∷ cs) = is_type_code c && all_type_codes cs

-- /^[A-Z0-9!]{4}$/u.test(type)
unfoldable pub is_frame_type : Bytes → Bool
unfolding is_type_code all_type_codes
is_frame_type type = length type == 4 && all_type_codes type

unfoldable pub encode_frame : Bytes → Bytes → Result Bytes
unfolding is_frame_type
encode_frame type payload =
    invariant (is_frame_type type) "FRAME_TYPE"
    >> (invariant (leb (length payload) 0xffff_ffff) "FRAME_LENGTH"
        >> ok (type ++ (write_u32 (length payload) ++ payload)))

pub record FrameReader : Type 0 where
  pub bytes : Bytes
  pub offset : ℕ
  pub max_frame_bytes : ℕ

abbrev pub new_reader : Bytes → ℕ → FrameReader
new_reader bytes max_frame_bytes = record {
  bytes = bytes;
  offset = 0;
  max_frame_bytes = max_frame_bytes;
}

-- this.bytes.length - this.offset; the offset never passes the end.
abbrev pub remaining : FrameReader → ℕ
remaining reader = length reader.bytes - reader.offset

-- bytes.subarray(start, start + size)
abbrev pub subarray : Bytes → ℕ → ℕ → Bytes
subarray bytes start size = take size (drop start bytes)

-- bytes.toString("ascii", start, start + 4): the highest bit of each byte is unset.
abbrev pub ascii : Bytes → Bytes
ascii = map (λ b. b % 128)

-- readUInt32BE(start); the caller has checked that four bytes are there.
unfoldable pub u32_at : Bytes → ℕ → ℕ
u32_at bytes start = elim (read_u32 (drop start bytes)) [ none ↦ 0 | some (value, _) ↦ value ]

unfoldable pub read_magic : Bytes → FrameReader → Result FrameReader
read_magic expected reader =
    invariant (leb (length expected) (length reader.bytes)) "FORMAT_TRUNCATED"
    >> (invariant (equals (take (length expected) reader.bytes) expected) "FORMAT_MAGIC"
        >> ok (record reader { offset = length expected }))

unfoldable pub peek_type : FrameReader → Result Bytes
peek_type reader =
    invariant (leb frame_header_bytes (remaining reader)) "FORMAT_TRUNCATED"
    >> ok (ascii (subarray reader.bytes reader.offset 4))

-- The payload, and the reader behind the frame.
unfoldable pub read_frame : Bytes → FrameReader → Result (Bytes × FrameReader)
unfolding u32_at
read_frame expected reader = do
  invariant (leb frame_header_bytes (remaining reader)) "FORMAT_TRUNCATED"
  let type = ascii (subarray reader.bytes reader.offset 4)
  let size = u32_at reader.bytes (reader.offset + 4)
  invariant (equals type expected) "FORMAT_FRAME_ORDER"
  invariant (leb size reader.max_frame_bytes) "FORMAT_FRAME_LIMIT"
  invariant (leb (frame_header_bytes + size) (remaining reader)) "FORMAT_TRUNCATED"
  ok (
    subarray reader.bytes (reader.offset + frame_header_bytes) size,
    record reader { offset = reader.offset + frame_header_bytes + size },
  )

unfoldable pub assert_end : FrameReader → Result (Unit {0})
assert_end reader = invariant (remaining reader == 0) "FORMAT_TRAILING"
