-- ===== src/Format/Framing/RoundTrip.antt =====
-- A reader that stands at an encoded frame reads its payload and stands behind it.
use glare9_provenance.Prelude.{
  ℕ, ◌+◌, ◌≤◌, Bytes, true, ◌++◌, ◌≡◌, refl, ap₂, length, take, drop, take-append, drop-append,
  drop-append_add, length-append, append_assoc, ok, arith, le→leb, sym,
}
use glare9_provenance.Prelude.Octets.{equals_refl, write_u32, read_u32-write_u32}
use glare9_provenance.Format.Framing.{
  FrameType, header, type_name, encode_frame, is_frame_type, FrameReader, remaining, read_frame,
  peek_type, u32_at, subarray, ascii,
}

-- The reader stands between what was read and what is to come.
abbrev pub reader_at : ℕ → Bytes → Bytes → FrameReader
reader_at limit before after = record {
  bytes = before ++ after;
  offset = length before;
  max_frame_bytes = limit;
}

take_type : (t : FrameType) (rest : Bytes) → take 4 (type_name t ++ rest) ≡ type_name t
take_type header rest = refl
take_type _ rest = refl

drop_type : (t : FrameType) (rest : Bytes) → drop 4 (type_name t ++ rest) ≡ rest
drop_type header rest = refl
drop_type _ rest = refl

length_type : (t : FrameType) → length (type_name t) ≡ 4
length_type header = refl
length_type _ = refl

ascii_type : (t : FrameType) → ascii (type_name t) ≡ type_name t
ascii_type header = refl
ascii_type _ = refl

type_name-is_frame_type : (t : FrameType) → is_frame_type (type_name t) ≡ true
unfolding is_frame_type
type_name-is_frame_type header = refl
type_name-is_frame_type _ = refl

-- The bytes of a frame whose payload's length fits in 32 bits.
abbrev pub frame_bytes : FrameType → Bytes → Bytes
frame_bytes t payload = type_name t ++ (write_u32 (length payload) ++ payload)

pub encode_frame-type_name :
    (t : FrameType) (payload : Bytes)
    → length payload ≤ 0xffff_ffff
    → encode_frame (type_name t) payload ≡ ok (frame_bytes t payload)
unfolding encode_frame
encode_frame-type_name t payload h = rw (type_name-is_frame_type t, le→leb _ _ h)

length-write_u32 : (n : ℕ) → length (write_u32 n) ≡ 4
unfolding write_u32
length-write_u32 n = refl

pub length-frame_bytes :
    (t : FrameType) (payload : Bytes) → length (frame_bytes t payload) ≡ 8 + length payload
length-frame_bytes t payload = omega (
  arith,
  length-append (type_name t) (write_u32 (length payload) ++ payload),
  length-append (write_u32 (length payload)) payload,
  length_type t,
  length-write_u32 (length payload),
)

drop_header :
    (t : FrameType) (n : ℕ) (payload after : Bytes)
    → drop 8 (type_name t ++ ((write_u32 n ++ payload) ++ after)) ≡ payload ++ after
unfolding write_u32
drop_header header n payload after = refl
drop_header _ n payload after = refl

module _ (limit : ℕ) (t : FrameType) (before payload after : Bytes) where
  abbrev pub at_frame : FrameReader
  at_frame = reader_at limit before (frame_bytes t payload ++ after)

  remaining-at_frame : remaining at_frame ≡ 8 + length payload + length after
  remaining-at_frame = omega (
    arith,
    length-append before (frame_bytes t payload ++ after),
    length-append (frame_bytes t payload) after,
    length-frame_bytes t payload,
  )

  type_at : subarray at_frame.bytes at_frame.offset 4 ≡ type_name t
  type_at =
      rw
        (
          drop-append before (frame_bytes t payload ++ after),
          append_assoc (type_name t) (write_u32 (length payload) ++ payload) after,
        )
        (take_type t ((write_u32 (length payload) ++ payload) ++ after))

  pub peek_type-frame : peek_type at_frame ≡ ok (type_name t)
  unfolding peek_type
  peek_type-frame =
      rw (type_at, le→leb 8 (remaining at_frame) (omega (arith, remaining-at_frame)), ascii_type t)

  size_at :
      length payload ≤ 0xffff_ffff → u32_at at_frame.bytes (at_frame.offset + 4) ≡ length payload
  unfolding u32_at
  size_at fits = rw (
    drop-append_add before (frame_bytes t payload ++ after) 4,
    u32_at,
    append_assoc (type_name t) (write_u32 (length payload) ++ payload) after,
    drop_type t ((write_u32 (length payload) ++ payload) ++ after),
    append_assoc (write_u32 (length payload)) payload after,
    read_u32-write_u32 (length payload) (payload ++ after) (omega arith),
  )

  payload_at : subarray at_frame.bytes (at_frame.offset + 8) (length payload) ≡ payload
  payload_at =
      rw
        (
          drop-append_add before (frame_bytes t payload ++ after) 8,
          append_assoc (type_name t) (write_u32 (length payload) ++ payload) after,
          drop_header t (length payload) payload after,
        )
        (take-append payload after)

  -- A reader that stands at a frame, whose payload is within its limit and shorter than 2 ^ 32 bytes,
  -- reads the payload, and stands behind it.
  pub read_frame-frame :
      length payload ≤ 0xffff_ffff
      → length payload ≤ limit
      → read_frame (type_name t) at_frame
        ≡ ok (payload, reader_at limit (before ++ frame_bytes t payload) after)
  unfolding read_frame
  read_frame-frame fits within =
      rw
        (
          le→leb 8 (remaining at_frame) (omega (arith, remaining-at_frame)),
          type_at,
          ascii_type t,
          equals_refl (type_name t),
          size_at fits,
          le→leb (length payload) limit within,
          le→leb (8 + length payload) (remaining at_frame) (omega (arith, remaining-at_frame)),
          payload_at,
        )
        (ap₂
          (λ (b : Bytes) (o : ℕ).
            ok (payload, record { bytes = b; offset = o; max_frame_bytes = limit }))
          (sym (append_assoc before (frame_bytes t payload) after))
          (omega
            (arith, length-append before (frame_bytes t payload), length-frame_bytes t payload)))
