-- ===== src/Format/Framing/Rejects.antt =====
-- What a frame that was read guarantees, and the type bytes that are read though no writer writes them.
use glare9_provenance.Prelude.{
  ℕ, ◌+◌, ◌-◌, ◌≤◌, Bytes, false, [], ◌∷◌, ◌++◌, map, leb, ◌≡◌, refl, sym, length, take, drop,
  length-take-le, length-drop, ok, arith, leb→le, le→leb, invariant-eq-ok, ok-injective, ap, ◌∙◌,
}
use glare9_provenance.Prelude.Octets.{equals, equals→eq, equals_refl, write_u32, read_u32-write_u32}
use glare9_provenance.Format.Framing.{
  FrameType, header, type_name, is_frame_type, FrameReader, new_reader, remaining, read_frame,
  u32_at, subarray, ascii,
}

-- What `read_frame` has seen to when it returns.
pub record HasRead (expected payload : Bytes) (reader after : FrameReader) : Type 0 where
  pub same_bytes : after.bytes ≡ reader.bytes
  pub same_limit : after.max_frame_bytes ≡ reader.max_frame_bytes
  pub type_read : ascii (subarray reader.bytes reader.offset 4) ≡ expected
  pub within_limit : length payload ≤ reader.max_frame_bytes
  pub advanced : after.offset ≡ reader.offset + 8 + length payload
  pub inside : after.offset ≤ length reader.bytes

-- A frame that was read has the expected type and a payload within the limit, and the reader has
-- moved on over it and is still inside its bytes.
pub read_frame-HasRead :
    (expected payload : Bytes) (reader after : FrameReader)
    → read_frame expected reader ≡ ok (payload, after)
    → HasRead expected payload reader after
unfolding read_frame
read_frame-HasRead expected payload reader after h =
    let type = ascii (subarray reader.bytes reader.offset 4) in
    let size = u32_at reader.bytes (reader.offset + 4) in
    let whole = 8 + size in
    let (_, h1) = invariant-eq-ok (leb 8 (remaining reader)) "FORMAT_TRUNCATED" _ h in
    let (typed, h2) = invariant-eq-ok (equals type expected) "FORMAT_FRAME_ORDER" _ h1 in
    let (limited, h3) =
      invariant-eq-ok (leb size reader.max_frame_bytes) "FORMAT_FRAME_LIMIT" _ h2 in
    let (enough, h4) = invariant-eq-ok (leb whole (remaining reader)) "FORMAT_TRUNCATED" _ h3 in
    let e = ok-injective _ _ h4 in
    let cut : subarray reader.bytes (reader.offset + 8) size ≡ payload = ap (λ p. p.0) e in
    let left : 8 + size ≤ length reader.bytes - reader.offset = leb→le _ _ enough in
    let sized : length (subarray reader.bytes (reader.offset + 8) size) ≡ size =
      length-take-le size (drop (reader.offset + 8) reader.bytes)
        (omega (arith, left, length-drop (reader.offset + 8) reader.bytes)) in
    let sized' : length payload ≡ size = sym (ap length cut) ∙ sized in
    let moved : reader.offset + 8 + size ≡ after.offset = ap (λ p. p.1.offset) e in
    record {
      same_bytes = sym (ap (λ p. p.1.bytes) e);
      same_limit = sym (ap (λ p. p.1.max_frame_bytes) e);
      type_read = equals→eq type expected typed;
      within_limit = omega (arith, leb→le size reader.max_frame_bytes limited, sized');
      advanced = omega (arith, moved, sized');
      inside = omega (arith, moved, left);
    }

-- The type with the highest bit of each byte set.
abbrev pub high_bits : FrameType → Bytes
high_bits t = map (λ b. b + 128) (type_name t)

high_type : (t : FrameType) (rest : Bytes) → ascii (take 4 (high_bits t ++ rest)) ≡ type_name t
high_type header rest = refl
high_type _ rest = refl

drop_high : (t : FrameType) (rest : Bytes) → drop 4 (high_bits t ++ rest) ≡ rest
drop_high header rest = refl
drop_high _ rest = refl

abbrev pub high_frame : FrameType → Bytes → Bytes
high_frame t payload = high_bits t ++ (write_u32 (length payload) ++ payload)

high_bits-not_type : (t : FrameType) → is_frame_type (high_bits t) ≡ false
unfolding is_frame_type
high_bits-not_type header = refl
high_bits-not_type _ = refl

length-high_frame :
    (t : FrameType) (payload : Bytes) → length (high_frame t payload) ≡ 8 + length payload
unfolding write_u32
length-high_frame header payload = omega arith
length-high_frame _ payload = omega arith

drop-high_frame : (t : FrameType) (payload : Bytes) → drop 8 (high_frame t payload) ≡ payload
unfolding write_u32
drop-high_frame header payload = refl
drop-high_frame _ payload = refl

take-all : (payload : Bytes) → take (length payload) payload ≡ payload
take-all [] = refl
take-all (b ∷ bs) = ap (λ r. b ∷ r) (take-all bs)

size-high_frame :
    (t : FrameType) (payload : Bytes)
    → length payload ≤ 0xffff_ffff
    → u32_at (high_frame t payload) 4 ≡ length payload
unfolding u32_at
size-high_frame t payload fits = rw (
  u32_at,
  drop_high t (write_u32 (length payload) ++ payload),
  read_u32-write_u32 (length payload) payload (omega arith),
)

-- A type whose bytes have their highest bit set is not one that a frame may have, and a frame that
-- has it, its payload within the limit and shorter than 2 ^ 32 bytes, is read as one of the ASCII type.
pub read_frame-high_bits :
    (t : FrameType) (payload : Bytes) (limit : ℕ)
    → length payload ≤ 0xffff_ffff
    → length payload ≤ limit
    → (is_frame_type (high_bits t) ≡ false)
      × (read_frame (type_name t) (new_reader (high_frame t payload) limit)
          ≡ ok (
            payload,
            record (new_reader (high_frame t payload) limit) { offset = 8 + length payload },
          ))
unfolding read_frame
read_frame-high_bits t payload limit fits within = (
  high_bits-not_type t,
  rw (
    le→leb 8 (remaining (new_reader (high_frame t payload) limit))
        (omega (arith, length-high_frame t payload)),
    high_type t (write_u32 (length payload) ++ payload),
    equals_refl (type_name t),
    size-high_frame t payload fits,
    le→leb (length payload) limit within,
    le→leb (8 + length payload) (remaining (new_reader (high_frame t payload) limit))
        (omega (arith, length-high_frame t payload)),
    drop-high_frame t payload,
    take-all payload,
  ),
)
