-- ===== src/Attestation/Container/RoundTrip.antt =====
-- What a signed container holds, and that the parser gives back what was put in.
use glare9_provenance.Prelude.{
  ℕ, ◌+◌, ◌≤◌, Bytes, [], ◌++◌, leb, ◌≡◌, ap, length, length-append, append-nil, arith, String, ok,
  leb→le, le→leb, invariant-eq-ok, >>=-eq-ok,
}
use glare9_provenance.Prelude.Octets.{write_u32, equals_refl}
use glare9_provenance.Format.Framing.{
  FrameType, signature, end_of_file, type_name, magic_v2, encode_frame, is_frame_type, new_reader,
  read_magic, assert_end, remaining,
}
use glare9_provenance.Format.Framing.RoundTrip.{
  frame_bytes, length-frame_bytes, read_frame-frame, reader_at,
}
use glare9_provenance.Attestation.Container.{concat_frames, FileLimits, parse}

-- The bytes of a container.
abbrev pub container_bytes : FrameType → Bytes → Bytes → Bytes
container_bytes type payload signed =
    magic_v2
    ++ (frame_bytes type payload ++ (frame_bytes signature signed ++ frame_bytes end_of_file []))

encode_frame-eq-ok :
    (t : FrameType) (payload frame : Bytes)
    → encode_frame (type_name t) payload ≡ ok frame
    → (frame ≡ frame_bytes t payload) × (length payload ≤ 0xffff_ffff)
unfolding encode_frame
encode_frame-eq-ok t payload frame h =
    let (_, h1) = invariant-eq-ok (is_frame_type (type_name t)) _ _ h in
    let (fits, h2) = invariant-eq-ok (leb (length payload) 0xffff_ffff) _ _ h1 in
    (cc, leb→le _ _ fits)

pub concat_frames-eq-ok :
    (type : FrameType) (payload signed file : Bytes)
    → concat_frames type payload signed ≡ ok file
    → (file ≡ container_bytes type payload signed)
      × (length payload ≤ 0xffff_ffff)
      × (length signed ≤ 0xffff_ffff)
unfolding concat_frames
concat_frames-eq-ok type payload signed file h =
    let (frame, e, h1) = >>=-eq-ok (encode_frame (type_name type) payload) _ h in
    let (frame', e', h2) = >>=-eq-ok (encode_frame (type_name signature) signed) _ h1 in
    let (ending, e'', h3) = >>=-eq-ok (encode_frame (type_name end_of_file) []) _ h2 in
    let (p, fits) = encode_frame-eq-ok type payload frame e in
    let (p', fits') = encode_frame-eq-ok signature signed frame' e' in
    let (p'', _) = encode_frame-eq-ok end_of_file [] ending e'' in (cc, fits, fits')

pub length-container_bytes :
    (type : FrameType) (payload signed : Bytes)
    → length (container_bytes type payload signed) ≡ 32 + length payload + length signed
length-container_bytes type payload signed = omega (
  arith,
  length-append (frame_bytes type payload)
      (frame_bytes signature signed ++ frame_bytes end_of_file []),
  length-append (frame_bytes signature signed) (frame_bytes end_of_file []),
  length-frame_bytes type payload,
  length-frame_bytes signature signed,
  length-frame_bytes end_of_file [],
)

read_magic-append :
    (limit : ℕ) (rest : Bytes)
    → read_magic magic_v2 (new_reader (magic_v2 ++ rest) limit) ≡ ok (reader_at limit magic_v2 rest)
unfolding read_magic
read_magic-append limit rest =
    rw (le→leb 8 (length (magic_v2 ++ rest)) (omega arith), equals_refl magic_v2)

assert_end-done : (limit : ℕ) (before : Bytes) → assert_end (reader_at limit before []) ≡ ok tt
unfolding assert_end
assert_end-done limit before =
    let none_left : remaining (reader_at limit before []) ≡ 0 =
      omega (arith, ap length (append-nil before)) in
    rw none_left

-- A container whose size is within the limits of the file and of a frame is parsed into its
-- statement and its signature.
pub parse-container_bytes :
    (limit_code end_code : String) (type : FrameType) (limits : FileLimits) (payload signed : Bytes)
    → length payload ≤ 0xffff_ffff
    → length signed ≤ 0xffff_ffff
    → length (container_bytes type payload signed) ≤ limits.max_file_bytes
    → limits.max_file_bytes ≤ limits.max_frame_bytes
    → parse limit_code end_code type limits (container_bytes type payload signed)
      ≡ ok (payload, signed)
unfolding parse write_u32
parse-container_bytes limit_code end_code type limits payload signed fits fits' small frames =
    let limit = limits.max_frame_bytes in
    let size = length-container_bytes type payload signed in
    let ending = frame_bytes end_of_file [] in
    let first =
      read_frame-frame limit type magic_v2 payload (frame_bytes signature signed ++ ending) fits
        (omega arith) in
    let second =
      read_frame-frame limit signature (magic_v2 ++ frame_bytes type payload) signed ending fits'
        (omega arith) in
    let third =
      read_frame-frame limit end_of_file
        ((magic_v2 ++ frame_bytes type payload) ++ frame_bytes signature signed) [] [] (omega arith)
        (omega arith) in
    let over =
      assert_end-done limit
        (((magic_v2 ++ frame_bytes type payload) ++ frame_bytes signature signed) ++ ending) in
    rw (
      le→leb _ _ small,
      read_magic-append limit
          (frame_bytes type payload ++ (frame_bytes signature signed ++ ending)),
      first,
      second,
      third,
      over,
    )
