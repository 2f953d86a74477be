-- ===== src/Examples/Formats.antt =====
-- src/format/framing.js and src/format/records.js at concrete bytes.
use glare9_provenance.Prelude.{
  ◌≢◌, err, ℕ, ◌+◌, ◌≤◌, Bytes, [], ◌∷◌, ◌++◌, ◌≡◌, false, refl, length, Result, ok, arith, All,
  List, IsBytes,
}
use glare9_provenance.Format.Framing.{
  block, header, type_name, is_frame_type, new_reader, read_frame,
}
use glare9_provenance.Format.Framing.RoundTrip.{reader_at, frame_bytes, at_frame, read_frame-frame}
use glare9_provenance.Format.Framing.Rejects.{
  HasRead, read_frame-HasRead, high_bits, high_frame, read_frame-high_bits,
}
use glare9_provenance.Format.Records.{read_records, read_framed_records, frame_records}
use glare9_provenance.Format.Records.RoundTrip.{read_framed_records-frame_records}
use glare9_provenance.Format.Records.Sound.{read_framed_records_sound, read_records-enough}

abbrev two_records : List Bytes
two_records = (7 ∷ []) ∷ (8 ∷ 9 ∷ []) ∷ []

abbrev two_records_block : Bytes
two_records_block = 0 ∷ 0 ∷ 0 ∷ 1 ∷ 7 ∷ 0 ∷ 0 ∷ 0 ∷ 2 ∷ 8 ∷ 9 ∷ []

two_records_framed : frame_records two_records ≡ ok two_records_block
unfolding frame_records glare9_provenance.Format.Records.frame_record
    glare9_provenance.Prelude.Octets.write_u32
two_records_framed = refl

two_records_read : read_framed_records 16 2 two_records_block ≡ ok two_records
unfolding read_framed_records read_records glare9_provenance.Format.Records.read_record
    glare9_provenance.Prelude.Octets.read_u32
two_records_read = refl

two_records_IsBytes : IsBytes two_records_block
two_records_IsBytes = search arith

read_framed_records_sound_example :
    (frame_records two_records ≡ ok two_records_block)
    × All (λ bytes. length bytes ≤ 16) two_records
    × (length two_records ≡ 2)
read_framed_records_sound_example =
    read_framed_records_sound 16 2 two_records_block two_records two_records_IsBytes
      two_records_read

read_framed_records-frame_records_example :
    read_framed_records 16 (length two_records) two_records_block ≡ ok two_records
read_framed_records-frame_records_example =
    read_framed_records-frame_records 16 two_records two_records_block two_records_framed
      (omega arith, (omega arith, tt))

read_block :
    read_frame (type_name block) (at_frame 16 block (1 ∷ []) (7 ∷ 8 ∷ []) (9 ∷ []))
    ≡ ok (7 ∷ 8 ∷ [], reader_at 16 ((1 ∷ []) ++ frame_bytes block (7 ∷ 8 ∷ [])) (9 ∷ []))
read_block = read_frame-frame 16 block (1 ∷ []) (7 ∷ 8 ∷ []) (9 ∷ []) (omega arith) (omega arith)

read_frame-HasRead_example :
    HasRead
      (type_name block)
      (7 ∷ 8 ∷ [])
      (at_frame 16 block (1 ∷ []) (7 ∷ 8 ∷ []) (9 ∷ []))
      (reader_at 16 ((1 ∷ []) ++ frame_bytes block (7 ∷ 8 ∷ [])) (9 ∷ []))
read_frame-HasRead_example =
    read_frame-HasRead (type_name block) (7 ∷ 8 ∷ [])
      (at_frame 16 block (1 ∷ []) (7 ∷ 8 ∷ []) (9 ∷ []))
      (reader_at 16 ((1 ∷ []) ++ frame_bytes block (7 ∷ 8 ∷ [])) (9 ∷ [])) read_block

read_frame-high_bits_example :
    (is_frame_type (high_bits header) ≡ false)
    × (read_frame (type_name header) (new_reader (high_frame header (7 ∷ [])) 16)
        ≡ ok (7 ∷ [], record (new_reader (high_frame header (7 ∷ [])) 16) { offset = 9 }))
read_frame-high_bits_example = read_frame-high_bits header (7 ∷ []) 16 (omega arith) (omega arith)

read_records-enough_example :
    (read_records 11 16 two_records_block ≢ err "OUT_OF_ROUNDS")
    × (read_records 11 16 two_records_block ≡ read_records 40 16 two_records_block)
read_records-enough_example =
    read_records-enough 11 40 16 two_records_block two_records_IsBytes (omega arith) (omega arith)
