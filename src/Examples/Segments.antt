-- ===== src/Examples/Segments.antt =====
-- partitionRecords of src/segment-writer.js at concrete records, which are their bytes.
use glare9_provenance.Prelude.{
  ℕ, ◌≤◌, Bytes, [], ◌∷◌, List, map, Option, none, some, Result, ok, ◌≡◌, refl, length, All, arith,
}
use glare9_provenance.Segment.{Framed, partition_records}
use glare9_provenance.Segment.Blocks.{
  all_contents, all_contents-partition_records, Fits, partition_records-Fits,
}

abbrev same_bytes : Bytes → Bytes
same_bytes bytes = bytes

abbrev three_records : List Bytes
three_records = (7 ∷ []) ∷ (8 ∷ 9 ∷ []) ∷ (6 ∷ []) ∷ []

abbrev framed_as : Bytes → Framed Bytes
framed_as bytes = record { prepared = bytes; framed = 0 ∷ 0 ∷ 0 ∷ length bytes ∷ bytes }

abbrev two_blocks : List (List (Framed Bytes))
two_blocks = (framed_as (7 ∷ []) ∷ framed_as (8 ∷ 9 ∷ []) ∷ []) ∷ (framed_as (6 ∷ []) ∷ []) ∷ []

filled_blocks : partition_records same_bytes three_records 12 5 none ≡ ok two_blocks
unfolding partition_records glare9_provenance.Segment.fill_blocks
    glare9_provenance.Segment.frame_prepared glare9_provenance.Format.Records.frame_record
    glare9_provenance.Segment.is_full glare9_provenance.Prelude.Octets.write_u32
filled_blocks = refl

counted_blocks : partition_records same_bytes three_records 12 5 (some (2 ∷ 1 ∷ [])) ≡ ok two_blocks
unfolding partition_records glare9_provenance.Segment.cut_blocks glare9_provenance.Segment.frame_all
    glare9_provenance.Segment.frame_prepared glare9_provenance.Segment.sum_counts
    glare9_provenance.Format.Records.frame_record glare9_provenance.Prelude.Octets.write_u32
counted_blocks = refl

all_contents-partition_records_example : all_contents same_bytes two_blocks ≡ three_records
all_contents-partition_records_example =
    all_contents-partition_records same_bytes three_records 12 5 none two_blocks filled_blocks

partition_records-Fits_example : All (Fits same_bytes 12 5) two_blocks
partition_records-Fits_example =
    partition_records-Fits same_bytes three_records 12 5 two_blocks (omega arith) filled_blocks
