-- ===== src/Format/Records.antt =====
-- src/format/records.js: the records of a block, each behind its length.
pub mod RoundTrip
pub mod Sound
use glare9_provenance.Prelude.{
  ℕ, zero, suc, ◌+◌, ◌-◌, ◌*◌, Bytes, Bool, true, false, [], ◌∷◌, ◌++◌, List, leb, ◌==◌,
  if◌then◌else◌, length, take, drop, Option, none, some, Result, ok, err, ◌>>=◌, ◌>>◌, fail,
  invariant,
}
use glare9_provenance.Prelude.Octets.{write_u32, read_u32}

unfoldable pub frame_record : Bytes → Result Bytes
frame_record bytes =
    invariant (leb (length bytes) 0xffff_ffff) "RECORD_LENGTH"
    >> ok (write_u32 (length bytes) ++ bytes)

cut_record : ℕ → ℕ → Bytes → Result (Bytes × Bytes)
cut_record max_record_bytes size rest =
    invariant (leb size max_record_bytes) "RECORD_LIMIT"
    >> (invariant (leb size (length rest)) "RECORD_TRUNCATED"
        >> ok (take size rest, drop size rest))

-- One round of the loop: the record, and the input from the new offset on.
unfoldable pub read_record : ℕ → Bytes → Result (Bytes × Bytes)
unfolding cut_record
read_record max_record_bytes input = elim (read_u32 input) [
  | none ↦ fail "RECORD_TRUNCATED"
  | some (size, rest) ↦ cut_record max_record_bytes size rest
]

-- `while (offset < input.length)`. A round takes four bytes at least, so as many rounds as there
-- are bytes are enough; `"OUT_OF_ROUNDS"` has no counterpart in the program.
unfoldable pub read_records : ℕ → ℕ → Bytes → Result (List Bytes)
read_records rounds max_record_bytes [] = ok []
read_records zero max_record_bytes (b ∷ input) = fail "OUT_OF_ROUNDS"
read_records (suc rounds) max_record_bytes (b ∷ input) = do
  (bytes, rest) ← read_record max_record_bytes (b ∷ input)
  others ← read_records rounds max_record_bytes rest
  ok (bytes ∷ others)

unfoldable pub read_framed_records : ℕ → ℕ → Bytes → Result (List Bytes)
read_framed_records max_record_bytes expected_count input = do
  records ← read_records (length input) max_record_bytes input
  invariant (length records == expected_count) "RECORD_COUNT"
  ok records

-- Buffer.concat(records.map(frameRecord))
unfoldable pub frame_records : List Bytes → Result Bytes
frame_records [] = ok []
frame_records (bytes ∷ others) = do
  first ← frame_record bytes
  rest ← frame_records others
  ok (first ++ rest)
