-- ===== src/Segment.antt =====
-- partitionRecords of src/segment-writer.js: the blocks of a segment's records. A record is of any
-- type, `bytes_of` being its field `bytes`.
pub mod Blocks
use glare9_provenance.Prelude.{
  ℕ, ◌+◌, Bytes, Bool, true, false, ◌&&◌, ◌||◌, not, [], ◌∷◌, ◌++◌, List, leb, ltb, ◌==◌, length,
  take, drop, Option, none, some, Result, ok, ◌>>=◌, ◌>>◌, invariant,
}
use glare9_provenance.Codec.Value.{max_safe_integer}
use glare9_provenance.Format.Records.{frame_record}

-- { ...record, framed }
pub record Framed (A : Type 0) : Type 0 where
  pub prepared : A
  pub framed : Bytes

-- Number.isSafeInteger(count) && count > 0
all_positive : List ℕ → Bool
all_positive [] = true
all_positive (count ∷ counts) = (leb count max_safe_integer && ltb 0 count) && all_positive counts

unfoldable pub sum_counts : List ℕ → ℕ
sum_counts [] = 0
sum_counts (count ∷ counts) = count + sum_counts counts

abbrev pub is_empty : {A : Type 0} → List A → Bool
is_empty [] = true
is_empty (a ∷ as') = false

module _ {A : Type 0} (bytes_of : A → Bytes) where
  unfoldable pub frame_prepared : A → Result (Framed A)
  frame_prepared a = do
    framed ← frame_record (bytes_of a)
    ok (record { prepared = a; framed = framed })

  unfoldable pub frame_all : List A → Result (List (Framed A))
  frame_all [] = ok []
  frame_all (a ∷ as') = do first ← frame_prepared a; rest ← frame_all as'; ok (first ∷ rest)

  -- blockRecordCounts.map(...): each block takes its count of records from the offset on.
  unfoldable pub cut_blocks : List ℕ → List A → Result (List (List (Framed A)))
  cut_blocks [] records = ok []
  cut_blocks (count ∷ counts) records = do
    block ← frame_all (take count records)
    blocks ← cut_blocks counts (drop count records)
    ok (block ∷ blocks)

  -- current.length > 0 && (currentBytes + framed.length > targetBytes || current.length >= maxRecords)
  unfoldable pub is_full : ℕ → ℕ → List (Framed A) → ℕ → ℕ → Bool
  is_full target_bytes max_records current current_bytes framed_length =
      not (is_empty current)
      && (ltb target_bytes (current_bytes + framed_length) || leb max_records (length current))

  last_block : List (Framed A) → List (List (Framed A))
  last_block [] = []
  last_block (a ∷ as') = (a ∷ as') ∷ []

  -- The loop over the records, from `current` and `currentBytes`: the blocks that are pushed yet.
  unfoldable pub fill_blocks :
      ℕ → ℕ → List (Framed A) → ℕ → List A → Result (List (List (Framed A)))
  unfolding last_block
  fill_blocks target_bytes max_records current current_bytes [] = ok (last_block current)
  fill_blocks target_bytes max_records current current_bytes (a ∷ as') = do
    item ← frame_prepared a
    elim (is_full target_bytes max_records current current_bytes (length item.framed)) [
      | true ↦ (do
        blocks ← fill_blocks target_bytes max_records (item ∷ []) (length item.framed) as'
        ok (current ∷ blocks))
      | false ↦
          fill_blocks target_bytes max_records (current ++ item ∷ [])
            (current_bytes + length item.framed) as'
    ]

  -- partitionRecords(records, targetBytes, maxRecords, blockRecordCounts)
  unfoldable pub partition_records :
      List A → ℕ → ℕ → Option (List ℕ) → Result (List (List (Framed A)))
  unfolding all_positive
  partition_records records target_bytes max_records none =
      fill_blocks target_bytes max_records [] 0 records
  partition_records records target_bytes max_records (some counts) = do
    invariant (not (is_empty counts)) "BLOCK_PARTITION"
    invariant (all_positive counts) "BLOCK_PARTITION"
    invariant (sum_counts counts == length records) "BLOCK_PARTITION"
    cut_blocks counts records
