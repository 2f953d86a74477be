-- ===== src/Attestation/Heads.antt =====
-- The lists of shard heads in a routing epoch (validatePreviousShardHeads of src/routing-epoch.js)
-- and in a checkpoint (validateHeads of src/checkpoint.js), which make the same tests.
pub mod Valid
use glare9_provenance.Prelude.{
  ℕ, suc, ◌+◌, Bytes, Bool, true, false, ◌&&◌, [], ◌∷◌, List, Option, none, some, String, Result,
  ok, err, ◌>>=◌, ◌>>◌, invariant,
}
use glare9_provenance.Codec.Utf8.{Text}
use glare9_provenance.Codec.Value.{
  pos, integer, Value, Items, null, number, string, bytes, array, object, no_items, item, no_fields,
  field,
}
use glare9_provenance.Sharding.{shard_id}
use glare9_provenance.Crypto.{codes}
use glare9_provenance.Ledger.Names.{to_hex}
use glare9_provenance.Attestation.Checks.{
  exact_fields, property, is_null, is_number, is_text, natural_of, bytes_of, require,
}

-- A head is empty, or has the number and the hash of the last segment.
pub record Head : Type 0 where
  pub epoch_number : ℕ
  pub shard : Text
  pub last_segment : Option (ℕ × Bytes)

abbrev pub head_fields : List Text
head_fields =
    codes "epochNumber" ∷ codes "shardId" ∷ codes "segmentNumber" ∷ codes "segmentHash" ∷ []

-- isEmpty || isSealed, and which
unfoldable pub last_segment_of : Value → Value → Option (Option (ℕ × Bytes))
last_segment_of segment_number segment_hash =
    elim (is_null segment_number && is_null segment_hash) [
      | true ↦ some none
      | false ↦ elim (natural_of segment_number) [
        | none ↦ none
        | some n ↦ elim (bytes_of 32 segment_hash) [ none ↦ none | some h ↦ some (some (n, h)) ]
      ]
    ]

-- One head of the list, at an index.
unfoldable pub check_head : String → String → String → ℕ → ℕ → Value → Result Head
unfolding last_segment_of
check_head object_code fields_code head_code epoch_number index value = do
  fs ← exact_fields object_code fields_code head_fields value
  invariant (is_number epoch_number (property (codes "epochNumber") fs)) head_code
  invariant (is_text (shard_id index) (property (codes "shardId") fs)) head_code
  last ←
      require head_code
        (last_segment_of (property (codes "segmentNumber") fs) (property (codes "segmentHash") fs))
  ok (record { epoch_number = epoch_number; shard = shard_id index; last_segment = last })

-- value.map((head, index) => ...), from an index on
unfoldable pub check_heads : String → String → String → ℕ → ℕ → Items → Result (List Head)
check_heads object_code fields_code head_code epoch_number index no_items = ok []
check_heads object_code fields_code head_code epoch_number index (item v vs) = do
  head ← check_head object_code fields_code head_code epoch_number index v
  heads ← check_heads object_code fields_code head_code epoch_number (suc index) vs
  ok (head ∷ heads)

abbrev pub segment_number_value : Option (ℕ × Bytes) → Value
segment_number_value none = null
segment_number_value (some (n, h)) = number (integer (pos n))

abbrev pub segment_hash_value : Option (ℕ × Bytes) → Value
segment_hash_value none = null
segment_hash_value (some (n, h)) = bytes h

-- The object of a head.
unfoldable pub head_value : Head → Value
head_value head = object (
    field (codes "epochNumber") (number (integer (pos head.epoch_number))) (
      field (codes "segmentHash") (segment_hash_value head.last_segment) (
        field (codes "segmentNumber") (segment_number_value head.last_segment)
          (field (codes "shardId") (string head.shard) no_fields))))

unfoldable pub head_items : List Head → Items
unfolding head_value
head_items [] = no_items
head_items (head ∷ heads) = item (head_value head) (head_items heads)

-- The hash of a head in hexadecimal, as a verifier reports it.
unfoldable pub hex_heads : List Head → List Head
hex_heads [] = []
hex_heads (head ∷ heads) =
    record head {
      last_segment = elim head.last_segment [ none ↦ none | some (n, h) ↦ some (n, to_hex h) ];
    }
    ∷ hex_heads heads
