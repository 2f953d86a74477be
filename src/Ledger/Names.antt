-- ===== src/Ledger/Names.antt =====
-- The names that services/ledger/src/local-ledger.js gives to its keys, directories and files.
use glare9_provenance.Prelude.{ℕ, ◌+◌, ◌/◌, ◌%◌, Bytes, [], ◌∷◌, ◌++◌, ltb, ◌==◌, if◌then◌else◌}
use glare9_provenance.Codec.Utf8.{Text, utf8}
use glare9_provenance.Crypto.{codes, digest}
use glare9_provenance.Sharding.{decimal, decimal_digits, pad_start}

abbrev pub hex_digit : ℕ → ℕ
hex_digit n = if ltb n 10 then b'0' + n else b'W' + n

-- toHex(bytes) of src/crypto.js
unfoldable pub to_hex : Bytes → Text
to_hex [] = []
to_hex (b ∷ bs) = hex_digit (b / 16) ∷ hex_digit (b % 16) ∷ to_hex bs

-- number.toString()
unfoldable pub number_text : ℕ → Text
number_text n = decimal decimal_digits n

-- `${ledgerId}\0${epochNumber}\0${shardId}`
unfoldable pub state_key : Text → ℕ → Text → Text
state_key ledger_id epoch_number shard_id =
    ledger_id ++ (0 ∷ number_text epoch_number) ++ (0 ∷ shard_id)

-- `${ledgerId}\0${epochNumber}`
unfoldable pub ledger_epoch_key : Text → ℕ → Text
ledger_epoch_key ledger_id epoch_number = ledger_id ++ (0 ∷ number_text epoch_number)

unfoldable pub padded : ℕ → Text
padded n = pad_start 12 (number_text n)

unfoldable pub segment_file_name : ℕ → Text
segment_file_name segment_number = codes "segment-" ++ (padded segment_number ++ codes ".g9p")

unfoldable pub routing_epoch_file_name : ℕ → Text
routing_epoch_file_name epoch_number = codes "epoch-" ++ (padded epoch_number ++ codes ".g9p")

unfoldable pub epoch_directory_name : ℕ → Text
epoch_directory_name epoch_number = codes "epoch-" ++ padded epoch_number

module _ (sha256 : Bytes → Bytes) where
  unfoldable pub ledger_directory_name : Text → Text
  ledger_directory_name ledger_id =
      to_hex (digest sha256 (codes "ledger-directory-v1") (utf8 ledger_id ∷ []))

  -- #segmentPrefix
  unfoldable pub segment_prefix : Text → ℕ → Text → ℕ → Text
  segment_prefix ledger_id epoch_number shard_id format_version =
      codes "segments/"
      ++ (ledger_directory_name ledger_id
          ++ (b'/'
              ∷ (if format_version == 1
                  then shard_id
                  else epoch_directory_name epoch_number ++ (b'/' ∷ shard_id))))
