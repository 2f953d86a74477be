-- ===== src/Ledger/Config.antt =====
-- lifecycleConfig of services/ledger/src/local-ledger.js, over options whose values are as in the codec.
use glare9_provenance.Prelude.{
  Option, none, some, err, ℕ, ◌&&◌, ◌||◌, ◌≡◌, leb, ltb, not, Result, ok, ◌>>=◌, ◌>>◌, invariant,
  refl,
}
use glare9_provenance.Codec.Value.{Value, null, number, integer, pos, max_safe_integer}

pub record Lifecycle : Type 0 where
  pub block_max_bytes : ℕ
  pub block_max_records : ℕ
  pub segment_max_bytes : ℕ
  pub segment_max_records : ℕ
  pub segment_max_age_ms : ℕ
  pub max_accepted_events : ℕ
  pub max_accepted_bytes : ℕ
  pub max_active_block_bytes : ℕ

-- DEFAULT_LIFECYCLE
abbrev pub default_lifecycle : Lifecycle
default_lifecycle = record {
  block_max_bytes = 1_048_576;
  block_max_records = 1_000;
  segment_max_bytes = 33_554_432;
  segment_max_records = 10_000;
  segment_max_age_ms = 30_000;
  max_accepted_events = 100_000;
  max_accepted_bytes = 1_073_741_824;
  max_active_block_bytes = 16_777_216;
}

-- The options object; `none` is a property that it does not have.
pub record LifecycleOptions : Type 0 where
  pub block_max_bytes : Option Value
  pub block_max_records : Option Value
  pub segment_max_bytes : Option Value
  pub segment_max_records : Option Value
  pub segment_max_age_ms : Option Value
  pub max_accepted_events : Option Value
  pub max_accepted_bytes : Option Value
  pub max_active_block_bytes : Option Value

-- options[name] ?? fallback
abbrev with_fallback : Option Value → ℕ → Value
with_fallback none fallback = number (integer (pos fallback))
with_fallback (some null) fallback = number (integer (pos fallback))
with_fallback (some value) fallback = value

-- positiveInteger(value, name)
unfoldable pub positive_integer : Value → Result ℕ
positive_integer (number (integer (pos n))) =
    invariant (leb n max_safe_integer && not (ltb n 1)) "LEDGER_LIFECYCLE_CONFIG" >> ok n
positive_integer _ = err "LEDGER_LIFECYCLE_CONFIG"

-- positiveInteger(options[name] ?? fallback, name)
abbrev setting : Option Value → ℕ → Result ℕ
setting value fallback = positive_integer (with_fallback value fallback)

unfoldable pub lifecycle_config : LifecycleOptions → Result Lifecycle
unfolding positive_integer
lifecycle_config options = do
  block_max_bytes ← setting options.block_max_bytes default_lifecycle.block_max_bytes
  block_max_records ← setting options.block_max_records default_lifecycle.block_max_records
  segment_max_bytes ← setting options.segment_max_bytes default_lifecycle.segment_max_bytes
  segment_max_records ← setting options.segment_max_records default_lifecycle.segment_max_records
  segment_max_age_ms ← setting options.segment_max_age_ms default_lifecycle.segment_max_age_ms
  max_accepted_events ← setting options.max_accepted_events default_lifecycle.max_accepted_events
  max_accepted_bytes ← setting options.max_accepted_bytes default_lifecycle.max_accepted_bytes
  max_active_block_bytes ←
      setting options.max_active_block_bytes default_lifecycle.max_active_block_bytes
  invariant (not (ltb block_max_bytes 1024)) "LEDGER_LIFECYCLE_CONFIG"
  invariant
      (not (
        ltb 67_108_864 block_max_bytes
        || (ltb 67_108_864 segment_max_bytes || ltb 100_000 segment_max_records)))
      "LEDGER_LIFECYCLE_CONFIG"
  invariant
      (not (ltb segment_max_bytes block_max_bytes || ltb segment_max_records block_max_records))
      "LEDGER_LIFECYCLE_CONFIG"
  invariant (not (ltb max_active_block_bytes block_max_bytes)) "LEDGER_LIFECYCLE_CONFIG"
  ok (record {
    block_max_bytes = block_max_bytes;
    block_max_records = block_max_records;
    segment_max_bytes = segment_max_bytes;
    segment_max_records = segment_max_records;
    segment_max_age_ms = segment_max_age_ms;
    max_accepted_events = max_accepted_events;
    max_accepted_bytes = max_accepted_bytes;
    max_active_block_bytes = max_active_block_bytes;
  })

abbrev no_options : LifecycleOptions
no_options = record {
  block_max_bytes = none;
  block_max_records = none;
  segment_max_bytes = none;
  segment_max_records = none;
  segment_max_age_ms = none;
  max_accepted_events = none;
  max_accepted_bytes = none;
  max_active_block_bytes = none;
}

default_lifecycle-accepted : lifecycle_config no_options ≡ ok default_lifecycle
unfolding lifecycle_config
default_lifecycle-accepted = refl

-- A given option takes the place of its default, and null does not.
option_given :
    lifecycle_config (record no_options {
      segment_max_records = some (number (integer (pos 1_000)));
      max_accepted_events = some null;
    })
    ≡ ok (record default_lifecycle { segment_max_records = 1_000 })
unfolding lifecycle_config
option_given = refl
