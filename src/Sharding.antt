-- ===== src/Sharding.antt =====
-- src/sharding.js: routing an event to a shard by a hash of its ledger and subject. Text is given by
-- its code points, as in the codec.
pub mod Names
pub mod Planner
use glare9_provenance.Prelude.{
  ℕ, zero, suc, ◌+◌, ◌-◌, ◌*◌, ◌/◌, ◌%◌, ◌^◌, Bytes, Bool, true, false, ◌&&◌, [], ◌∷◌, ◌++◌, List,
  leb, ltb, ◌==◌, if◌then◌else◌, length, Option, none, some, Result, ok, err, ◌>>=◌, ◌>>◌,
  invariant,
}
use glare9_provenance.Prelude.Octets.{equals, read_u32}
use glare9_provenance.Codec.Utf8.{Text, utf8}
use glare9_provenance.Crypto.{codes, digest}

-- ROUTING_POLICY_ID
abbrev pub routing_policy_id : Text
routing_policy_id = codes "subject-sha256-v1"

pub record RoutingPolicy : Type 0 where
  pub id : Text
  pub version : ℕ
  pub shard_count : ℕ

unfoldable pub create_routing_policy : ℕ → Result RoutingPolicy
create_routing_policy shard_count =
    invariant (leb 1 shard_count && leb shard_count 65_536) "SHARD_COUNT"
    >> ok (record { id = routing_policy_id; version = 1; shard_count = shard_count })

-- index.toString() of a number below 10 ^ rounds
unfoldable pub decimal : ℕ → ℕ → Text
decimal zero n = []
decimal (suc rounds) n =
    if ltb n 10 then (b'0' + n) ∷ [] else decimal rounds (n / 10) ++ (b'0' + n % 10) ∷ []

-- A safe integer has sixteen digits at most.
abbrev pub decimal_digits : ℕ
decimal_digits = 16

unfoldable pub zeros : ℕ → Text
zeros zero = []
zeros (suc n) = b'0' ∷ zeros n

-- value.padStart(width, "0")
unfoldable pub pad_start : ℕ → Text → Text
unfolding zeros
pad_start width value = zeros (width - length value) ++ value

-- `shard-${index.toString().padStart(4, "0")}`
unfoldable pub shard_id : ℕ → Text
unfolding pad_start
shard_id index = codes "shard-" ++ pad_start 4 (decimal decimal_digits index)

unfoldable pub is_digit : ℕ → Bool
is_digit c = leb b'0' c && leb c b'9'

unfoldable pub all_digits : Text → Bool
all_digits [] = true
all_digits (c ∷ t) = is_digit c && all_digits t

after_prefix : Text → Text → Option Text
after_prefix [] t = some t
after_prefix (p ∷ ps) [] = none
after_prefix (p ∷ ps) (c ∷ t) = let rest = after_prefix ps t in if p == c then rest else none

-- /^shard-[0-9]{4}$/u.test(value), the test of every reader of a shard identity
unfoldable pub is_shard_id : Text → Bool
unfolding is_digit all_digits after_prefix
is_shard_id value = elim (after_prefix (codes "shard-") value) [
  | none ↦ false
  | some digits ↦ length digits == 4 && all_digits digits
]

-- readBigUInt64BE(0)
unfoldable pub read_u64 : Bytes → ℕ
read_u64 bytes = elim (read_u32 bytes) [
  | none ↦ 0
  | some (high, rest) ↦ elim (read_u32 rest) [ none ↦ 0 | some (low, _) ↦ high * 2 ^ 32 + low ]
]

pub record Route : Type 0 where
  pub index : ℕ
  pub shard : Text

module _ (sha256 : Bytes → Bytes) where
  unfoldable pub route_index : Text → Text → ℕ → ℕ
  route_index ledger_id subject shard_count =
      read_u64 (digest sha256 (codes "shard-route-v1") (utf8 ledger_id ∷ utf8 subject ∷ []))
      % shard_count

  -- routeEvent(event, policy), of the ledger and the subject that it reads
  unfoldable pub route_event : Text → Text → RoutingPolicy → Result Route
  unfolding route_index
  route_event ledger_id subject policy =
      invariant (equals policy.id routing_policy_id && policy.version == 1) "ROUTING_POLICY"
      >> (invariant (leb 1 policy.shard_count) "SHARD_COUNT"
          >> ok (record {
            index = route_index ledger_id subject policy.shard_count;
            shard = shard_id (route_index ledger_id subject policy.shard_count);
          }))
