-- ===== src/Examples/Shards.antt =====
-- src/sharding.js at concrete indices.
use glare9_provenance.Prelude.{
  Bool, true, List, ℕ, ◌<◌, [], ◌∷◌, false, ◌≡◌, refl, ltb, Result, ok, arith,
}
use glare9_provenance.Sharding.{
  RoutingPolicy, routing_policy_id, create_routing_policy, shard_id, is_shard_id, Route,
  route_index, route_event,
}
use glare9_provenance.Codec.Value.{pos}
use glare9_provenance.Codec.Utf8.{Text, utf8}
use glare9_provenance.Sharding.Planner.{
  Assignment, Plan, plan_shard_assignments, count_subjects, plan_shard_assignments-count_subjects,
}
use glare9_provenance.Sharding.Names.{is_shard_id-shard_id, route_event-range}
use glare9_provenance.Examples.Hashes.{toy_hash}

is_shard_id-shard_id_example : is_shard_id (shard_id 12) ≡ ltb 12 10_000
is_shard_id-shard_id_example = is_shard_id-shard_id 12

abbrev four_shards : RoutingPolicy
four_shards = record { id = routing_policy_id; version = 1; shard_count = 4 }

abbrev some_route : Route
some_route =
    let i = route_index toy_hash (b'l' ∷ []) (b's' ∷ []) 4 in
    record { index = i; shard = shard_id i }

some_event_routed : route_event toy_hash (b'l' ∷ []) (b's' ∷ []) four_shards ≡ ok some_route
unfolding route_event glare9_provenance.Prelude.Octets.equals
some_event_routed = refl

route_event-range_example : (some_route.index < 4) × (some_route.shard ≡ shard_id some_route.index)
route_event-range_example =
    route_event-range toy_hash (b'l' ∷ []) (b's' ∷ []) four_shards some_route some_event_routed

abbrev nfc : Text → Bool
nfc t = true

abbrev two_assignments : List Assignment
two_assignments =
    let i = route_index toy_hash (b'l' ∷ []) (b's' ∷ []) 4 in
    record { input_index = 0; subject = b's' ∷ []; shard_index = i; shard = shard_id i }
    ∷ record { input_index = 1; subject = b's' ∷ []; shard_index = i; shard = shard_id i }
    ∷ []

abbrev small_plan : Plan
small_plan =
    let i = route_index toy_hash (b'l' ∷ []) (b's' ∷ []) 4 in
    record {
      ledger_id = b'l' ∷ [];
      policy = four_shards;
      subject_count = 2;
      populated_shard_count = 1;
      empty_shard_count = pos 3;
      assignments = two_assignments;
      distribution =
          record {
            shard_index = i;
            shard = shard_id i;
            subject_count = 2;
            subjects = (b's' ∷ []) ∷ (b's' ∷ []) ∷ [];
          }
          ∷ [];
    }

same_subject_planned :
    plan_shard_assignments nfc toy_hash (b'l' ∷ []) 4 ((b's' ∷ []) ∷ (b's' ∷ []) ∷ [])
    ≡ ok small_plan
unfolding plan_shard_assignments glare9_provenance.Sharding.Planner.non_empty_text
    glare9_provenance.Sharding.Planner.assign_subjects
    glare9_provenance.Sharding.Planner.sort_groups glare9_provenance.Sharding.Planner.insert_group
    glare9_provenance.Sharding.Planner.group_assignments
    glare9_provenance.Sharding.Planner.add_assignment create_routing_policy route_event route_index
    shard_id glare9_provenance.Sharding.decimal glare9_provenance.Sharding.pad_start
    glare9_provenance.Sharding.zeros glare9_provenance.Sharding.read_u64
    glare9_provenance.Prelude.Dict.get glare9_provenance.Prelude.Dict.set
    glare9_provenance.Prelude.Dict.values glare9_provenance.Prelude.Octets.equals
    glare9_provenance.Prelude.Octets.write_u32 glare9_provenance.Prelude.Octets.read_u32
    glare9_provenance.Crypto.digest glare9_provenance.Crypto.hash_message
    glare9_provenance.Crypto.prefixed glare9_provenance.Crypto.prefixed_parts
    glare9_provenance.Crypto.length_prefix utf8 glare9_provenance.Codec.Utf8.utf8_char
same_subject_planned = refl

plan_shard_assignments-count_subjects_example :
    (small_plan.subject_count ≡ 2) × (count_subjects small_plan.distribution ≡ 2)
plan_shard_assignments-count_subjects_example =
    plan_shard_assignments-count_subjects nfc toy_hash (b'l' ∷ []) 4
      ((b's' ∷ []) ∷ (b's' ∷ []) ∷ []) small_plan same_subject_planned
