-- ===== src/Sharding/Names.antt =====
-- The names of shards, and the range of a route.
use native.Mathlib.Nat.{mod-lt, pow-suc}
use glare9_provenance.Prelude.{
  ℕ, zero, suc, ◌+◌, ◌-◌, ◌/◌, ◌%◌, ◌^◌, ◌≤◌, ◌<◌, Bytes, true, ◌&&◌, [], ◌∷◌, ◌++◌, ◌≡◌, refl,
  ok-injective, ap, subst, leb, ltb, ◌==◌, length, length-append, ok, arith, invariant-eq-ok,
  leb→le, ltb→lt, Bool-cases, inl, inr, ◌∙◌,
}
use glare9_provenance.Codec.Utf8.{Text}
use glare9_provenance.Crypto.{codes}
use glare9_provenance.Prelude.Octets.{equals}
use glare9_provenance.Sharding.{
  routing_policy_id, RoutingPolicy, decimal, zeros, pad_start, shard_id, is_digit, all_digits,
  is_shard_id, Route, route_index, route_event,
}

all_digits-append :
    (t u : Text) → all_digits t ≡ true → all_digits u ≡ true → all_digits (t ++ u) ≡ true
unfolding all_digits
all_digits-append [] u p q = q
all_digits-append (c ∷ t) u p q = ground (arith, all_digits-append t u)

pub all_digits-decimal : (rounds n : ℕ) → all_digits (decimal rounds n) ≡ true
unfolding decimal all_digits is_digit
all_digits-decimal zero n = refl
all_digits-decimal (suc rounds) n = elim (Bool-cases (ltb n 10)) [
  | inl small ↦ rw small (ground arith)
  | inr large ↦ rw large (
      all_digits-append (decimal rounds (n / 10)) ((b'0' + n % 10) ∷ [])
        (all_digits-decimal rounds (n / 10)) (ground arith))
]

all_digits-zeros : (n : ℕ) → all_digits (zeros n) ≡ true
unfolding zeros all_digits is_digit
all_digits-zeros zero = refl
all_digits-zeros (suc n) = all_digits-zeros n

length-zeros : (n : ℕ) → length (zeros n) ≡ n
unfolding zeros
length-zeros zero = refl
length-zeros (suc n) = ap suc (length-zeros n)

length-decimal_step :
    (rounds n : ℕ)
    → 10 ≤ n
    → length (decimal (suc rounds) n) ≡ suc (length (decimal rounds (n / 10)))
unfolding decimal
length-decimal_step rounds n h =
    ground (arith, length-append (decimal rounds (n / 10)) ((b'0' + n % 10) ∷ []))

length-decimal_one : (rounds n : ℕ) → n < 10 → length (decimal (suc rounds) n) ≡ 1
unfolding decimal
length-decimal_one rounds n h = ground arith

length-decimal_pos : (rounds n : ℕ) → 0 < length (decimal (suc rounds) n)
length-decimal_pos rounds n = elim (Bool-cases (ltb n 10)) [
  | inl small ↦ omega (arith, length-decimal_one rounds n (ltb→lt _ _ small))
  | inr large ↦ omega (arith, length-decimal_step rounds n (ground arith))
]

pow_pos : (k : ℕ) → 0 < 10 ^ k
pow_pos zero = omega arith
pow_pos (suc k) = omega (arith, pow-suc 10 k, pow_pos k)

-- A number below 10 ^ (k + 1) has at most k + 1 digits, and any other has more.
length-decimal_le :
    (k rounds n : ℕ) → k < rounds → n < 10 ^ suc k → length (decimal rounds n) ≤ suc k
length-decimal_le k zero n hk h = absurd (omega arith)
length-decimal_le zero (suc rounds) n hk h = omega (arith, length-decimal_one rounds n)
length-decimal_le (suc k) (suc rounds) n hk h = elim (Bool-cases (ltb n 10)) [
  | inl small ↦ omega (arith, length-decimal_one rounds n (ltb→lt _ _ small))
  | inr large ↦ omega (
    arith,
    length-decimal_step rounds n (ground arith),
    length-decimal_le k rounds (n / 10) (omega arith) (omega (arith, pow-suc 10 (suc k))),
  )
]

length-decimal_gt :
    (k rounds n : ℕ) → k < rounds → 10 ^ suc k ≤ n → suc k < length (decimal (suc rounds) n)
length-decimal_gt k zero n hk h = absurd (omega arith)
length-decimal_gt zero (suc rounds) n hk h =
    omega (arith, length-decimal_step (suc rounds) n h, length-decimal_pos rounds (n / 10))
length-decimal_gt (suc k) (suc rounds) n hk h =
    let big : 10 ≤ n = omega (arith, pow-suc 10 (suc k), pow-suc 10 k, pow_pos k) in
    omega (
      arith,
      length-decimal_step (suc rounds) n big,
      length-decimal_gt k rounds (n / 10) (omega arith) (omega (arith, pow-suc 10 (suc k))),
    )

-- The test on a name `shard-` followed by digits is a test of their number.
is_shard_id-digits :
    (t : Text) → all_digits t ≡ true → is_shard_id (codes "shard-" ++ t) ≡ (length t == 4)
unfolding is_shard_id
is_shard_id-digits t h = rw h (ground arith)

length-pad_start : (t : Text) → length (pad_start 4 t) ≡ (4 - length t) + length t
unfolding pad_start
length-pad_start t =
    omega (arith, length-append (zeros (4 - length t)) t, length-zeros (4 - length t))

pub all_digits-pad_start : (t : Text) → all_digits t ≡ true → all_digits (pad_start 4 t) ≡ true
unfolding pad_start
all_digits-pad_start t h =
    all_digits-append (zeros (4 - length t)) t (all_digits-zeros (4 - length t)) h

-- The name that is given to a shard passes the test on shard identities exactly when its index is
-- below 10,000.
pub is_shard_id-shard_id : (n : ℕ) → is_shard_id (shard_id n) ≡ ltb n 10_000
unfolding shard_id
is_shard_id-shard_id n =
    is_shard_id-digits (pad_start 4 (decimal 16 n))
      (all_digits-pad_start _ (all_digits-decimal 16 n))
    ∙ elim (Bool-cases (ltb n 10_000)) [
      | inl small ↦ ground (arith, length-pad_start (decimal 16 n), length-decimal_le 3 16 n)
      | inr large ↦ ground (arith, length-pad_start (decimal 16 n), length-decimal_gt 3 15 n)
    ]

route_index-lt :
    (sha256 : Bytes → Bytes) (ledger_id subject : Text) (n : ℕ)
    → 0 < n
    → route_index sha256 ledger_id subject n < n
unfolding route_index
route_index-lt sha256 ledger_id subject n h = mod-lt _ h

-- A route lies within the policy's shards, and carries the name of its index.
pub route_event-range :
    (sha256 : Bytes → Bytes) (ledger_id subject : Text) (policy : RoutingPolicy) (route : Route)
    → route_event sha256 ledger_id subject policy ≡ ok route
    → (route.index < policy.shard_count) × (route.shard ≡ shard_id route.index)
unfolding route_event
route_event-range sha256 ledger_id subject policy route h =
    let (known, after) =
      invariant-eq-ok (equals policy.id routing_policy_id && policy.version == 1) _ _ h in
    let (some_shard, whole) = invariant-eq-ok (leb 1 policy.shard_count) _ _ after in
    let positive : 0 < policy.shard_count = leb→le 1 policy.shard_count some_shard in
    let within = route_index-lt sha256 ledger_id subject policy.shard_count positive in
    subst (λ (r : Route). (r.index < policy.shard_count) × (r.shard ≡ shard_id r.index))
      (ok-injective _ route whole) (within, refl)
