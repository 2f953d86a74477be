-- ===== src/Attestation/Heads/Valid.antt =====
-- The shard heads that pass their checks: one for each shard, in order.
use glare9_provenance.Prelude.{
  ℕ, zero, suc, ◌+◌, ◌≤◌, Bytes, Bool, true, false, ◌&&◌, [], ◌∷◌, List, leb, ◌==◌, ==_iff, ==_refl,
  ◌≡◌, refl, length, Option, none, some, String, Result, ok, arith, leb→le, le→leb, >>=-eq-ok,
  invariant-eq-ok, ok-injective, Bool-cases, inl, inr, Option-cases, subst, ap,
}
use glare9_provenance.Prelude.Octets.{equals, equals→eq, equals_refl}
use glare9_provenance.Codec.Value.{
  pos, negsuc, integer, double, Value, Items, null, number, bytes, item, no_items, count_items,
  max_safe_integer,
}
use glare9_provenance.Sharding.{shard_id}
use glare9_provenance.Crypto.{codes}
use glare9_provenance.Attestation.Checks.{
  exact_fields, property, is_null, is_number, is_text, natural_of, bytes_of, require, require-eq-ok,
}
use glare9_provenance.Attestation.Heads.{
  Head, head_fields, last_segment_of, check_head, check_heads, head_value, head_items,
  segment_number_value, segment_hash_value,
}

-- A last segment has a safe number and a hash of 32 bytes.
abbrev pub LastIsValid : Option (ℕ × Bytes) → Type 0
LastIsValid none = Unit
LastIsValid (some (n, h)) = (n ≤ max_safe_integer) × (length h ≡ 32)

-- The heads of the shards from an index on, in an epoch.
abbrev pub HeadsFrom : ℕ → ℕ → List Head → Type 0
HeadsFrom epoch_number index [] = Unit
HeadsFrom epoch_number index (head ∷ heads) =
    ((head.epoch_number ≡ epoch_number)
      × (head.shard ≡ shard_id index)
      × LastIsValid head.last_segment)
    × HeadsFrom epoch_number (suc index) heads

pub bytes_of-size : (size : ℕ) (v : Value) (b : Bytes) → bytes_of size v ≡ some b → length b ≡ size
unfolding bytes_of
bytes_of-size size (bytes c) b h = ground arith
bytes_of-size size null b h = cc
bytes_of-size size _ b h = cc

pub bytes_of-same : (size : ℕ) (b c : Bytes) → bytes_of size (bytes b) ≡ some c → b ≡ c
unfolding bytes_of
bytes_of-same size b c h = ground arith

pub natural_of-le : (v : Value) (n : ℕ) → natural_of v ≡ some n → n ≤ max_safe_integer
unfolding natural_of
natural_of-le (number (integer (pos m))) n h = ground arith
natural_of-le (number (integer (negsuc m))) n h = cc
natural_of-le (number (double b)) n h = cc
natural_of-le null n h = cc
natural_of-le _ n h = cc

last_segment_of-LastIsValid :
    (a b : Value) (last : Option (ℕ × Bytes)) → last_segment_of a b ≡ some last → LastIsValid last
unfolding last_segment_of
last_segment_of-LastIsValid a b none h = tt
last_segment_of-LastIsValid a b (some (n, hash)) h = elim (Bool-cases (is_null a && is_null b)) [
  | inl empty ↦ absurd (cc (rw (empty, last_segment_of) at h))
  | inr full ↦ elim (Option-cases (natural_of a)) [
    | inl missing ↦ absurd (cc (rw (full, last_segment_of, missing) at h))
    | inr (m, counted) ↦ elim (Option-cases (bytes_of 32 b)) [
      | inl missing ↦ absurd (cc (rw (full, last_segment_of, counted, missing) at h))
      | inr (c, hashed) ↦
          (let e : ◌≡◌ {A = Option (Option (ℕ × Bytes))} (some (some (m, c)))
                (some (some (n, hash))) =
              rw (full, last_segment_of, counted, hashed) at h in
            let size = bytes_of-size 32 b c hashed in
            let small = natural_of-le a m counted in (ground arith, ground arith))
    ]
  ]
]

pub check_head-eq-ok :
    (object_code fields_code head_code : String) (epoch_number index : ℕ) (v : Value) (head : Head)
    → check_head object_code fields_code head_code epoch_number index v ≡ ok head
    → (head.epoch_number ≡ epoch_number)
      × (head.shard ≡ shard_id index)
      × LastIsValid head.last_segment
unfolding check_head
check_head-eq-ok oc fc hc e i v head h =
    let (fs, _, h1) = >>=-eq-ok (exact_fields oc fc head_fields v) _ h in
    let (_, h2) = invariant-eq-ok (is_number e (property (codes "epochNumber") fs)) _ _ h1 in
    let (_, h3) = invariant-eq-ok (is_text (shard_id i) (property (codes "shardId") fs)) _ _ h2 in
    let ends =
      last_segment_of (property (codes "segmentNumber") fs) (property (codes "segmentHash") fs) in
    let (last, required, h4) = >>=-eq-ok (require hc ends) _ h3 in
    let valid = last_segment_of-LastIsValid _ _ last (require-eq-ok hc ends last required) in
    let same = ok-injective _ _ h4 in
    (cc, cc, subst LastIsValid (ap (λ (r : Head). r.last_segment) same) valid)

pub check_heads-HeadsFrom :
    (object_code fields_code head_code : String) (epoch_number index : ℕ) (items : Items)
    (heads : List Head)
    → check_heads object_code fields_code head_code epoch_number index items ≡ ok heads
    → HeadsFrom epoch_number index heads × (length heads ≡ count_items items)
unfolding check_heads count_items
check_heads-HeadsFrom oc fc hc e i no_items [] h = (tt, refl)
check_heads-HeadsFrom oc fc hc e i no_items (head ∷ heads) h = cc
check_heads-HeadsFrom oc fc hc e i (item v vs) heads h =
    let (head, checked, h1) = >>=-eq-ok (check_head oc fc hc e i v) _ h in
    let (others, rest, h2) = >>=-eq-ok (check_heads oc fc hc e (suc i) vs) _ h1 in
    let (valid, counted) = check_heads-HeadsFrom oc fc hc e (suc i) vs others rest in
    let same = ok-injective _ _ h2 in
    let valid' = check_head-eq-ok oc fc hc e i v head checked in
    (subst (HeadsFrom e i) same (valid', valid), omega (arith, ap length same, counted))

pub natural_of-pos : (n : ℕ) → n ≤ max_safe_integer → natural_of (number (integer (pos n))) ≡ some n
unfolding natural_of
natural_of-pos n h = rw (le→leb _ _ h)

pub bytes_of-bytes : (size : ℕ) (b : Bytes) → length b ≡ size → bytes_of size (bytes b) ≡ some b
unfolding bytes_of
bytes_of-bytes size b h = rw (h, ==_refl size)

last_segment_of-value :
    (last : Option (ℕ × Bytes))
    → LastIsValid last
    → last_segment_of (segment_number_value last) (segment_hash_value last) ≡ some last
unfolding last_segment_of is_null
last_segment_of-value none valid = refl
last_segment_of-value (some (m, hash)) (small, size) =
    rw (last_segment_of, natural_of-pos m small, bytes_of-bytes 32 hash size)

abbrev pub head_at : ℕ → ℕ → Option (ℕ × Bytes) → Head
head_at epoch_number index last = record {
  epoch_number = epoch_number;
  shard = shard_id index;
  last_segment = last;
}

check_head-head_at :
    (object_code fields_code head_code : String) (epoch_number index : ℕ)
    (last : Option (ℕ × Bytes))
    → LastIsValid last
    → check_head object_code fields_code head_code epoch_number index
        (head_value (head_at epoch_number index last))
      ≡ ok (head_at epoch_number index last)
unfolding check_head head_value exact_fields property is_number is_text require equals
    glare9_provenance.Prelude.Octets.before
check_head-head_at oc fc hc e i last valid =
    rw (==_refl e, equals_refl (shard_id i), last_segment_of-value last valid)

check_head-head_value :
    (object_code fields_code head_code : String) (epoch_number index : ℕ) (head : Head)
    → (head.epoch_number ≡ epoch_number)
      × (head.shard ≡ shard_id index)
      × LastIsValid head.last_segment
    → check_head object_code fields_code head_code epoch_number index (head_value head) ≡ ok head
check_head-head_value oc fc hc e i head (counted, named, valid) =
    let same : head_at e i head.last_segment ≡ head = cc in
    subst (λ (h : Head). check_head oc fc hc e i (head_value h) ≡ ok h) same
      (check_head-head_at oc fc hc e i head.last_segment valid)

pub check_heads-head_items :
    (object_code fields_code head_code : String) (epoch_number index : ℕ) (heads : List Head)
    → HeadsFrom epoch_number index heads
    → check_heads object_code fields_code head_code epoch_number index (head_items heads) ≡ ok heads
unfolding check_heads head_items
check_heads-head_items oc fc hc e i [] h = refl
check_heads-head_items oc fc hc e i (head ∷ heads) (valid, rest) = rw (
  check_head-head_value oc fc hc e i head valid,
  check_heads-head_items oc fc hc e (suc i) heads rest,
)

pub count_items-head_items : (heads : List Head) → count_items (head_items heads) ≡ length heads
unfolding count_items head_items
count_items-head_items [] = refl
count_items-head_items (head ∷ heads) = ap suc (count_items-head_items heads)
