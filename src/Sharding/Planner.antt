-- ===== src/Sharding/Planner.antt =====
-- src/shard-planner.js: the assignment of subjects to shards before a topology is chosen. `is_nfc` is
-- the test of `value.normalize("NFC")`, and `sha256` the hash of the route.
use glare9_provenance.Prelude.{
  ℕ, suc, ◌+◌, ◌-◌, Bytes, Bool, not, [], ◌∷◌, ◌++◌, List, leb, ◌==◌, if◌then◌else◌, length, none,
  some, Result, ok, ◌>>=◌, ◌>>◌, invariant, ◌≡◌, refl, sym, ap, ◌∙◌, >>=-eq-ok, invariant-eq-ok,
  ok-injective, Option-cases, inl, inr, arith,
}
use glare9_provenance.Prelude.Dict.{Dict, get, set, values, total, total-set}
use glare9_provenance.Codec.Utf8.{Text}
use glare9_provenance.Codec.Value.{ℤ, pos, negsuc}
use glare9_provenance.Sharding.{RoutingPolicy, create_routing_policy, route_event}

pub record Assignment : Type 0 where
  pub input_index : ℕ
  pub subject : Text
  pub shard_index : ℕ
  pub shard : Text

-- An entry of the distribution.
pub record Group : Type 0 where
  pub shard_index : ℕ
  pub shard : Text
  pub subject_count : ℕ
  pub subjects : List Text

pub record Plan : Type 0 where
  pub ledger_id : Text
  pub policy : RoutingPolicy
  pub subject_count : ℕ
  pub populated_shard_count : ℕ
  pub empty_shard_count : ℤ
  pub assignments : List Assignment
  pub distribution : List Group

abbrev minus : ℕ → ℕ → ℤ
minus a b = if leb b a then pos (a - b) else negsuc (b - a - 1)

abbrev first_of : Assignment → Group
first_of a = record {
  shard_index = a.shard_index;
  shard = a.shard;
  subject_count = 1;
  subjects = a.subject ∷ [];
}

abbrev grown : Group → Assignment → Group
grown g a = record g {
  subject_count = g.subject_count + 1;
  subjects = g.subjects ++ a.subject ∷ [];
}

-- One round of the loop over the assignments.
unfoldable pub add_assignment : Assignment → Dict Group → Dict Group
add_assignment a groups = elim (get a.shard groups) [
  | none ↦ set a.shard (first_of a) groups
  | some g ↦ set a.shard (grown g a) groups
]

unfoldable pub group_assignments : List Assignment → Dict Group → Dict Group
group_assignments [] groups = groups
group_assignments (a ∷ as') groups = group_assignments as' (add_assignment a groups)

-- .sort((left, right) => left.shardIndex - right.shardIndex)
unfoldable pub insert_group : Group → List Group → List Group
insert_group g [] = g ∷ []
insert_group g (h ∷ hs) =
    let rest = insert_group g hs in if leb g.shard_index h.shard_index then g ∷ h ∷ hs else h ∷ rest

unfoldable pub sort_groups : List Group → List Group
sort_groups [] = []
sort_groups (g ∷ gs) = insert_group g (sort_groups gs)

unfoldable pub count_subjects : List Group → ℕ
count_subjects [] = 0
count_subjects (g ∷ gs) = g.subject_count + count_subjects gs

module _ (is_nfc : Text → Bool) (sha256 : Bytes → Bytes) where
  unfoldable pub non_empty_text : Text → Result (Unit {0})
  non_empty_text value =
      invariant (not (length value == 0)) "SHARD_PLAN_INPUT"
      >> invariant (is_nfc value) "SHARD_PLAN_INPUT"

  -- subjects.map(...), from an index on
  unfoldable pub assign_subjects : Text → RoutingPolicy → ℕ → List Text → Result (List Assignment)
  assign_subjects ledger_id policy index [] = ok []
  assign_subjects ledger_id policy index (subject ∷ subjects) = do
    non_empty_text subject
    route ← route_event sha256 ledger_id subject policy
    rest ← assign_subjects ledger_id policy (suc index) subjects
    ok (
        record {
          input_index = index;
          subject = subject;
          shard_index = route.index;
          shard = route.shard;
        }
        ∷ rest)

  -- planShardAssignments({ ledgerId, shardCount, subjects })
  unfoldable pub plan_shard_assignments : Text → ℕ → List Text → Result Plan
  plan_shard_assignments ledger_id shard_count subjects = do
    non_empty_text ledger_id
    invariant (not (length subjects == 0)) "SHARD_PLAN_INPUT"
    policy ← create_routing_policy shard_count
    assignments ← assign_subjects ledger_id policy 0 subjects
    let distribution = sort_groups (values (group_assignments assignments []))
    ok (record {
      ledger_id = ledger_id;
      policy = policy;
      subject_count = length assignments;
      populated_shard_count = length distribution;
      empty_shard_count = minus policy.shard_count (length distribution);
      assignments = assignments;
      distribution = distribution;
    })

total-add_assignment :
    (a : Assignment) (groups : Dict Group)
    → total (λ g. g.subject_count) (add_assignment a groups)
      ≡ suc (total (λ g. g.subject_count) groups)
unfolding add_assignment
total-add_assignment a groups = elim (Option-cases (get a.shard groups)) [
  | inl e ↦
      rw (e, add_assignment)
        (let t = rw e at (total-set (λ g. g.subject_count) a.shard (first_of a) groups) in
          omega (arith, t))
  | inr (g, e) ↦
      rw (e, add_assignment)
        (let t = rw e at (total-set (λ h. h.subject_count) a.shard (grown g a) groups) in
          omega (arith, t))
]

total-group_assignments :
    (as' : List Assignment) (groups : Dict Group)
    → total (λ g. g.subject_count) (group_assignments as' groups)
      ≡ total (λ g. g.subject_count) groups + length as'
unfolding group_assignments
total-group_assignments [] groups = omega arith
total-group_assignments (a ∷ as') groups =
    omega
      (arith, total-group_assignments as' (add_assignment a groups), total-add_assignment a groups)

count_subjects-values :
    (groups : Dict Group) → count_subjects (values groups) ≡ total (λ g. g.subject_count) groups
unfolding count_subjects values total
count_subjects-values [] = refl
count_subjects-values ((k, g) ∷ groups) =
    ap (λ n. g.subject_count + n) (count_subjects-values groups)

count_subjects-insert_group :
    (g : Group) (gs : List Group)
    → count_subjects (insert_group g gs) ≡ g.subject_count + count_subjects gs
unfolding count_subjects insert_group
count_subjects-insert_group g [] = refl
count_subjects-insert_group g (h ∷ hs) = ground (arith, count_subjects-insert_group g hs)

count_subjects-sort_groups : (gs : List Group) → count_subjects (sort_groups gs) ≡ count_subjects gs
unfolding count_subjects sort_groups
count_subjects-sort_groups [] = refl
count_subjects-sort_groups (g ∷ gs) =
    count_subjects-insert_group g (sort_groups gs)
    ∙ ap (λ n. g.subject_count + n) (count_subjects-sort_groups gs)

count_subjects-distribution :
    (as' : List Assignment)
    → count_subjects (sort_groups (values (group_assignments as' []))) ≡ length as'
unfolding total
count_subjects-distribution as' = omega (
  arith,
  count_subjects-sort_groups (values (group_assignments as' [])),
  count_subjects-values (group_assignments as' []),
  total-group_assignments as' [],
)

module _ (is_nfc : Text → Bool) (sha256 : Bytes → Bytes) where
  length-assign_subjects :
      (ledger_id : Text) (policy : RoutingPolicy) (index : ℕ) (subjects : List Text)
      (as' : List Assignment)
      → assign_subjects is_nfc sha256 ledger_id policy index subjects ≡ ok as'
      → length as' ≡ length subjects
  unfolding assign_subjects
  length-assign_subjects ledger_id policy index [] as' h = sym (ap length (ok-injective [] as' h))
  length-assign_subjects ledger_id policy index (subject ∷ subjects) as' h =
      let (_, _, h1) = >>=-eq-ok (non_empty_text is_nfc sha256 subject) _ h in
      let (route, _, h2) = >>=-eq-ok (route_event sha256 ledger_id subject policy) _ h1 in
      let (others, rest, h3) =
        >>=-eq-ok (assign_subjects is_nfc sha256 ledger_id policy (suc index) subjects) _ h2 in
      sym (ap length (ok-injective _ as' h3))
      ∙ ap suc (length-assign_subjects ledger_id policy (suc index) subjects others rest)

  -- A plan counts every subject, and the counts of its shards add up to the same number.
  pub plan_shard_assignments-count_subjects :
      (ledger_id : Text) (shard_count : ℕ) (subjects : List Text) (plan : Plan)
      → plan_shard_assignments is_nfc sha256 ledger_id shard_count subjects ≡ ok plan
      → (plan.subject_count ≡ length subjects)
        × (count_subjects plan.distribution ≡ length subjects)
  unfolding plan_shard_assignments
  plan_shard_assignments-count_subjects ledger_id shard_count subjects plan h =
      let (_, _, h1) = >>=-eq-ok (non_empty_text is_nfc sha256 ledger_id) _ h in
      let (_, h2) = invariant-eq-ok (not (length subjects == 0)) _ _ h1 in
      let (policy, _, h3) = >>=-eq-ok (create_routing_policy shard_count) _ h2 in
      let (as', assigned, h4) =
        >>=-eq-ok (assign_subjects is_nfc sha256 ledger_id policy 0 subjects) _ h3 in
      let e = sym (ok-injective _ plan h4) in
      let many = length-assign_subjects ledger_id policy 0 subjects as' assigned in
      (
        ap (λ p. p.subject_count) e ∙ many,
        ap (λ p. count_subjects p.distribution) e ∙ count_subjects-distribution as' ∙ many,
      )
