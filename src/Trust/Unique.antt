-- ===== src/Trust/Unique.antt =====
-- A position in a valid trust bundle of src/signer-trust.js is covered by one binding at most.
use Prim.Native.Nat.{compare, Ordering}
use glare9_provenance.Prelude.{
  ℕ, zero, suc, Bool, true, false, ◌&&◌, ◌||◌, not, [], ◌∷◌, List, All, get_elem?, leb, Option,
  none, some, Bool-cases, ok, ◌>>◌, >>=-eq-ok, invariant, invariant-eq-ok, ◌≡◌, refl, sym, ap, ◌∙◌,
  subst, arith, inl, inr,
}
use glare9_provenance.Prelude.Octets.{equals_iff}
use glare9_provenance.Codec.Utf8.{Text}
use glare9_provenance.Sharding.{is_shard_id}
use glare9_provenance.Ledger.Lookup.{is_hash_text}
use glare9_provenance.Trust.{
  or_else, Binding, Position, reaches, ends_before, same_stream, check_binding, check_bindings,
  is_lt, position_compare, check_order, validate_segment_trust_bundle, covers, find_binding, decide,
  evaluate_segment_trust,
}
use glare9_provenance.Trust.Orders.{
  IsConsistent, compare-IsConsistent, NotGt, lex, lex-IsConsistent, lex-between,
}

is_lt-eq_true : (c : Ordering) → is_lt c ≡ true → c ≡ Ordering.lt
is_lt-eq_true Ordering.lt h = refl
is_lt-eq_true Ordering.eq h = cc
is_lt-eq_true Ordering.gt h = cc

-- The bindings are of one stream.
abbrev SameStream : Binding → Binding → Type 0
SameStream a b =
    (a.ledger_id ≡ b.ledger_id) × (a.epoch_number ≡ b.epoch_number) × (a.shard_id ≡ b.shard_id)

SameStream-same_stream : (a b : Binding) → SameStream a b → same_stream a b ≡ true
SameStream-same_stream a b (l, e, s) =
    ground (arith, l, e, s, equals_iff a.ledger_id b.ledger_id, equals_iff a.shard_id b.shard_id)

covers-stream :
    (p : Position) (b : Binding)
    → covers p b ≡ true
    → (b.ledger_id ≡ p.ledger_id) × (b.epoch_number ≡ p.epoch_number) × (b.shard_id ≡ p.shard_id)
unfolding covers
covers-stream p b h = (
  ground (arith, equals_iff b.ledger_id p.ledger_id, equals_iff b.shard_id p.shard_id),
  ground (arith, equals_iff b.ledger_id p.ledger_id, equals_iff b.shard_id p.shard_id),
  ground (arith, equals_iff b.ledger_id p.ledger_id, equals_iff b.shard_id p.shard_id),
)

covers-range :
    (p : Position) (b : Binding)
    → covers p b ≡ true
    → (leb b.first_segment_number p.segment_number ≡ true)
      × (reaches b.last_segment_number p.segment_number ≡ true)
unfolding covers
covers-range p b h = (ground arith, ground arith)

-- A binding that ends before another does not reach what the other covers.
ends_before-reaches :
    (last : Option ℕ) (first number : ℕ)
    → ends_before last first ≡ true
    → reaches last number ≡ true
    → leb first number ≡ false
ends_before-reaches none first number h k = cc
ends_before-reaches (some last) first number h k = ground arith

ends_before_trans :
    (last last' : Option ℕ) (first first' : ℕ)
    → ends_before last first ≡ true
    → reaches last' first ≡ true
    → ends_before last' first' ≡ true
    → ends_before last first' ≡ true
ends_before_trans none last' first first' h r k = cc
ends_before_trans (some last) none first first' h r k = cc
ends_before_trans (some last) (some last') first first' h r k = ground arith

abbrev InRange : Binding → Type 0
InRange b = reaches b.last_segment_number b.first_segment_number ≡ true

check_bindings-InRange :
    (bs : List Binding) (u : Unit {0}) → check_bindings bs ≡ ok u → All InRange bs
unfolding check_bindings check_binding
check_bindings-InRange [] u h = tt
check_bindings-InRange (b ∷ bs) u h =
    let (v, first, rest) = >>=-eq-ok (check_binding b) (λ _. check_bindings bs) h in
    let (_, h1) = invariant-eq-ok _ "TRUST_BINDING_LEDGER" _ first in
    let (_, h2) = invariant-eq-ok _ "TRUST_BINDING_STREAM" _ h1 in
    let (range, _) = invariant-eq-ok _ "TRUST_BINDING_RANGE" _ h2 in
    (range, check_bindings-InRange bs u rest)

or-second : (x y : Bool) → x ≡ true → (not x || y) ≡ true → y ≡ true
or-second x y h k = ground arith

module _ (locale_compare : Text → Text → Ordering) where
  -- Texts of the two that compare as equal are equal.
  pub record Distinguished (a b : Binding) : Type 0 where
    pub ledgers : locale_compare a.ledger_id b.ledger_id ≡ Ordering.eq → a.ledger_id ≡ b.ledger_id
    pub shards : locale_compare a.shard_id b.shard_id ≡ Ordering.eq → a.shard_id ≡ b.shard_id

  -- Each is distinguished from the later ones.
  abbrev pub AllDistinguished : List Binding → Type 0
  AllDistinguished [] = Unit
  AllDistinguished (b ∷ bs) = All (Distinguished b) bs × AllDistinguished bs

module _ (locale_compare : Text → Text → Ordering) (order : IsConsistent locale_compare) where
  abbrev Precedes : Binding → Binding → Type 0
  Precedes a b = position_compare locale_compare a b ≡ Ordering.lt

  abbrev tail_compare : ℕ × (Text × ℕ) → ℕ × (Text × ℕ) → Ordering
  tail_compare = lex compare (lex locale_compare compare)

  Precedes-trans : (a b c : Binding) → Precedes a b → Precedes b c → Precedes a c
  unfolding position_compare
  Precedes-trans a b c h k =
      (lex-IsConsistent locale_compare tail_compare order (
          lex-IsConsistent compare (lex locale_compare compare) compare-IsConsistent
            (lex-IsConsistent locale_compare compare order compare-IsConsistent))).trans
        (a.ledger_id, (a.epoch_number, (a.shard_id, a.first_segment_number)))
        (b.ledger_id, (b.epoch_number, (b.shard_id, b.first_segment_number)))
        (c.ledger_id, (c.epoch_number, (c.shard_id, c.first_segment_number)))
        (subst NotGt (sym h) tt) (subst NotGt (sym k) tt)
      ∙ ap (λ o. or_else o (position_compare locale_compare b c)) h

  -- What stands between two bindings of a stream is of the stream.
  between-SameStream :
      (a c b : Binding)
      → Distinguished locale_compare a c
      → SameStream a b
      → Precedes a c
      → Precedes c b
      → SameStream a c
  unfolding position_compare
  between-SameStream a c b apart (l, e, s) h k =
      let (l', _, h2, k2) =
        lex-between locale_compare tail_compare a.ledger_id c.ledger_id b.ledger_id
          (a.epoch_number, (a.shard_id, a.first_segment_number))
          (c.epoch_number, (c.shard_id, c.first_segment_number))
          (b.epoch_number, (b.shard_id, b.first_segment_number)) order
          (compared-self a.ledger_id b.ledger_id l) h k in
      let (e', _, h4, k4) =
        lex-between compare (lex locale_compare compare) a.epoch_number c.epoch_number
          b.epoch_number (a.shard_id, a.first_segment_number) (c.shard_id, c.first_segment_number)
          (b.shard_id, b.first_segment_number) compare-IsConsistent (ground (arith, e)) h2 k2 in
      let (s', _, _, _) =
        lex-between locale_compare compare a.shard_id c.shard_id b.shard_id a.first_segment_number
          c.first_segment_number b.first_segment_number order
          (compared-self a.shard_id b.shard_id s) h4 k4 in
      (apart.ledgers l', ground (arith, e'), apart.shards s')
    where
      compared-self : (x y : Text) → x ≡ y → locale_compare x y ≡ Ordering.eq
      compared-self x y same = subst (λ z. locale_compare x z ≡ Ordering.eq) same (order.self x)

  check_order-head :
      (a c : Binding) (rest : List Binding) (u : Unit {0})
      → check_order locale_compare a (c ∷ rest) ≡ ok u
      → Precedes a c
        × ((not (same_stream a c) || ends_before a.last_segment_number c.first_segment_number)
            ≡ true)
        × (check_order locale_compare c rest ≡ ok u)
  unfolding check_order
  check_order-head a c rest u h =
      let (less, h1) = invariant-eq-ok _ "TRUST_BINDING_ORDER" _ h in
      let (apart, h2) = invariant-eq-ok _ "TRUST_BINDING_OVERLAP" _ h1 in
      (is_lt-eq_true _ less, apart, h2)

  check_order-Precedes :
      (a : Binding) (rest : List Binding) (u : Unit {0}) (n : ℕ) (b : Binding)
      → check_order locale_compare a rest ≡ ok u
      → get_elem? rest n ≡ some b
      → Precedes a b
  check_order-Precedes a [] u n b h e = cc
  check_order-Precedes a (c ∷ rest) u zero b h e =
      let same : c ≡ b = cc in subst (Precedes a) same (check_order-head a c rest u h).0
  check_order-Precedes a (c ∷ rest) u (suc n) b h e =
      let (less, _, h') = check_order-head a c rest u h in
      Precedes-trans a c b less (check_order-Precedes c rest u n b h' e)

  -- A binding ends before the later ones of its stream.
  separated :
      (a : Binding) (rest : List Binding) (u : Unit {0}) (n : ℕ) (b : Binding)
      → check_order locale_compare a rest ≡ ok u
      → All InRange rest
      → AllDistinguished locale_compare (a ∷ rest)
      → get_elem? rest n ≡ some b
      → SameStream a b
      → ends_before a.last_segment_number b.first_segment_number ≡ true
  separated a [] u n b h r d e same = cc
  separated a (c ∷ rest) u zero b h r d e same =
      let c-b : c ≡ b = cc in
      let (_, apart, _) = check_order-head a c rest u h in
      let same' : SameStream a c = subst (SameStream a) (sym c-b) same in
      subst (λ x. ends_before a.last_segment_number x.first_segment_number ≡ true) c-b
        (or-second _ _ (SameStream-same_stream a c same') apart)
  separated a (c ∷ rest) u (suc n) b h (range, r) ((apart_c, _), ds) e (l, ep, s) =
      let (less, apart, h') = check_order-head a c rest u h in
      let (l', ep', s') =
        between-SameStream a c b apart_c (l, ep, s) less (check_order-Precedes c rest u n b h' e) in
      ends_before_trans a.last_segment_number c.last_segment_number c.first_segment_number
        b.first_segment_number (or-second _ _ (SameStream-same_stream a c (l', ep', s')) apart)
        range (separated c rest u n b h' r ds e (sym l' ∙ l, sym ep' ∙ ep, sym s' ∙ s))

  find_binding-eq_some :
      (p : Position) (a : Binding) (rest : List Binding) (u : Unit {0}) (n : ℕ) (b : Binding)
      → check_order locale_compare a rest ≡ ok u
      → All InRange rest
      → AllDistinguished locale_compare (a ∷ rest)
      → get_elem? (a ∷ rest) n ≡ some b
      → covers p b ≡ true
      → find_binding p (a ∷ rest) ≡ some b
  unfolding find_binding
  find_binding-eq_some p a rest u zero b h r ds e c =
      let same : a ≡ b = cc in
      let covered : covers p a ≡ true = subst (λ x. covers p x ≡ true) (sym same) c in
      rw (covered, find_binding) (ap some same)
  find_binding-eq_some p a [] u (suc n) b h r ds e c = cc
  find_binding-eq_some p a (d ∷ rest) u (suc n) b h r ds e c = elim (Bool-cases (covers p a)) [
    | inl covered ↦
        (let (l, ep, s) = covers-stream p a covered in
          let (l', ep', s') = covers-stream p b c in
          let ends = separated a (d ∷ rest) u n b h r ds e (l ∙ sym l', ep ∙ sym ep', s ∙ sym s') in
          let late =
            ends_before-reaches a.last_segment_number b.first_segment_number p.segment_number ends
              (covers-range p a covered).1 in
          let no : true ≡ false = sym (covers-range p b c).0 ∙ late in cc)
    | inr e' ↦
        rw (e', find_binding)
          (find_binding-eq_some p d rest u n b (check_order-head a d rest u h).2 r.1 ds.1 e c)
  ]

  -- In a valid trust bundle no two bindings cover one position: whichever binding is found to cover it,
  -- the decision is the one by that binding. It is assumed that the comparison of text is consistent,
  -- and that the ledger IDs of the bundle that it compares as equal are equal, and the shard IDs
  -- too.
  pub evaluate_segment_trust-covers :
      (bundle_id : Text) (bindings : List Binding) (u : Unit {0}) (n : ℕ) (b : Binding)
      (p : Position)
      → AllDistinguished locale_compare bindings
      → validate_segment_trust_bundle locale_compare bundle_id bindings ≡ ok u
      → get_elem? bindings n ≡ some b
      → covers p b ≡ true
      → evaluate_segment_trust bindings p ≡ (
          invariant (is_shard_id p.shard_id && is_hash_text p.key_id) "TRUST_POSITION"
          >> ok (decide p.key_id (some b)))
  unfolding validate_segment_trust_bundle evaluate_segment_trust
  evaluate_segment_trust-covers bundle_id [] u n b p ds h e c = cc
  evaluate_segment_trust-covers bundle_id (first ∷ rest) u n b p ds h e c =
      let (_, h1) = invariant-eq-ok _ "TRUST_BUNDLE_ID" _ h in
      let (_, h2) = invariant-eq-ok _ "TRUST_BUNDLE_BINDINGS" _ h1 in
      let (v, checked, ordered) =
        >>=-eq-ok (check_bindings (first ∷ rest)) (λ _. check_order locale_compare first rest) h2 in
      let found =
        find_binding-eq_some p first rest u n b ordered
          (check_bindings-InRange (first ∷ rest) v checked).1 ds e c in
      rw (found, evaluate_segment_trust) refl
