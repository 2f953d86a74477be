-- ===== src/Trust/Orders.antt =====
-- Three-way comparisons that are consistent, and their lexicographic products.
use Prim.Native.Nat.{compare, Ordering}
use glare9_provenance.Prelude.{ℕ, ◌≡◌, refl, ap, subst, sym, ◌∙◌, arith, ◌⊎◌, inl, inr}
use glare9_provenance.Trust.{or_else}

Ordering-cases : (c : Ordering) → (c ≡ Ordering.lt) ⊎ ((c ≡ Ordering.eq) ⊎ (c ≡ Ordering.gt))
Ordering-cases Ordering.lt = inl refl
Ordering-cases Ordering.eq = inr (inl refl)
Ordering-cases Ordering.gt = inr (inr refl)

-- The first does not come after the second.
abbrev pub NotGt : Ordering → Type 0
NotGt Ordering.lt = Unit
NotGt Ordering.eq = Unit
NotGt Ordering.gt = ⊥

-- What Array.prototype.sort asks of a comparison, and what localeCompare is documented to be: an
-- element compares as equal to itself, and what does not come after comes before or is equal as its
-- parts say. Elements that compare as equal may be different.
pub record IsConsistent {A : Type 0} (cmp : A → A → Ordering) : Type 0 where
  pub self : (x : A) → cmp x x ≡ Ordering.eq
  pub trans :
      (x y z : A) → NotGt (cmp x y) → NotGt (cmp y z) → cmp x z ≡ or_else (cmp x y) (cmp y z)

compare_trans :
    (x y z : ℕ)
    → NotGt (compare x y)
    → NotGt (compare y z)
    → compare x z ≡ or_else (compare x y) (compare y z)
compare_trans x y z h k = elim (Ordering-cases (compare x y)) [
  | inl e ↦ elim (Ordering-cases (compare y z)) [
    | inl e' ↦ ground arith
    | inr (inl e') ↦ ground arith
    | inr (inr e') ↦ absurd (subst NotGt e' k)
  ]
  | inr (inl e) ↦ (let same : x ≡ y = ground arith in ground arith)
  | inr (inr e) ↦ absurd (subst NotGt e h)
]

pub compare-IsConsistent : IsConsistent compare
compare-IsConsistent = record { self = λ x. ground arith; trans = compare_trans }

-- The first part decides, and the second where the first is equal.
pub or_else_trans :
    (p q r s pq rs : Ordering)
    → (NotGt p → NotGt q → pq ≡ or_else p q)
    → (NotGt r → NotGt s → rs ≡ or_else r s)
    → NotGt (or_else p r)
    → NotGt (or_else q s)
    → or_else pq rs ≡ or_else (or_else p r) (or_else q s)
or_else_trans Ordering.lt Ordering.lt r s pq rs f g h k = ap (λ x. or_else x rs) (f tt tt)
or_else_trans Ordering.lt Ordering.eq r s pq rs f g h k = ap (λ x. or_else x rs) (f tt tt)
or_else_trans Ordering.lt Ordering.gt r s pq rs f g h k = absurd k
or_else_trans Ordering.eq Ordering.lt Ordering.lt s pq rs f g h k = ap (λ x. or_else x rs) (f tt tt)
or_else_trans Ordering.eq Ordering.lt Ordering.eq s pq rs f g h k = ap (λ x. or_else x rs) (f tt tt)
or_else_trans Ordering.eq Ordering.lt Ordering.gt s pq rs f g h k = absurd h
or_else_trans Ordering.eq Ordering.eq r s pq rs f g h k = ap (λ x. or_else x rs) (f tt tt) ∙ g h k
or_else_trans Ordering.eq Ordering.gt r s pq rs f g h k = absurd k
or_else_trans Ordering.gt q r s pq rs f g h k = absurd h

-- Between two elements that compare as equal, everything compares as equal to them.
or_else_between :
    (p q : Ordering)
    → NotGt p
    → NotGt q
    → Ordering.eq ≡ or_else p q
    → (p ≡ Ordering.eq) × (q ≡ Ordering.eq)
or_else_between Ordering.lt q h k e = cc
or_else_between Ordering.eq q h k e = (refl, sym e)
or_else_between Ordering.gt q h k e = absurd h

NotGt-or_else : (p q : Ordering) → NotGt (or_else p q) → NotGt p
NotGt-or_else Ordering.lt q h = tt
NotGt-or_else Ordering.eq q h = tt
NotGt-or_else Ordering.gt q h = h

module _ {A B : Type 0} (f : A → A → Ordering) (g : B → B → Ordering) where
  abbrev pub lex : A × B → A × B → Ordering
  lex (a, b) (a', b') = or_else (f a a') (g b b')

  pub lex-IsConsistent : IsConsistent f → IsConsistent g → IsConsistent lex
  lex-IsConsistent o p = record {
    self = λ (a, b). rw (o.self a) (p.self b);
    trans = λ (a, b) (a', b') (a'', b'') h k.
        or_else_trans (f a a') (f a' a'') (g b b') (g b' b'') (f a a'') (g b b'') (o.trans a a' a'')
          (p.trans b b' b'') h k;
  }

  -- Between two products whose first parts compare as equal, the first part compares as equal to
  -- both, and the second parts decide.
  pub lex-between :
      (a a' a'' : A) (b b' b'' : B)
      → IsConsistent f
      → f a a'' ≡ Ordering.eq
      → lex (a, b) (a', b') ≡ Ordering.lt
      → lex (a', b') (a'', b'') ≡ Ordering.lt
      → (f a a' ≡ Ordering.eq)
        × (f a' a'' ≡ Ordering.eq)
        × (g b b' ≡ Ordering.lt)
        × (g b' b'' ≡ Ordering.lt)
  lex-between a a' a'' b b' b'' o e h k =
      let first = NotGt-or_else (f a a') (g b b') (subst NotGt (sym h) tt) in
      let second = NotGt-or_else (f a' a'') (g b' b'') (subst NotGt (sym k) tt) in
      let (p, q) =
        or_else_between (f a a') (f a' a'') first second (sym e ∙ o.trans a a' a'' first second) in
      (p, q, rw p at h, rw q at k)
