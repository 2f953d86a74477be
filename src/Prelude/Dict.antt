-- ===== src/Prelude/Dict.antt =====
-- JavaScript's Map with string keys: entries in the order of insertion, at most one for a key.
use mathlib.Core.Path.{◌≡◌, refl}
use mathlib.Core.Bool.{Bool, true, false}
use mathlib.Core.List.{List, [], ◌∷◌}
use mathlib.Core.Option.{Option, none, some}
use Prim.Native.Nat.{ℕ, suc, ◌+◌, ◌≤◌}
use native.Mathlib.Omega.{arith}
use glare9_provenance.Prelude.Tests.{if◌then◌else◌}
use glare9_provenance.Prelude.Lists.{length}
use glare9_provenance.Prelude.Octets.{equals, equals_iff}

-- A key, by its code points.
abbrev pub Key : Type 0
Key = List ℕ

abbrev pub Dict {ℓ} : Type ℓ → Type ℓ
Dict V = List (Key × V)

module _ {ℓ} {V : Type ℓ} where
  -- map.get(key)
  unfoldable pub get : Key → Dict V → Option V
  get k [] = none
  get k ((j, v) ∷ d) = if equals j k then some v else get k d

  -- map.has(key)
  unfoldable pub has : Key → Dict V → Bool
  has k [] = false
  has k ((j, v) ∷ d) = if equals j k then true else has k d

  -- map.set(key, value)
  unfoldable pub set : Key → V → Dict V → Dict V
  set k v [] = (k, v) ∷ []
  set k v ((j, w) ∷ d) = if equals j k then (j, v) ∷ d else (j, w) ∷ set k v d

  -- map.delete(key)
  unfoldable pub delete : Key → Dict V → Dict V
  delete k [] = []
  delete k ((j, w) ∷ d) = if equals j k then d else (j, w) ∷ delete k d

  -- [...map.values()]
  unfoldable pub values : Dict V → List V
  values [] = []
  values ((j, v) ∷ d) = v ∷ values d

  -- The sum of a number over the values.
  unfoldable pub total : (V → ℕ) → Dict V → ℕ
  total f [] = 0
  total f ((j, v) ∷ d) = f v + total f d

  abbrev pub weight : (V → ℕ) → Option V → ℕ
  weight f none = 0
  weight f (some v) = f v

module _ {ℓ} {V : Type ℓ} where
  pub has-get : (k : Key) (d : Dict V) → has k d ≡ true → (v : V) × (get k d ≡ some v)
  unfolding has get
  has-get k [] h = cc
  has-get k ((j, v) ∷ d) h =
      elim (equals j k)
          as (λ b.
            (if b then true else has k d) ≡ true
            → (w : V) × ((if b then some v else get k d) ≡ some w)) [
              | true ↦ λ _. (v, refl)
              | false ↦ λ h'. has-get k d h'
            ]
        h

  pub total-set :
      (f : V → ℕ) (k : Key) (v : V) (d : Dict V)
      → total f (set k v d) + weight f (get k d) ≡ total f d + f v
  unfolding total set get
  total-set f k v [] = omega arith
  total-set f k v ((j, w) ∷ d) = ground (arith, total-set f k v d)

  pub total-delete :
      (f : V → ℕ) (k : Key) (d : Dict V) → total f (delete k d) + weight f (get k d) ≡ total f d
  unfolding total delete get
  total-delete f k [] = omega arith
  total-delete f k ((j, w) ∷ d) = ground (arith, total-delete f k d)

  pub get-set :
      (k j : Key) (v : V) (d : Dict V)
      → get j (set k v d) ≡ (if equals k j then some v else get j d)
  unfolding get set
  get-set k j v [] = refl
  get-set k j v ((i, w) ∷ d) =
      ground (arith, equals_iff i k, equals_iff i j, equals_iff k j, get-set k j v d)

  pub length-set_new :
      (k : Key) (v : V) (d : Dict V) → get k d ≡ none → length (set k v d) ≡ suc (length d)
  unfolding get set
  length-set_new k v [] h = refl
  length-set_new k v ((j, w) ∷ d) h = ground (arith, length-set_new k v d)

  pub has-set :
      (k j : Key) (v : V) (d : Dict V) → has j (set k v d) ≡ (if equals k j then true else has j d)
  unfolding has set
  has-set k j v [] = refl
  has-set k j v ((i, w) ∷ d) =
      ground (arith, equals_iff i k, equals_iff i j, equals_iff k j, has-set k j v d)

  pub get-eq_none : (k : Key) (d : Dict V) → has k d ≡ false → get k d ≡ none
  unfolding get has
  get-eq_none k [] h = refl
  get-eq_none k ((j, v) ∷ d) h = ground (arith, get-eq_none k d)

  pub has-eq_false : (k : Key) (d : Dict V) → get k d ≡ none → has k d ≡ false
  unfolding get has
  has-eq_false k [] h = refl
  has-eq_false k ((j, v) ∷ d) h = ground (arith, has-eq_false k d)

  pub has-eq_true : (k : Key) (d : Dict V) (v : V) → get k d ≡ some v → has k d ≡ true
  unfolding get has
  has-eq_true k [] v h = cc
  has-eq_true k ((j, w) ∷ d) v h = ground (arith, has-eq_true k d v)

  pub length-delete-le : (k : Key) (d : Dict V) → length (delete k d) ≤ length d
  unfolding delete
  length-delete-le k [] = omega arith
  length-delete-le k ((j, w) ∷ d) = ground (arith, length-delete-le k d)
