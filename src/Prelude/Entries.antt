-- ===== src/Prelude/Entries.antt =====
-- What holds of every entry of a map, with its key.
use mathlib.Core.Path.{◌≡◌, refl, sym, subst}
use mathlib.Core.Bool.{true, false}
use mathlib.Core.List.{[], ◌∷◌}
use mathlib.Core.Option.{some}
use glare9_provenance.Prelude.Tests.{if◌then◌else◌}
use glare9_provenance.Prelude.Octets.{equals, equals→eq}
use glare9_provenance.Prelude.Dict.{Key, Dict, get, set, delete}

module _ {ℓ κ} {V : Type ℓ} (P : Key → V → Type κ) where
  abbrev pub Entries : Dict V → Type κ
  Entries [] = Unit
  Entries ((k, v) ∷ d) = P k v × Entries d

  pub Entries-get : (k : Key) (v : V) (d : Dict V) → Entries d → get k d ≡ some v → P k v
  unfolding get
  Entries-get k v [] h e = cc
  Entries-get k v ((j, w) ∷ d) (p, h) e =
      elim (equals j k)
          as (λ b. (b ≡ equals j k) → (if b then some w else get k d) ≡ some v → P k v) [
            | true ↦ λ same found.
                (let e' : w ≡ v = cc in
                  subst (λ i. P i v) (equals→eq j k (sym same)) (subst (P j) e' p))
            | false ↦ λ _ found. Entries-get k v d h found
          ]
        refl e

  pub Entries-set : (k : Key) (v : V) (d : Dict V) → Entries d → P k v → Entries (set k v d)
  unfolding set
  Entries-set k v [] h p = (p, tt)
  Entries-set k v ((j, w) ∷ d) (q, h) p =
      elim (equals j k)
          as (λ b. (b ≡ equals j k) → Entries (if b then (j, v) ∷ d else (j, w) ∷ set k v d)) [
            | true ↦ λ same. (subst (λ i. P i v) (sym (equals→eq j k (sym same))) p, h)
            | false ↦ λ _. (q, Entries-set k v d h p)
          ]
        refl

  pub Entries-delete : (k : Key) (d : Dict V) → Entries d → Entries (delete k d)
  unfolding delete
  Entries-delete k [] h = tt
  Entries-delete k ((j, w) ∷ d) (q, h) =
      elim (equals j k) as (λ b. Entries (if b then d else (j, w) ∷ delete k d)) [
        | true ↦ h
        | false ↦ (q, Entries-delete k d h)
      ]
