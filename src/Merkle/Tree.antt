-- ===== src/Merkle/Tree.antt =====
-- The tree whose hash is the root: its leaves, from left to right, are the record hashes.
use glare9_provenance.Prelude.{
  ℕ, zero, suc, ◌≤◌, ◌<◌, Bytes, [], ◌∷◌, ◌++◌, List, map, length, append_assoc, append-nil, ◌≡◌,
  refl, ap, ap₂, ◌∙◌, arith, sym,
}
use glare9_provenance.Merkle.{join_level, join_levels}

pub data Tree : Type 0 where
  leaf : Bytes → Tree
  node : Tree → Tree → Tree

unfoldable pub leaves : Tree → List Bytes
leaves (leaf hash) = hash ∷ []
leaves (node l r) = leaves l ++ leaves r

pub all_leaves : List Tree → List Bytes
all_leaves [] = []
all_leaves (t ∷ ts) = leaves t ++ all_leaves ts

pub all_leaves-leaf : (hashes : List Bytes) → all_leaves (map leaf hashes) ≡ hashes
unfolding leaves all_leaves
all_leaves-leaf [] = refl
all_leaves-leaf (h ∷ hs) = ap (◌∷◌ h) (all_leaves-leaf hs)

all_leaves-join_level : (ts : List Tree) → all_leaves (join_level node ts) ≡ all_leaves ts
unfolding all_leaves leaves join_level
all_leaves-join_level [] = refl
all_leaves-join_level (a ∷ []) = refl
all_leaves-join_level (a ∷ b ∷ rest) = simp (append_assoc, all_leaves-join_level rest)

length-join_level {ℓ} :
    {A : Type ℓ} (join : A → A → A) (xs : List A) → length (join_level join xs) ≤ length xs
unfolding join_level
length-join_level join [] = omega arith
length-join_level join (a ∷ []) = omega arith
length-join_level join (a ∷ b ∷ rest) = omega (arith, length-join_level join rest)

length-join_level_shorter {ℓ} :
    {A : Type ℓ} (join : A → A → A) (a b : A) (rest : List A)
    → (0 < length (join_level join (a ∷ b ∷ rest)))
      × (length (join_level join (a ∷ b ∷ rest)) < length (a ∷ b ∷ rest))
unfolding join_level
length-join_level_shorter join a b rest = (omega arith, omega (arith, length-join_level join rest))

pub leaves-join_levels :
    (ts : List Tree) (rounds : ℕ) (default : Tree)
    → 0 < length ts
    → length ts ≤ rounds
    → leaves (join_levels node rounds default ts) ≡ all_leaves ts
unfolding join_levels all_leaves
leaves-join_levels [] rounds default nonempty enough = absurd (omega arith)
leaves-join_levels (a ∷ []) rounds default nonempty enough = sym (append-nil (leaves a))
leaves-join_levels (a ∷ b ∷ rest) zero default nonempty enough = absurd (omega arith)
leaves-join_levels (a ∷ b ∷ rest) (suc rounds) default nonempty enough =
    let shorter = length-join_level_shorter node a b rest in
    leaves-join_levels (join_level node (a ∷ b ∷ rest)) rounds default (shorter.0) (omega arith)
    ∙ all_leaves-join_level (a ∷ b ∷ rest)

map-join_level {ℓ κ} :
    {A : Type ℓ} {B : Type κ} (f : A → B) (join : A → A → A) (join' : B → B → B)
    → ((a b : A) → f (join a b) ≡ join' (f a) (f b))
    → (xs : List A) → join_level join' (map f xs) ≡ map f (join_level join xs)
unfolding join_level
map-join_level f join join' commutes [] = refl
map-join_level f join join' commutes (a ∷ []) = refl
map-join_level f join join' commutes (a ∷ b ∷ rest) =
    ap₂ ◌∷◌ (sym (commutes a b)) (map-join_level f join join' commutes rest)

-- The loop commutes with a map that turns one way to join into the other.
pub map-join_levels {ℓ κ} :
    {A : Type ℓ} {B : Type κ} (f : A → B) (join : A → A → A) (join' : B → B → B)
    → ((a b : A) → f (join a b) ≡ join' (f a) (f b))
    → (rounds : ℕ) (default : A) (xs : List A)
    → join_levels join' rounds (f default) (map f xs) ≡ f (join_levels join rounds default xs)
unfolding join_levels
map-join_levels f join join' commutes rounds default [] = refl
map-join_levels f join join' commutes rounds default (a ∷ []) = refl
map-join_levels f join join' commutes zero default (a ∷ b ∷ rest) = refl
map-join_levels f join join' commutes (suc rounds) default (a ∷ b ∷ rest) =
    ap (join_levels join' rounds (f default)) (map-join_level f join join' commutes (a ∷ b ∷ rest))
    ∙ map-join_levels f join join' commutes rounds default (join_level join (a ∷ b ∷ rest))
