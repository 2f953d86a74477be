-- ===== src/Merkle.antt =====
-- src/merkle.js: the root over the hashes of a segment's records. A level's odd last node is passed
-- up unchanged.
pub mod Tree
pub mod Binding
use glare9_provenance.Prelude.{
  ℕ, zero, suc, Bytes, Bool, true, false, ◌&&◌, [], ◌∷◌, List, map, ◌==◌, length, Result, ok, err,
  ◌>>=◌, ◌>>◌, fail, invariant,
}
use glare9_provenance.Crypto.{codes, digest}

abbrev pub empty_domain : Bytes
empty_domain = codes "merkle-empty-v1"

abbrev pub leaf_domain : Bytes
leaf_domain = codes "merkle-leaf-v1"

abbrev pub node_domain : Bytes
node_domain = codes "merkle-node-v1"

-- One round of the while loop: neighbours are joined.
unfoldable pub join_level {ℓ} : {A : Type ℓ} → (A → A → A) → List A → List A
join_level node [] = []
join_level node (a ∷ []) = a ∷ []
join_level node (a ∷ b ∷ rest) = node a b ∷ join_level node rest

-- `while (level.length > 1)`. A round makes the level shorter, so as many rounds as the level has
-- nodes are enough. The default is for an empty level, which does not occur.
unfoldable pub join_levels {ℓ} : {A : Type ℓ} → (A → A → A) → ℕ → A → List A → A
join_levels node rounds default [] = default
join_levels node rounds default (a ∷ []) = a
join_levels node zero default (a ∷ b ∷ rest) = a
join_levels node (suc rounds) default (a ∷ b ∷ rest) =
    join_levels node rounds default (join_level node (a ∷ b ∷ rest))

are_hashes : List Bytes → Bool
are_hashes [] = true
are_hashes (hash ∷ hashes) = length hash == 32 && are_hashes hashes

module _ (sha256 : Bytes → Bytes) where
  unfoldable pub leaf_hash : Bytes → Bytes
  leaf_hash hash = digest sha256 leaf_domain (hash ∷ [])

  unfoldable pub node_hash : Bytes → Bytes → Bytes
  node_hash left right = digest sha256 node_domain (left ∷ right ∷ [])

  -- merkleRoot(recordHashes)
  unfoldable pub merkle_root : List Bytes → Result Bytes
  unfolding are_hashes
  merkle_root [] = ok (digest sha256 empty_domain [])
  merkle_root (hash ∷ hashes) =
      invariant (are_hashes (hash ∷ hashes)) "MERKLE_HASH"
      >> ok (
          join_levels node_hash (length (hash ∷ hashes)) (leaf_hash hash)
            (map leaf_hash (hash ∷ hashes)))
