-- ===== src/Examples/Hashes.antt =====
-- src/crypto.js and src/merkle.js with a toy hash.
use glare9_provenance.Prelude.{
  ℕ, zero, suc, ◌+◌, ◌%◌, ◌<◌, ◌^◌, Bytes, [], ◌∷◌, ◌++◌, List, ◌⊎◌, ◌≡◌, refl, length, Result, ok,
  arith, All,
}
use glare9_provenance.Crypto.{codes, Collision, digest, hash_message}
use glare9_provenance.Crypto.Injective.{digest-injective}
use glare9_provenance.Merkle.{leaf_hash, node_hash, merkle_root}
use glare9_provenance.Merkle.Binding.{merkle_root-injective}

abbrev sum : Bytes → ℕ
sum [] = 0
sum (b ∷ bs) = b + sum bs

abbrev filled : ℕ → ℕ → Bytes
filled zero b = []
filled (suc n) b = b ∷ filled n b

-- Thirty-two bytes that depend on the message.
abbrev pub toy_hash : Bytes → Bytes
toy_hash message = filled 32 (sum message % 256)

toy_length : (x : Bytes) → length (toy_hash x) ≡ 32
toy_length x = refl

abbrev two_hashes : List Bytes
two_hashes = filled 32 1 ∷ filled 32 2 ∷ []

abbrev two_root : Bytes
two_root = node_hash toy_hash (leaf_hash toy_hash (filled 32 1)) (leaf_hash toy_hash (filled 32 2))

two_hashes_root : merkle_root toy_hash two_hashes ≡ ok two_root
unfolding merkle_root node_hash glare9_provenance.Merkle.join_levels digest
    glare9_provenance.Merkle.join_level
two_hashes_root = refl

merkle_root-injective_example : (two_hashes ≡ two_hashes) ⊎ Collision toy_hash
merkle_root-injective_example =
    merkle_root-injective toy_hash toy_length two_hashes two_hashes two_root two_hashes_root
      two_hashes_root

abbrev one_part : ℕ → List Bytes
one_part b = (b ∷ []) ∷ []

same_digest : digest toy_hash (codes "a") (one_part 7) ≡ digest toy_hash (codes "b") (one_part 6)
unfolding digest hash_message glare9_provenance.Crypto.prefixed
    glare9_provenance.Crypto.prefixed_parts glare9_provenance.Crypto.length_prefix
    glare9_provenance.Prelude.Octets.write_u32
same_digest = refl

digest-injective_example :
    ((codes "a" ≡ codes "b") × (one_part 7 ≡ one_part 6)) ⊎ Collision toy_hash
digest-injective_example =
    digest-injective toy_hash (codes "a") (codes "b") (one_part 7) (one_part 6) (omega arith)
      (omega arith) (omega arith, tt) (omega arith, tt) same_digest
