-- ===== src/Merkle/Binding.antt =====
-- Two lists of record hashes with one root are equal, or show a collision of the hash.
use glare9_provenance.Prelude.{
  suc, ◌≢◌, ◌⊎◌, inl, inr, Bytes, true, [], ◌∷◌, List, map, length, All, ◌≡◌, refl, ap, ap₂, subst,
  All-split, ◌∙◌, sym, arith, ok, invariant-eq-ok,
}
use glare9_provenance.Prelude.Octets.{equals}
use glare9_provenance.Crypto.{digest, Collision}
use glare9_provenance.Crypto.Injective.{digest-injective}
use glare9_provenance.Merkle.{
  join_levels, are_hashes, leaf_hash, node_hash, merkle_root, empty_domain, leaf_domain,
  node_domain,
}
use glare9_provenance.Merkle.Tree.{
  Tree, leaf, node, leaves, all_leaves-leaf, leaves-join_levels, map-join_levels,
}

domains_apart :
    (leaf_domain ≢ node_domain) × (leaf_domain ≢ empty_domain) × (node_domain ≢ empty_domain)
unfolding equals
domains_apart = (
  λ p. cc (ap (equals leaf_domain) p),
  λ p. cc (ap (equals leaf_domain) p),
  λ p. cc (ap (equals node_domain) p),
)

module _ (sha256 : Bytes → Bytes) (hash_length : (x : Bytes) → length (sha256 x) ≡ 32) where
  hash_tree : Tree → Bytes
  hash_tree (leaf hash) = leaf_hash sha256 hash
  hash_tree (node l r) = node_hash sha256 (hash_tree l) (hash_tree r)

  abbrev LeavesAreHashes : Tree → Type 0
  LeavesAreHashes (leaf hash) = length hash ≡ 32
  LeavesAreHashes (node l r) = LeavesAreHashes l × LeavesAreHashes r

  length-hash_tree : (t : Tree) → length (hash_tree t) ≡ 32
  unfolding hash_tree leaf_hash node_hash digest
  length-hash_tree (leaf hash) = hash_length _
  length-hash_tree (node l r) = hash_length _

  hash_tree-injective :
      (s t : Tree)
      → LeavesAreHashes s
      → LeavesAreHashes t
      → hash_tree s ≡ hash_tree t
      → (s ≡ t) ⊎ Collision sha256
  unfolding hash_tree leaf_hash node_hash
  hash_tree-injective (leaf h) (leaf g) hs ht e =
      elim (digest-injective sha256 leaf_domain leaf_domain (h ∷ []) (g ∷ []) (omega arith)
        (omega arith) (omega arith, tt) (omega arith, tt) e) [
          | inl (_, parts) ↦ inl (cc)
          | inr collision ↦ inr collision
        ]
  hash_tree-injective (leaf h) (node l r) hs (hl, hr) e =
      elim (digest-injective sha256 leaf_domain node_domain (h ∷ [])
        (hash_tree l ∷ hash_tree r ∷ []) (omega arith) (omega arith) (omega arith, tt)
        (omega (arith, length-hash_tree l), (omega (arith, length-hash_tree r), tt)) e) [
          | inl (domains, _) ↦ absurd (domains_apart.0 domains)
          | inr collision ↦ inr collision
        ]
  hash_tree-injective (node l r) (leaf g) (hl, hr) ht e =
      elim (digest-injective sha256 node_domain leaf_domain (hash_tree l ∷ hash_tree r ∷ [])
        (g ∷ []) (omega arith) (omega arith)
        (omega (arith, length-hash_tree l), (omega (arith, length-hash_tree r), tt))
        (omega arith, tt) e) [
          | inl (domains, _) ↦ absurd (domains_apart.0 (sym domains))
          | inr collision ↦ inr collision
        ]
  hash_tree-injective (node l r) (node l' r') (hl, hr) (hl', hr') e =
      let left = hash_tree-injective l l' hl hl' in
      let right = hash_tree-injective r r' hr hr' in
      elim (digest-injective sha256 node_domain node_domain (hash_tree l ∷ hash_tree r ∷ [])
        (hash_tree l' ∷ hash_tree r' ∷ []) (omega arith) (omega arith)
        (omega (arith, length-hash_tree l), (omega (arith, length-hash_tree r), tt))
        (omega (arith, length-hash_tree l'), (omega (arith, length-hash_tree r'), tt)) e) [
          | inl (_, parts) ↦ elim (left (cc)) [
            | inr collision ↦ inr collision
            | inl same ↦ elim (right (cc)) [
              | inr collision ↦ inr collision
              | inl same' ↦ inl (ap₂ node same same')
            ]
          ]
          | inr collision ↦ inr collision
        ]

  LeavesAreHashes-leaves :
      (t : Tree) → All (λ hash. length hash ≡ 32) (leaves t) → LeavesAreHashes t
  unfolding leaves
  LeavesAreHashes-leaves (leaf hash) h = h.0
  LeavesAreHashes-leaves (node l r) h =
      let (left, right) = All-split (λ (hash : Bytes). length hash ≡ 32) (leaves l) (leaves r) h in
      (LeavesAreHashes-leaves l left, LeavesAreHashes-leaves r right)

  are_hashes-All : (hs : List Bytes) → are_hashes hs ≡ true → All (λ hash. length hash ≡ 32) hs
  unfolding are_hashes
  are_hashes-All [] h = tt
  are_hashes-All (x ∷ hs) h = (ground arith, are_hashes-All hs (ground arith))

  map-leaf_hash : (hs : List Bytes) → map (leaf_hash sha256) hs ≡ map hash_tree (map leaf hs)
  unfolding hash_tree
  map-leaf_hash [] = refl
  map-leaf_hash (h ∷ hs) = ap (◌∷◌ (leaf_hash sha256 h)) (map-leaf_hash hs)

  length-map_leaf : (hs : List Bytes) → length (map leaf hs) ≡ length hs
  length-map_leaf [] = refl
  length-map_leaf (h ∷ hs) = ap suc (length-map_leaf hs)

  joined :
      (h : Bytes) (hs : List Bytes)
      → join_levels
          (node_hash sha256)
          (length (h ∷ hs))
          (hash_tree (leaf h))
          (map hash_tree (map leaf (h ∷ hs)))
        ≡ join_levels
            (node_hash sha256)
            (length (h ∷ hs))
            (leaf_hash sha256 h)
            (map (leaf_hash sha256) (h ∷ hs))
  unfolding hash_tree
  joined h hs =
      ap (join_levels (node_hash sha256) (length (h ∷ hs)) (leaf_hash sha256 h))
        (sym (map-leaf_hash (h ∷ hs)))

  -- A root of at least one hash is the hash of a tree with those hashes as its leaves.
  merkle_root-tree :
      (h : Bytes) (hs : List Bytes) (root : Bytes)
      → merkle_root sha256 (h ∷ hs) ≡ ok root
      → (t : Tree) × (leaves t ≡ h ∷ hs) × LeavesAreHashes t × (hash_tree t ≡ root)
  unfolding merkle_root
  merkle_root-tree h hs root e =
      let (checked, whole) = invariant-eq-ok (are_hashes (h ∷ hs)) _ _ e in
      let t = join_levels node (length (h ∷ hs)) (leaf h) (map leaf (h ∷ hs)) in
      let leaves_eq : leaves t ≡ h ∷ hs =
        leaves-join_levels (map leaf (h ∷ hs)) (length (h ∷ hs)) (leaf h) (omega arith)
          (omega (arith, length-map_leaf hs))
        ∙ all_leaves-leaf (h ∷ hs) in
      (
        t,
        leaves_eq,
        LeavesAreHashes-leaves t (
            subst (All (λ (hash : Bytes). length hash ≡ 32)) (sym leaves_eq)
              (are_hashes-All (h ∷ hs) checked)),
        sym (
              map-join_levels hash_tree node (node_hash sha256) (λ a b. unfold hash_tree in refl)
                (length (h ∷ hs)) (leaf h) (map leaf (h ∷ hs)))
            ∙ joined h hs
            ∙ cc,
      )

  hash_tree-empty :
      (t : Tree)
      → LeavesAreHashes t
      → hash_tree t ≡ digest sha256 empty_domain []
      → Collision sha256
  unfolding hash_tree leaf_hash node_hash
  hash_tree-empty (leaf h) ht e =
      elim (digest-injective sha256 leaf_domain empty_domain (h ∷ []) [] (omega arith) (omega arith)
        (omega arith, tt) tt e) [
          | inl (domains, _) ↦ absurd (domains_apart.1 domains)
          | inr collision ↦ collision
        ]
  hash_tree-empty (node l r) ht e =
      elim (digest-injective sha256 node_domain empty_domain (hash_tree l ∷ hash_tree r ∷ []) []
        (omega arith) (omega arith)
        (omega (arith, length-hash_tree l), (omega (arith, length-hash_tree r), tt)) tt e) [
          | inl (domains, _) ↦ absurd (domains_apart.2 domains)
          | inr collision ↦ collision
        ]

  -- The root of an empty list is the root of no other, unless the hash collides.
  merkle_root-empty :
      (h : Bytes) (hs : List Bytes) (root : Bytes)
      → merkle_root sha256 [] ≡ ok root
      → merkle_root sha256 (h ∷ hs) ≡ ok root
      → Collision sha256
  merkle_root-empty h hs root e e' =
      let (t, _, good, hash_eq) = merkle_root-tree h hs root e' in
      let empty_eq : digest sha256 empty_domain [] ≡ root = unfold merkle_root in cc in
      hash_tree-empty t good (hash_eq ∙ sym empty_eq)

  -- For a hash of 32 bytes, two lists of record hashes with one Merkle root are equal, or two
  -- different messages with one hash are found. The lists may have different lengths.
  pub merkle_root-injective :
      (hs gs : List Bytes) (root : Bytes)
      → merkle_root sha256 hs ≡ ok root
      → merkle_root sha256 gs ≡ ok root
      → (hs ≡ gs) ⊎ Collision sha256
  merkle_root-injective [] [] root e e' = inl refl
  merkle_root-injective [] (g ∷ gs) root e e' = inr (merkle_root-empty g gs root e e')
  merkle_root-injective (h ∷ hs) [] root e e' = inr (merkle_root-empty h hs root e' e)
  merkle_root-injective (h ∷ hs) (g ∷ gs) root e e' =
      let (s, s_leaves, s_good, s_hash) = merkle_root-tree h hs root e in
      let (t, t_leaves, t_good, t_hash) = merkle_root-tree g gs root e' in
      elim (hash_tree-injective s t s_good t_good (s_hash ∙ sym t_hash)) [
        | inl same ↦ inl (sym s_leaves ∙ ap leaves same ∙ t_leaves)
        | inr collision ↦ inr collision
      ]
