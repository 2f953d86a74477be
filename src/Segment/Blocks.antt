-- ===== src/Segment/Blocks.antt =====
-- What the blocks of a segment hold, and how large they are.
use glare9_provenance.Prelude.{
  ℕ, suc, ◌+◌, ◌≤◌, ◌<◌, Bytes, true, false, not, [], ◌∷◌, ◌++◌, List, map, ◌==◌, ==_iff, length,
  take, drop, take-append-drop, length-drop, length-take-le, length-append, append_assoc, Option,
  none, some, ok, ◌≡◌, ◌≢◌, refl, sym, ap, ap₂, ◌∙◌, subst, >>=-eq-ok, invariant-eq-ok,
  ok-injective, All, Bool-cases, inl, inr, ◌⊎◌, arith,
}
use glare9_provenance.Format.Records.{frame_record}
use glare9_provenance.Segment.{
  Framed, is_empty, sum_counts, frame_prepared, frame_all, all_positive, cut_blocks, is_full,
  last_block, fill_blocks, partition_records,
}

false≢true : false ≢ true
false≢true h = cc

map-append : {A B : Type 0} (f : A → B) (xs ys : List A) → map f (xs ++ ys) ≡ map f xs ++ map f ys
map-append f [] ys = refl
map-append f (x ∷ xs) ys = ap (λ zs. f x ∷ zs) (map-append f xs ys)

module _ {A : Type 0} (bytes_of : A → Bytes) where
  abbrev pub contents : List (Framed A) → List A
  contents block = map (λ f. f.prepared) block

  abbrev pub all_contents : List (List (Framed A)) → List A
  all_contents [] = []
  all_contents (block ∷ blocks) = contents block ++ all_contents blocks

  prepared-frame_prepared :
      (a : A) (f : Framed A) → frame_prepared bytes_of a ≡ ok f → f.prepared ≡ a
  unfolding frame_prepared
  prepared-frame_prepared a f h =
      let (framed, _, e) = >>=-eq-ok (frame_record (bytes_of a)) _ h in
      sym (ap (λ g. g.prepared) (ok-injective _ _ e))

  contents-frame_all :
      (records : List A) (block : List (Framed A))
      → frame_all bytes_of records ≡ ok block
      → contents block ≡ records
  unfolding frame_all
  contents-frame_all [] block h = ap contents (sym (ok-injective _ _ h))
  contents-frame_all (a ∷ as') block h =
      let (f, first, h1) = >>=-eq-ok (frame_prepared bytes_of a) _ h in
      let (fs, rest, h2) = >>=-eq-ok (frame_all bytes_of as') _ h1 in
      ap contents (sym (ok-injective _ _ h2))
      ∙ ap₂ (λ (b : A) (bs : List A). b ∷ bs) (prepared-frame_prepared a f first)
          (contents-frame_all as' fs rest)

  cut_blocks-contents :
      (counts : List ℕ) (records : List A) (blocks : List (List (Framed A)))
      → sum_counts counts ≡ length records
      → cut_blocks bytes_of counts records ≡ ok blocks
      → all_contents blocks ≡ records
  unfolding cut_blocks sum_counts
  cut_blocks-contents [] [] blocks total h = ap all_contents (sym (ok-injective _ _ h))
  cut_blocks-contents [] (a ∷ as') blocks total h = absurd (omega (arith, total))
  cut_blocks-contents (count ∷ counts) records blocks total h =
      let (block, first, h1) = >>=-eq-ok (frame_all bytes_of (take count records)) _ h in
      let (others, rest, h2) = >>=-eq-ok (cut_blocks bytes_of counts (drop count records)) _ h1 in
      let left : sum_counts counts ≡ length (drop count records) =
        omega (arith, total, length-drop count records) in
      ap all_contents (sym (ok-injective _ _ h2))
      ∙ ap₂ (λ (xs ys : List A). xs ++ ys) (contents-frame_all _ block first)
          (cut_blocks-contents counts _ others left rest)
      ∙ take-append-drop count records

  fill_blocks-contents :
      (target max : ℕ) (current : List (Framed A)) (bytes : ℕ) (records : List A)
      (blocks : List (List (Framed A)))
      → fill_blocks bytes_of target max current bytes records ≡ ok blocks
      → all_contents blocks ≡ contents current ++ records
  unfolding fill_blocks last_block
  fill_blocks-contents target max [] bytes [] blocks h = ap all_contents (sym (ok-injective _ _ h))
  fill_blocks-contents target max (f ∷ fs) bytes [] blocks h =
      ap all_contents (sym (ok-injective _ _ h))
  fill_blocks-contents target max current bytes (a ∷ as') blocks h =
      let (f, framed, h1) = >>=-eq-ok (frame_prepared bytes_of a) _ h in
      let same = prepared-frame_prepared a f framed in
      elim (Bool-cases (is_full bytes_of target max current bytes (length f.framed))) [
        | inl full ↦
            (let (others, rest, h2) =
                >>=-eq-ok (fill_blocks bytes_of target max (f ∷ []) (length f.framed) as') _
                  (rw full at h1) in
              ap all_contents (sym (ok-injective _ _ h2))
              ∙ ap (λ xs. contents current ++ xs)
                  (fill_blocks-contents target max (f ∷ []) (length f.framed) as' others rest
                    ∙ ap (λ b. b ∷ as') same))
        | inr fits ↦
            (fill_blocks-contents target max (current ++ f ∷ []) (bytes + length f.framed) as'
                blocks (rw fits at h1)
              ∙ ap (λ xs. xs ++ as') (map-append (λ g. g.prepared) current (f ∷ []))
              ∙ append_assoc (contents current) (f.prepared ∷ []) as'
              ∙ ap (λ b. contents current ++ b ∷ as') same)
      ]

  -- The blocks hold every record exactly once and in order, whichever way they are cut.
  pub all_contents-partition_records :
      (records : List A) (target max : ℕ) (counts : Option (List ℕ))
      (blocks : List (List (Framed A)))
      → partition_records bytes_of records target max counts ≡ ok blocks
      → all_contents blocks ≡ records
  unfolding partition_records
  all_contents-partition_records records target max none blocks h =
      fill_blocks-contents target max [] 0 records blocks h
  all_contents-partition_records records target max (some counts) blocks h =
      let (_, h1) = invariant-eq-ok (not (is_empty counts)) _ _ h in
      let (_, h2) = invariant-eq-ok (all_positive counts) _ _ h1 in
      let (total, h3) = invariant-eq-ok (sum_counts counts == length records) _ _ h2 in
      cut_blocks-contents counts records blocks
        ((==_iff (sum_counts counts) (length records)).0 total) h3

  -- The bytes of a block before compression.
  unfoldable pub block_bytes : List (Framed A) → ℕ
  block_bytes [] = 0
  block_bytes (f ∷ fs) = length f.framed + block_bytes fs

  block_bytes-append :
      (fs gs : List (Framed A)) → block_bytes (fs ++ gs) ≡ block_bytes fs + block_bytes gs
  unfolding block_bytes
  block_bytes-append [] gs = omega arith
  block_bytes-append (f ∷ fs) gs = omega (arith, block_bytes-append fs gs)

  -- A block is not empty, has at most `max` records, and exceeds the target only with a single one.
  pub record Fits (target max : ℕ) (block : List (Framed A)) : Type 0 where
    pub some_records : 1 ≤ length block
    pub few_records : length block ≤ max
    pub few_bytes : (block_bytes block ≤ target) ⊎ (length block ≡ 1)

  Fits-single : (target max : ℕ) (f : Framed A) → 1 ≤ max → Fits target max (f ∷ [])
  Fits-single target max f h = record {
    some_records = omega arith;
    few_records = h;
    few_bytes = inr refl;
  }

  Fits-more :
      (target max bytes : ℕ) (current : List (Framed A)) (f : Framed A)
      → 1 ≤ max
      → bytes ≡ block_bytes current
      → is_full bytes_of target max current bytes (length f.framed) ≡ false
      → Fits target max (current ++ f ∷ [])
  unfolding is_full block_bytes
  Fits-more target max bytes [] f h e room = Fits-single target max f h
  Fits-more target max bytes (g ∷ gs) f h e room =
      let longer = length-append (g ∷ gs) (f ∷ []) in
      let more = block_bytes-append (g ∷ gs) (f ∷ []) in
      let limits : (bytes + length f.framed ≤ target) × (length (g ∷ gs) < max) =
        (ground arith, ground arith) in
      record {
        some_records = omega (arith, longer);
        few_records = omega (arith, longer, limits.1);
        few_bytes = inl (omega (arith, more, limits.0, e));
      }

  full-Fits :
      (target max bytes more : ℕ) (current : List (Framed A))
      → (is_empty current ≡ true) ⊎ Fits target max current
      → is_full bytes_of target max current bytes more ≡ true
      → Fits target max current
  unfolding is_full
  full-Fits target max bytes more [] inv full = absurd (false≢true full)
  full-Fits target max bytes more (f ∷ fs) (inr fits) full = fits
  full-Fits target max bytes more (f ∷ fs) (inl empty) full = absurd (false≢true empty)

  fill_blocks-Fits :
      (target max : ℕ) (current : List (Framed A)) (bytes : ℕ) (records : List A)
      (blocks : List (List (Framed A)))
      → 1 ≤ max
      → bytes ≡ block_bytes current
      → (is_empty current ≡ true) ⊎ Fits target max current
      → fill_blocks bytes_of target max current bytes records ≡ ok blocks
      → All (Fits target max) blocks
  unfolding fill_blocks last_block block_bytes
  fill_blocks-Fits target max [] bytes [] blocks h e inv run =
      subst (All (Fits target max)) (ok-injective _ _ run) tt
  fill_blocks-Fits target max (f ∷ fs) bytes [] blocks h e (inl empty) run =
      absurd (false≢true empty)
  fill_blocks-Fits target max (f ∷ fs) bytes [] blocks h e (inr fits) run =
      subst (All (Fits target max)) (ok-injective _ _ run) (fits, tt)
  fill_blocks-Fits target max current bytes (a ∷ as') blocks h e inv run =
      let (f, framed, run1) = >>=-eq-ok (frame_prepared bytes_of a) _ run in
      elim (Bool-cases (is_full bytes_of target max current bytes (length f.framed))) [
        | inl full ↦
            (let (others, rest, run2) =
                >>=-eq-ok (fill_blocks bytes_of target max (f ∷ []) (length f.framed) as') _
                  (rw full at run1) in
              subst (All (Fits target max)) (ok-injective _ _ run2) (
                full-Fits target max bytes (length f.framed) current inv full,
                fill_blocks-Fits target max (f ∷ []) (length f.framed) as' others h (omega arith)
                    (inr (Fits-single target max f h)) rest,
              ))
        | inr room ↦
            fill_blocks-Fits target max (current ++ f ∷ []) (bytes + length f.framed) as' blocks h
              (omega (arith, e, block_bytes-append current (f ∷ [])))
              (inr (Fits-more target max bytes current f h e room)) (rw room at run1)
      ]

  -- Without counts, and where a block may have a record, every block has one, at most `max` of them,
  -- and exceeds the target only with a single record.
  pub partition_records-Fits :
      (records : List A) (target max : ℕ) (blocks : List (List (Framed A)))
      → 1 ≤ max
      → partition_records bytes_of records target max none ≡ ok blocks
      → All (Fits target max) blocks
  unfolding partition_records block_bytes
  partition_records-Fits records target max blocks h run =
      fill_blocks-Fits target max [] 0 records blocks h refl (inl refl) run

  length-frame_all :
      (records : List A) (block : List (Framed A))
      → frame_all bytes_of records ≡ ok block
      → length block ≡ length records
  unfolding frame_all
  length-frame_all [] block h = sym (ap length (ok-injective [] block h))
  length-frame_all (a ∷ as') block h =
      let (f, _, h1) = >>=-eq-ok (frame_prepared bytes_of a) _ h in
      let (fs, rest, h2) = >>=-eq-ok (frame_all bytes_of as') _ h1 in
      sym (ap length (ok-injective (f ∷ fs) block h2)) ∙ ap suc (length-frame_all as' fs rest)

  cut_blocks-counts :
      (counts : List ℕ) (records : List A) (blocks : List (List (Framed A)))
      → sum_counts counts ≡ length records
      → cut_blocks bytes_of counts records ≡ ok blocks
      → map length blocks ≡ counts
  unfolding cut_blocks sum_counts
  cut_blocks-counts [] records blocks total h = ap (map length) (sym (ok-injective _ _ h))
  cut_blocks-counts (count ∷ counts) records blocks total h =
      let (block, first, h1) = >>=-eq-ok (frame_all bytes_of (take count records)) _ h in
      let (others, rest, h2) = >>=-eq-ok (cut_blocks bytes_of counts (drop count records)) _ h1 in
      let left : sum_counts counts ≡ length (drop count records) =
        omega (arith, total, length-drop count records) in
      let sized : length block ≡ count =
        length-frame_all _ block first ∙ length-take-le count records (omega (arith, total)) in
      sym (ap (map length) (ok-injective (block ∷ others) blocks h2))
      ∙ ap₂ (λ (n : ℕ) (ns : List ℕ). n ∷ ns) sized (cut_blocks-counts counts _ others left rest)

  -- With counts, the blocks have these numbers of records.
  pub partition_records-counts :
      (records : List A) (target max : ℕ) (counts : List ℕ) (blocks : List (List (Framed A)))
      → partition_records bytes_of records target max (some counts) ≡ ok blocks
      → map length blocks ≡ counts
  unfolding partition_records
  partition_records-counts records target max counts blocks h =
      let (_, h1) = invariant-eq-ok (not (is_empty counts)) _ _ h in
      let (_, h2) = invariant-eq-ok (all_positive counts) _ _ h1 in
      let (total, h3) = invariant-eq-ok (sum_counts counts == length records) _ _ h2 in
      cut_blocks-counts counts records blocks
        ((==_iff (sum_counts counts) (length records)).0 total) h3
