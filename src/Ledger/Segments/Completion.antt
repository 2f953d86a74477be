-- ===== src/Ledger/Segments/Completion.antt =====
-- #completeActiveBlock and #makeActiveMemoryRoom keep the memory exact, and what they end in.
use glare9_provenance.Prelude.{
  ℕ, zero, suc, ◌+◌, ◌-◌, ◌≤◌, Bytes, Bool, true, false, not, [], ◌∷◌, List, ltb, some,
  Option-cases, Bool-cases, invariant-holds, ◌≡◌, refl, sym, ap, ◌∙◌, subst, arith, inl, inr,
}
use glare9_provenance.Prelude.Dict.{Dict, get, set, values}
use glare9_provenance.Prelude.Action.{return}
use glare9_provenance.Prelude.Hoare.{
  Runs, Ends, Runs-return, Runs-gets, Runs-lift, Runs-modify, Runs-bind, Runs-post,
}
use glare9_provenance.Codec.Utf8.{Text}
use glare9_provenance.Ledger.Config.{Lifecycle}
use glare9_provenance.Ledger.State.{Active, State, Environment}
use glare9_provenance.Ledger.Active.{no_records, largest, put_active, rebuild_provisional_receipts}
use glare9_provenance.Ledger.Segments.{
  completed, store_completed, complete_block, complete_active_block, candidates, lacks_room,
  complete_largest, make_active_memory_room,
}
use glare9_provenance.Ledger.Segments.Exact.{
  framed_bytes, Memory, Memory-replace, Memory-found, le-bytes, get-set_same, Runs-call,
  Runs-with_active,
}

pub no_records-eq_true : {A : Type 0} (xs : List A) → no_records xs ≡ true → xs ≡ []
no_records-eq_true [] h = refl
no_records-eq_true (x ∷ xs) h = cc

room-fits : (a b : ℕ) (full : Bool) → ltb a b ≡ full → not full ≡ true → b ≤ a
room-fits a b full h k = ground arith

found_same :
    {V : Type 0} (key : Text) (a b : V) (d : Dict V)
    → get key d ≡ some a
    → get key d ≡ some b
    → a ≡ b
found_same key a b d h k = cc

module _ (env : Environment) (lifecycle : Lifecycle) where
  open env use {Event, Disk, compress, persist_active}

  abbrev pub IsExact : State Event Disk → Type 0
  IsExact s = Memory lifecycle.max_active_block_bytes s.active_segments s.active_block_bytes

  -- The memory is exact, and the segment is the one that stands under its key.
  abbrev pub Holds : Active Event → State Event Disk → Type 0
  Holds a s = IsExact s × (get a.key s.active_segments ≡ some a)

  -- No record is in the block of the segment under the key.
  abbrev pub IsComplete : Text → State Event Disk → Type 0
  IsComplete key s = (a : Active Event) → get key s.active_segments ≡ some a → a.active_block ≡ []

  Holds-put :
      (a b : Active Event) (s : State Event Disk)
      → Holds a s
      → b.key ≡ a.key
      → b.active_block ≡ a.active_block
      → b.active_block_bytes ≡ a.active_block_bytes
      → Holds b (put_active env lifecycle b s)
  Holds-put a b s (m, found) same_key same_block same_bytes =
      let c = Memory-found lifecycle.max_active_block_bytes a.key a _ _ m found in
      (
        subst
            (λ k.
              Memory lifecycle.max_active_block_bytes (set k b s.active_segments)
                s.active_block_bytes)
            (sym same_key)
            (Memory-replace lifecycle.max_active_block_bytes a.key a b _ s.active_block_bytes
              s.active_block_bytes m found
              (record {
                under_key = same_key;
                counted = same_bytes ∙ c.counted ∙ ap framed_bytes (sym same_block);
              })
              (omega (arith, same_bytes)) m.within),
        get-set_same b.key b s.active_segments,
      )

  Holds-store_completed :
      (a : Active Event) (uncompressed content : Bytes) (s : State Event Disk)
      → Holds a s
      → Holds
          (completed env lifecycle a uncompressed content)
          (store_completed env lifecycle a uncompressed content s)
  unfolding framed_bytes
  Holds-store_completed a uncompressed content s (m, found) =
      let c = Memory-found lifecycle.max_active_block_bytes a.key a _ _ m found in
      let small = le-bytes lifecycle.max_active_block_bytes a.key a _ _ m found in
      (
        Memory-replace lifecycle.max_active_block_bytes a.key a
            (completed env lifecycle a uncompressed content) _ s.active_block_bytes
            (s.active_block_bytes - a.active_block_bytes) m found
            (record { under_key = refl; counted = refl }) (omega (arith, small))
            (omega (arith, m.within)),
        get-set_same a.key _ s.active_segments,
      )

  complete_block-Runs :
      (a : Active Event)
      → Runs
          (Holds a)
          (complete_block env lifecycle a)
          (λ _ s. IsExact s × IsComplete a.key s)
          IsExact
  unfolding complete_block rebuild_provisional_receipts
  complete_block-Runs a =
      Runs-bind (λ _. Holds a) _ _ (Runs-lift _ (λ _ s _ h. h) (λ s h. h.0))
        (λ uncompressed.
          Runs-bind (λ _. Holds a) _ _ (Runs-lift _ (λ _ s _ h. h) (λ s h. h.0))
            (λ content.
              let b = completed env lifecycle a uncompressed content in
              Runs-bind (λ _. Holds b) _ _
                (Runs-modify _ (λ s h. Holds-store_completed a uncompressed content s h))
                (λ _.
                  Runs-bind (λ _. Holds b) _ _
                    (Runs-call env lifecycle _ (λ _ s disk h. h) (λ s disk h. h.0))
                    (λ path.
                      let c = record b { state_path = some path } in
                      Runs-bind (λ _. Holds c) _ _
                        (Runs-modify _ (λ s h. Holds-put b c s h refl refl refl))
                        (λ _. Runs-modify _ (λ s h. (
                          h.0,
                          λ d found.
                              ap (λ x. x.active_block)
                                (sym (found_same a.key c d s.active_segments h.1 found)),
                        )))))))

  unless_empty-Runs :
      (key : Text) (a : Active Event)
      → Runs
          (λ s. IsExact s × (get key s.active_segments ≡ some a))
          (elim (no_records a.active_block) [
            | true ↦ return tt
            | false ↦ complete_block env lifecycle a
          ])
          (λ _ s. IsExact s × IsComplete key s)
          IsExact
  unfolding return
  unless_empty-Runs key a = record {
    ends = λ s (m, found).
        let c = Memory-found lifecycle.max_active_block_bytes key a _ _ m found in
        elim (Bool-cases (no_records a.active_block)) [
          | inl e ↦
              rw (e, return)
                ((
                  m,
                  λ d found'.
                      ap (λ x. x.active_block)
                        (sym (found_same key a d s.active_segments found found'))
                      ∙ no_records-eq_true a.active_block e,
                ))
          | inr e ↦ rw e (
              subst
                (λ k.
                  Ends (λ (_ : Unit {0}) t. IsExact t × IsComplete k t) IsExact
                    (complete_block env lifecycle a s))
                c.under_key
                ((complete_block-Runs a).ends s
                  (m, subst (λ k. get k s.active_segments ≡ some a) (sym c.under_key) found)))
        ];
  }

  -- Completing a block keeps the memory exact, also when it fails, and leaves the block empty.
  pub complete_active_block-Runs :
      (key : Text)
      → Runs IsExact
          (complete_active_block env lifecycle key)
          (λ _ s. IsExact s × IsComplete key s)
          IsExact
  unfolding complete_active_block
  complete_active_block-Runs key =
      Runs-with_active env lifecycle key _ (λ s m missing. (m, λ a found. cc))
        (unless_empty-Runs key)

  complete_largest-Runs :
      (rounds required_bytes : ℕ) (except_key : Text)
      → Runs IsExact
          (complete_largest env lifecycle rounds required_bytes except_key)
          (λ _. IsExact)
          IsExact
  unfolding complete_largest
  complete_largest-Runs zero required_bytes except_key = Runs-return tt (λ s h. h)
  complete_largest-Runs (suc rounds) required_bytes except_key = record {
    ends = λ s m. elim (Bool-cases (lacks_room env lifecycle required_bytes s)) [
      | inr e ↦ rw (e, complete_largest) m
      | inl e ↦
          elim (Option-cases
            (largest (candidates env lifecycle except_key (values s.active_segments)))) [
              | inl e' ↦ rw (e, e', complete_largest) m
              | inr (a, e') ↦
                  rw (e, e', complete_largest)
                    ((Runs-bind (λ _. IsExact) _ _
                        (Runs-post _ (λ _ t k. k.0) (complete_active_block-Runs a.key))
                        (λ _. complete_largest-Runs rounds required_bytes except_key)).ends
                      s m)
            ]
    ];
  }

  -- Making room keeps the memory exact; where it returns, the bytes that are wanted fit.
  pub make_active_memory_room-Runs :
      (required_bytes : ℕ) (except_key : Text)
      → Runs IsExact
          (make_active_memory_room env lifecycle required_bytes except_key)
          (λ _ s.
            IsExact s × (s.active_block_bytes + required_bytes ≤ lifecycle.max_active_block_bytes))
          IsExact
  unfolding make_active_memory_room
  make_active_memory_room-Runs required_bytes except_key =
      Runs-bind (λ _. IsExact) _ _ (Runs-gets _ (λ s h. h))
        (λ rounds.
          Runs-bind (λ _. IsExact) _ _ (complete_largest-Runs rounds required_bytes except_key)
            (λ _.
              Runs-bind (λ full s. IsExact s × (lacks_room env lifecycle required_bytes s ≡ full)) _
                _ (Runs-gets _ (λ s h. (h, refl)))
                (λ full.
                  Runs-lift _
                    (λ u s passed h. (
                      h.0,
                      room-fits lifecycle.max_active_block_bytes _ full h.1
                          (invariant-holds (not full) _ u passed),
                    ))
                    (λ s h. h.0))))
