-- ===== src/Connector/Outbox/Leases.antt =====
-- The leases of the outbox of connectors/mysql: a row is not claimed again while it is leased.
use glare9_provenance.Prelude.{
  ℕ, zero, suc, ◌+◌, ◌*◌, ◌<◌, Bool, true, false, ◌&&◌, not, [], ◌∷◌, List, take, All, leb, length,
  Bool-cases, Result, ok, err, invariant, ok-injective, ◌≡◌, refl, sym, ap, ◌∙◌, subst, arith, inl,
  inr,
}
use glare9_provenance.Prelude.Action.{Action, return, lift-eq-ok, gets, ◌>>=◌, >>=-eq-ok}
use glare9_provenance.Codec.Utf8.{Text}
use glare9_provenance.Connector.Outbox.{
  Row, Claimed, is_ready, select_ready, sequence_ids, includes_id, update_rows, execute,
  commit_or_rollback, transaction, leases, with_lease, claimed_rows, lease_rows, claim_batch,
  is_owner,
}

-- The sequence identifiers of a batch.
unfoldable pub claimed_ids : List Claimed → List ℕ
claimed_ids [] = []
claimed_ids (c ∷ cs) = c.sequence_id ∷ claimed_ids cs

-- None of the items has one of the identifiers.
abbrev pub Fresh : List ℕ → List Claimed → Type 0
Fresh ids items = All (λ c. includes_id c.sequence_id ids ≡ false) items

and-left : (a b : Bool) → (a && b) ≡ true → a ≡ true
and-left a b h = ground arith

module _ {R : Type 0} where
  claimed_ids-claimed_rows :
      (token : Text) (rows : List (Row R))
      → claimed_ids (claimed_rows token rows) ≡ sequence_ids rows
  unfolding claimed_ids claimed_rows sequence_ids
  claimed_ids-claimed_rows token [] = refl
  claimed_ids-claimed_rows token (row ∷ rows) =
      ap (λ ids. row.sequence_id ∷ ids) (claimed_ids-claimed_rows token rows)

  -- No row of the list has one of the identifiers.
  abbrev pub Avoids : List ℕ → List (Row R) → Type 0
  Avoids ids rows = All (λ row. includes_id row.sequence_id ids ≡ false) rows

  leased-not_ready :
      (ids : List ℕ) (owner token : Text) (expires later : ℕ) (row : Row R)
      → later < expires
      → is_ready later (with_lease owner token expires row) ≡ false
  leased-not_ready ids owner token expires later row h = ground arith

  other-avoids :
      (ids : List ℕ) (later : ℕ) (row : Row R)
      → leases ids row ≡ false
      → is_ready later row ≡ true
      → includes_id row.sequence_id ids ≡ false
  other-avoids ids later row h k = ground arith

  select_ready-cons :
      (ids : List ℕ) (later : ℕ) (locked : ℕ → Bool) (row : Row R) (rows : List (Row R))
      → (is_ready later row ≡ true → includes_id row.sequence_id ids ≡ false)
      → Avoids ids (select_ready later locked rows)
      → Avoids ids (select_ready later locked (row ∷ rows))
  unfolding select_ready
  select_ready-cons ids later locked row rows k h =
      elim (Bool-cases (is_ready later row && not (locked row.sequence_id))) [
        | inl e ↦ rw (e, select_ready) (k (and-left _ _ e), h)
        | inr e ↦ rw (e, select_ready) h
      ]

  -- What is ready in a table once the rows are leased.
  select_ready-Avoids :
      (ids : List ℕ) (owner token : Text) (expires later : ℕ) (locked : ℕ → Bool)
      (rows : List (Row R))
      → later < expires
      → Avoids ids (
          select_ready later locked
            (update_rows (leases ids) (with_lease owner token expires) rows))
  unfolding select_ready update_rows
  select_ready-Avoids ids owner token expires later locked [] h = tt
  select_ready-Avoids ids owner token expires later locked (row ∷ rows) h =
      let others = update_rows (leases ids) (with_lease owner token expires) rows in
      let rest = select_ready-Avoids ids owner token expires later locked rows h in
      elim (Bool-cases (leases ids row)) [
        | inl e ↦
            rw (e, update_rows)
              (select_ready-cons ids later locked (with_lease owner token expires row) others
                (λ ready.
                  let no : true ≡ false =
                    sym ready ∙ leased-not_ready ids owner token expires later row h in
                  cc)
                rest)
        | inr e ↦
            rw (e, update_rows)
              (select_ready-cons ids later locked row others (other-avoids ids later row e) rest)
      ]

  update_rows-none :
      (change : Row R → Row R) (rows : List (Row R)) → update_rows (leases []) change rows ≡ rows
  unfolding update_rows includes_id
  update_rows-none change [] = refl
  update_rows-none change (row ∷ rows) = ap (λ rest. row ∷ rest) (update_rows-none change rows)

  transaction-eq_ok :
      {A : Type 0} (body : Action (List (Row R)) A) (rows after : List (Row R)) (a : A)
      → transaction body rows ≡ (ok a, after)
      → body rows ≡ (ok a, after)
  unfolding transaction
  transaction-eq_ok {A = A} body rows after a h =
      let (answer, reached) = body rows in committed answer reached h
    where
      committed :
          (answer : Result A) (reached : List (Row R))
          → commit_or_rollback rows (answer, reached) ≡ (ok a, after)
          → ◌≡◌ {A = Result A × List (Row R)} (answer, reached) (ok a, after)
      committed (ok b) reached e = e
      committed (err code) reached e = cc

  lease_rows-eq_ok :
      (lease_seconds now : ℕ) (owner token : Text) (selected rows after : List (Row R))
      (claimed : List Claimed)
      → lease_rows lease_seconds now owner token selected rows ≡ (ok claimed, after)
      → (claimed ≡ claimed_rows token selected)
        × (after
            ≡ update_rows
                (leases (sequence_ids selected))
                (with_lease owner token (now + lease_seconds * 1_000_000))
                rows)
  unfolding lease_rows return claimed_rows sequence_ids execute
  lease_rows-eq_ok lease_seconds now owner token [] rows after claimed h = (
    sym (ok-injective [] claimed (ap (λ x. x.0) h)),
    sym (ap (λ x. x.1) h) ∙ sym (update_rows-none _ rows),
  )
  lease_rows-eq_ok lease_seconds now owner token (row ∷ rest) rows after claimed h =
      let ids = sequence_ids (row ∷ rest) in
      let (_, t, ran, answered) =
        >>=-eq-ok
          (execute (leases ids) (with_lease owner token (now + lease_seconds * 1_000_000))
            (length ids))
          _ rows after claimed h in
      (
        sym (ok-injective _ claimed (ap (λ x. x.0) answered)),
        sym (ap (λ x. x.1) answered) ∙ sym (ap (λ x. x.1) ran),
      )

  claim_batch-eq_ok :
      (lease_seconds now : ℕ) (locked : ℕ → Bool) (batch_size : ℕ) (owner token : Text)
      (rows after : List (Row R)) (claimed : List Claimed)
      → claim_batch lease_seconds now locked batch_size owner token rows ≡ (ok claimed, after)
      → (claimed ≡ claimed_rows token (take batch_size (select_ready now locked rows)))
        × (after
            ≡ update_rows
                (leases (sequence_ids (take batch_size (select_ready now locked rows))))
                (with_lease owner token (now + lease_seconds * 1_000_000))
                rows)
  unfolding claim_batch gets ◌>>=◌
  claim_batch-eq_ok lease_seconds now locked batch_size owner token rows after claimed h =
      let body =
        gets (λ rs. take batch_size (select_ready now locked rs))
        >>= lease_rows lease_seconds now owner token in
      let (_, _, h1) =
        lift-eq-ok (invariant (leb 1 batch_size && leb batch_size 1_000) "TypeError") _ rows after
          claimed h in
      let (_, _, h2) =
        lift-eq-ok (invariant (is_owner owner) "TypeError") (λ _. transaction body) rows after
          claimed h1 in
      lease_rows-eq_ok lease_seconds now owner token
        (take batch_size (select_ready now locked rows)) rows after claimed
        (transaction-eq_ok body rows after claimed h2)

  Avoids-take :
      (ids : List ℕ) (n : ℕ) (rows : List (Row R)) → Avoids ids rows → Avoids ids (take n rows)
  Avoids-take ids zero rows h = tt
  Avoids-take ids (suc n) [] h = tt
  Avoids-take ids (suc n) (row ∷ rows) (k, h) = (k, Avoids-take ids n rows h)

  Fresh-claimed_rows :
      (ids : List ℕ) (token : Text) (rows : List (Row R))
      → Avoids ids rows
      → Fresh ids (claimed_rows token rows)
  unfolding claimed_rows
  Fresh-claimed_rows ids token [] h = tt
  Fresh-claimed_rows ids token (row ∷ rows) (k, h) = (k, Fresh-claimed_rows ids token rows h)

  -- While the lease of a batch runs, no other claim on the table that the batch has left gets a row of
  -- the batch, whoever makes it and whatever other rows are locked.
  pub claim_batch-exclusive :
      (lease_seconds now later : ℕ) (locked locked' : ℕ → Bool) (size size' : ℕ)
      (owner owner' token token' : Text) (rows leased after : List (Row R))
      (claimed claimed' : List Claimed)
      → claim_batch lease_seconds now locked size owner token rows ≡ (ok claimed, leased)
      → claim_batch lease_seconds later locked' size' owner' token' leased ≡ (ok claimed', after)
      → later < now + lease_seconds * 1_000_000
      → Fresh (claimed_ids claimed) claimed'
  claim_batch-exclusive lease_seconds now later locked locked' size size' owner owner' token token'
        rows leased after claimed claimed' h h' soon =
      let selected = take size (select_ready now locked rows) in
      let (got, left) =
        claim_batch-eq_ok lease_seconds now locked size owner token rows leased claimed h in
      let (got', _) =
        claim_batch-eq_ok lease_seconds later locked' size' owner' token' leased after claimed'
          h' in
      let ids : claimed_ids claimed ≡ sequence_ids selected =
        ap claimed_ids got ∙ claimed_ids-claimed_rows token selected in
      let avoids =
        select_ready-Avoids (sequence_ids selected) owner token (now + lease_seconds * 1_000_000)
          later locked' rows soon in
      let avoids' : Avoids (sequence_ids selected) (select_ready later locked' leased) =
        subst (λ rs. Avoids (sequence_ids selected) (select_ready later locked' rs)) (sym left)
          avoids in
      subst (λ is. Fresh is claimed') (sym ids)
        (subst (Fresh (sequence_ids selected)) (sym got') (
          Fresh-claimed_rows (sequence_ids selected) token' _
            (Avoids-take (sequence_ids selected) size' _ avoids')))
