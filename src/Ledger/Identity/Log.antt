-- ===== src/Ledger/Identity/Log.antt =====
-- What a ledger of services/ledger/src/local-ledger.js promises, without its indexes and segments: a log
-- that answers at most one record hash for an event ID, and only grows.
use glare9_provenance.Prelude.{
  Bytes, Bool, true, ◌||◌, [], ◌∷◌, Option, none, some, Option-cases, ◌≡◌, refl, sym, ap, ◌∙◌,
  subst, arith, inl, inr,
}
use glare9_provenance.Prelude.Dict.{get, has-eq_true}
use glare9_provenance.Prelude.Entries.{Entries-get}
use glare9_provenance.Codec.Utf8.{Text}
use glare9_provenance.Ledger.Config.{Lifecycle}
use glare9_provenance.Ledger.State.{State, Environment}
use glare9_provenance.Ledger.Accept.{is_known}
use glare9_provenance.Ledger.Lookup.{find_receipt, receipt_hash}
use glare9_provenance.Ledger.Identity.{ProvisionalFits, Agrees, Identifies}
use glare9_provenance.Ledger.Identity.Accept.{IsUnambiguous}
use glare9_provenance.Ledger.Identity.Receipts.{find_receipt-Identifies}
use glare9_provenance.Ledger.Identity.Steps.{Reaches, Reaches-Identifies}

abbrev pub Log : Type 0
Log = Text → Option Bytes

-- Every answer of the first log is one of the second.
abbrev pub Extends : Log → Log → Type 0
Extends log later = (id : Text) (hash : Bytes) → log id ≡ some hash → later id ≡ some hash

or-left : (a b : Bool) → a ≡ true → (a || b) ≡ true
or-left a b h = ground arith

or-right : (a b : Bool) → b ≡ true → (a || b) ≡ true
or-right a b h = ground arith

module _ (env : Environment) (lifecycle : Lifecycle) where
  open env use {Event, Disk}

  -- The log of a ledger: the hash of the receipt under an event ID.
  unfoldable pub log_of : State Event Disk → Log
  log_of s id = elim (find_receipt env lifecycle id s) [
    | none ↦ none
    | some r ↦ some (receipt_hash env lifecycle r)
  ]

  log_of-Identifies :
      (id : Text) (hash : Bytes) (s : State Event Disk)
      → Identifies env lifecycle id hash true s
      → log_of s id ≡ some hash
  unfolding log_of
  log_of-Identifies id hash s h =
      let (r, found, same) = find_receipt-Identifies env lifecycle id hash s h in
      rw (found, log_of) (ap some same)

  -- An event ID that has an answer is known, if it is not ambiguous.
  log_of-known :
      (id : Text) (hash : Bytes) (s : State Event Disk)
      → ((other : Bytes) → Agrees env lifecycle id other s)
      → log_of s id ≡ some hash
      → is_known env lifecycle s id ≡ true
  unfolding log_of find_receipt
  log_of-known id hash s all h = elim (Option-cases (get id s.event_index)) [
    | inr (r, e) ↦ or-left _ _ (has-eq_true id s.event_index r e)
    | inl e ↦ elim (Option-cases (get id s.provisional_index)) [
      | inr (r, e') ↦
          (let fits = λ (other : Bytes).
              Entries-get (ProvisionalFits env lifecycle id other) id r s.provisional_index
                ((all other).provisional_fits) e' refl in
            let absurd : ◌≡◌ {A = Bytes} [] (0 ∷ []) = sym (fits []) ∙ fits (0 ∷ []) in cc)
      | inl e' ↦ elim (Option-cases (get id s.pending_index)) [
        | inr (p, e'') ↦ or-right _ _ (has-eq_true id s.pending_index p e'')
        | inl e'' ↦
            (let none_there : ◌≡◌ {A = Option Bytes} none (some hash) =
                rw (e, e', e'', log_of, find_receipt) at h in
              cc)
      ]
    ]
  ]

  log_of-hash :
      (id : Text) (hash : Bytes) (s : State Event Disk)
      → IsUnambiguous env lifecycle id s
      → log_of s id ≡ some hash
      → Identifies env lifecycle id hash true s
  log_of-hash id hash s (inl (other, (known, agrees))) h =
      let same : ◌≡◌ {A = Option Bytes} (some other) (some hash) =
        sym (log_of-Identifies id other s (known, agrees)) ∙ h in
      let same' : other ≡ hash = cc in
      (known, subst (λ k. Agrees env lifecycle id k s) same' agrees)
  log_of-hash id hash s (inr all) h =
      ((λ _. log_of-known id hash s (λ other. (all other).1) h), (all hash).1)

  -- Any run of a ledger refines an append-only log: what the ledger answers for an event ID it answers
  -- in every later state, whatever is sealed, drained or transitioned in between and whichever calls
  -- throw, if no event ID is ambiguous at the start.
  pub Reaches-Extends :
      (s t : State Event Disk)
      → ((id : Text) → IsUnambiguous env lifecycle id s)
      → Reaches env lifecycle s t
      → Extends (log_of s) (log_of t)
  Reaches-Extends s t u reaches id hash h =
      log_of-Identifies id hash t
        (Reaches-Identifies env lifecycle id hash s t reaches (log_of-hash id hash s (u id) h))
