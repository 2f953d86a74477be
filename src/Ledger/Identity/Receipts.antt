-- ===== src/Ledger/Identity/Receipts.antt =====
-- The lookup of a receipt in services/ledger/src/local-ledger.js, after any run of the ledger.
use glare9_provenance.Prelude.{
  ℕ, ◌+◌, ◌/◌, ◌%◌, ◌<◌, Bytes, IsBytes, Bool, true, false, ◌&&◌, [], ◌∷◌, List, length, get_elem?,
  some, Option-cases, ok, ◌≡◌, refl, ◌∙◌, arith, inl, inr,
}
use glare9_provenance.Prelude.Octets.{equals_refl}
use glare9_provenance.Prelude.Dict.{get, has-get, has-eq_false}
use glare9_provenance.Prelude.Entries.{Entries-get}
use glare9_provenance.Codec.Utf8.{Text}
use glare9_provenance.Ledger.Config.{Lifecycle}
use glare9_provenance.Ledger.State.{Receipt, provisional, sealed, State, Environment}
use glare9_provenance.Ledger.Names.{to_hex, hex_digit}
use glare9_provenance.Ledger.Accept.{event_hash, accept_batch, accepted_receipt}
use glare9_provenance.Ledger.Active.{no_records}
use glare9_provenance.Ledger.Lookup.{
  receipt, receipt_hash, find_receipt, is_hash_text, is_lower_hex, all_hex_digits,
}
use glare9_provenance.Ledger.Identity.{PendingFits, SealedFits, ProvisionalFits, Identifies}
use glare9_provenance.Ledger.Identity.Accept.{IsUnambiguous}
use glare9_provenance.Ledger.Identity.Conflicts.{accept_batch-identified}
use glare9_provenance.Ledger.Identity.Steps.{Reaches, Reaches-Identifies}

-- A digest: 32 bytes.
abbrev pub IsDigest : Bytes → Type 0
IsDigest hash = (length hash ≡ 32) × IsBytes hash

hex_digit-is_lower_hex : (n : ℕ) → n < 16 → is_lower_hex (hex_digit n) ≡ true
hex_digit-is_lower_hex n h = ground arith

and-intro : (a b : Bool) → a ≡ true → b ≡ true → (a && b) ≡ true
and-intro a b h k = ground arith

to_hex-all_hex_digits : (hash : Bytes) → IsBytes hash → all_hex_digits (to_hex hash) ≡ true
unfolding to_hex all_hex_digits
to_hex-all_hex_digits [] h = refl
to_hex-all_hex_digits (b ∷ bs) (byte, rest) =
    and-intro _ _ (hex_digit-is_lower_hex (b / 16) (omega (arith, byte))) (
      and-intro _ _ (hex_digit-is_lower_hex (b % 16) (omega arith)) (to_hex-all_hex_digits bs rest))

length-to_hex : (hash : Bytes) → length (to_hex hash) ≡ length hash + length hash
unfolding to_hex
length-to_hex [] = refl
length-to_hex (b ∷ bs) = omega (arith, length-to_hex bs)

to_hex-is_hash_text : (hash : Bytes) → IsDigest hash → is_hash_text (to_hex hash) ≡ true
to_hex-is_hash_text hash (size, bytes) =
    let size' : length (to_hex hash) ≡ 64 = length-to_hex hash ∙ omega (arith, size) in
    and-intro _ _ (rw size' refl) (to_hex-all_hex_digits hash bytes)

module _ (env : Environment) (lifecycle : Lifecycle) where
  open env use {Event, Disk, event_id}

  -- A known event ID has a receipt, of the hash that it identifies.
  pub find_receipt-Identifies :
      (id : Text) (hash : Bytes) (s : State Event Disk)
      → Identifies env lifecycle id hash true s
      → (r : Receipt) × (find_receipt env lifecycle id s ≡ some r)
        × (receipt_hash env lifecycle r ≡ hash)
  unfolding find_receipt receipt_hash accepted_receipt
  find_receipt-Identifies id hash s (known, g) = elim (Option-cases (get id s.event_index)) [
    | inr (r, e) ↦ (
      sealed r,
      rw (e, find_receipt) refl,
      Entries-get (SealedFits env lifecycle id hash) id r s.event_index g.sealed_fits e refl,
    )
    | inl e ↦ elim (Option-cases (get id s.provisional_index)) [
      | inr (r, e') ↦ (
        provisional r,
        rw (e, e', find_receipt) refl,
        Entries-get (ProvisionalFits env lifecycle id hash) id r s.provisional_index
            g.provisional_fits e' refl,
      )
      | inl e' ↦
          (let (p, found) =
              has-get id s.pending_index (rw (has-eq_false id s.event_index e) at (known refl)) in
            let (under, fits) =
              Entries-get (PendingFits env lifecycle id hash) id p s.pending_index g.pending_fits
                found in
            (accepted_receipt env lifecycle p, rw (e, e', found, find_receipt) refl, fits under))
    ]
  ]

  -- Its lookup by that hash answers.
  receipt-Identifies :
      (id : Text) (hash : Bytes) (s : State Event Disk)
      → Identifies env lifecycle id hash true s
      → no_records id ≡ false
      → IsDigest hash
      → (r : Receipt) × (receipt env lifecycle id (to_hex hash) s ≡ ok r)
        × (receipt_hash env lifecycle r ≡ hash)
  unfolding receipt
  receipt-Identifies id hash s h named digest =
      let (r, found, same) = find_receipt-Identifies id hash s h in
      (
        r,
        rw (named, to_hex-is_hash_text hash digest, found, same, equals_refl (to_hex hash), receipt)
            refl,
        same,
      )

  -- An event of a batch that was accepted can be looked up by its ID and its hash ever after: after
  -- any sequence of calls, those that throw included, the lookup answers a receipt of that hash. It is
  -- assumed that its event ID is not empty, that it was not ambiguous before the batch, and that the
  -- hash function gives 32 bytes.
  pub receipt-accept_batch :
      (events : List Event) (s s' t : State Event Disk) (rs : List Receipt) (n : ℕ) (event : Event)
      → IsUnambiguous env lifecycle (event_id event) s
      → accept_batch env lifecycle events s ≡ (ok rs, s')
      → get_elem? events n ≡ some event
      → no_records (event_id event) ≡ false
      → IsDigest (event_hash env lifecycle event)
      → Reaches env lifecycle s' t
      → (r : Receipt) × (receipt env lifecycle
            (event_id event)
            (to_hex (event_hash env lifecycle event))
            t
          ≡ ok r)
        × (receipt_hash env lifecycle r ≡ event_hash env lifecycle event)
  receipt-accept_batch events s s' t rs n event u ran at_n named digest reaches =
      receipt-Identifies (event_id event) (event_hash env lifecycle event) t
        (Reaches-Identifies env lifecycle (event_id event) (event_hash env lifecycle event) s' t
          reaches (accept_batch-identified env lifecycle events s s' rs n event u ran at_n))
        named digest
