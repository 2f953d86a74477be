-- ===== src/Attestation/Threshold/Sound.antt =====
-- What an accepted threshold attestation of src/checkpoint.js shows.
use glare9_provenance.Prelude.{
  ◌≤◌, Bytes, true, false, ◌&&◌, not, [], ◌∷◌, List, leb, length, ok, ◌≡◌, refl, sym, ap, ◌⊎◌, inl,
  inr, subst, arith, leb→le, >>=-eq-ok, invariant-eq-ok, ok-injective, Bool-cases, All,
}
use glare9_provenance.Prelude.Octets.{equals→eq}
use glare9_provenance.Codec.Utf8.{Text}
use glare9_provenance.Crypto.Signatures.{Platform}
use glare9_provenance.Attestation.Checks.{sort_keys}
use glare9_provenance.Attestation.Epoch.{has_key}
use glare9_provenance.Attestation.Checkpoint.{CheckpointReport, ReceiptReport}
use glare9_provenance.Attestation.Threshold.{
  ThresholdPolicy, ThresholdReport, check_policy, trusting, is_matching, matching_keys,
  verify_checkpoint_bytes, verify_witness_receipt_bytes, verify_receipts,
  verify_threshold_attestation, max_witnesses,
}
use glare9_provenance.Attestation.Threshold.Signed.{
  IsReceipt, IsCheckpoint, verify_witness_receipt_bytes-IsReceipt,
  verify_checkpoint_bytes-IsCheckpoint,
}

-- No key stands twice in the list.
abbrev pub Distinct : List Text → Type 0
Distinct [] = Unit
Distinct (k ∷ ks) = (has_key ks k ≡ false) × Distinct ks

-- One of the inputs.
abbrev pub Among : Bytes → List Bytes → Type 0
Among x [] = ⊥
Among x (y ∷ ys) = (x ≡ y) ⊎ Among x ys

matching_keys-Distinct :
    (c : CheckpointReport) (rs : List ReceiptReport) → Distinct (matching_keys c rs)
unfolding matching_keys
matching_keys-Distinct c [] = tt
matching_keys-Distinct c (r ∷ rs) =
    let rest = matching_keys-Distinct c rs in
    elim (Bool-cases (is_matching c r && not (has_key (matching_keys c rs) r.witness_key_id))) [
      | inl new ↦ rw new (ground arith, rest)
      | inr old ↦ rw old rest
    ]

module _ (platform : Platform) where
  -- One of the inputs is a receipt for the checkpoint and its file, with a valid signature of the key,
  -- which is one of the policy.
  abbrev pub HasSigned : List Text → List Bytes → CheckpointReport → Text → Type 0
  HasSigned key_ids inputs c id =
      (input : Bytes) × (r : ReceiptReport) × Among input inputs
      × IsReceipt platform key_ids input r
      × (r.checkpoint_hash ≡ c.checkpoint_hash)
      × (r.checkpoint_file_hash ≡ c.file_hash)
      × (r.witness_key_id ≡ id)
      × (has_key key_ids id ≡ true)

  All-Among :
      (key_ids : List Text) (input : Bytes) (inputs : List Bytes) (c : CheckpointReport)
      (ids : List Text)
      → All (HasSigned key_ids inputs c) ids
      → All (HasSigned key_ids (input ∷ inputs) c) ids
  All-Among key_ids input inputs c [] h = tt
  All-Among key_ids input inputs c (id ∷ ids) ((i, r, among, a, b, d, e, f), others) =
      ((i, r, inr among, a, b, d, e, f), All-Among key_ids input inputs c ids others)

  matching_keys-HasSigned :
      (key_ids : List Text) (inputs : List Bytes) (c : CheckpointReport) (rs : List ReceiptReport)
      → verify_receipts platform key_ids inputs ≡ ok rs
      → All (HasSigned key_ids inputs c) (matching_keys c rs)
  unfolding verify_receipts matching_keys is_matching
  matching_keys-HasSigned key_ids [] c rs h =
      subst (λ (xs : List ReceiptReport). All (HasSigned key_ids [] c) (matching_keys c xs))
        (ok-injective _ _ h) tt
  matching_keys-HasSigned key_ids (input ∷ inputs) c rs h =
      let (r, verified, h1) =
        >>=-eq-ok (verify_witness_receipt_bytes platform (trusting key_ids) input) _ h in
      let (others, rest, h2) = >>=-eq-ok (verify_receipts platform key_ids inputs) _ h1 in
      let signed =
        All-Among key_ids input inputs c (matching_keys c others)
          (matching_keys-HasSigned key_ids inputs c others rest) in
      let receipt = verify_witness_receipt_bytes-IsReceipt platform key_ids input r verified in
      subst
        (λ (xs : List ReceiptReport).
          All (HasSigned key_ids (input ∷ inputs) c) (matching_keys c xs))
        (ok-injective _ _ h2)
        (elim (Bool-cases
          (is_matching c r && not (has_key (matching_keys c others) r.witness_key_id))) [
            | inl new ↦ rw new (
              (
                input,
                r,
                inl refl,
                receipt,
                equals→eq _ _ (ground arith),
                equals→eq _ _ (ground arith),
                refl,
                subst (λ (id : Text). has_key key_ids id ≡ true) (sym receipt.by_signer)
                    receipt.trusted,
              ),
              signed,
            )
            | inr old ↦ rw old signed
          ])

  -- An accepted attestation names at least as many different keys as the policy's threshold, which
  -- is not zero. Each is a key of the policy, and one of the inputs holds a statement, canonical and
  -- valid, that names the hash of the checkpoint and the hash of its file, with a signature that
  -- the platform's verification accepts for the statement's bytes under the domain of witness
  -- signatures and for the public key that has this key ID. The checkpoint's bytes hold its
  -- statement, canonical and valid, with such a signature under the domain of checkpoints, of a
  -- publisher whose key ID is one of the trusted ones.
  pub verify_threshold_attestation_sound :
      (checkpoint_bytes : Bytes) (receipt_bytes : List Bytes) (policy : ThresholdPolicy)
      (publishers : List Text) (report : ThresholdReport)
      → verify_threshold_attestation platform checkpoint_bytes receipt_bytes policy publishers
        ≡ ok report
      → (c : CheckpointReport) × (keys : List Text) × IsCheckpoint platform publishers
          checkpoint_bytes c
        × (report.checkpoint_hash ≡ c.checkpoint_hash)
        × (report.witness_key_ids ≡ sort_keys keys)
        × (1 ≤ policy.threshold)
        × (policy.threshold ≤ length keys)
        × Distinct keys
        × All (HasSigned policy.witness_key_ids receipt_bytes c) keys
  unfolding verify_threshold_attestation check_policy
  verify_threshold_attestation_sound checkpoint_bytes receipt_bytes policy publishers report h =
      let (_, valid, h1) = >>=-eq-ok (check_policy policy) _ h in
      let (positive, _) = invariant-eq-ok (leb 1 policy.threshold) "THRESHOLD_POLICY" _ valid in
      let (_, h2) =
        invariant-eq-ok (leb (length receipt_bytes) max_witnesses) "THRESHOLD_RECEIPTS" _ h1 in
      let (c, verified, h3) =
        >>=-eq-ok (verify_checkpoint_bytes platform (trusting publishers) checkpoint_bytes) _ h2 in
      let (rs, received, h4) =
        >>=-eq-ok (verify_receipts platform policy.witness_key_ids receipt_bytes) _ h3 in
      let keys = matching_keys c rs in
      let (enough, h5) =
        invariant-eq-ok (leb policy.threshold (length keys)) "THRESHOLD_NOT_MET" _ h4 in
      let same = ok-injective _ _ h5 in
      (
        c,
        keys,
        verify_checkpoint_bytes-IsCheckpoint platform publishers checkpoint_bytes c verified,
        sym (ap (λ (x : ThresholdReport). x.checkpoint_hash) same),
        sym (ap (λ (x : ThresholdReport). x.witness_key_ids) same),
        leb→le _ _ positive,
        leb→le _ _ enough,
        matching_keys-Distinct c rs,
        matching_keys-HasSigned policy.witness_key_ids receipt_bytes c rs received,
      )
