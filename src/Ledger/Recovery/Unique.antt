-- ===== src/Ledger/Recovery/Unique.antt =====
-- The epoch hash of the last epoch determines the recovered history of services/ledger/src/local-ledger.js.
use glare9_provenance.Prelude.{
  ℕ, suc, ◌+◌, Bytes, [], ◌∷◌, List, ◌≡◌, refl, sym, length, Option, none, some, ok, arith,
  >>=-eq-ok, ok-injective, subst, ap, ap₂, ◌∙◌, ◌⊎◌, inl, inr, Option-cases, All, map,
}
use glare9_provenance.Codec.Utf8.{Text}
use glare9_provenance.Crypto.{Collision}
use glare9_provenance.Crypto.Hex.{from_hex}
use glare9_provenance.Crypto.Signatures.{Platform}
use glare9_provenance.Attestation.Descriptor.{default_epoch_limits, Descriptor}
use glare9_provenance.Attestation.Epoch.{Options, Report, verify_routing_epoch_bytes}
use glare9_provenance.Attestation.Epoch.Sound.{epoch_hash-descriptor}
use glare9_provenance.Ledger.Recovery.{
  Stored, Previous, previous_of, recovery_options, recover_epoch, recover_epochs, last_report,
}
use glare9_provenance.Ledger.Recovery.History.{Follows, IsHistory}
use glare9_provenance.Ledger.Recovery.Linked.{recover_epoch-IsRecovered, recover_epochs-IsHistory}

-- What the epochs say, without their signatures.
abbrev pub descriptors : List Report → List Descriptor
descriptors = map (λ (r : Report). r.descriptor)

-- The epoch hash of the last epoch, if there is one.
abbrev pub hash_of : Option Report → Option Text
hash_of none = none
hash_of (some r) = some r.epoch_hash

abbrev pub last_hash : List Report → Option Text
last_hash reports = hash_of (last_report reports)

-- The number of an epoch that stands where the previous one leads.
abbrev number_after : Option Report → ℕ
number_after none = 0
number_after (some p) = suc p.descriptor.epoch_number

module _ (platform : Platform) where
  open platform use {sha256}

  -- A verifier has accepted the report's file, under the default limits.
  abbrev IsVerified : Report → Type 0
  IsVerified r =
      (options : Options) × (file : Bytes) × (options.limits ≡ default_epoch_limits)
      × (verify_routing_epoch_bytes platform options file ≡ ok r)

  recover_epochs-AreVerified :
      (authority directory : Text) (n : ℕ) (previous : Option Previous) (files : List Stored)
      (reports : List Report)
      → recover_epochs platform authority directory n previous files ≡ ok reports
      → All IsVerified reports
  unfolding recover_epochs recovery_options
  recover_epochs-AreVerified authority directory n previous [] reports h =
      subst (All IsVerified) (ok-injective _ _ h) tt
  recover_epochs-AreVerified authority directory n previous (stored ∷ files) reports h =
      let (r, recovered, h1) =
        >>=-eq-ok (recover_epoch platform authority directory n previous stored) _ h in
      let (hash, _, h2) = >>=-eq-ok (from_hex r.epoch_hash (some 32)) _ h1 in
      let (rest, later, h3) =
        >>=-eq-ok
          (recover_epochs platform authority directory (suc n) (some (previous_of hash r)) files) _
          h2 in
      let i =
        recover_epoch-IsRecovered platform authority directory n previous stored r recovered in
      let others =
        recover_epochs-AreVerified authority directory (suc n) (some (previous_of hash r)) files
          rest later in
      subst (All IsVerified) (ok-injective _ _ h3)
        ((recovery_options authority n previous, stored.content, refl, i.verified), others)

  same_hash :
      (r s : Report)
      → IsVerified r
      → IsVerified s
      → r.epoch_hash ≡ s.epoch_hash
      → (r.descriptor ≡ s.descriptor) ⊎ Collision sha256
  same_hash r s (o, x, limited, hx) (p, y, limited', hy) same =
      epoch_hash-descriptor platform o p x y r s (limited ∙ sym limited') hx hy same

  -- The last report of a history is one of its reports, and its number counts them.
  last_report-number :
      (authority directory : Text) (p : Option Report) (reports : List Report) (last : Report)
      → IsHistory sha256 authority directory p reports
      → All IsVerified reports
      → last_report reports ≡ some last
      → IsVerified last × (suc last.descriptor.epoch_number ≡ number_after p + length reports)
  unfolding last_report
  last_report-number a d p [] last h v e = cc
  last_report-number a d none (r ∷ []) last ((starts, _, _), _) (v, _) e =
      let same : r ≡ last = cc in
      (
        subst IsVerified same v,
        omega (arith, starts.number, ap (λ (x : Report). x.descriptor.epoch_number) same),
      )
  last_report-number a d (some p) (r ∷ []) last ((follows, _, _), _) (v, _) e =
      let same : r ≡ last = cc in
      (
        subst IsVerified same v,
        omega (arith, follows.number, ap (λ (x : Report). x.descriptor.epoch_number) same),
      )
  last_report-number a d none (r ∷ s ∷ rs) last ((starts, _, _), h) (_, v) e =
      let (verified, counted) = last_report-number a d (some r) (s ∷ rs) last h v e in
      (verified, omega (arith, counted, starts.number))
  last_report-number a d (some p) (r ∷ s ∷ rs) last ((follows, _, _), h) (_, v) e =
      let (verified, counted) = last_report-number a d (some r) (s ∷ rs) last h v e in
      (verified, omega (arith, counted, follows.number))

  -- Histories of one length whose last epochs agree agree throughout.
  same_histories :
      (a b d e : Text) (p q : Option Report) (xs ys : List Report) (x y : Report)
      → IsHistory sha256 a d p xs
      → IsHistory sha256 b e q ys
      → All IsVerified xs
      → All IsVerified ys
      → last_report xs ≡ some x
      → last_report ys ≡ some y
      → x.epoch_hash ≡ y.epoch_hash
      → length xs ≡ length ys
      → (descriptors xs ≡ descriptors ys) ⊎ Collision sha256
  unfolding last_report
  same_histories a b d e p q [] ys x y hx hy vx vy lx ly same size = cc
  same_histories a b d e p q (r ∷ rs) [] x y hx hy vx vy lx ly same size = cc
  same_histories a b d e p q (r ∷ []) (s ∷ []) x y hx hy (vx, _) (vy, _) lx ly same size =
      elim (same_hash r s vx vy (cc)) [
        | inl one ↦ inl (ap (λ (z : Descriptor). z ∷ []) one)
        | inr collision ↦ inr collision
      ]
  same_histories a b d e p q (r ∷ []) (s ∷ s' ∷ ss) x y hx hy vx vy lx ly same size =
      absurd (omega arith)
  same_histories a b d e p q (r ∷ r' ∷ rs) (s ∷ []) x y hx hy vx vy lx ly same size =
      absurd (omega arith)
  same_histories a b d e p q (r ∷ r' ∷ rs) (s ∷ s' ∷ ss) x y (_, hx) (_, hy) (vx, vxs) (vy, vys) lx
        ly same size =
      elim (same_histories a b d e (some r) (some s) (r' ∷ rs) (s' ∷ ss) x y hx hy vxs vys lx ly
        same (omega arith)) [
          | inl tails ↦
              (let follows : Follows r r' = hx.0.0 in
                let follows' : Follows s s' = hy.0.0 in
                let next : r'.descriptor ≡ s'.descriptor = cc in
                let hash : r.epoch_hash ≡ s.epoch_hash = cc (follows.link, follows'.link) in
                elim (same_hash r s vx vy hash) [
                  | inl one ↦ inl (ap₂ ◌∷◌ one tails)
                  | inr collision ↦ inr collision
                ])
          | inr collision ↦ inr collision
        ]

  -- Whole histories whose last epochs agree.
  same_last :
      (a b d e : Text) (xs ys : List Report) (x y : Report)
      → IsHistory sha256 a d none xs
      → IsHistory sha256 b e none ys
      → All IsVerified xs
      → All IsVerified ys
      → last_report xs ≡ some x
      → last_report ys ≡ some y
      → x.epoch_hash ≡ y.epoch_hash
      → (descriptors xs ≡ descriptors ys) ⊎ Collision sha256
  same_last a b d e xs ys x y hx hy vx vy lx ly same =
      let (wx, counted) = last_report-number a d none xs x hx vx lx in
      let (wy, counted') = last_report-number b e none ys y hy vy ly in
      elim (same_hash x y wx wy same) [
        | inl one ↦
            (let number = ap (λ (z : Descriptor). z.epoch_number) one in
              same_histories a b d e none none xs ys x y hx hy vx vy lx ly same
                (omega (arith, counted, counted', number)))
        | inr collision ↦ inr collision
      ]

  last_report-none : (reports : List Report) → last_report reports ≡ none → reports ≡ []
  unfolding last_report
  last_report-none [] h = refl
  last_report-none (r ∷ []) h = cc
  last_report-none (r ∷ s ∷ rs) h = absurd (cc (last_report-none (s ∷ rs) h))

  -- Two histories that are recovered from any files, for any authorities and directories, say the
  -- same in every epoch if they have the same last epoch hash, or both none, or else two inputs of
  -- the hash collide.
  pub recover_epochs_unique :
      (authority directory authority' directory' : Text) (files files' : List Stored)
      (reports reports' : List Report)
      → recover_epochs platform authority directory 0 none files ≡ ok reports
      → recover_epochs platform authority' directory' 0 none files' ≡ ok reports'
      → last_hash reports ≡ last_hash reports'
      → (descriptors reports ≡ descriptors reports') ⊎ Collision sha256
  recover_epochs_unique a d b e files files' xs ys hx hy same =
      let history = recover_epochs-IsHistory platform a d files xs hx in
      let history' = recover_epochs-IsHistory platform b e files' ys hy in
      let verified = recover_epochs-AreVerified a d 0 none files xs hx in
      let verified' = recover_epochs-AreVerified b e 0 none files' ys hy in
      elim (Option-cases (last_report xs)) [
        | inl nothing ↦ elim (Option-cases (last_report ys)) [
          | inl nothing' ↦ inl (rw (last_report-none xs nothing, last_report-none ys nothing') refl)
          | inr (y, ly) ↦ absurd (cc (rw (nothing, ly) at same))
        ]
        | inr (x, lx) ↦ elim (Option-cases (last_report ys)) [
          | inl nothing' ↦ absurd (cc (rw (lx, nothing') at same))
          | inr (y, ly) ↦
              same_last a b d e xs ys x y history history' verified verified' lx ly
                (cc (rw (lx, ly) at same))
        ]
      ]
