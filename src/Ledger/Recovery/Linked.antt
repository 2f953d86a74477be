-- ===== src/Ledger/Recovery/Linked.antt =====
-- A recovered history of services/ledger/src/local-ledger.js is a chain of signed epochs.
use glare9_provenance.Prelude.{
  ℕ, suc, ◌-◌, true, ◌&&◌, [], ◌∷◌, List, ◌≡◌, refl, sym, length, Option, none, some, ok, arith,
  >>=-eq-ok, invariant-eq-ok, ok-injective, subst, ap, ◌∙◌,
}
use glare9_provenance.Prelude.Octets.{equals, equals→eq}
use glare9_provenance.Codec.Utf8.{Text}
use glare9_provenance.Crypto.Hex.{from_hex, to_hex-from_hex}
use glare9_provenance.Crypto.Signatures.{Platform}
use glare9_provenance.Sharding.{RoutingPolicy}
use glare9_provenance.Ledger.Names.{to_hex, routing_epoch_file_name, ledger_directory_name}
use glare9_provenance.Attestation.Heads.{hex_heads}
use glare9_provenance.Attestation.Descriptor.{default_epoch_limits, Descriptor}
use glare9_provenance.Attestation.Validation.Valid.{validate_descriptor-IsValid}
use glare9_provenance.Attestation.Validation.Parts.{PolicyIsValid}
use glare9_provenance.Attestation.Epoch.{Report, with_hex_hashes, verify_routing_epoch_bytes}
use glare9_provenance.Attestation.Epoch.Sound.{verify_routing_epoch_bytes-Attests}
use glare9_provenance.Ledger.Recovery.{
  Stored, Previous, previous_of, recovery_options, is_same_ledger, recover_epoch, recover_epochs,
}
use glare9_provenance.Ledger.Recovery.History.{
  Names, Names-hex_heads, Succeeds, IsHistory, Carries, options-first, options-next,
}

module _ (platform : Platform) (authority directory : Text) where
  open platform use {sha256}

  -- What one round of the loop has checked.
  pub record IsRecovered (n : ℕ) (previous : Option Previous) (stored : Stored) (r : Report)
      : Type 0 where
    pub verified :
        verify_routing_epoch_bytes platform (recovery_options authority n previous) stored.content
        ≡ ok r
    pub ledger : is_same_ledger previous r.descriptor.ledger_id ≡ true
    pub place : ledger_directory_name sha256 r.descriptor.ledger_id ≡ directory

  pub recover_epoch-IsRecovered :
      (n : ℕ) (previous : Option Previous) (stored : Stored) (r : Report)
      → recover_epoch platform authority directory n previous stored ≡ ok r
      → IsRecovered n previous stored r
  unfolding recover_epoch
  recover_epoch-IsRecovered n previous stored r h =
      let (_, h1) = invariant-eq-ok (equals stored.file_name (routing_epoch_file_name n)) _ _ h in
      let (r', verified, h2) =
        >>=-eq-ok
          (verify_routing_epoch_bytes platform (recovery_options authority n previous)
            stored.content)
          _ h1 in
      let (placed, h3) =
        invariant-eq-ok
          (is_same_ledger previous r'.descriptor.ledger_id
            && equals (ledger_directory_name sha256 r'.descriptor.ledger_id) directory)
          _ _ h2 in
      let same : r' ≡ r = ok-injective _ _ h3 in
      subst (IsRecovered n previous stored) same (record {
        verified = verified;
        ledger = ground arith;
        place = equals→eq _ _ (ground arith);
      })

  -- What the report says of an epoch, by the descriptor that was validated.
  record Says (d : Descriptor) (r : Report) : Type 0 where
    number : r.descriptor.epoch_number ≡ d.epoch_number
    ledger : r.descriptor.ledger_id ≡ d.ledger_id
    key_id : r.descriptor.topology_authority.key_id ≡ d.topology_authority.key_id
    policy : r.descriptor.routing_policy ≡ d.routing_policy
    heads : r.descriptor.previous_shard_heads ≡ hex_heads d.previous_shard_heads
    link :
        r.descriptor.previous_epoch_hash
        ≡ (elim d.previous_epoch_hash [ none ↦ none | some h ↦ some (to_hex h) ])

  Says-described : (d : Descriptor) (r : Report) → r.descriptor ≡ with_hex_hashes d → Says d r
  unfolding with_hex_hashes
  Says-described d r e = record {
    number = ap (λ (x : Descriptor). x.epoch_number) e;
    ledger = ap (λ (x : Descriptor). x.ledger_id) e;
    key_id = ap (λ (x : Descriptor). x.topology_authority.key_id) e;
    policy = ap (λ (x : Descriptor). x.routing_policy) e;
    heads = ap (λ (x : Descriptor). x.previous_shard_heads) e;
    link = ap (λ (x : Descriptor). x.previous_epoch_hash) e;
  }

  Succeeds-recovered :
      (n : ℕ) (previous : Option Previous) (p : Option Report) (stored : Stored) (r : Report)
      → Carries n previous p
      → IsRecovered n previous stored r
      → Succeeds p r
        × (r.descriptor.topology_authority.key_id ≡ authority)
        × PolicyIsValid r.descriptor.routing_policy
        × (r.descriptor.epoch_number ≡ n)
  unfolding recovery_options is_same_ledger
  Succeeds-recovered n none none stored r first i =
      let a = verify_routing_epoch_bytes-Attests platform _ stored.content r i.verified in
      let valid =
        validate_descriptor-IsValid platform default_epoch_limits a.value a.d a.validated in
      let (trusted, numbered, linked) = options-first authority n a.d a.allowed in
      let says = Says-described a.d r a.described in
      (
        record { number = says.number ∙ numbered ∙ first; link = rw linked at says.link },
        says.key_id ∙ trusted,
        subst PolicyIsValid (sym says.policy) valid.policy,
        says.number ∙ numbered,
      )
  Succeeds-recovered n none (some p) stored r h i = absurd h
  Succeeds-recovered n (some q) none stored r h i = absurd h
  Succeeds-recovered n (some q) (some p) stored r (counted, hashed, policed, named, policy) i =
      let a = verify_routing_epoch_bytes-Attests platform _ stored.content r i.verified in
      let valid =
        validate_descriptor-IsValid platform default_epoch_limits a.value a.d a.validated in
      let (trusted, numbered, linked, complete) = options-next authority n q a.d policy a.allowed in
      let says = Says-described a.d r a.described in
      let (names, size) =
        Names-hex_heads (a.d.epoch_number - 1) 0 a.d.previous_shard_heads valid.heads.0 in
      let before_it : a.d.epoch_number - 1 ≡ p.descriptor.epoch_number =
        omega (arith, numbered, counted) in
      (
        record {
          number = says.number ∙ numbered ∙ counted;
          link = (rw linked at says.link) ∙ ap some hashed;
          ledger = equals→eq _ _ i.ledger ∙ named;
          heads =
              subst (Names p.descriptor.epoch_number 0) (sym says.heads)
                (subst (λ (k : ℕ). Names k 0 (hex_heads a.d.previous_shard_heads)) before_it names);
          complete =
              ap length says.heads
              ∙ size
              ∙ complete
              ∙ ap (λ (x : RoutingPolicy). x.shard_count) policed;
        },
        says.key_id ∙ trusted,
        subst PolicyIsValid (sym says.policy) valid.policy,
        says.number ∙ numbered,
      )

  recover_epochs-chain :
      (n : ℕ) (previous : Option Previous) (p : Option Report) (files : List Stored)
      (reports : List Report)
      → Carries n previous p
      → recover_epochs platform authority directory n previous files ≡ ok reports
      → IsHistory sha256 authority directory p reports
  unfolding recover_epochs
  recover_epochs-chain n previous p [] [] c h = tt
  recover_epochs-chain n previous p [] (r ∷ rs) c h = cc
  recover_epochs-chain n previous p (stored ∷ files) reports c h =
      let (r, recovered, h1) =
        >>=-eq-ok (recover_epoch platform authority directory n previous stored) _ h in
      let (hash, read, h2) = >>=-eq-ok (from_hex r.epoch_hash (some 32)) _ h1 in
      let (rest, later, h3) =
        >>=-eq-ok
          (recover_epochs platform authority directory (suc n) (some (previous_of hash r)) files) _
          h2 in
      let i = recover_epoch-IsRecovered n previous stored r recovered in
      let (succeeds, trusted, policy, numbered) = Succeeds-recovered n previous p stored r c i in
      let carries : Carries (suc n) (some (previous_of hash r)) (some r) = (
        ap suc (sym numbered),
        to_hex-from_hex r.epoch_hash (some 32) hash read,
        refl,
        refl,
        policy,
      ) in
      let chain =
        recover_epochs-chain (suc n) (some (previous_of hash r)) (some r) files rest carries
          later in
      subst (IsHistory sha256 authority directory p) (ok-injective _ _ h3)
        ((succeeds, trusted, i.place), chain)

  -- The history that is recovered from stored files is a chain of epochs of the one trusted
  -- authority, in the ledger's directory: the first has number zero and no predecessor; every other
  -- has the next number, the ledger and the epoch hash of the one before it, and names the head of
  -- every shard of that epoch, in order.
  pub recover_epochs-IsHistory :
      (files : List Stored) (reports : List Report)
      → recover_epochs platform authority directory 0 none files ≡ ok reports
      → IsHistory sha256 authority directory none reports
  recover_epochs-IsHistory files reports h = recover_epochs-chain 0 none none files reports refl h
