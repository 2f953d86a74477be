-- ===== src/Crypto/Signatures/Signed.antt =====
-- What signDomainWithSigner of src/crypto.js has checked of the signature that it returns.
use glare9_provenance.Prelude.{
  Bytes, true, not, [], ◌∷◌, ◌==◌, ◌≡◌, length, some, String, ok, >>=-eq-ok, arith, invariant-eq-ok,
}
use glare9_provenance.Prelude.Octets.{equals, equals→eq}
use glare9_provenance.Crypto.{digest, domain_hash}
use glare9_provenance.Crypto.Signatures.{
  Platform, Signer, ed25519, public_key_id, import_public_key, validate_signer,
  sign_domain_with_signer,
}

module _ (platform : Platform) where
  open platform use {PublicKey, sha256, create_public_key, crypto_verify}

  -- The signer is whom it says, and its key verifies the signature.
  pub record IsSigned (signer : Signer) (domain payload content : Bytes) : Type 0 where
    pub key : PublicKey
    pub imported : create_public_key signer.public_key_der ≡ some key
    pub verified : crypto_verify (digest sha256 domain (payload ∷ [])) key content ≡ ok true
    pub size : length content ≡ 64
    pub algorithm : signer.algorithm ≡ ed25519
    pub key_id : signer.key_id ≡ public_key_id platform signer.public_key_der

  pub import_public_key-eq-ok :
      (code : String) (der : Bytes) (key : PublicKey)
      → import_public_key platform code der ≡ ok key
      → create_public_key der ≡ some key
  unfolding import_public_key
  import_public_key-eq-ok code der key h = ground arith

  pub sign_domain_with_signer-IsSigned :
      (signer : Signer) (domain payload content : Bytes)
      → sign_domain_with_signer platform signer domain payload ≡ ok content
      → IsSigned signer domain payload content
  unfolding sign_domain_with_signer validate_signer domain_hash
  sign_domain_with_signer-IsSigned signer domain payload content h =
      let (u, valid, h1) = >>=-eq-ok (validate_signer platform "SIGNER_IDENTITY" signer) _ h in
      let (algorithm, v1) = invariant-eq-ok (equals signer.algorithm ed25519) _ _ valid in
      let (named, v2) =
        invariant-eq-ok (equals signer.key_id (public_key_id platform signer.public_key_der)) _ _
          v1 in
      let (message, hashed, h2) = >>=-eq-ok (domain_hash sha256 domain (payload ∷ [])) _ h1 in
      let (_, digested) = invariant-eq-ok (not (length domain == 0)) _ _ hashed in
      let (signature, signed, h3) = >>=-eq-ok (signer.sign message) _ h2 in
      let (sized, h4) = invariant-eq-ok (length signature == 64) _ _ h3 in
      let (key, imported, h5) =
        >>=-eq-ok (import_public_key platform "SIGNER_IDENTITY" signer.public_key_der) _ h4 in
      let (good, checked, h6) = >>=-eq-ok (crypto_verify message key signature) _ h5 in
      let (accepted, returned) = invariant-eq-ok good _ _ h6 in
      let same : signature ≡ content = cc in
      record {
        key = key;
        imported = import_public_key-eq-ok "SIGNER_IDENTITY" signer.public_key_der key imported;
        verified = cc;
        size = ground arith;
        algorithm = equals→eq _ _ algorithm;
        key_id = equals→eq _ _ named;
      }

  pub import_public_key-created :
      (code : String) (der : Bytes) (key : PublicKey)
      → create_public_key der ≡ some key
      → import_public_key platform code der ≡ ok key
  unfolding import_public_key
  import_public_key-created code der key h = rw (import_public_key, h)
