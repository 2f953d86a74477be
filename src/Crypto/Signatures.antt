-- ===== src/Crypto/Signatures.antt =====
-- The keys and signatures of src/crypto.js. What it takes from node:crypto and the platform is the
-- record `Platform`; a signer's own operation may throw.
pub mod Signed
use glare9_provenance.Prelude.{
  ℕ, Bytes, Bool, true, false, [], ◌∷◌, ◌==◌, length, Option, none, some, String, Result, ok, err,
  ◌>>=◌, ◌>>◌, invariant,
}
use glare9_provenance.Prelude.Octets.{equals}
use glare9_provenance.Codec.Utf8.{Text}
use glare9_provenance.Crypto.{codes, digest, domain_hash}
use glare9_provenance.Ledger.Names.{to_hex}

pub record Platform : Type 1 where
  pub PublicKey : Type 0
  pub sha256 : Bytes → Bytes
  -- value.normalize("NFC") === value
  pub is_nfc : Text → Bool
  -- createPublicKey({ key, format: "der", type: "spki" }); `none` where it throws.
  pub create_public_key : Bytes → Option PublicKey
  -- publicKey.asymmetricKeyType === "ed25519"
  pub is_ed25519 : PublicKey → Bool
  -- cryptoVerify(null, message, publicKey, signature), which throws for a key that cannot sign.
  pub crypto_verify : Bytes → PublicKey → Bytes → Result Bool

pub record Signer : Type 0 where
  pub algorithm : Text
  pub key_id : Text
  pub public_key_der : Bytes
  -- typeof signer.sign === "function" || signer.privateKey
  pub can_sign : Bool
  -- await signer.sign(message), or cryptoSign(null, message, signer.privateKey)
  pub sign : Bytes → Result Bytes

abbrev pub ed25519 : Text
ed25519 = codes "ed25519"

module _ (platform : Platform) where
  open platform use {PublicKey, sha256, create_public_key, is_ed25519, crypto_verify}

  -- publicKeyId(publicKeyDer)
  unfoldable pub public_key_id : Bytes → Text
  public_key_id der = to_hex (digest sha256 (codes "public-key-id-v1") (der ∷ []))

  -- importPublicKey(publicKeyDer), with the code of the error that a caller throws in its place
  unfoldable pub import_public_key : String → Bytes → Result PublicKey
  import_public_key code der = elim (create_public_key der) [ none ↦ err code | some key ↦ ok key ]

  -- validateSigner(signer, code)
  unfoldable pub validate_signer : String → Signer → Result (Unit {0})
  validate_signer code signer =
      invariant (equals signer.algorithm ed25519) code
      >> (invariant (equals signer.key_id (public_key_id signer.public_key_der)) code
          >> (invariant signer.can_sign code
              >> (import_public_key code signer.public_key_der >>= λ key.
                  invariant (is_ed25519 key) code)))

  -- verifyDomainCommitment(publicKey, domain, commitmentBytes, signature)
  unfoldable pub verify_domain_commitment : PublicKey → Bytes → Bytes → Bytes → Result Bool
  verify_domain_commitment key domain commitment signature =
      domain_hash sha256 domain (commitment ∷ []) >>= λ message. crypto_verify message key signature

  -- signDomainWithSigner(signer, domain, commitmentBytes)
  unfoldable pub sign_domain_with_signer : Signer → Bytes → Bytes → Result Bytes
  sign_domain_with_signer signer domain commitment =
      validate_signer "SIGNER_IDENTITY" signer
      >> (domain_hash sha256 domain (commitment ∷ []) >>= λ message.
          signer.sign message >>= λ signature.
          invariant (length signature == 64) "SIGNER_SIGNATURE"
          >> (import_public_key "SIGNER_IDENTITY" signer.public_key_der >>= λ key.
              crypto_verify message key signature >>= λ valid.
              invariant valid "SIGNER_SIGNATURE" >> ok signature))
