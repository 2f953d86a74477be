-- ===== src/Crypto.antt =====
-- src/crypto.js: domain-separated hashing. `sha256` is the hash of node:crypto, a parameter.
pub mod Injective
pub mod Hex
pub mod Signatures
use Prim.Native.Char.{code}
use Prim.Native.String.{String}
use glare9_provenance.Prelude.{
  ℕ, zero, suc, ◌+◌, ◌/◌, ◌%◌, ◌^◌, ◌≢◌, Bytes, Bool, true, false, not, [], ◌∷◌, ◌++◌, List, ◌==◌,
  ◌≡◌, length, Result, ok, ◌>>=◌, ◌>>◌, invariant,
}
use glare9_provenance.Prelude.Octets.{write_u32}

-- The codes of an ASCII literal: its UTF-8 bytes.
abbrev pub codes : String → Bytes
codes String.[] = []
codes (String.◌∷◌ c s) = code c ∷ codes s

-- lengthPrefix(length): writeBigUInt64BE
unfoldable pub length_prefix : ℕ → Bytes
length_prefix n = write_u32 (n / 2 ^ 32) ++ write_u32 (n % 2 ^ 32)

unfoldable pub prefixed : Bytes → Bytes
prefixed bytes = length_prefix (length bytes) ++ bytes

unfoldable pub prefixed_parts : List Bytes → Bytes
prefixed_parts [] = []
prefixed_parts (part ∷ parts) = prefixed part ++ prefixed_parts parts

-- The UTF-8 bytes of `G9P\0${domain}`.
abbrev pub domain_bytes : Bytes → Bytes
domain_bytes domain = b'G' ∷ b'9' ∷ b'P' ∷ 0 ∷ domain

-- What is fed to the hash.
unfoldable pub hash_message : Bytes → List Bytes → Bytes
hash_message domain parts = prefixed (domain_bytes domain) ++ prefixed_parts parts

-- Two messages with one hash.
abbrev pub Collision : (Bytes → Bytes) → Type 0
Collision sha256 = (x : Bytes) × (y : Bytes) × (x ≢ y) × (sha256 x ≡ sha256 y)

module _ (sha256 : Bytes → Bytes) where
  -- The hash under a domain that passes the guard.
  unfoldable pub digest : Bytes → List Bytes → Bytes
  digest domain parts = sha256 (hash_message domain parts)

  -- domainHash(domain, ...parts)
  unfoldable pub domain_hash : Bytes → List Bytes → Result Bytes
  domain_hash domain parts =
      invariant (not (length domain == 0)) "HASH_DOMAIN" >> ok (digest domain parts)
