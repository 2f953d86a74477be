-- ===== src/Crypto/Injective.antt =====
-- Domains and parts are told apart by the bytes that are hashed.
use glare9_provenance.Prelude.{
  ℕ, ◌^◌, ◌<◌, ◌≢◌, ◌⊎◌, inl, inr, Bytes, [], ◌∷◌, ◌++◌, List, ◌≡◌, refl, ap, ap₂, length,
  append_assoc, All, arith, Bool-cases, ◌∙◌, sym,
}
use glare9_provenance.Prelude.Octets.{equals, equals_refl, equals→eq, write_u32}
use glare9_provenance.Crypto.{
  length_prefix, prefixed, prefixed_parts, domain_bytes, hash_message, digest, Collision,
}

-- A part is shorter than 2 ^ 64 bytes.
abbrev pub IsShort : Bytes → Type 0
IsShort bytes = length bytes < 2 ^ 64

length_prefix-injective :
    (n m : ℕ) (x y : Bytes)
    → n < 2 ^ 64
    → m < 2 ^ 64
    → length_prefix n ++ x ≡ length_prefix m ++ y
    → (n ≡ m) × (x ≡ y)
unfolding length_prefix write_u32
length_prefix-injective n m x y hn hm e = (ground arith, cc)

append_injective : (a b x y : Bytes) → length a ≡ length b → a ++ x ≡ b ++ y → (a ≡ b) × (x ≡ y)
append_injective [] [] x y l e = (refl, e)
append_injective [] (b ∷ bs) x y l e = absurd (omega arith)
append_injective (a ∷ as') [] x y l e = absurd (omega arith)
append_injective (a ∷ as') (b ∷ bs) x y l e =
    let (heads, tails) = append_injective as' bs x y (omega arith) (cc) in (cc, tails)

-- A length-prefixed part can be told from what follows it.
pub prefixed-injective :
    (a b x y : Bytes)
    → IsShort a
    → IsShort b
    → prefixed a ++ x ≡ prefixed b ++ y
    → (a ≡ b) × (x ≡ y)
unfolding prefixed
prefixed-injective a b x y ha hb e =
    let e' =
      sym (append_assoc (length_prefix (length a)) a x)
      ∙ e
      ∙ append_assoc (length_prefix (length b)) b y in
    let (lengths, rest) =
      length_prefix-injective (length a) (length b) (a ++ x) (b ++ y) ha hb e' in
    append_injective a b x y lengths rest

prefixed-nonempty : (p x : Bytes) → prefixed p ++ x ≢ []
unfolding prefixed length_prefix write_u32
prefixed-nonempty p x = cc

prefixed_parts-injective :
    (ps qs : List Bytes)
    → All IsShort ps
    → All IsShort qs
    → prefixed_parts ps ≡ prefixed_parts qs
    → ps ≡ qs
unfolding prefixed_parts
prefixed_parts-injective [] [] hp hq e = refl
prefixed_parts-injective [] (q ∷ qs) hp hq e =
    absurd (prefixed-nonempty q (prefixed_parts qs) (sym e))
prefixed_parts-injective (p ∷ ps) [] hp hq e = absurd (prefixed-nonempty p (prefixed_parts ps) e)
prefixed_parts-injective (p ∷ ps) (q ∷ qs) (hp, hps) (hq, hqs) e =
    let (same, rest) = prefixed-injective p q (prefixed_parts ps) (prefixed_parts qs) hp hq e in
    ap₂ ◌∷◌ same (prefixed_parts-injective ps qs hps hqs rest)

-- The hashed bytes determine the domain and the parts, for domains shorter than 2 ^ 32 bytes and
-- parts shorter than 2 ^ 64.
pub hash_message-injective :
    (d e : Bytes) (ps qs : List Bytes)
    → length d < 2 ^ 32
    → length e < 2 ^ 32
    → All IsShort ps
    → All IsShort qs
    → hash_message d ps ≡ hash_message e qs
    → (d ≡ e) × (ps ≡ qs)
unfolding hash_message
hash_message-injective d e ps qs hd he hps hqs h =
    let (domains, parts) =
      prefixed-injective (domain_bytes d) (domain_bytes e) (prefixed_parts ps) (prefixed_parts qs)
        (omega arith) (omega arith) h in
    (cc, prefixed_parts-injective ps qs hps hqs parts)

-- Equal digests come from one domain and the same parts, or show a collision of the hash, for domains
-- shorter than 2 ^ 32 bytes and parts shorter than 2 ^ 64.
pub digest-injective :
    (sha256 : Bytes → Bytes) (d e : Bytes) (ps qs : List Bytes)
    → length d < 2 ^ 32
    → length e < 2 ^ 32
    → All IsShort ps
    → All IsShort qs
    → digest sha256 d ps ≡ digest sha256 e qs
    → ((d ≡ e) × (ps ≡ qs)) ⊎ Collision sha256
unfolding digest
digest-injective sha256 d e ps qs hd he hps hqs h =
    elim (Bool-cases (equals (hash_message d ps) (hash_message e qs))) [
      | inl same ↦ inl (
          hash_message-injective d e ps qs hd he hps hqs
            (equals→eq (hash_message d ps) (hash_message e qs) same))
      | inr apart ↦ inr (
        hash_message d ps,
        hash_message e qs,
        λ p. cc (ap (equals (hash_message d ps)) p, equals_refl (hash_message d ps)),
        h,
      )
    ]
