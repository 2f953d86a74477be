-- ===== src/Trust.antt =====
-- src/signer-trust.js: which key may sign a segment. A bundle is an object of version 1 with exactly its
-- fields, and integers are natural numbers. The comparison is localeCompare, a parameter.
pub mod Orders
pub mod Unique
use Prim.Native.Nat.{compare, Ordering}
use glare9_provenance.Prelude.{
  ℕ, ◌+◌, Bytes, Bool, true, false, ◌&&◌, ◌||◌, not, [], ◌∷◌, ◌++◌, List, leb, ltb, ◌==◌,
  if◌then◌else◌, length, Option, none, some, Result, ok, err, ◌>>=◌, ◌>>◌, invariant,
}
use glare9_provenance.Prelude.Octets.{equals}
use glare9_provenance.Codec.Utf8.{Text}
use glare9_provenance.Sharding.{is_shard_id}
use glare9_provenance.Ledger.Lookup.{is_hash_text}

pub data BindingStatus : Type 0 where
  trusted : BindingStatus
  revoked : BindingStatus

pub record Binding : Type 0 where
  pub ledger_id : Text
  pub epoch_number : ℕ
  pub shard_id : Text
  pub first_segment_number : ℕ
  pub last_segment_number : Option ℕ
  pub key_id : Text
  pub status : BindingStatus

pub record Position : Type 0 where
  pub ledger_id : Text
  pub epoch_number : ℕ
  pub shard_id : Text
  pub segment_number : ℕ
  pub key_id : Text

pub data Decision : Type 0 where
  indeterminate : Decision
  untrusted : Text → Decision
  decided : BindingStatus → Decision

-- binding.lastSegmentNumber === null || binding.lastSegmentNumber >= number
abbrev pub reaches : Option ℕ → ℕ → Bool
reaches none number = true
reaches (some last) number = leb number last

-- previous.lastSegmentNumber !== null && previous.lastSegmentNumber < number
abbrev pub ends_before : Option ℕ → ℕ → Bool
ends_before none number = false
ends_before (some last) number = ltb last number

abbrev pub same_stream : Binding → Binding → Bool
same_stream left right =
    equals left.ledger_id right.ledger_id
    && left.epoch_number == right.epoch_number
    && equals left.shard_id right.shard_id

-- value.length, in UTF-16 units
unfoldable pub text_length : Text → ℕ
text_length [] = 0
text_length (c ∷ t) = (if ltb c 0x1_0000 then 1 else 2) + text_length t

-- The checks of one binding.
unfoldable pub check_binding : Binding → Result (Unit {0})
check_binding b =
    invariant (leb 1 (text_length b.ledger_id) && leb (text_length b.ledger_id) 1024)
      "TRUST_BINDING_LEDGER"
    >> (invariant (is_shard_id b.shard_id) "TRUST_BINDING_STREAM"
        >> (invariant (reaches b.last_segment_number b.first_segment_number) "TRUST_BINDING_RANGE"
            >> invariant (is_hash_text b.key_id) "TRUST_BINDING_IDENTITY"))

unfoldable pub check_bindings : List Binding → Result (Unit {0})
check_bindings [] = ok tt
check_bindings (b ∷ bs) = check_binding b >> check_bindings bs

-- left || right
abbrev pub or_else : Ordering → Ordering → Ordering
or_else Ordering.eq right = right
or_else Ordering.lt right = Ordering.lt
or_else Ordering.gt right = Ordering.gt

abbrev pub is_lt : Ordering → Bool
is_lt Ordering.lt = true
is_lt Ordering.eq = false
is_lt Ordering.gt = false

module _ (locale_compare : Text → Text → Ordering) where
  -- positionCompare(left, right)
  unfoldable pub position_compare : Binding → Binding → Ordering
  position_compare left right = or_else (locale_compare left.ledger_id right.ledger_id) (
      or_else (compare left.epoch_number right.epoch_number) (
        or_else (locale_compare left.shard_id right.shard_id)
          (compare left.first_segment_number right.first_segment_number)))

  -- The loop over the neighbours.
  unfoldable pub check_order : Binding → List Binding → Result (Unit {0})
  check_order previous [] = ok tt
  check_order previous (current ∷ rest) =
      invariant (is_lt (position_compare previous current)) "TRUST_BINDING_ORDER"
      >> (invariant
            (not (same_stream previous current)
              || ends_before previous.last_segment_number current.first_segment_number)
            "TRUST_BINDING_OVERLAP"
          >> check_order current rest)

  -- validateSegmentTrustBundle, of a bundle ID and its bindings
  unfoldable pub validate_segment_trust_bundle : Text → List Binding → Result (Unit {0})
  validate_segment_trust_bundle bundle_id [] = err "TRUST_BUNDLE_BINDINGS"
  validate_segment_trust_bundle bundle_id (first ∷ rest) =
      invariant (leb 1 (text_length bundle_id) && leb (text_length bundle_id) 256) "TRUST_BUNDLE_ID"
      >> (invariant (leb (length (first ∷ rest)) 65_536) "TRUST_BUNDLE_BINDINGS"
          >> (check_bindings (first ∷ rest) >> check_order first rest))

-- The binding of the stream of the position, and of its segment.
unfoldable pub covers : Position → Binding → Bool
covers position b =
    equals b.ledger_id position.ledger_id
    && b.epoch_number == position.epoch_number
    && equals b.shard_id position.shard_id
    && (leb b.first_segment_number position.segment_number
        && reaches b.last_segment_number position.segment_number)

-- The first that covers the position. The index of the streams keeps the order of the bindings.
unfoldable pub find_binding : Position → List Binding → Option Binding
find_binding position [] = none
find_binding position (b ∷ bs) =
    let rest = find_binding position bs in if covers position b then some b else rest

abbrev pub decide : Text → Option Binding → Decision
decide key_id none = indeterminate
decide key_id (some b) = if equals b.key_id key_id then decided b.status else untrusted b.key_id

-- evaluateSegmentTrust(bundle, position), of a bundle that is valid
unfoldable pub evaluate_segment_trust : List Binding → Position → Result Decision
evaluate_segment_trust bindings position =
    invariant (is_shard_id position.shard_id && is_hash_text position.key_id) "TRUST_POSITION"
    >> ok (decide position.key_id (find_binding position bindings))

-- requireTrustedSegmentSigner(bundle, position)
unfoldable pub require_trusted_segment_signer : List Binding → Position → Result (Unit {0})
require_trusted_segment_signer bindings position =
    evaluate_segment_trust bindings position >>= λ decision. elim decision [
      | decided status ↦ elim status [ trusted ↦ ok tt | revoked ↦ err "SEGMENT_SIGNER_TRUST" ]
      | indeterminate ↦ err "SEGMENT_SIGNER_TRUST"
      | untrusted expected ↦ err "SEGMENT_SIGNER_TRUST"
    ]
