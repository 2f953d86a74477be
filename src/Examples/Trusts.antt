-- ===== src/Examples/Trusts.antt =====
-- src/signer-trust.js at a concrete bundle, with the order of code points.
use Prim.Native.Nat.{compare, Ordering}
use glare9_provenance.Prelude.{
  ℕ, suc, true, ◌&&◌, [], ◌∷◌, List, none, some, Result, ok, ◌>>◌, invariant, ◌≡◌, refl, arith,
}
use glare9_provenance.Codec.Utf8.{Text}
use glare9_provenance.Crypto.{codes}
use glare9_provenance.Sharding.{is_shard_id}
use glare9_provenance.Ledger.Lookup.{is_hash_text}
use glare9_provenance.Trust.{
  trusted, revoked, Binding, Position, Decision, or_else, validate_segment_trust_bundle, covers,
  decide, evaluate_segment_trust,
}
use glare9_provenance.Trust.Orders.{IsConsistent, compare-IsConsistent, NotGt, or_else_trans}
use glare9_provenance.Trust.Unique.{AllDistinguished, evaluate_segment_trust-covers}

abbrev code_compare : Text → Text → Ordering
code_compare [] [] = Ordering.eq
code_compare [] (y ∷ ys) = Ordering.lt
code_compare (x ∷ xs) [] = Ordering.gt
code_compare (x ∷ xs) (y ∷ ys) = or_else (compare x y) (code_compare xs ys)

code_compare_refl : (x : Text) → code_compare x x ≡ Ordering.eq
code_compare_refl [] = refl
code_compare_refl (x ∷ xs) = ground (arith, code_compare_refl xs)

code_compare_trans :
    (x y z : Text)
    → NotGt (code_compare x y)
    → NotGt (code_compare y z)
    → code_compare x z ≡ or_else (code_compare x y) (code_compare y z)
code_compare_trans [] [] z h k = refl
code_compare_trans [] (y ∷ ys) [] h k = absurd k
code_compare_trans [] (y ∷ ys) (z ∷ zs) h k = refl
code_compare_trans (x ∷ xs) [] z h k = absurd h
code_compare_trans (x ∷ xs) (y ∷ ys) [] h k = absurd k
code_compare_trans (x ∷ xs) (y ∷ ys) (z ∷ zs) h k =
    or_else_trans (compare x y) (compare y z) (code_compare xs ys) (code_compare ys zs)
      (compare x z) (code_compare xs zs) (compare-IsConsistent.trans x y z)
      (code_compare_trans xs ys zs) h k

code_compare-IsConsistent : IsConsistent code_compare
code_compare-IsConsistent = record { self = code_compare_refl; trans = code_compare_trans }

abbrev some_key : Text
some_key = codes "0123456789abcdef0123456789abcdef0123456789abcdef0123456789abcdef"

abbrev first_binding : Binding
first_binding = record {
  ledger_id = codes "l";
  epoch_number = 0;
  shard_id = codes "shard-0001";
  first_segment_number = 0;
  last_segment_number = some 4;
  key_id = some_key;
  status = revoked;
}

abbrev second_binding : Binding
second_binding = record first_binding {
  first_segment_number = 5;
  last_segment_number = none;
  status = trusted;
}

abbrev two_bindings : List Binding
two_bindings = first_binding ∷ second_binding ∷ []

valid_bundle : validate_segment_trust_bundle code_compare (codes "bundle") two_bindings ≡ ok tt
unfolding validate_segment_trust_bundle glare9_provenance.Trust.text_length
    glare9_provenance.Trust.check_bindings glare9_provenance.Trust.check_binding is_shard_id
    glare9_provenance.Ledger.Lookup.all_hex_digits glare9_provenance.Trust.check_order
    glare9_provenance.Trust.position_compare glare9_provenance.Prelude.Octets.equals
valid_bundle = refl

abbrev sixth : Position
sixth = record {
  ledger_id = codes "l";
  epoch_number = 0;
  shard_id = codes "shard-0001";
  segment_number = 6;
  key_id = some_key;
}

second_covers : covers sixth second_binding ≡ true
unfolding covers glare9_provenance.Prelude.Octets.equals
second_covers = refl

two_distinguished : AllDistinguished code_compare two_bindings
two_distinguished = ((record { ledgers = λ _. refl; shards = λ _. refl }, tt), (tt, tt))

evaluate_segment_trust-covers_example : evaluate_segment_trust two_bindings sixth ≡ (
    invariant (is_shard_id sixth.shard_id && is_hash_text sixth.key_id) "TRUST_POSITION"
    >> ok (decide sixth.key_id (some second_binding)))
evaluate_segment_trust-covers_example =
    evaluate_segment_trust-covers code_compare code_compare-IsConsistent (codes "bundle")
      two_bindings tt 1 second_binding sixth two_distinguished valid_bundle refl second_covers
