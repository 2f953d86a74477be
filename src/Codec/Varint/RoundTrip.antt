-- ===== src/Codec/Varint/RoundTrip.antt =====
-- What was written as a varint is read back, the encoder succeeds below 2 ^ 70, and its output is
-- made of bytes.
use native.Mathlib.Nat.{div-add-mod, pow-suc}
use glare9_provenance.Prelude.{
  ℕ, zero, suc, ◌+◌, ◌*◌, ◌/◌, ◌%◌, ◌^◌, ◌<◌, ◌≤◌, Bytes, IsBytes, Bool, true, false, ◌||◌, not, [],
  ◌∷◌, ◌++◌, ◌≡◌, refl, ap, inl, inr, ◌==◌, Bool-cases, ok, fail, >>=-eq-ok, arith,
}
use glare9_provenance.Codec.Varint.{
  var_uint_loop, encode_var_uint, read_var_uint_loop, read_var_uint,
}

digits_scale :
    (n scale value : ℕ) → value + n % 128 * scale + n / 128 * (scale * 128) ≡ value + n * scale
digits_scale n scale value = omega (arith, ap (λ (t : ℕ). t * scale) (div-add-mod n 128))

read-loop :
    (room n scale value : ℕ) (first : Bool) (bytes rest : Bytes)
    → var_uint_loop room n ≡ ok bytes
    → (first || not (n == 0)) ≡ true
    → read_var_uint_loop room scale value first (bytes ++ rest) ≡ ok (value + n * scale, rest)
unfolding var_uint_loop read_var_uint_loop
read-loop zero n scale value first bytes rest h nz = cc
read-loop (suc room) n scale value first bytes rest h nz = elim (Bool-cases (n / 128 == 0)) [
  | inl last ↦ ground (arith, digits_scale n scale value)
  | inr more ↦
      let (bs, tail_eq, bytes_eq) = >>=-eq-ok (var_uint_loop room (n / 128)) _ (rw more at h) in
      ground (
        arith,
        bytes_eq,
        digits_scale n scale value,
        read-loop room (n / 128) (scale * 128) (value + n % 128 * scale) false bs rest tail_eq,
      )
]

-- Reading a written varint gives the number and what follows it.
pub read_var_uint-encode_var_uint :
    (n : ℕ) (bytes rest : Bytes)
    → encode_var_uint n ≡ ok bytes
    → read_var_uint (bytes ++ rest) ≡ ok (n, rest)
unfolding encode_var_uint read_var_uint
read_var_uint-encode_var_uint n bytes rest h =
    ground (arith, read-loop 10 n 1 0 true bytes rest h refl)

var_uint_loop_total :
    (room n : ℕ) → n < 128 ^ suc room → (bytes : Bytes) × (var_uint_loop (suc room) n ≡ ok bytes)
unfolding var_uint_loop
var_uint_loop_total zero n h = (n % 128 ∷ [], ground arith)
var_uint_loop_total (suc room) n h = elim (Bool-cases (n / 128 == 0)) [
  | inl last ↦ (n % 128 ∷ [], rw last)
  | inr more ↦
      let (bs, e) = var_uint_loop_total room (n / 128) (omega (arith, pow-suc 128 (suc room))) in
      ((n % 128 + 128) ∷ bs, rw more (rw e))
]

pow_pos : (k : ℕ) → 0 < 128 ^ k
pow_pos zero = omega arith
pow_pos (suc k) = omega (arith, pow-suc 128 k, pow_pos k)

var_uint_loop_limit :
    (room n : ℕ) → 128 ^ room ≤ n → var_uint_loop room n ≡ fail "ENCODE_VARUINT_LIMIT"
unfolding var_uint_loop
var_uint_loop_limit zero n h = refl
var_uint_loop_limit (suc room) n h =
    ground (arith, pow-suc 128 room, var_uint_loop_limit room (n / 128), pow_pos room)

-- Every number below 2 ^ 70 is encoded.
pub encode_var_uint_total :
    (n : ℕ) → n < 128 ^ 10 → (bytes : Bytes) × (encode_var_uint n ≡ ok bytes)
unfolding encode_var_uint
encode_var_uint_total n h = var_uint_loop_total 9 n h

-- A number of 2 ^ 70 or more is refused.
pub encode_var_uint_limit : (n : ℕ) → 128 ^ 10 ≤ n → encode_var_uint n ≡ fail "ENCODE_VARUINT_LIMIT"
unfolding encode_var_uint
encode_var_uint_limit n h = var_uint_loop_limit 10 n h

var_uint_loop-IsBytes :
    (room n : ℕ) (bytes : Bytes) → var_uint_loop room n ≡ ok bytes → IsBytes bytes
unfolding var_uint_loop
var_uint_loop-IsBytes room n [] h = tt
var_uint_loop-IsBytes zero n (b ∷ bs) h = cc
var_uint_loop-IsBytes (suc room) n (b ∷ bs) h =
    (ground arith, ground (arith, var_uint_loop-IsBytes room (n / 128) bs))

pub encode_var_uint-IsBytes : (n : ℕ) (bytes : Bytes) → encode_var_uint n ≡ ok bytes → IsBytes bytes
unfolding encode_var_uint
encode_var_uint-IsBytes n bytes h = var_uint_loop-IsBytes 10 n bytes h
