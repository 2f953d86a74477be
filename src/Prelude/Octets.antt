-- ===== src/Prelude/Octets.antt =====
-- Byte strings: the Buffer operations that the code uses (equals, compare, writeUInt32BE,
-- readUInt32BE). A byte string is a list of numbers, each of them below 256.
use Prim.Native.Nat.{ℕ, ◌+◌, ◌*◌, ◌/◌, ◌%◌, ◌<◌, compare, Ordering}
use mathlib.Core.Path.{◌≡◌, refl, subst}
use mathlib.Core.Logic.{◌↔◌}
use mathlib.Core.Bool.{Bool, true, false, ◌&&◌}
use mathlib.Core.List.{List, [], ◌∷◌, ◌++◌}
use mathlib.Core.Option.{Option, none, some}
use native.Mathlib.Omega.{arith}
use glare9_provenance.Prelude.Tests.{◌==◌}
use glare9_provenance.Prelude.Lists.{All}

abbrev pub Bytes : Type 0
Bytes = List ℕ

abbrev pub IsByte : ℕ → Type 0
IsByte b = b < 256

abbrev pub IsBytes : Bytes → Type 0
IsBytes = All IsByte

-- left.equals(right)
unfoldable pub equals : Bytes → Bytes → Bool
equals [] [] = true
equals [] (b ∷ bs) = false
equals (a ∷ as') [] = false
equals (a ∷ as') (b ∷ bs) = a == b && equals as' bs

pub equals_refl : (a : Bytes) → equals a a ≡ true
unfolding equals
equals_refl [] = refl
equals_refl (a ∷ as') = ground (arith, equals_refl as')

pub equals→eq : (a b : Bytes) → equals a b ≡ true → a ≡ b
unfolding equals
equals→eq [] [] h = refl
equals→eq [] (b ∷ bs) h = cc
equals→eq (a ∷ as') [] h = cc
equals→eq (a ∷ as') (b ∷ bs) h = ground (arith, equals→eq as' bs)

pub equals_iff : (a b : Bytes) → (equals a b ≡ true) ↔ (a ≡ b)
equals_iff a b = (equals→eq a b, λ p. subst (λ (c : Bytes). equals a c ≡ true) p (equals_refl a))

-- Buffer.compare(left, right) < 0: lexicographic, and a proper prefix comes first.
unfoldable pub before : Bytes → Bytes → Bool
before [] [] = false
before [] (b ∷ bs) = true
before (a ∷ as') [] = false
before (a ∷ as') (b ∷ bs) = elim (compare a b) [
  | Ordering.lt ↦ true
  | Ordering.eq ↦ before as' bs
  | Ordering.gt ↦ false
]

pub before_irrefl : (a : Bytes) → before a a ≡ false
unfolding before
before_irrefl [] = refl
before_irrefl (a ∷ as') = ground (arith, before_irrefl as')

pub before-asymm : (a b : Bytes) → before a b ≡ true → before b a ≡ false
unfolding before
before-asymm [] [] h = refl
before-asymm [] (b ∷ bs) h = refl
before-asymm (a ∷ as') [] h = cc
before-asymm (a ∷ as') (b ∷ bs) h = ground (arith, before-asymm as' bs)

pub before_trans : (a b c : Bytes) → before a b ≡ true → before b c ≡ true → before a c ≡ true
unfolding before
before_trans [] [] c p q = cc
before_trans [] (b ∷ bs) [] p q = cc
before_trans [] (b ∷ bs) (c ∷ cs) p q = refl
before_trans (a ∷ as') [] c p q = cc
before_trans (a ∷ as') (b ∷ bs) [] p q = cc
before_trans (a ∷ as') (b ∷ bs) (c ∷ cs) p q = ground (arith, before_trans as' bs cs)

-- Two byte strings of which neither comes first are equal.
pub before-tri : (a b : Bytes) → before a b ≡ false → before b a ≡ false → a ≡ b
unfolding before
before-tri [] [] p q = refl
before-tri [] (b ∷ bs) p q = cc
before-tri (a ∷ as') [] p q = cc
before-tri (a ∷ as') (b ∷ bs) p q = ground (arith, before-tri as' bs)

-- writeUInt32BE(value) of a value below 2 ^ 32.
unfoldable pub write_u32 : ℕ → Bytes
write_u32 n = (n / 16777216) % 256 ∷ (n / 65536) % 256 ∷ (n / 256) % 256 ∷ n % 256 ∷ []

-- readUInt32BE() at the front of the bytes, with what follows.
unfoldable pub read_u32 : Bytes → Option (ℕ × Bytes)
read_u32 (a ∷ b ∷ c ∷ d ∷ rest) = some (a * 16777216 + b * 65536 + c * 256 + d, rest)
read_u32 _ = none

pub read_u32-write_u32 :
    (n : ℕ) (rest : Bytes) → n < 4294967296 → read_u32 (write_u32 n ++ rest) ≡ some (n, rest)
unfolding read_u32 write_u32
read_u32-write_u32 n rest h = ground arith

pub write_u32-IsBytes : (n : ℕ) → IsBytes (write_u32 n)
unfolding write_u32
write_u32-IsBytes n = omega arith
