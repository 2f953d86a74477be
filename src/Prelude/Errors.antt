-- ===== src/Prelude/Errors.antt =====
-- src/errors.js: `fail` throws a G9pError with a code, and `invariant` throws where its condition
-- is false. A thrown error is the value `err code`; messages and causes are not modelled.
use Prim.Native.String.{String}
use mathlib.Core.Path.{◌≡◌, refl}
use mathlib.Core.Logic.{◌⊎◌, inl, inr}
use mathlib.Core.Bool.{Bool, true, false}

pub data Result {ℓ} (A : Type ℓ) : Type ℓ where
  ok : A → Result A
  err : String → Result A

-- The rest of a function, after a call that may have thrown.
infixl 5 ◌>>=◌
abbrev pub ◌>>=◌ {ℓ κ} : {A : Type ℓ} {B : Type κ} → Result A → (A → Result B) → Result B
ok value >>= next = next value
err code >>= next = err code

-- The same after a call for its effect alone.
infixl 5 ◌>>◌
abbrev pub ◌>>◌ {ℓ} : {B : Type ℓ} → Result (Unit {0}) → Result B → Result B
check >> rest = check >>= λ _. rest

-- fail(code, message)
abbrev pub fail {ℓ} : {A : Type ℓ} → String → Result A
fail code = err code

-- invariant(condition, code, message)
abbrev pub invariant : Bool → String → Result (Unit {0})
invariant true code = ok tt
invariant false code = fail code

pub ok-injective {ℓ} : {A : Type ℓ} (a b : A) → ok a ≡ ok b → a ≡ b
ok-injective a b h = cc

pub Result-cases {ℓ} :
    {A : Type ℓ} (r : Result A) → ((a : A) × (r ≡ ok a)) ⊎ ((code : String) × (r ≡ err code))
Result-cases (ok a) = inl (a, refl)
Result-cases (err code) = inr (code, refl)

-- What a successful bind ran through.
pub >>=-eq-ok {ℓ κ} :
    {A : Type ℓ} {B : Type κ} {answer : B} (first : Result A) (next : A → Result B)
    → (first >>= next) ≡ ok answer
    → (value : A) × (first ≡ ok value) × (next value ≡ ok answer)
>>=-eq-ok (ok value) next h = (value, refl, h)
>>=-eq-ok (err code) next h = cc

-- A guard that was passed held, and the rest ran.
pub invariant-eq-ok {ℓ} :
    {B : Type ℓ} (c : Bool) (code : String) (k : Result B) {b : B}
    → (invariant c code >> k) ≡ ok b
    → (c ≡ true) × (k ≡ ok b)
invariant-eq-ok true code k h = (refl, h)
invariant-eq-ok false code k h = cc

pub invariant-holds : (c : Bool) (code : String) (u : Unit {0}) → invariant c code ≡ ok u → c ≡ true
invariant-holds true code u h = refl
invariant-holds false code u h = cc
