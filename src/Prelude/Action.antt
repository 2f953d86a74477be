-- ===== src/Prelude/Action.antt =====
-- Methods that change an object and may throw: what was changed before a throw stays changed, so the
-- state comes back beside the error too.
use mathlib.Core.Path.{◌≡◌, refl}
use mathlib.Core.Bool.{Bool, true, false}
use mathlib.Core.List.{List, [], ◌∷◌}
use Prim.Native.String.{String}
use glare9_provenance.Prelude.Tests.{if◌then◌else◌}
use glare9_provenance.Prelude.Lists.{All}
use glare9_provenance.Prelude.Errors.{Result, ok, err}

abbrev pub Action {ℓ} : Type ℓ → Type ℓ → Type ℓ
Action S A = S → Result A × S

module _ {ℓ} {S A : Type ℓ} where
  unfoldable pub return : A → Action S A
  return a s = (ok a, s)

  unfoldable pub throw : String → Action S A
  throw code s = (err code, s)

  unfoldable pub lift : Result A → Action S A
  lift r s = (r, s)

  unfoldable pub gets : (S → A) → Action S A
  gets f s = (ok (f s), s)

module _ {ℓ} {S A B : Type ℓ} where
  abbrev pub resume : Result A → (A → Action S B) → Action S B
  resume (ok a) f s = f a s
  resume (err code) f s = (err code, s)

  infixl 5 ◌>>=◌ ◌>>◌
  unfoldable pub ◌>>=◌ : Action S A → (A → Action S B) → Action S B
  unfolding return throw lift gets
  ◌>>=◌ m f s = let (r, s') = m s in resume r f s'

  abbrev pub ◌>>◌ : Action S A → Action S B → Action S B
  m >> n = m >>= λ _. n

unfoldable pub modify {ℓ} : {S : Type ℓ} → (S → S) → Action S (Unit {ℓ})
modify f s = (ok tt, f s)

-- `for (const x of xs) await body(x)`
unfoldable pub for_each {ℓ} :
    {S A : Type ℓ} → (A → Action S (Unit {ℓ})) → List A → Action S (Unit {ℓ})
for_each body [] = return tt
for_each body (x ∷ xs) = body x >>= λ _. for_each body xs

-- The action keeps `P`, whether it returns or throws.
pub record Keeps {ℓ κ} {S A : Type ℓ} (P : S → Type κ) (m : Action S A) : Type (ℓ ⊔ κ) where
  pub holds : (s : S) → P s → P (m s).1

module _ {ℓ κ} {S A : Type ℓ} {P : S → Type κ} where
  pub Keeps-return : (a : A) → Keeps P (return a)
  unfolding return
  Keeps-return a = record { holds = λ s h. h }

  pub Keeps-throw : (code : String) → Keeps P (throw {A = A} code)
  unfolding throw
  Keeps-throw code = record { holds = λ s h. h }

  pub Keeps-lift : (r : Result A) → Keeps P (lift r)
  unfolding lift
  Keeps-lift r = record { holds = λ s h. h }

  pub Keeps-gets : (f : S → A) → Keeps P (gets f)
  unfolding gets
  Keeps-gets f = record { holds = λ s h. h }

  pub Keeps-if :
      (b : Bool) (m n : Action S A) → Keeps P m → Keeps P n → Keeps P (if b then m else n)
  Keeps-if true m n km kn = km
  Keeps-if false m n km kn = kn

module _ {ℓ κ} {S A B : Type ℓ} {P : S → Type κ} where
  Keeps-resume :
      (r : Result A) (f : A → Action S B) → ((a : A) → Keeps P (f a)) → Keeps P (resume r f)
  Keeps-resume (ok a) f kf = kf a
  Keeps-resume (err code) f kf = record { holds = λ s h. h }

  pub Keeps-bind :
      (m : Action S A) (f : A → Action S B)
      → Keeps P m
      → ((a : A) → Keeps P (f a))
      → Keeps P (m >>= f)
  unfolding ◌>>=◌
  Keeps-bind m f km kf = record {
    holds = λ s h. let (r, s') = m s in (Keeps-resume r f kf).holds s' (km.holds s h);
  }

-- Two actions that returned, one after the other.
pub >>=-eq-ok {ℓ} :
    {S A B : Type ℓ} (m : Action S A) (f : A → Action S B) (s s'' : S) (b : B)
    → (m >>= f) s ≡ (ok b, s'')
    → (a : A) × (s' : S) × (m s ≡ (ok a, s')) × (f a s' ≡ (ok b, s''))
unfolding ◌>>=◌
>>=-eq-ok {S = S} {A = A} m f s s'' b h =
    let (answer, s') = m s in
    elim answer
        as (λ r.
          resume r f s' ≡ (ok b, s'')
          → (a : A) × (t : S) × (◌≡◌ {A = Result A × S} (r, s') (ok a, t))
            × (f a t ≡ (ok b, s''))) [ ok a ↦ λ e. (a, s', refl, e) | err code ↦ λ e. cc ]
      h

-- A check that passed, and what ran after it in the same state.
pub lift-eq-ok {ℓ} :
    {S A B : Type ℓ} (r : Result A) (k : A → Action S B) (s s' : S) (b : B)
    → (lift r >>= k) s ≡ (ok b, s')
    → (a : A) × (r ≡ ok a) × (k a s ≡ (ok b, s'))
unfolding lift ◌>>=◌
lift-eq-ok (ok a) k s s' b h = (a, refl, h)
lift-eq-ok (err code) k s s' b h = cc

-- To answer by a function of the answer changes no state.
pub >>=-return {ℓ} :
    {S A B : Type ℓ} (m : Action S A) (f : A → B) (s : S)
    → ((m >>= λ a. return (f a)) s).1 ≡ (m s).1
unfolding return ◌>>=◌
>>=-return m f s =
    let (answer, s') = m s in
    elim answer as (λ a. (resume a (λ x. return (f x)) s').1 ≡ s') [ ok a ↦ refl | err code ↦ refl ]

pub Keeps-for_each {ℓ κ} :
    {S A : Type ℓ} {P : S → Type κ} (body : A → Action S (Unit {ℓ})) (xs : List A)
    → ((x : A) → Keeps P (body x))
    → Keeps P (for_each body xs)
unfolding for_each
Keeps-for_each body [] k = Keeps-return tt
Keeps-for_each body (x ∷ xs) k =
    Keeps-bind (body x) (λ _. for_each body xs) (k x) (λ _. Keeps-for_each body xs k)

-- The same where the body keeps `P` on the elements that have `F`.
pub Keeps-for_each_of {ℓ κ} :
    {S A : Type ℓ} {P : S → Type κ} (F : A → Type κ) (body : A → Action S (Unit {ℓ})) (xs : List A)
    → All F xs
    → ((x : A) → F x → Keeps P (body x))
    → Keeps P (for_each body xs)
unfolding for_each
Keeps-for_each_of F body [] f k = Keeps-return tt
Keeps-for_each_of F body (x ∷ xs) (f, fs) k =
    Keeps-bind (body x) (λ _. for_each body xs) (k x f) (λ _. Keeps-for_each_of F body xs fs k)

module _ {ℓ κ} {S A B : Type ℓ} {P : S → Type κ} where
  -- What is read has what `P` says of it.
  pub Keeps-gets_of :
      (F : A → Type κ) (f : S → A) (k : A → Action S B)
      → ((s : S) → P s → F (f s))
      → ((a : A) → F a → Keeps P (k a))
      → Keeps P (gets f >>= k)
  unfolding gets ◌>>=◌
  Keeps-gets_of F f k fact keeps = record { holds = λ s h. (keeps (f s) (fact s h)).holds s h }

  pub Keeps-lift_of :
      (r : Result A) (k : A → Action S B)
      → ((a : A) → r ≡ ok a → Keeps P (k a))
      → Keeps P (lift r >>= k)
  unfolding lift ◌>>=◌
  Keeps-lift_of (ok a) k keeps = record { holds = λ s h. (keeps a refl).holds s h }
  Keeps-lift_of (err code) k keeps = record { holds = λ s h. h }

pub Keeps-modify {ℓ κ} :
    {S : Type ℓ} {P : S → Type κ} (f : S → S) → ((s : S) → P s → P (f s)) → Keeps P (modify f)
unfolding modify
Keeps-modify f h = record { holds = h }

pub ruleset keeps_rules =
    (Keeps-return, Keeps-throw, Keeps-lift, Keeps-gets, Keeps-if, Keeps-bind, Keeps-for_each)
