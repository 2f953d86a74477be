-- ===== src/Prelude/Hoare.antt =====
-- What an action guarantees: from `P` it ends in `Q` with its answer, or it throws and `E` holds.
use mathlib.Core.Path.{◌≡◌, refl}
use glare9_provenance.Prelude.Errors.{Result, ok, err}
use glare9_provenance.Prelude.Action.{
  Action, return, throw, lift, gets, modify, resume, ◌>>=◌, Keeps,
}

abbrev pub Ends {ℓ κ} : {S A : Type ℓ} → (A → S → Type κ) → (S → Type κ) → Result A × S → Type κ
Ends Q E (ok a, s) = Q a s
Ends Q E (err code, s) = E s

pub record Runs {ℓ κ} {S A : Type ℓ} (P : S → Type κ) (m : Action S A) (Q : A → S → Type κ)
    (E : S → Type κ) : Type (ℓ ⊔ κ) where
  pub ends : (s : S) → P s → Ends Q E (m s)

module _ {ℓ κ} {S A : Type ℓ} {P : S → Type κ} {Q : A → S → Type κ} {E : S → Type κ} where
  pub Runs-return : (a : A) → ((s : S) → P s → Q a s) → Runs P (return a) Q E
  unfolding return
  Runs-return a h = record { ends = h }

  pub Runs-throw : (code : _) → ((s : S) → P s → E s) → Runs P (throw code) Q E
  unfolding throw
  Runs-throw code h = record { ends = h }

  pub Runs-gets : (f : S → A) → ((s : S) → P s → Q (f s) s) → Runs P (gets f) Q E
  unfolding gets
  Runs-gets f h = record { ends = h }

  pub Runs-lift :
      (r : Result A)
      → ((a : A) (s : S) → r ≡ ok a → P s → Q a s)
      → ((s : S) → P s → E s)
      → Runs P (lift r) Q E
  unfolding lift
  Runs-lift (ok a) h k = record { ends = λ s p. h a s refl p }
  Runs-lift (err code) h k = record { ends = k }

  pub Runs-weaken :
      {P' : S → Type κ} (m : Action S A) → ((s : S) → P s → P' s) → Runs P' m Q E → Runs P m Q E
  Runs-weaken m h r = record { ends = λ s p. r.ends s (h s p) }

Ends-post {ℓ κ} :
    {S A : Type ℓ} (Q Q' : A → S → Type κ) (E : S → Type κ) (x : Result A × S)
    → ((a : A) (s : S) → Q a s → Q' a s)
    → Ends Q E x
    → Ends Q' E x
Ends-post Q Q' E (ok a, s) h e = h a s e
Ends-post Q Q' E (err code, s) h e = e

module _ {ℓ κ} {S A : Type ℓ} {P : S → Type κ} {Q Q' : A → S → Type κ} {E : S → Type κ} where
  pub Runs-post :
      (m : Action S A) → ((a : A) (s : S) → Q a s → Q' a s) → Runs P m Q E → Runs P m Q' E
  Runs-post m h r = record { ends = λ s p. Ends-post Q Q' E (m s) h (r.ends s p) }

pub Runs-modify {ℓ κ} :
    {S : Type ℓ} {P : S → Type κ} {Q : Unit {ℓ} → S → Type κ} {E : S → Type κ} (f : S → S)
    → ((s : S) → P s → Q tt (f s))
    → Runs P (modify f) Q E
unfolding modify
Runs-modify f h = record { ends = h }

module _ {ℓ κ} {S A B : Type ℓ} {E : S → Type κ} where
  Ends-resume :
      {R : A → S → Type κ} {Q : B → S → Type κ} (r : Result A) (s : S) (f : A → Action S B)
      → Ends R E (r, s)
      → ((a : A) → Runs (R a) (f a) Q E)
      → Ends Q E (resume r f s)
  Ends-resume (ok a) s f h k = (k a).ends s h
  Ends-resume (err code) s f h k = h

module _ {ℓ κ} {S A B : Type ℓ} {P : S → Type κ} {E : S → Type κ} where
  -- The rule for a sequence, with what holds in between.
  pub Runs-bind :
      {Q : B → S → Type κ} (R : A → S → Type κ) (m : Action S A) (f : A → Action S B)
      → Runs P m R E
      → ((a : A) → Runs (R a) (f a) Q E)
      → Runs P (m >>= f) Q E
  unfolding ◌>>=◌
  Runs-bind R m f h k = record {
    ends = λ s p. let (r, s') = m s in Ends-resume r s' f (h.ends s p) k;
  }

module _ {ℓ κ} {S A : Type ℓ} {P : S → Type κ} where
  -- An action that keeps `P` whatever happens.
  pub Keeps-Runs : (m : Action S A) → Runs P m (λ _. P) P → Keeps P m
  Keeps-Runs m h = record { holds = λ s p. let (r, s') = m s in from_Ends r s' (h.ends s p) }
    where
      from_Ends : (r : Result A) (s : S) → Ends (λ _. P) P (r, s) → P s
      from_Ends (ok a) s e = e
      from_Ends (err code) s e = e

  pub Runs-Keeps : (m : Action S A) → Keeps P m → Runs P m (λ _. P) P
  Runs-Keeps m h = record { ends = λ s p. let (r, s') = m s in to_Ends r s' (h.holds s p) }
    where
      to_Ends : (r : Result A) (s : S) → P s → Ends (λ _. P) P (r, s)
      to_Ends (ok a) s e = e
      to_Ends (err code) s e = e

module _ {ℓ κ} {S A : Type ℓ} {P Q : S → Type κ} where
  -- The state in which an action ends, when the same holds after an answer and after a throw.
  pub Runs-state : (m : Action S A) → Runs P m (λ _. Q) Q → (s : S) → P s → Q (m s).1
  Runs-state m h s p = let (r, s') = m s in from_Ends r s' (h.ends s p)
    where
      from_Ends : (r : Result A) (s : S) → Ends (λ _. Q) Q (r, s) → Q s
      from_Ends (ok a) s e = e
      from_Ends (err code) s e = e
