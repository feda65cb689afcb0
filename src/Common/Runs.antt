-- ===== src/Common/Runs.antt =====
-- Calls with a condition before them, one after a result and one after an error.
use mathlib.Core.Path.{◌≡◌}
use mathlib.Core.Logic.{inl, inr}
use mathlib.Core.Bool.{Bool, true, false}
use korthochain.Common.Tests.{if◌then◌else◌}
use korthochain.Common.Outcome.{Result, ok, err, Result-cases}
use korthochain.Common.Action.{Action, pure, raise, query, raise_if, modify, continue, ◌>>=◌}

abbrev pub Ended : {S E A : Type 0} → (A → S → Type 0) → (E → S → Type 0) → Result E A × S → Type 0
Ended Q R (ok a, s) = Q a s
Ended Q R (err e, s) = R e s

pub record Runs {S E A : Type 0} (P : S → Type 0) (m : Action S E A) (Q : A → S → Type 0)
    (R : E → S → Type 0) : Type 0 where
  pub at : (s : S) → P s → Ended Q R (m s)

module _ {S E A B : Type 0} where
  Runs-continue :
      {Q : A → S → Type 0} {T : B → S → Type 0} {R : E → S → Type 0} (f : A → Action S E B)
      → ((a : A) → Runs (Q a) (f a) T R)
      → (r : Result E A × S) → Ended Q R r
      → Ended T R (continue f r)
  Runs-continue f g (ok a, s) h = (g a).at s h
  Runs-continue f g (err e, s) h = h

module _ {S E A B : Type 0} {P : S → Type 0} where
  pub Runs->>= :
      {Q : A → S → Type 0} {T : B → S → Type 0} {R : E → S → Type 0} (m : Action S E A)
      (f : A → Action S E B)
      → Runs P m Q R
      → ((a : A) → Runs (Q a) (f a) T R)
      → Runs P (m >>= f) T R
  Runs->>= m f k g = record { at = λ s h. Runs-continue f g (m s) (k.at s h) }

module _ {S E A : Type 0} where
  Ended-weaken :
      {Q Q' : A → S → Type 0} {R R' : E → S → Type 0}
      → ((a : A) (s : S) → Q a s → Q' a s)
      → ((e : E) (s : S) → R e s → R' e s)
      → (r : Result E A × S) → Ended Q R r
      → Ended Q' R' r
  Ended-weaken f g (ok a, s) h = f a s h
  Ended-weaken f g (err e, s) h = g e s h

module _ {S E A : Type 0} {P : S → Type 0} where
  pub Runs-weaken :
      {P' : S → Type 0} {Q Q' : A → S → Type 0} {R R' : E → S → Type 0} (m : Action S E A)
      → Runs P m Q R
      → ((s : S) → P' s → P s)
      → ((a : A) (s : S) → Q a s → Q' a s)
      → ((e : E) (s : S) → R e s → R' e s)
      → Runs P' m Q' R'
  Runs-weaken m k p f g = record { at = λ s h. Ended-weaken f g (m s) (k.at s (p s h)) }

  pub Runs-query :
      {Q : A → S → Type 0} {R : E → S → Type 0} (f : S → Result E A)
      → ((s : S) (a : A) → P s → f s ≡ ok a → Q a s)
      → ((s : S) (e : E) → P s → f s ≡ err e → R e s)
      → Runs P (query f) Q R
  Runs-query f g k = record {
    at = λ s h. elim (Result-cases (f s)) [
      | inl (a, e) ↦ rw e (g s a h e)
      | inr (x, e) ↦ rw e (k s x h e)
    ];
  }

  pub Runs-pure :
      {Q : A → S → Type 0} {R : E → S → Type 0} (a : A)
      → ((s : S) → P s → Q a s)
      → Runs P (pure a) Q R
  Runs-pure a k = record { at = k }

  pub Runs-raise :
      {Q : A → S → Type 0} {R : E → S → Type 0} (e : E)
      → ((s : S) → P s → R e s)
      → Runs P (raise e) Q R
  Runs-raise e k = record { at = k }

  pub Runs-if :
      {Q : A → S → Type 0} {R : E → S → Type 0} (b : Bool) (m n : Action S E A)
      → Runs P m Q R
      → Runs P n Q R
      → Runs P (if b then m else n) Q R
  Runs-if true m n k l = k
  Runs-if false m n k l = l

  -- What holds whatever the state is may be taken out of the condition.
  pub Runs-given :
      {C : Type 0} {Q : A → S → Type 0} {R : E → S → Type 0} (m : Action S E A)
      → (C → Runs P m Q R)
      → Runs (λ s. P s × C) m Q R
  Runs-given m k = record { at = λ s h. (k h.1).at s h.0 }

module _ {S E : Type 0} {P : S → Type 0} where
  pub Runs-modify :
      {Q : Unit {0} → S → Type 0} {R : E → S → Type 0} (f : S → S)
      → ((s : S) → P s → Q tt (f s))
      → Runs P (modify f) Q R
  Runs-modify f k = record { at = k }

  pub Runs-raise_if :
      {R : E → S → Type 0} (b : Bool) (e : E)
      → ((s : S) → P s → R e s)
      → Runs P (raise_if b e) (λ _. P) R
  Runs-raise_if true e k = record { at = k }
  Runs-raise_if false e k = record { at = λ s h. h }
