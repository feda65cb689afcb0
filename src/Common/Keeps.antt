-- ===== src/Common/Keeps.antt =====
-- Invariants of actions: what holds of the state before a call holds after it, however it ends.
use mathlib.Core.Path.{◌≡◌, refl, subst}
use mathlib.Core.Logic.{inl, inr}
use mathlib.Core.Bool.{Bool, true, false}
use korthochain.Common.Tests.{if◌then◌else◌}
use korthochain.Common.Outcome.{Result, ok, err, Result-cases}
use korthochain.Common.Action.{Action, pure, raise, query, raise_if, continue, ◌>>=◌, >>=-inv}

-- `m` keeps `P`, whether it returns or fails.
pub record Keeps {S E A : Type 0} (P : S → Type 0) (m : Action S E A) : Type 0 where
  pub at : (s : S) → P s → P (m s).1

module _ {S E A : Type 0} {P : S → Type 0} where
  pub Keeps-pure : (a : A) → Keeps P (pure {E = E} a)
  Keeps-pure a = record { at = λ s h. h }

  pub Keeps-raise : (e : E) → Keeps P (raise {A = A} e)
  Keeps-raise e = record { at = λ s h. h }

  pub Keeps-query : (f : S → Result E A) → Keeps P (query f)
  Keeps-query f = record { at = λ s h. h }

  pub Keeps-if :
      (b : Bool) (m n : Action S E A) → Keeps P m → Keeps P n → Keeps P (if b then m else n)
  Keeps-if true m n km kn = km
  Keeps-if false m n km kn = kn

module _ {S E : Type 0} {P : S → Type 0} where
  pub Keeps-raise_if : (b : Bool) (e : E) → Keeps P (raise_if b e)
  Keeps-raise_if b e = record { at = λ s h. h }

module _ {S E A : Type 0} {P Q : S → Type 0} where
  pub Keeps-× : (m : Action S E A) → Keeps P m → Keeps Q m → Keeps (λ s. P s × Q s) m
  Keeps-× m kp kq = record { at = λ s h. (kp.at s h.0, kq.at s h.1) }

module _ {S E A B : Type 0} {P : S → Type 0} where
  Keeps-continue :
      (f : A → Action S E B)
      → ((a : A) → Keeps P (f a))
      → (r : Result E A × S) → P r.1
      → P (continue f r).1
  Keeps-continue f kf (ok a, s) h = (kf a).at s h
  Keeps-continue f kf (err e, s) h = h

  pub Keeps->>= :
      (m : Action S E A) (f : A → Action S E B)
      → Keeps P m
      → ((a : A) → Keeps P (f a))
      → Keeps P (m >>= f)
  Keeps->>= m f km kf = record { at = λ s h. Keeps-continue f kf (m s) (km.at s h) }

pub ruleset keeps_rules =
    (Keeps-pure, Keeps-raise, Keeps-query, Keeps-if, Keeps-raise_if, Keeps->>=)

-- Where `P` holds before the call and the call succeeds, `Q` holds of its result and of the state
-- after it.
pub record Ensures {S E A : Type 0} (P : S → Type 0) (m : Action S E A) (Q : A → S → Type 0)
    : Type 0 where
  pub ends : (s : S) → P s → {a : A} → {s' : S} → m s ≡ (ok a, s') → Q a s'

module _ {S E A B : Type 0} {P : S → Type 0} where
  pub Ensures->>= :
      {Q : A → S → Type 0} {R : B → S → Type 0} (m : Action S E A) (f : A → Action S E B)
      → Ensures P m Q
      → ((a : A) → Ensures (Q a) (f a) R)
      → Ensures P (m >>= f) R
  Ensures->>= m f em ef = record {
    ends = λ s h e.
        let (a, s1, first, rest) = >>=-inv m f s e in (ef a).ends s1 (em.ends s h first) rest;
  }

module _ {S E A : Type 0} where
  -- What holds whatever the state is.
  pub Keeps-const : {C : Type 0} (m : Action S E A) → Keeps (λ _. C) m
  Keeps-const m = record { at = λ s h. h }

-- `Q` at the end of a call that succeeded.
abbrev pub AtEnd : {S E A : Type 0} → (A → S → Type 0) → Result E A × S → Type 0
AtEnd Q (ok a, s) = Q a s
AtEnd Q (err e, s) = Unit

module _ {S E A : Type 0} {P : S → Type 0} where
  pub Ensures-at :
      {Q : A → S → Type 0} (m : Action S E A) → ((s : S) → P s → AtEnd Q (m s)) → Ensures P m Q
  Ensures-at {Q} m k = record { ends = λ s h e. subst (AtEnd Q) e (k s h) }

  pub Ensures-keeps : (m : Action S E A) → Keeps P m → Ensures P m (λ _. P)
  Ensures-keeps m k = record { ends = λ s h e. subst (λ r. P r.1) e (k.at s h) }

  pub Ensures-query :
      {Q : A → S → Type 0} (f : S → Result E A)
      → ((s : S) → (a : A) → P s → f s ≡ ok a → Q a s)
      → Ensures P (query f) Q
  Ensures-query {Q} f k =
      Ensures-at (query f)
        (λ s h. elim (Result-cases (f s)) [ inl (a, e) ↦ rw e (k s a h e) | inr (x, e) ↦ rw e tt ])

  pub Ensures-pure :
      {Q : A → S → Type 0} (a : A) → ((s : S) → P s → Q a s) → Ensures P (pure {E = E} a) Q
  Ensures-pure a k = Ensures-at (pure a) k

  pub Ensures-weaken :
      {Q R : A → S → Type 0} (m : Action S E A)
      → Ensures P m Q
      → ((a : A) (s : S) → Q a s → R a s)
      → Ensures P m R
  Ensures-weaken m em k = record { ends = λ s h {a} {s'} e. k a s' (em.ends s h e) }

  pub Ensures-× :
      {Q R : A → S → Type 0} (m : Action S E A)
      → Ensures P m Q
      → Ensures P m R
      → Ensures P m (λ a s. Q a s × R a s)
  Ensures-× m eq er = record { ends = λ s h e. (eq.ends s h e, er.ends s h e) }

  pub Ensures-any : (m : Action S E A) → Ensures P m (λ _ _. Unit {0})
  Ensures-any m = record { ends = λ s h e. tt }

  -- What holds whatever the state is may be taken out of the condition.
  pub Ensures-given :
      {C : Type 0} {Q : A → S → Type 0} (m : Action S E A)
      → (C → Ensures P m Q)
      → Ensures (λ s. P s × C) m Q
  Ensures-given m k = record { ends = λ s h e. (k h.1).ends s h.0 e }

  pub Ensures-raise : {Q : A → S → Type 0} (e : E) → Ensures P (raise e) Q
  Ensures-raise e = Ensures-at (raise e) (λ s h. tt)

  pub Ensures-if :
      {Q : A → S → Type 0} (b : Bool) (m n : Action S E A)
      → Ensures P m Q
      → Ensures P n Q
      → Ensures P (if b then m else n) Q
  Ensures-if true m n em en = em
  Ensures-if false m n em en = en

module _ {S E : Type 0} {P : S → Type 0} where
  pub Ensures-raise_if : (b : Bool) (e : E) → Ensures P (raise_if b e) (λ _ s. P s × (b ≡ false))
  Ensures-raise_if true e = Ensures-at (raise_if true e) (λ s h. tt)
  Ensures-raise_if false e = Ensures-at (raise_if false e) (λ s h. (h, refl))
