-- ===== src/Common/Action.antt =====
-- Calls that change a state and may return an error. The state comes back after an error too,
-- since what was written before it stays written.
use korthochain.Common.Tests.{if◌then◌else◌}
use mathlib.Core.Bool.{Bool}
use mathlib.Core.Path.{◌≡◌, refl, ap}
use korthochain.Common.Outcome.{Result, ok, err}

abbrev pub Action : Type 0 → Type 0 → Type 0 → Type 0
Action S E A = S → Result E A × S

module _ {S E A : Type 0} where
  abbrev pub pure : A → Action S E A
  pure a s = (ok a, s)

  abbrev pub raise : E → Action S E A
  raise e s = (err e, s)

  -- A call that only reads.
  abbrev pub query : (S → Result E A) → Action S E A
  query f s = (f s, s)

module _ {S E : Type 0} where
  -- What follows a call, by how the call ended.
  abbrev pub continue : {A B : Type 0} → (A → Action S E B) → Result E A × S → Result E B × S
  continue f (ok a, s) = f a s
  continue f (err e, s) = (err e, s)

  infixl 5 ◌>>=◌ ◌>>◌
  abbrev pub ◌>>=◌ : {A B : Type 0} → Action S E A → (A → Action S E B) → Action S E B
  ◌>>=◌ m f s = continue f (m s)

  abbrev pub ◌>>◌ : {B : Type 0} → Action S E (Unit {0}) → Action S E B → Action S E B
  m >> k = m >>= λ _. k

  -- `if bad { return err }`
  abbrev pub raise_if : Bool → E → Action S E (Unit {0})
  raise_if b e s = (if b then err e else ok tt, s)

  abbrev pub modify : (S → S) → Action S E (Unit {0})
  modify f s = (ok tt, f s)

  -- A bind whose first call is known to succeed goes on; one whose first call is known to fail ends.
  pub >>=-ok :
      {A B : Type 0} (m : Action S E A) (f : A → Action S E B) (s : S) {a : A} {s' : S}
      → m s ≡ (ok a, s')
      → (m >>= f) s ≡ f a s'
  >>=-ok m f s h = ap (continue f) h

  pub >>=-err :
      {A B : Type 0} (m : Action S E A) (f : A → Action S E B) (s : S) {e : E} {s' : S}
      → m s ≡ (err e, s')
      → (m >>= f) s ≡ (err e, s')
  >>=-err m f s h = ap (continue f) h

  -- A chain of calls that succeeds has a first call that succeeds.
  pub >>=-inv :
      {A B : Type 0} (m : Action S E A) (f : A → Action S E B) (s : S) {b : B} {s' : S}
      → (m >>= f) s ≡ (ok b, s')
      → (a : A) × (s1 : S) × (m s ≡ (ok a, s1)) × (f a s1 ≡ (ok b, s'))
  >>=-inv m f s {b} {s'} h = first (m s) refl h
    where
      first :
          (r : Result E _ × S)
          → m s ≡ r
          → continue f r ≡ (ok b, s')
          → (a : _) × (s1 : S) × (m s ≡ (ok a, s1)) × (f a s1 ≡ (ok b, s'))
      first (ok a, s1) e h = (a, s1, e, h)
      first (err x, s1) e h = absurd (cc h)
