-- ===== src/Ledger/Supply.antt =====
-- The sum of the balances over a list of accounts, and how a write changes it.
use korthochain.Common.{
  ℕ, ◌+◌, ◌≤◌, ◌≡◌, refl, ap, List, [], ◌∷◌, Bool, true, false, ◌||◌, arith, inl, inr, Bool-cases,
}
use korthochain.Common.Bytes.{Bytes, bytes_eq, bytes_eq→eq, bytes_eq_self}
use korthochain.Ledger.State.{Env, IsStateDb}

abbrev pub contains : Bytes → List Bytes → Bool
contains a [] = false
contains a (x ∷ xs) = bytes_eq a x || contains a xs

-- No account is listed twice.
abbrev pub IsDistinct : List Bytes → Type 0
IsDistinct [] = Unit
IsDistinct (x ∷ xs) = (contains x xs ≡ false) × IsDistinct xs

unfoldable pub total : {S : Type 0} → Env S → S → List Bytes → ℕ
total env s [] = 0
total env s (x ∷ xs) = env.balance_of s x + total env s xs

module _ {S : Type 0} (env : Env S) (db : IsStateDb env) (s : S) where
  pub balance-put_self : (a : Bytes) (v : ℕ) → env.balance_of (env.put_balance s a v) a ≡ v
  balance-put_self a v = rw (db.balance-put s a v a, bytes_eq_self a)

  pub balance-put_ne :
      (a : Bytes) (v : ℕ) (b : Bytes)
      → bytes_eq a b ≡ false
      → env.balance_of (env.put_balance s a v) b ≡ env.balance_of s b
  balance-put_ne a v b h = rw (db.balance-put s a v b, h)

  pub total-put_other :
      (xs : List Bytes) (a : Bytes) (v : ℕ)
      → contains a xs ≡ false
      → total env (env.put_balance s a v) xs ≡ total env s xs
  unfolding total
  total-put_other [] a v h = refl
  total-put_other (x ∷ xs) a v h = ground (arith, total-put_other xs a v, balance-put_ne a v x)

  -- Writing a listed account changes the sum by what the account gains.
  pub total-put :
      (xs : List Bytes) (a : Bytes) (v : ℕ)
      → IsDistinct xs
      → contains a xs ≡ true
      → total env (env.put_balance s a v) xs + env.balance_of s a ≡ total env s xs + v
  unfolding total
  total-put [] a v d h = cc
  total-put (x ∷ xs) a v d h = elim (Bool-cases (bytes_eq a x)) [
    | inl same ↦
        let e : a ≡ x = bytes_eq→eq a x same in
        let absent : contains a xs ≡ false = rw e d.0 in
        let here : env.balance_of (env.put_balance s a v) x ≡ v = rw (← e) (balance-put_self a v) in
        let was : env.balance_of s a ≡ env.balance_of s x = ap (env.balance_of s) e in
        omega (arith, total-put_other xs a v absent)
    | inr other ↦ ground (arith, total-put xs a v d.1, balance-put_ne a v x)
  ]

  pub balance-le-total :
      (xs : List Bytes) (a : Bytes) → contains a xs ≡ true → env.balance_of s a ≤ total env s xs
  unfolding total
  balance-le-total [] a h = cc
  balance-le-total (x ∷ xs) a h = elim (Bool-cases (bytes_eq a x)) [
    | inl same ↦ rw (bytes_eq→eq a x same) (omega arith)
    | inr other ↦ ground (arith, balance-le-total xs a)
  ]
