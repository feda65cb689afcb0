-- ===== src/Merkle/Powers.antt =====
-- How far `powerOfTwo` of pkg/storage/merkle/merkle.go splits.
use Prim.Native.Nat.{bit_and-bitwise, digits, min}
use korthochain.Common.{
  ℕ, zero, suc, ◌-◌, ◌/◌, ◌%◌, ◌≤◌, ◌<◌, ◌≡◌, false, arith, subst, sym, ◌==◌, Bool-cases, inl, inr,
}
use korthochain.Merkle.{cleared, power_of_two0, power_of_two}

digits-le : (n a b : ℕ) → digits (λ b. zero) min n a b ≤ b
digits-le zero a b = omega arith
digits-le (suc n) zero b = omega arith
digits-le (suc n) (suc a) b =
    let low : min (suc a % 2) (b % 2) ≤ b % 2 = omega arith in
    omega (arith, low, digits-le n (suc a / 2) (b / 2))

cleared-le : (n : ℕ) → cleared n ≤ n - 1
cleared-le n = subst (λ k. k ≤ n - 1) (sym (bit_and-bitwise n (n - 1))) (digits-le n n (n - 1))

power_of_two0-bounds :
    (turns n : ℕ) → 0 < n → (0 < power_of_two0 turns n) × (power_of_two0 turns n ≤ n)
unfolding power_of_two0
power_of_two0-bounds zero n h = (h, omega arith)
power_of_two0-bounds (suc turns) n h = elim (Bool-cases (cleared n == 0)) [
  | inl e ↦ rw e (h, omega arith)
  | inr e ↦
      let more : 0 < cleared n = ground (arith, e) in
      let (pos, le) = power_of_two0-bounds turns (cleared n) more in
      rw e (pos, omega (arith, le, cleared-le n))
]

power_of_two0-less :
    (turns n : ℕ)
    → 0 < turns
    → (cleared n == 0) ≡ false
    → (0 < power_of_two0 turns n) × (power_of_two0 turns n < n)
unfolding power_of_two0
power_of_two0-less zero n h e = absurd (omega (arith, h))
power_of_two0-less (suc turns) n h e =
    let more : 0 < cleared n = ground (arith, e) in
    let (pos, le) = power_of_two0-bounds turns (cleared n) more in
    rw e (pos, omega (arith, le, cleared-le n, more))

-- Both parts of a split have something.
pub power_of_two-splits : (n : ℕ) → 2 ≤ n → (0 < power_of_two n) × (power_of_two n < n)
unfolding power_of_two
power_of_two-splits n h = elim (Bool-cases (cleared n == 0)) [
  | inl e ↦ rw e (omega arith, omega arith)
  | inr e ↦ rw e (power_of_two0-less n n (omega arith) e)
]
