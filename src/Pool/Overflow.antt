-- ===== src/Pool/Overflow.antt =====
-- pkg/util/math/overflow.go: sums and differences of uint64 values that fail instead of wrapping.
use korthochain.Common.{
  ℕ, ◌+◌, ◌-◌, ◌^◌, ◌≡◌, List, [], ◌∷◌, ltb, if◌then◌else◌, arith, Bool-cases, inl, inr,
}
use korthochain.Common.Word.{max_u64, ◌+64◌, ◌-64◌, IsU64}
use korthochain.Common.Outcome.{Result, ok, err}

-- The errors of the pool.
pub data PoolError : Type 0 where
  add_overflow sub_overflow insufficient nonzero_amount unknown_type chain_error panicked :
      PoolError
  pool_full nonce_too_low unsupported_input gas_out_of_range bad_signature : PoolError

-- `AddUint64Overflow`
unfoldable pub add_uint64_overflow : ℕ → List ℕ → Result PoolError ℕ
add_uint64_overflow a [] = ok a
add_uint64_overflow a (v ∷ b) =
    let rest = add_uint64_overflow (a +64 v) b in
    if ltb (max_u64 -64 a) v then err add_overflow else rest

-- `SubUint64Overflow`
unfoldable pub sub_uint64_overflow : ℕ → List ℕ → Result PoolError ℕ
sub_uint64_overflow a [] = ok a
sub_uint64_overflow a (v ∷ b) =
    let rest = sub_uint64_overflow (a -64 v) b in if ltb a v then err sub_overflow else rest

abbrev pub sum : List ℕ → ℕ
sum [] = 0
sum (v ∷ b) = v + sum b

-- Adding values to a number in uint64 gives their sum where it stays below 2 ^ 64, and fails
-- everywhere else.
pub add_uint64_overflow_lem :
    (a : ℕ) (b : List ℕ)
    → IsU64 a
    → add_uint64_overflow a b
      ≡ (if ltb (a + sum b) (2 ^ 64) then ok (a + sum b) else err add_overflow)
unfolding add_uint64_overflow
add_uint64_overflow_lem a [] h = ground arith
add_uint64_overflow_lem a (v ∷ b) h = elim (Bool-cases (ltb (max_u64 -64 a) v)) [
  | inl over ↦ ground arith
  | inr fits ↦
      let exact : a +64 v ≡ a + v = ground arith in
      rw (fits, exact, add_uint64_overflow_lem (a + v) b (ground arith)) (ground arith)
]

-- Subtracting values from a number in uint64 gives the difference where the number is at least
-- their sum, and fails everywhere else.
pub sub_uint64_overflow_lem :
    (a : ℕ) (b : List ℕ)
    → IsU64 a
    → sub_uint64_overflow a b ≡ (if ltb a (sum b) then err sub_overflow else ok (a - sum b))
unfolding sub_uint64_overflow
sub_uint64_overflow_lem a [] h = ground arith
sub_uint64_overflow_lem a (v ∷ b) h = elim (Bool-cases (ltb a v)) [
  | inl over ↦ ground arith
  | inr fits ↦
      let exact : a -64 v ≡ a - v = ground arith in
      rw (fits, exact, sub_uint64_overflow_lem (a - v) b (ground arith)) (ground arith)
]
