-- ===== src/Difficulty/Retarget.antt =====
-- CalcNextGlobalRequiredDifficulty of pkg/util/difficulty/difficulty.go against exact arithmetic.
use korthochain.Common.{
  ℕ, ◌*◌, ◌/◌, ◌^◌, ◌≤◌, ◌<◌, ◌≡◌, refl, ◌∙◌, ap, true, false, ltb, ◌==◌, arith, Bool-cases, inl,
  inr, if◌then◌else◌,
}
use korthochain.Difficulty.{
  Big, big, compact_to_big, big_to_compact, big_div, int64_of, next_big, pow_limit, calc_next,
}
use korthochain.Difficulty.Bits.{Near, compact_to_big-big_to_compact}

-- The next difficulty in exact arithmetic: a cycle of ten blocks is to take a hundred units of time,
-- and there is a limit.
abbrev pub next_target : ℕ → ℕ → ℕ
next_target old time =
    let target = old * time / 100 in if ltb pow_limit target then pow_limit else target

compact-Near :
    (n : ℕ)
    → n ≤ pow_limit
    → (m : ℕ) × (compact_to_big (big_to_compact (big false n)) ≡ big false m) × Near n m
unfolding compact_to_big big_to_compact
compact-Near n h = elim (Bool-cases (n == 0)) [
  | inl zeros ↦ (0, rw zeros refl, (omega arith, ground (arith, zeros)))
  | inr more ↦ compact_to_big-big_to_compact n (ground (arith, more)) (omega (arith, h))
]

next_big-exact :
    (old : Big) (time : ℕ)
    → old.negative ≡ false
    → time < 2 ^ 63
    → next_big old (int64_of time) ≡ big false (next_target old.size time)
unfolding next_big big_div
next_big-exact old time positive small =
    let inside : ltb time (2 ^ 63) ≡ true = ground (arith, small) in
    rw (inside, positive)
      (elim (Bool-cases (ltb pow_limit (old.size * time / 100))) [
        | inl over ↦ rw over refl
        | inr within ↦ rw within refl
      ])

limited : (old time : ℕ) → next_target old time ≤ pow_limit
limited old time = elim (Bool-cases (ltb pow_limit (old * time / 100))) [
  | inl over ↦ rw over (omega arith)
  | inr within ↦ rw within (ground (arith, within))
]

-- For a difficulty that is not below 0 and a time that an int64 holds, the next one is that of exact
-- arithmetic, but for less than one part in 2 ^ 15 which the compact form loses. It stays within the
-- limit.
pub calc_next-Near :
    (time bits : ℕ)
    → time < 2 ^ 63
    → (compact_to_big bits).negative ≡ false
    → (m : ℕ) × (compact_to_big (calc_next (int64_of time) bits) ≡ big false m)
      × Near (next_target (compact_to_big bits).size time) m
      × (m ≤ pow_limit)
unfolding calc_next
calc_next-Near time bits small positive =
    let target = next_target (compact_to_big bits).size time in
    let below = limited (compact_to_big bits).size time in
    let (m, same, near) = compact-Near target below in
    (
      m,
      ap (λ n. compact_to_big (big_to_compact n))
            (next_big-exact (compact_to_big bits) time positive small)
          ∙ same,
      near,
      omega (arith, near.0, below),
    )
