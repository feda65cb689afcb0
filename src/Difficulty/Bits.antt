-- ===== src/Difficulty/Bits.antt =====
-- What BigToCompact of pkg/util/difficulty/difficulty.go keeps of a number.
use native.Mathlib.Nat.{
  pow-suc, div-mul-le_self, lt-div-mul-add, div-lt_iff_lt-mul, one-le-pow, pow-le-pow_right,
}
use mathlib.Core.List.{reverse}
use korthochain.Common.{
  length-reverse, ltb→lt, ℕ, zero, suc, ◌+◌, ◌-◌, ◌*◌, ◌/◌, ◌%◌, ◌^◌, ◌≤◌, ◌<◌, ◌≡◌, refl, ◌∙◌, ap,
  subst, Bool, true, false, leb, ltb, ◌==◌, length, arith, Bool-cases, inl, inr, if◌then◌else◌,
}
use korthochain.Common.Digits.{
  digits, length-digits, digits_value-digits, digits_value-lt_pow, digits-All,
}
use korthochain.Wire.Blocks.{big_bytes}
use korthochain.Difficulty.{big, compact_to_big, leading, pack, big_to_compact}

-- The number that an exponent and a mantissa stand for.
abbrev shifted : ℕ → ℕ → ℕ
shifted exponent mantissa =
    if leb exponent 3
    then mantissa / 2 ^ (8 * (3 - exponent))
    else mantissa * 2 ^ (8 * (exponent - 3))

compact_to_big-pack :
    (negative : Bool) (exponent mantissa : ℕ)
    → exponent < 256
    → mantissa < 2 ^ 23
    → compact_to_big (pack negative exponent mantissa) ≡ big negative (shifted exponent mantissa)
unfolding compact_to_big pack
compact_to_big-pack false e q he hq =
    let room : ltb q (2 ^ 24) ≡ true = ground arith in
    let low : (e * 2 ^ 24 % 2 ^ 32 + q + 0) % 2 ^ 23 ≡ q = omega (arith, he, hq) in
    let high : (e * 2 ^ 24 % 2 ^ 32 + q + 0) / 2 ^ 24 ≡ e = omega (arith, he, hq) in
    let sign : (e * 2 ^ 24 % 2 ^ 32 + q + 0) / 2 ^ 23 % 2 ≡ 0 = omega (arith, he, hq) in
    rw (room, low, high, sign) refl
compact_to_big-pack true e q he hq =
    let room : ltb q (2 ^ 24) ≡ true = ground arith in
    let low : (e * 2 ^ 24 % 2 ^ 32 + q + 2 ^ 23) % 2 ^ 23 ≡ q = omega (arith, he, hq) in
    let high : (e * 2 ^ 24 % 2 ^ 32 + q + 2 ^ 23) / 2 ^ 24 ≡ e = omega (arith, he, hq) in
    let sign : (e * 2 ^ 24 % 2 ^ 32 + q + 2 ^ 23) / 2 ^ 23 % 2 ≡ 1 = omega (arith, he, hq) in
    rw (room, low, high, sign) refl

-- `m` is `n` but for less than one part in 2 ^ 15, which is lost.
abbrev pub Near : ℕ → ℕ → Type 0
Near n m = (m ≤ n) × ((n - m) * 2 ^ 15 ≤ n)

pow-byte : (m : ℕ) → 2 ^ (m + 8) ≡ 2 ^ m * 256
pow-byte m =
    let step : (n : ℕ) → 2 ^ suc n ≡ 2 ^ n * 2 = pow-suc 2 in
    let shape : m + 8 ≡ suc (suc (suc (suc (suc (suc (suc (suc m))))))) = omega arith in
    rw shape (
      omega (
        arith,
        step m,
        step (suc m),
        step (suc (suc m)),
        step (suc (suc (suc m))),
        step (suc (suc (suc (suc m)))),
        step (suc (suc (suc (suc (suc m))))),
        step (suc (suc (suc (suc (suc (suc m)))))),
        step (suc (suc (suc (suc (suc (suc (suc m))))))),
      ))

-- The mantissa after its bit 23 was looked at.
abbrev settled : ℕ → ℕ → ℕ
settled e q = if q / 2 ^ 23 % 2 == 1 then shifted (e + 1) (q / 2 ^ 8) else shifted e q

-- The mantissa of a number of `e` bytes has three bytes, and is near to the number.
abbrev IsLeading : ℕ → ℕ → Type 0
IsLeading e n = (leading false e n < 2 ^ 24) × Near n (settled e (leading false e n))

Near-one : (n : ℕ) → 1 ≤ n → n < 256 → IsLeading 1 n
unfolding leading
Near-one n l h = (ground arith, ground arith)

Near-two : (n : ℕ) → 256 ≤ n → n < 256 ^ 2 → IsLeading 2 n
unfolding leading
Near-two n l h = (ground arith, ground arith)

Near-three : (n : ℕ) → 256 ^ 2 ≤ n → n < 256 ^ 3 → IsLeading 3 n
unfolding leading
Near-three n l h = (ground arith, ground arith)

mul_mono : (a b c : ℕ) → a ≤ b → a * c ≤ b * c
mul_mono a b c h = grind arith

-- A number of more than three bytes, by the weight of the byte above those that are lost.
Near-quotient :
    (n p q : ℕ)
    → 0 < p
    → n / p ≡ q
    → 2 ^ 16 * p ≤ n
    → Near n (q * p) × (2 ^ 23 ≤ q → Near n (q / 2 ^ 8 * (p * 256)))
Near-quotient n p q hp e low =
    let below : q * p ≤ n = subst (λ k. k * p ≤ n) e (div-mul-le_self n p) in
    let above : n < q * p + p = subst (λ k. n < k * p + p) e (lt-div-mul-add hp) in
    (
      (below, omega (arith, below, above, low)),
      λ high.
          let r = q / 2 ^ 8 in
          let down : r * 256 * p ≤ q * p = mul_mono (r * 256) q p (omega arith) in
          let up : (q + 1) * p ≤ (r * 256 + 256) * p =
            mul_mono (q + 1) (r * 256 + 256) p (omega arith) in
          let large : 2 ^ 23 * p ≤ q * p = mul_mono (2 ^ 23) q p high in
          let same : r * (p * 256) ≡ r * 256 * p = grind arith in
          let down' : q / 2 ^ 8 * (p * 256) ≤ q * p = rw same down in
          let left : (q + 1) * p ≡ q * p + p = grind arith in
          let right : (r * 256 + 256) * p ≡ r * (p * 256) + 256 * p = grind arith in
          (omega (arith, down', below), omega (arith, up, left, right, above, below, large, down')),
    )

size-pos : (m : ℕ) → 0 < 2 ^ m
size-pos m = one-le-pow m 2 (omega arith)

-- A number of so many bytes, at least four of them.
Near-more :
    (k n : ℕ)
    → 2 ^ 16 * 2 ^ (8 * (k + 1)) ≤ n
    → n < 2 ^ 24 * 2 ^ (8 * (k + 1))
    → IsLeading (k + 4) n
unfolding leading
Near-more k n l h =
    let p = 2 ^ (8 * (k + 1)) in
    let q = n / p in
    let many : leb (k + 4) 3 ≡ false = ground arith in
    let more : leb (k + 4 + 1) 3 ≡ false = ground arith in
    let three : k + 4 - 3 ≡ k + 1 = omega arith in
    let two : 8 * (k + 4 + 1 - 3) ≡ 8 * (k + 1) + 8 = omega arith in
    let small : q < 2 ^ 24 = (div-lt_iff_lt-mul (size-pos (8 * (k + 1)))).1 h in
    let word : q % 2 ^ 32 ≡ q = omega (arith, small) in
    let near = Near-quotient n p q (size-pos (8 * (k + 1))) refl l in
    rw (many, three, word)
      (
        small,
        elim (Bool-cases (q / 2 ^ 23 % 2 == 1)) [
          | inl e ↦
              rw e (rw (more, two, pow-byte (8 * (k + 1))) (near.1 (ground (arith, e, small))))
          | inr e ↦ rw e near.0
        ],
      )

bytes-pow : (k : ℕ) → 256 ^ k ≡ 2 ^ (8 * k)
bytes-pow zero = refl
bytes-pow (suc k) =
    let next : 8 * suc k ≡ 8 * k + 8 = omega arith in
    rw (next, pow-byte (8 * k), pow-suc 256 k, bytes-pow k) refl

leading_lem : (e n : ℕ) → 256 ^ e ≤ n → n < 256 ^ suc e → IsLeading (suc e) n
leading_lem zero n l h = Near-one n l h
leading_lem (suc zero) n l h = Near-two n l h
leading_lem (suc (suc zero)) n l h = Near-three n l h
leading_lem (suc (suc (suc k))) n l h =
    let p = bytes-pow (k + 1) in
    let shape : suc (suc (suc (suc k))) ≡ k + 4 = omega arith in
    let s1 = pow-suc 256 (suc k) in
    let s2 = pow-suc 256 (suc (suc k)) in
    let s3 = pow-suc 256 (suc (suc (suc k))) in
    let one : suc k ≡ k + 1 = omega arith in
    let same : 256 ^ suc k ≡ 2 ^ (8 * (k + 1)) = ap (λ j. 256 ^ j) one ∙ p in
    rw shape (Near-more k n (omega (arith, l, s1, s2, same)) (omega (arith, h, s1, s2, s3, same)))

length-big_bytes :
    (n : ℕ) → 0 < n → (e : ℕ) × (length (big_bytes n) ≡ suc e) × (256 ^ e ≤ n) × (n < 256 ^ suc e)
unfolding big_bytes
length-big_bytes n h = go (length (digits 256 n)) refl
  where
    below : n < 256 ^ length (digits 256 n)
    below =
        subst (λ k. k < 256 ^ length (digits 256 n)) (digits_value-digits 256 n (omega arith))
          (digits_value-lt_pow 256 (digits 256 n) (digits-All 256 n (omega arith)))

    go :
        (k : ℕ)
        → length (digits 256 n) ≡ k
        → (e : ℕ) × (length (reverse (digits 256 n)) ≡ suc e) × (256 ^ e ≤ n) × (n < 256 ^ suc e)
    go zero e = absurd (omega (arith, h, subst (λ k. n < 256 ^ k) e below))
    go (suc k) e = elim (Bool-cases (ltb n (256 ^ k))) [
      | inl less ↦
          absurd (omega (arith, e, length-digits 256 n k (omega arith) (ltb→lt n (256 ^ k) less)))
      | inr full ↦ (
        k,
        length-reverse (digits 256 n) ∙ e,
        ground (arith, full),
        subst (λ k. n < 256 ^ k) e below,
      )
    ]

-- The length of a number below 256 ^ n is at most n.
exponent-small : (e n : ℕ) → 256 ^ e ≤ n → n < 2 ^ (8 * 254) → e + 2 < 256
exponent-small e n l h = elim (Bool-cases (leb e 253)) [
  | inl few ↦ ground (arith, few)
  | inr many ↦
      let more : 254 ≤ e = ground (arith, many) in
      let grown : 256 ^ 254 ≤ 256 ^ e = pow-le-pow_right {n = 256} (omega arith) more in
      absurd (omega (arith, grown, l, h, bytes-pow 254))
]

compact-settled :
    (e q : ℕ)
    → e + 1 < 256
    → q < 2 ^ 24
    → compact_to_big
        (if q / 2 ^ 23 % 2 == 1 then pack false (e + 1) (q / 2 ^ 8) else pack false e q)
      ≡ big false (settled e q)
compact-settled e q he hq = elim (Bool-cases (q / 2 ^ 23 % 2 == 1)) [
  | inl high ↦ rw high (compact_to_big-pack false (e + 1) (q / 2 ^ 8) he (omega (arith, hq)))
  | inr low ↦ rw low (compact_to_big-pack false e q (omega (arith, he)) (ground (arith, hq, low)))
]

-- A number above 0 and below 2 ^ 2032 goes into the compact form and comes back as a number that is
-- not above it, and not below it by more than one part in 2 ^ 15.
pub compact_to_big-big_to_compact :
    (n : ℕ)
    → 0 < n
    → n < 2 ^ (8 * 254)
    → (m : ℕ) × (compact_to_big (big_to_compact (big false n)) ≡ big false m) × Near n m
unfolding big_to_compact
compact_to_big-big_to_compact n h fits =
    let (e, bytes, low, high) = length-big_bytes n h in
    let (small, near) = leading_lem e n low high in
    let exponent : suc e + 1 < 256 = omega (arith, exponent-small e n low fits) in
    let some_bits : (n == 0) ≡ false = ground arith in
    (
      settled (suc e) (leading false (suc e) n),
      rw (some_bits, bytes) (compact-settled (suc e) (leading false (suc e) n) exponent small),
      near,
    )
