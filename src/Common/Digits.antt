-- ===== src/Common/Digits.antt =====
-- Positional numerals, least significant digit first: the value of a digit string, the digits of
-- a number in a fixed width, and its digits with none to spare. Go's encoding/binary, math/big's
-- Bytes and SetBytes and the base-58 codec are all instances.
use Prim.Native.Nat.{ℕ, zero, suc, ◌+◌, ◌-◌, ◌*◌, ◌/◌, ◌%◌, ◌^◌, ◌≤◌, ◌<◌}
use native.Mathlib.Nat.{
  pow-suc, pow-zero, div-lt_iff_lt-mul, mod-add-div, add-mul-mod_self_left, mod-eq_of_lt,
  add-mul-div_left, div-eq_of_lt, div-lt_self, mod-lt,
}
use mathlib.Core.Path.{◌≡◌, refl, sym, ◌∙◌, ap}
use mathlib.Core.Bool.{true, false}
use mathlib.Core.List.{List, [], ◌∷◌, ◌++◌, map, reverse, reverse-append}
use mathlib.Core.Logic.{inl, inr, ◌≢◌}
use native.Mathlib.Omega.{arith}
use korthochain.Common.Tests.{◌==◌, Bool-cases}
use korthochain.Common.Lists.{length, All, length-append}

-- The list of `n` copies.
unfoldable pub replicate {ℓ} : {A : Type ℓ} → ℕ → A → List A
replicate zero a = []
replicate (suc n) a = a ∷ replicate n a

-- Σ dᵢ · bⁱ
unfoldable pub digits_value : ℕ → List ℕ → ℕ
digits_value b [] = 0
digits_value b (d ∷ ds) = d + b * digits_value b ds

-- The `n` lowest digits of `x`.
unfoldable pub fixed_digits : ℕ → ℕ → ℕ → List ℕ
fixed_digits b zero x = []
fixed_digits b (suc n) x = x % b ∷ fixed_digits b n (x / b)

-- The digits of `x` with no leading zero; a fuel of `x` is enough.
unfoldable pub digits_fuel : ℕ → ℕ → ℕ → List ℕ
digits_fuel b zero x = []
digits_fuel b (suc f) x = elim (x == 0) [ true ↦ [] | false ↦ x % b ∷ digits_fuel b f (x / b) ]

unfoldable pub digits : ℕ → ℕ → List ℕ
unfolding digits_fuel
digits b x = digits_fuel b x x

pub length-replicate {ℓ} : {A : Type ℓ} (n : ℕ) (a : A) → length (replicate n a) ≡ n
unfolding replicate
length-replicate zero a = refl
length-replicate (suc n) a = ap suc (length-replicate n a)

replicate-snoc {ℓ} : {A : Type ℓ} (n : ℕ) (a : A) → replicate n a ++ a ∷ [] ≡ a ∷ replicate n a
unfolding replicate
replicate-snoc zero a = refl
replicate-snoc (suc n) a = ap (◌∷◌ a) (replicate-snoc n a)

pub reverse-replicate {ℓ} : {A : Type ℓ} (n : ℕ) (a : A) → reverse (replicate n a) ≡ replicate n a
unfolding replicate
reverse-replicate zero a = refl
reverse-replicate (suc n) a =
    reverse-append (a ∷ []) (replicate n a)
    ∙ ap (λ l. l ++ a ∷ []) (reverse-replicate n a)
    ∙ replicate-snoc n a

pub map-replicate {ℓ κ} :
    {A : Type ℓ} {B : Type κ} (f : A → B) (n : ℕ) (a : A)
    → map f (replicate n a) ≡ replicate n (f a)
unfolding replicate
map-replicate f zero a = refl
map-replicate f (suc n) a = ap (◌∷◌ (f a)) (map-replicate f n a)

pub length-fixed_digits : (b n x : ℕ) → length (fixed_digits b n x) ≡ n
unfolding fixed_digits
length-fixed_digits b zero x = refl
length-fixed_digits b (suc n) x = ap suc (length-fixed_digits b n (x / b))

pub fixed_digits-All : (b n x : ℕ) → 0 < b → All (λ d. d < b) (fixed_digits b n x)
unfolding fixed_digits
fixed_digits-All b zero x h = tt
fixed_digits-All b (suc n) x h = (omega arith, fixed_digits-All b n (x / b) h)

div-lt_pow : (b n x : ℕ) → 0 < b → x < b ^ suc n → x / b < b ^ n
div-lt_pow b n x hb h = (div-lt_iff_lt-mul hb).1 (rw (pow-suc b n) at h)

-- The fixed digits spell the number, if it fits.
pub digits_value-fixed_digits :
    (b n x : ℕ) → 0 < b → x < b ^ n → digits_value b (fixed_digits b n x) ≡ x
unfolding fixed_digits digits_value
digits_value-fixed_digits b zero x hb h = omega (arith, pow-zero b)
digits_value-fixed_digits b (suc n) x hb h =
    rw (digits_value-fixed_digits b n (x / b) hb (div-lt_pow b n x hb h)) (mod-add-div x b)

add_mul-lt : (b d v p : ℕ) → d < b → v < p → d + b * v < p * b
add_mul-lt b d v p h k = grind arith

pub digits_value-lt_pow :
    (b : ℕ) (ds : List ℕ) → All (λ d. d < b) ds → digits_value b ds < b ^ length ds
unfolding digits_value
digits_value-lt_pow b [] h = omega (arith, pow-zero b)
digits_value-lt_pow b (d ∷ ds) h =
    rw (pow-suc b (length ds))
      (add_mul-lt b d (digits_value b ds) (b ^ length ds) h.0 (digits_value-lt_pow b ds h.1))

-- A digit string is the fixed digits of its value, in its own length.
pub fixed_digits-digits_value :
    (b : ℕ) (ds : List ℕ)
    → All (λ d. d < b) ds
    → fixed_digits b (length ds) (digits_value b ds) ≡ ds
unfolding digits_value fixed_digits
fixed_digits-digits_value b [] h = refl
fixed_digits-digits_value b (d ∷ ds) h =
    let low : (d + b * digits_value b ds) % b ≡ d =
      add-mul-mod_self_left d b (digits_value b ds) ∙ mod-eq_of_lt h.0 in
    let high : (d + b * digits_value b ds) / b ≡ digits_value b ds =
      add-mul-div_left d (digits_value b ds) (omega arith)
      ∙ ap (λ (q : ℕ). q + digits_value b ds) (div-eq_of_lt h.0)
      ∙ omega arith in
    rw (low, high, fixed_digits-digits_value b ds h.1)

-- Padding with zeros leaves the value alone.
pub digits_value-pad :
    (b n : ℕ) (ds : List ℕ) → digits_value b (ds ++ replicate n 0) ≡ digits_value b ds
unfolding digits_value replicate
digits_value-pad b zero [] = refl
digits_value-pad b (suc n) [] = rw (digits_value-pad b n []) (omega arith)
digits_value-pad b n (d ∷ ds) = rw (digits_value-pad b n ds)

div-lt_self' : (b x f : ℕ) → 1 < b → x ≢ 0 → x ≤ suc f → x / b ≤ f
div-lt_self' b x f hb nz h = omega (arith, div-lt_self {n = x} {k = b} (omega arith) hb)

digits_value-digits_fuel : (b f x : ℕ) → 1 < b → x ≤ f → digits_value b (digits_fuel b f x) ≡ x
unfolding digits_fuel digits_value
digits_value-digits_fuel b zero x hb h = omega arith
digits_value-digits_fuel b (suc f) x hb h = elim (Bool-cases (x == 0)) [
  | inl z ↦ rw (z, digits_value) (ground arith)
  | inr n ↦
      let nz : x ≢ 0 = ground arith in
      rw (n, digits_value)
        (rw (digits_value-digits_fuel b f (x / b) hb (div-lt_self' b x f hb nz h))
          (mod-add-div x b))
]

-- The digits of a number spell it.
pub digits_value-digits : (b x : ℕ) → 1 < b → digits_value b (digits b x) ≡ x
unfolding digits
digits_value-digits b x hb = digits_value-digits_fuel b x x hb (omega arith)

digits_fuel-All : (b f x : ℕ) → 0 < b → All (λ d. d < b) (digits_fuel b f x)
unfolding digits_fuel
digits_fuel-All b zero x h = tt
digits_fuel-All b (suc f) x h = elim (Bool-cases (x == 0)) [
  | inl z ↦ rw (z, All) tt
  | inr n ↦ rw (n, All) (mod-lt x h, digits_fuel-All b f (x / b) h)
]

pub digits-All : (b x : ℕ) → 0 < b → All (λ d. d < b) (digits b x)
unfolding digits
digits-All b x h = digits_fuel-All b x x h

length-digits_fuel : (b f x n : ℕ) → 0 < b → x < b ^ n → length (digits_fuel b f x) ≤ n
unfolding digits_fuel
length-digits_fuel b zero x n hb h = omega arith
length-digits_fuel b (suc f) x zero hb h = elim (Bool-cases (x == 0)) [
  | inl z ↦ rw (z, length) (omega arith)
  | inr k ↦ absurd (ground (arith, pow-zero b))
]
length-digits_fuel b (suc f) x (suc n) hb h = elim (Bool-cases (x == 0)) [
  | inl z ↦ rw (z, length) (omega arith)
  | inr k ↦
      rw (k, length) (omega (arith, length-digits_fuel b f (x / b) n hb (div-lt_pow b n x hb h)))
]

-- A number below `b ^ n` has at most `n` digits.
pub length-digits : (b x n : ℕ) → 0 < b → x < b ^ n → length (digits b x) ≤ n
unfolding digits
length-digits b x n = length-digits_fuel b x x n

pub All-append-replicate :
    (b n : ℕ) (ds : List ℕ) → 0 < b → All (λ d. d < b) ds → All (λ d. d < b) (ds ++ replicate n 0)
unfolding replicate
All-append-replicate b zero [] hb h = tt
All-append-replicate b (suc n) [] hb h = (hb, All-append-replicate b n [] hb h)
All-append-replicate b n (d ∷ ds) hb h = (h.0, All-append-replicate b n ds hb h.1)

-- Padded with zeros to a width that it fits, a number's digits are its fixed digits.
pub digits-pad :
    (b n x : ℕ)
    → 1 < b
    → x < b ^ n
    → digits b x ++ replicate (n - length (digits b x)) 0 ≡ fixed_digits b n x
digits-pad b n x hb h =
    let ds : List ℕ = digits b x in
    let pad : List ℕ = replicate (n - length ds) 0 in
    let size : length (ds ++ pad) ≡ n = omega (
      arith,
      length-append ds pad,
      length-replicate {A = ℕ} (n - length ds) 0,
      length-digits b x n (omega arith) h,
    ) in
    let spelled : digits_value b (ds ++ pad) ≡ x =
      digits_value-pad b (n - length ds) ds ∙ digits_value-digits b x hb in
    let bounded =
      All-append-replicate b (n - length ds) ds (omega arith) (digits-All b x (omega arith)) in
    sym (rw (size, spelled) at (fixed_digits-digits_value b (ds ++ pad) bounded))
