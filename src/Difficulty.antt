-- ===== src/Difficulty.antt =====
-- The compact form of a difficulty and the step to the next one: pkg/util/difficulty/difficulty.go,
-- of which pkg/blockchain/blockchain.go has a copy.
pub mod Bits
pub mod Retarget
pub mod Update
mod Tests
use Prim.Native.Nat.{bit_or}
use korthochain.Common.{
  ℕ, ◌+◌, ◌-◌, ◌*◌, ◌/◌, ◌%◌, ◌^◌, Bool, true, false, not, ◌&&◌, ltb, leb, ◌==◌, length,
  if◌then◌else◌,
}
use korthochain.Wire.Blocks.{big_bytes}

-- A `big.Int`: its size, and whether it is below 0.
pub record Big : Type 0 where
  pub negative : Bool
  pub size : ℕ

abbrev pub big : Bool → ℕ → Big
big negative size = record { negative = negative && not (size == 0); size = size }

-- `CompactToBig`
unfoldable pub compact_to_big : ℕ → Big
compact_to_big compact =
    let mantissa = compact % 2 ^ 23 in
    let exponent = compact / 2 ^ 24 in
    big (compact / 2 ^ 23 % 2 == 1) (
      if leb exponent 3
      then mantissa / 2 ^ (8 * (3 - exponent))
      else mantissa * 2 ^ (8 * (exponent - 3)))

-- The first three bytes of a number of so many bytes, as uint32. `Rsh` rounds a number below 0 down.
unfoldable pub leading : Bool → ℕ → ℕ → ℕ
leading negative exponent n =
    let weight = 2 ^ (8 * (exponent - 3)) in
    if leb exponent 3
    then n * 2 ^ (8 * (3 - exponent)) % 2 ^ 32
    else (if negative then n + (weight - 1) else n) / weight % 2 ^ 32

-- The parts of the compact form, with the sign bit kept free. A mantissa of 2 ^ 24, to which a number
-- below 0 may be rounded, shares a bit with the exponent.
unfoldable pub pack : Bool → ℕ → ℕ → ℕ
pack negative exponent mantissa =
    let high = exponent * 2 ^ 24 % 2 ^ 32 in
    (if ltb mantissa (2 ^ 24) then high + mantissa else bit_or high mantissa)
    + (if negative then 2 ^ 23 else 0)

-- `BigToCompact`. Where bit 23 is set the mantissa goes down a byte.
unfoldable pub big_to_compact : Big → ℕ
unfolding leading pack big_bytes
big_to_compact n =
    if n.size == 0
    then 0
    else (let exponent = length (big_bytes n.size) in
        let mantissa = leading n.negative exponent n.size in
        if mantissa / 2 ^ 23 % 2 == 1
        then pack n.negative (exponent + 1) (mantissa / 2 ^ 8)
        else pack n.negative exponent mantissa)

-- `powLimit` and `Cycle`
abbrev pub pow_limit : ℕ
pow_limit = 2 ^ 255 - 1

abbrev pub cycle : ℕ
cycle = 10

-- A uint64 as an int64.
abbrev pub int64_of : ℕ → Big
int64_of u = if ltb u (2 ^ 63) then big false u else big true (2 ^ 64 - u)

-- `Div`, which rounds so that the remainder is not below 0.
unfoldable pub big_div : Big → ℕ → Big
big_div x y = if x.negative then big true ((x.size + (y - 1)) / y) else big false (x.size / y)

-- The target that follows an old one, within the limit.
unfoldable pub next_big : Big → Big → Big
unfolding big_div
next_big old timespan =
    let target =
      big_div
        (big (if old.negative then not timespan.negative else timespan.negative)
          (old.size * timespan.size))
        (cycle * 10) in
    if not target.negative && ltb pow_limit target.size then big false pow_limit else target

-- `CalcNextGlobalRequiredDifficulty`, with the time as the difference of its two arguments.
unfoldable pub calc_next : Big → ℕ → ℕ
unfolding compact_to_big big_to_compact next_big
calc_next timespan bits = big_to_compact (next_big (compact_to_big bits) timespan)
