-- ===== src/Common/Word.antt =====
-- Go's uint64 arithmetic: values are numbers below 2 ^ 64, and `+`, `-`, `*` wrap around.
use Prim.Native.Nat.{ℕ, ◌+◌, ◌-◌, ◌*◌, ◌%◌, ◌^◌, ◌≤◌, ◌<◌}
use mathlib.Core.Path.{◌≡◌}
use native.Mathlib.Omega.{arith}

abbrev pub u64_mod : ℕ
u64_mod = 2 ^ 64

-- `MAXUINT64`
abbrev pub max_u64 : ℕ
max_u64 = 2 ^ 64 - 1

infixl 65 ◌+64◌ ◌-64◌
infixl 70 ◌*64◌
abbrev pub ◌+64◌ : ℕ → ℕ → ℕ
a +64 b = (a + b) % 2 ^ 64

-- The modulus is added first, since `-` on the natural numbers stops at 0.
abbrev pub ◌-64◌ : ℕ → ℕ → ℕ
a -64 b = (a + 2 ^ 64 - b) % 2 ^ 64

abbrev pub ◌*64◌ : ℕ → ℕ → ℕ
a *64 b = (a * b) % 2 ^ 64

-- The value fits a machine word.
abbrev pub IsU64 : ℕ → Type 0
IsU64 a = a < 2 ^ 64

pub sub64-exact : (a b : ℕ) → IsU64 a → b ≤ a → a -64 b ≡ a - b
sub64-exact a b ha h = omega arith

pub add64-exact : (a b : ℕ) → a + b < 2 ^ 64 → a +64 b ≡ a + b
add64-exact a b h = omega arith
