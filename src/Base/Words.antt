-- ===== src/Base/Words.antt =====
-- `int` and `unsigned` of 32 bits, each as its bit pattern, a number below 2^32. Sums and
-- differences wrap; comparisons of `int` read the pattern as a signed number.
use projects_in_c.Base.Tests.{ltb, if◌then◌else◌}
use Prim.Native.Nat.{ℕ, ◌+◌, ◌-◌, ◌%◌, ◌^◌, ◌<◌}
use mathlib.Core.Path.{◌≡◌}
use mathlib.Core.Bool.{Bool, not}
use native.Mathlib.Omega.{arith}

abbrev pub word : ℕ
word = 2 ^ 32

abbrev pub int_sign : ℕ
int_sign = 2 ^ 31

-- The `int` -1.
abbrev pub minus_one : ℕ
minus_one = 2 ^ 32 - 1

unfoldable pub add : ℕ → ℕ → ℕ
add a b = (a + b) % word

unfoldable pub sub : ℕ → ℕ → ℕ
sub a b = (a + word - b) % word

-- `a < b` on `int`.
unfoldable pub slt : ℕ → ℕ → Bool
slt a b = ltb ((a + int_sign) % word) ((b + int_sign) % word)

-- `a >= b` on `int`.
unfoldable pub sge : ℕ → ℕ → Bool
unfolding slt
sge a b = not (slt a b)

-- The `int` is not negative.
abbrev pub IsNat : ℕ → Type 0
IsNat a = a < int_sign

-- How many rounds a loop `for (int i = 0; i < n; i++)` makes: none for a negative `int`.
unfoldable pub rounds_to : ℕ → ℕ
unfolding slt
rounds_to n = if slt n 0 then 0 else n

pub rounds_to_nat : (n : ℕ) → IsNat n → rounds_to n ≡ n
unfolding rounds_to slt
rounds_to_nat n h = ground arith

pub add_exact : (a b : ℕ) → a + b < word → add a b ≡ a + b
unfolding add
add_exact a b h = omega arith

pub slt_nat : (a b : ℕ) → IsNat a → IsNat b → slt a b ≡ ltb a b
unfolding slt
slt_nat a b ha hb = ground arith

pub add-lt : (a b : ℕ) → add a b < word
unfolding add
add-lt a b = omega arith

pub sub-lt : (a b : ℕ) → sub a b < word
unfolding sub
sub-lt a b = omega arith
