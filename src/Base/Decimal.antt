-- ===== src/Base/Decimal.antt =====
-- What `printf` writes and `scanf` reads for `%d`. An `int` is its bit pattern, a number below 2^32.
pub mod RoundTrip
pub mod Length
use projects_in_c.Base.Tests.{ltb, leb, ◌==◌, if◌then◌else◌}
use projects_in_c.Base.Words.{word, int_sign}
use Prim.Native.Nat.{ℕ, zero, suc, ◌+◌, ◌-◌, ◌*◌, ◌/◌, ◌%◌, ◌^◌}
use mathlib.Core.Bool.{Bool, ◌&&◌, ◌||◌}
use mathlib.Core.List.{List, [], ◌∷◌, ◌++◌}
use mathlib.Core.Option.{Option, none, some}

-- The digits of a number, with fuel for each of them.
unfoldable pub digits : ℕ → ℕ → List ℕ
digits zero n = []
digits (suc fuel) n =
    let front = digits fuel (n / 10) in
    if ltb n 10 then (b'0' + n) ∷ [] else front ++ (b'0' + n % 10) ∷ []

-- `%d` of `printf`. The numbers have ten digits at most.
unfoldable pub print_int : ℕ → List ℕ
unfolding digits
print_int x = if ltb x int_sign then digits 10 x else b'-' ∷ digits 10 (word - x)

abbrev pub is_digit : ℕ → Bool
is_digit c = leb b'0' c && leb c b'9'

-- `isspace` in the C locale.
abbrev pub is_space : ℕ → Bool
is_space c = c == b' ' || (leb 9 c && leb c 13)

unfoldable pub skip_space : List ℕ → List ℕ
skip_space [] = []
skip_space (c ∷ cs) = if is_space c then skip_space cs else c ∷ cs

-- The digits in front, behind those that make `n`.
unfoldable pub scan_digits : ℕ → List ℕ → ℕ × List ℕ
scan_digits n [] = (n, [])
scan_digits n (c ∷ cs) = if is_digit c then scan_digits (n * 10 + (c - b'0')) cs else (n, c ∷ cs)

-- One digit or more.
unfoldable pub scan_number : List ℕ → Option (ℕ × List ℕ)
unfolding scan_digits
scan_number [] = none
scan_number (c ∷ cs) = if is_digit c then some (scan_digits 0 (c ∷ cs)) else none

abbrev pub negated : Option (ℕ × List ℕ) → Option (ℕ × List ℕ)
negated none = none
negated (some (n, cs)) = some ((word - n % word) % word, cs)

abbrev pub positive : Option (ℕ × List ℕ) → Option (ℕ × List ℕ)
positive none = none
positive (some (n, cs)) = some (n % word, cs)

-- A number behind its sign.
unfoldable pub scan_signed : List ℕ → Option (ℕ × List ℕ)
unfolding scan_number
scan_signed [] = none
scan_signed (c ∷ cs) =
    if c == b'-'
    then negated (scan_number cs)
    else (if c == b'+' then positive (scan_number cs) else positive (scan_number (c ∷ cs)))

-- `%d` of `scanf`: the `int` and what is left of the input, or `none` where no number is there. A
-- number that no `int` holds is undefined in C; here it wraps.
unfoldable pub scan_int : List ℕ → Option (ℕ × List ℕ)
unfolding skip_space scan_signed
scan_int cs = scan_signed (skip_space cs)
