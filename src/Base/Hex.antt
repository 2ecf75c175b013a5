-- ===== src/Base/Hex.antt =====
-- What `scanf` reads for `%x`, an `unsigned` of 32 bits.
use projects_in_c.Base.Tests.{leb, ◌==◌, if◌then◌else◌}
use projects_in_c.Base.Words.{word}
use Prim.Native.Nat.{ℕ, ◌+◌, ◌-◌, ◌*◌, ◌%◌}
use mathlib.Core.Bool.{Bool, ◌&&◌, ◌||◌}
use mathlib.Core.List.{List, [], ◌∷◌}
use mathlib.Core.Option.{Option, none, some}

abbrev pub is_hex : ℕ → Bool
is_hex c = (leb b'0' c && leb c b'9') || ((leb b'a' c && leb c b'f') || (leb b'A' c && leb c b'F'))

abbrev pub hex_digit : ℕ → ℕ
hex_digit c = if leb c b'9' then c - b'0' else (if leb c b'F' then c - b'A' + 10 else c - b'a' + 10)

-- The digits in front, behind those that make `n`, and what is left.
unfoldable pub scan_hex_digits : ℕ → List ℕ → ℕ × List ℕ
scan_hex_digits n [] = (n, [])
scan_hex_digits n (c ∷ cs) =
    if is_hex c then scan_hex_digits (n * 16 + hex_digit c) cs else (n, c ∷ cs)

-- One digit or more; `none` is a mismatch.
unfoldable pub hex_number : List ℕ → Option ℕ × List ℕ
unfolding scan_hex_digits
hex_number [] = (none, [])
hex_number (c ∷ cs) =
    if is_hex c
    then (let (n, left) = scan_hex_digits 0 (c ∷ cs) in (some (n % word), left))
    else (none, c ∷ cs)

-- With "0x" in front or not.
unfoldable pub hex_prefixed : List ℕ → Option ℕ × List ℕ
unfolding hex_number
hex_prefixed [] = hex_number []
hex_prefixed (c ∷ []) = hex_number (c ∷ [])
hex_prefixed (c ∷ d ∷ cs) =
    if c == b'0' && (d == b'x' || d == b'X') then hex_number cs else hex_number (c ∷ d ∷ cs)

abbrev pub negated : Option ℕ × List ℕ → Option ℕ × List ℕ
negated (none, cs) = (none, cs)
negated (some n, cs) = (some ((word - n) % word), cs)

-- `%x` behind white space: a number of 32 bits, or a mismatch, and what is left of the input. A larger
-- number is undefined in C; here it wraps.
unfoldable pub scan_hex : List ℕ → Option ℕ × List ℕ
unfolding hex_prefixed
scan_hex [] = (none, [])
scan_hex (c ∷ cs) =
    if c == b'-'
    then negated (hex_prefixed cs)
    else (if c == b'+' then hex_prefixed cs else hex_prefixed (c ∷ cs))
