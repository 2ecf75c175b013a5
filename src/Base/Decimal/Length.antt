-- ===== src/Base/Decimal/Length.antt =====
-- `%d` of `scanf` uses at least one character of the input.
use projects_in_c.Base.Tests.{◌==◌, Bool-cases}
use projects_in_c.Base.Lists.{length}
use projects_in_c.Base.Decimal.{
  is_digit, is_space, skip_space, scan_digits, scan_number, scan_signed, scan_int, positive,
  negated,
}
use Prim.Native.Nat.{ℕ, ◌+◌, ◌-◌, ◌*◌, ◌≤◌, ◌<◌}
use mathlib.Core.Logic.{inl, inr}
use mathlib.Core.List.{List, [], ◌∷◌}
use mathlib.Core.Option.{Option, none, some}
use native.Mathlib.Omega.{arith}

skip_space-le : (cs : List ℕ) → length (skip_space cs) ≤ length cs
unfolding skip_space
skip_space-le [] = omega arith
skip_space-le (c ∷ cs) = elim (Bool-cases (is_space c)) [
  | inl space ↦ rw space (omega (arith, skip_space-le cs))
  | inr other ↦ rw other (omega arith)
]

scan_digits-le : (n : ℕ) (cs : List ℕ) → length (scan_digits n cs).1 ≤ length cs
unfolding scan_digits
scan_digits-le n [] = omega arith
scan_digits-le n (c ∷ cs) = elim (Bool-cases (is_digit c)) [
  | inl digit ↦ rw digit (omega (arith, scan_digits-le (n * 10 + (c - b'0')) cs))
  | inr other ↦ rw other (omega arith)
]

-- What is left is shorter, if there is a number.
abbrev pub Shorter : List ℕ → Option (ℕ × List ℕ) → Type 0
Shorter cs none = Unit
Shorter cs (some (n, rest)) = length rest < length cs

Shorter-positive : (cs : List ℕ) (o : Option (ℕ × List ℕ)) → Shorter cs o → Shorter cs (positive o)
Shorter-positive cs none h = tt
Shorter-positive cs (some (n, rest)) h = h

Shorter-negated : (cs : List ℕ) (o : Option (ℕ × List ℕ)) → Shorter cs o → Shorter cs (negated o)
Shorter-negated cs none h = tt
Shorter-negated cs (some (n, rest)) h = h

Shorter-le :
    (cs ds : List ℕ) (o : Option (ℕ × List ℕ)) → length cs ≤ length ds → Shorter cs o → Shorter ds o
Shorter-le cs ds none le h = tt
Shorter-le cs ds (some (n, rest)) le h = omega arith

scan_number-Shorter : (cs : List ℕ) → Shorter cs (scan_number cs)
unfolding scan_number
scan_number-Shorter [] = tt
scan_number-Shorter (c ∷ cs) = elim (Bool-cases (is_digit c)) [
  | inl digit ↦ rw digit (omega (arith, scan_digits-le (0 * 10 + (c - b'0')) cs))
  | inr other ↦ rw other tt
]

scan_signed-Shorter : (cs : List ℕ) → Shorter cs (scan_signed cs)
unfolding scan_signed
scan_signed-Shorter [] = tt
scan_signed-Shorter (c ∷ cs) =
    let behind = Shorter-le cs (c ∷ cs) (scan_number cs) (omega arith) (scan_number-Shorter cs) in
    elim (Bool-cases (c == b'-')) [
      | inl minus ↦ rw minus (Shorter-negated (c ∷ cs) (scan_number cs) behind)
      | inr other ↦ elim (Bool-cases (c == b'+')) [
        | inl plus ↦ rw (other, plus) (Shorter-positive (c ∷ cs) (scan_number cs) behind)
        | inr digit ↦
            rw (other, digit)
              (Shorter-positive (c ∷ cs) (scan_number (c ∷ cs)) (scan_number-Shorter (c ∷ cs)))
      ]
    ]

pub scan_int-Shorter : (cs : List ℕ) → Shorter cs (scan_int cs)
unfolding scan_int
scan_int-Shorter cs =
    Shorter-le (skip_space cs) cs (scan_int cs) (skip_space-le cs)
      (scan_signed-Shorter (skip_space cs))
