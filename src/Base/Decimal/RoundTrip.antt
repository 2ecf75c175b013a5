-- ===== src/Base/Decimal/RoundTrip.antt =====
-- A number that `%d` of `printf` has written is read back by `%d` of `scanf`.
use projects_in_c.Base.Tests.{ltb, Bool-cases}
use projects_in_c.Base.Words.{word, int_sign}
use projects_in_c.Base.Decimal.{
  digits, print_int, is_digit, is_space, skip_space, scan_digits, scan_number, scan_signed,
  scan_int, positive, negated,
}
use Prim.Native.Nat.{ℕ, zero, suc, ◌+◌, ◌-◌, ◌*◌, ◌/◌, ◌%◌, ◌^◌, ◌<◌}
use mathlib.Core.Path.{◌≡◌, refl, ap, ◌∙◌}
use mathlib.Core.Logic.{inl, inr, ◌≢◌}
use mathlib.Core.Bool.{true, false}
use mathlib.Core.List.{List, [], ◌∷◌, ◌++◌, append_assoc}
use mathlib.Core.Option.{some}
use native.Mathlib.Omega.{arith}
use native.Mathlib.Nat.{pow-suc, pow-zero}

-- The text starts with no digit.
abbrev pub NoDigit : List ℕ → Type 0
NoDigit [] = Unit
NoDigit (c ∷ cs) = is_digit c ≡ false

scan_digits-digit :
    (n d : ℕ) (cs : List ℕ) → d < 10 → scan_digits n ((b'0' + d) ∷ cs) ≡ scan_digits (n * 10 + d) cs
unfolding scan_digits
scan_digits-digit n d cs h = ground arith

scan_digits-end : (n : ℕ) (cs : List ℕ) → NoDigit cs → scan_digits n cs ≡ (n, cs)
unfolding scan_digits
scan_digits-end n [] h = refl
scan_digits-end n (c ∷ cs) h = rw h

ten_times : (k : ℕ) → 10 ^ suc k ≡ 10 ^ k * 10
ten_times k = pow-suc 10 k

-- Reading the digits of `n` and what is behind them goes on with `n`.
scan_digits-digits :
    (k n : ℕ) (cs : List ℕ) → n < 10 ^ k → scan_digits 0 (digits k n ++ cs) ≡ scan_digits n cs
unfolding digits
scan_digits-digits zero n cs h =
    let none_left : 0 ≡ n = omega (arith, pow-zero 10, h) in
    ap (λ (m : ℕ). scan_digits m cs) none_left
scan_digits-digits (suc k) n cs h = elim (Bool-cases (ltb n 10)) [
  | inl one ↦
      rw one
        (scan_digits-digit 0 n cs (ground arith) ∙ ap (λ (m : ℕ). scan_digits m cs) (omega arith))
  | inr more ↦ rw more (
      ap (scan_digits 0) (append_assoc (digits k (n / 10)) ((b'0' + n % 10) ∷ []) cs)
      ∙ scan_digits-digits k (n / 10) ((b'0' + n % 10) ∷ cs) (omega (arith, ten_times k, h))
      ∙ scan_digits-digit (n / 10) (n % 10) cs (omega arith)
      ∙ ap (λ (m : ℕ). scan_digits m cs) (omega arith))
]

-- A number is written with at least one digit, and starts with one.
digits-starts :
    (k n : ℕ) → (d : ℕ) × (ds : List ℕ) × (digits (suc k) n ≡ d ∷ ds) × (is_digit d ≡ true)
unfolding digits
digits-starts zero n = elim (Bool-cases (ltb n 10)) [
  | inl one ↦ (b'0' + n, [], rw one, ground arith)
  | inr more ↦ (b'0' + n % 10, [], rw more, ground arith)
]
digits-starts (suc k) n = elim (Bool-cases (ltb n 10)) [
  | inl one ↦ (b'0' + n, [], rw one, ground arith)
  | inr more ↦
      let (d, ds, e, is) = digits-starts k (n / 10) in
      (d, ds ++ (b'0' + n % 10) ∷ [], rw more (ap (λ xs. xs ++ (b'0' + n % 10) ∷ []) e), is)
]

scan_number-digits :
    (n : ℕ) (cs : List ℕ) → n < word → NoDigit cs → scan_number (digits 10 n ++ cs) ≡ some (n, cs)
unfolding scan_number
scan_number-digits n cs h stop =
    let (d, ds, e, is) = digits-starts 9 n in
    let starts : scan_number (digits 10 n ++ cs) ≡ some (scan_digits 0 (digits 10 n ++ cs)) =
      rw (e, is) in
    starts ∙ ap some (scan_digits-digits 10 n cs (omega arith) ∙ scan_digits-end n cs stop)

scan_signed-digits :
    (n : ℕ) (cs : List ℕ) → n < word → NoDigit cs → scan_signed (digits 10 n ++ cs) ≡ some (n, cs)
unfolding scan_signed
scan_signed-digits n cs h stop =
    let (d, ds, e, is) = digits-starts 9 n in
    let whole = scan_number-digits n cs h stop in
    let plain : scan_signed (digits 10 n ++ cs) ≡ positive (scan_number (digits 10 n ++ cs)) =
      rw e (ground arith) in
    plain ∙ ap positive whole ∙ ap (λ (m : ℕ). some (m, cs)) (omega arith)

-- What stands in front of a number: no space.
pub print_int-starts :
    (x : ℕ)
    → (d : ℕ) × (ds : List ℕ) × (print_int x ≡ d ∷ ds)
      × (is_space d ≡ false)
      × (b'#' ≢ d)
      × (d < 255)
unfolding print_int
print_int-starts x = elim (Bool-cases (ltb x int_sign)) [
  | inl up ↦
      let (d, ds, e, is) = digits-starts 9 x in
      (d, ds, rw up e, ground arith, ground arith, ground arith)
  | inr down ↦ (b'-', digits 10 (word - x), rw down, refl, omega arith, omega arith)
]

scan_signed-print_int :
    (x : ℕ) (cs : List ℕ) → x < word → NoDigit cs → scan_signed (print_int x ++ cs) ≡ some (x, cs)
unfolding print_int
scan_signed-print_int x cs h stop = elim (Bool-cases (ltb x int_sign)) [
  | inl up ↦ rw up (scan_signed-digits x cs h stop)
  | inr down ↦
      let minus : scan_signed (b'-' ∷ digits 10 (word - x) ++ cs)
          ≡ negated (scan_number (digits 10 (word - x) ++ cs)) =
        unfold scan_signed in refl in
      rw down (
        minus
        ∙ ap negated (scan_number-digits (word - x) cs (ground arith) stop)
        ∙ ap (λ (m : ℕ). some (m, cs)) (ground arith))
]

-- White space is passed over in front of a number, and none of a number is.
pub scan_int-space : (cs : List ℕ) → scan_int (b' ' ∷ cs) ≡ scan_int cs
unfolding scan_int skip_space
scan_int-space cs = refl

scan_int-scan_signed :
    (d : ℕ) (cs : List ℕ) → is_space d ≡ false → scan_int (d ∷ cs) ≡ scan_signed (d ∷ cs)
unfolding scan_int skip_space
scan_int-scan_signed d cs h = rw h

-- An `int` is read back from its decimal print, up to what no digit starts.
pub scan_int-print_int :
    (x : ℕ) (cs : List ℕ) → x < word → NoDigit cs → scan_int (print_int x ++ cs) ≡ some (x, cs)
scan_int-print_int x cs h stop =
    let (d, ds, e, no_space, _, _) = print_int-starts x in
    let direct : scan_int (print_int x ++ cs) ≡ scan_signed (print_int x ++ cs) =
      rw e (scan_int-scan_signed d (ds ++ cs) no_space) in
    direct ∙ scan_signed-print_int x cs h stop
