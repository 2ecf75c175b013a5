-- ===== src/Base/Powers.antt =====
-- Products, quotients and remainders by powers of two, at any exponent.
use Prim.Native.Nat.{ℕ, zero, suc, ◌+◌, ◌*◌, ◌/◌, ◌%◌, ◌^◌, ◌<◌}
use mathlib.Core.Path.{◌≡◌, sym, ap, ◌∙◌}
use native.Mathlib.Omega.{arith}
use native.Mathlib.Nat.{
  pow-zero, pow-suc, one-le-pow, mod-add-div, mod-lt, mul-div-mul_right, div-div-eq-div-mul,
  mul-add-div, div-eq_of_lt, add-zero,
}

pub pow-add : (a m n : ℕ) → a ^ (m + n) ≡ a ^ m * a ^ n
pow-add a m zero = rw (add-zero m, pow-zero a) (omega arith)
pow-add a m (suc n) =
    let e : m + suc n ≡ suc (m + n) = omega arith in
    rw (e, pow-suc a (m + n), pow-suc a n) (omega (arith, ap (λ (t : ℕ). t * a) (pow-add a m n)))

pub pow_pos : (n : ℕ) → 0 < 2 ^ n
pow_pos n = one-le-pow n 2 (omega arith)

pub mul-mod-mul : (a p q : ℕ) → 0 < p → a * p % (q * p) ≡ a % q * p
mul-mod-mul a p q h =
    let same : a * p / (q * p) ≡ a / q = mul-div-mul_right a q h in
    omega (
      arith,
      mod-add-div (a * p) (q * p),
      ap (λ (t : ℕ). q * p * t) same,
      ap (λ (t : ℕ). t * p) (mod-add-div a q),
    )

pub mod-mul-div : (a y z : ℕ) → 0 < y → a % (y * z) / y ≡ a / y % z
mod-mul-div a y z h =
    let k : a / (y * z) ≡ a / y / z = sym (div-div-eq-div-mul a y z) in
    let whole : a % (y * z) ≡ y * (a / y % z) + a % y = omega (
      arith,
      mod-add-div a (y * z),
      ap (λ (t : ℕ). y * z * t) k,
      ap (λ (t : ℕ). y * t) (mod-add-div (a / y) z),
      mod-add-div a y,
    ) in
    rw whole (mul-add-div h (a / y % z) (a % y) ∙ omega (arith, div-eq_of_lt (mod-lt a h)))
