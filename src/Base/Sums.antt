-- ===== src/Base/Sums.antt =====
-- Sums of a weight over a list: equal for every weight exactly when two lists hold the same items.
use Prim.Native.Nat.{ℕ, ◌+◌}
use mathlib.Core.Path.{◌≡◌, refl, ◌∙◌}
use mathlib.Core.Logic.{∥∥₁_elim}
use mathlib.Core.List.{List, [], ◌∷◌, ◌++◌, Perm, Permᴰ}
use native.Mathlib.Omega.{arith}
use native.Mathlib.Nat.{ℕ_set}

module _ {ℓ} {A : Type ℓ} where
  abbrev pub sum_by : (A → ℕ) → List A → ℕ
  sum_by w [] = 0
  sum_by w (x ∷ xs) = w x + sum_by w xs

  pub sum_by-append : (w : A → ℕ) (xs ys : List A) → sum_by w (xs ++ ys) ≡ sum_by w xs + sum_by w ys
  sum_by-append w [] ys = omega arith
  sum_by-append w (x ∷ xs) ys = omega (arith, sum_by-append w xs ys)

  Permᴰ-sum_by : (w : A → ℕ) {xs ys : List A} → Permᴰ xs ys → sum_by w xs ≡ sum_by w ys
  Permᴰ-sum_by w Permᴰ.nil = refl
  Permᴰ-sum_by w (Permᴰ.cons e d) = cc (Permᴰ-sum_by w d)
  Permᴰ-sum_by w (Permᴰ.swap {a} {b} {a'} {b'} e f) = rw (e, f) (omega arith)
  Permᴰ-sum_by w (Permᴰ.trans d e) = Permᴰ-sum_by w d ∙ Permᴰ-sum_by w e

  -- A permutation keeps every weight.
  pub Perm-sum_by : (w : A → ℕ) {xs ys : List A} → Perm xs ys → sum_by w xs ≡ sum_by w ys
  Perm-sum_by w p = ∥∥₁_elim p (ℕ_set _ _) (λ d. Permᴰ-sum_by w d)
