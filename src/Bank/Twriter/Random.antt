-- ===== src/Bank/Twriter/Random.antt =====
-- twriter.c, `random_at_most`: it ends with a number in range.
use native.Mathlib.Nat.{mod-add-div, mod-lt, div-lt_iff_lt-mul}
use projects_in_c.Base.{
  ℕ, ◌+◌, ◌-◌, ◌*◌, ◌/◌, ◌%◌, ◌^◌, ◌≤◌, ◌<◌, ◌≡◌, ap, ◌∙◌, List, [], ◌∷◌, some, false, leb, ◌==◌,
  if◌then◌else◌, arith, Bool-cases, inl, inr,
}
use projects_in_c.Bank.Twriter.{draw, random_at_most}

-- How many results of `rand` are below `limit`.
abbrev pub good : ℕ → List ℕ → ℕ
good limit [] = 0
good limit (x ∷ rs) = (if leb limit x then 0 else 1) + good limit rs

draw_lem :
    (rs : List ℕ) (low limit bin_size n k : ℕ)
    → low ≤ limit
    → k < good low rs
    → ((x : ℕ) → x < limit → x / bin_size < n)
    → (x : ℕ) × (rs' : List ℕ) × (draw limit bin_size rs ≡ some (x, rs'))
      × (x < n)
      × (k ≤ good low rs')
unfolding draw
draw_lem [] low limit bin_size n k h some_good small = absurd (omega arith)
draw_lem (x ∷ rs) low limit bin_size n k h some_good small = elim (Bool-cases (leb limit x)) [
  | inl again ↦ rw again (draw_lem rs low limit bin_size n k h (ground arith) small)
  | inr done ↦ (x / bin_size, rs, rw done, small x (ground arith), ground arith)
]

limit_eq : (r n : ℕ) → r - r % n ≡ n * (r / n)
limit_eq r n = omega (arith, mod-add-div r n)

bin_pos : (r n : ℕ) → 0 < n → n ≤ r → 0 < r / n
bin_pos r n pos fits = elim (Bool-cases (r / n == 0)) [
  | inl none_fit ↦
      let zero_bins : r / n ≡ 0 = ground arith in
      absurd (omega (arith, mod-add-div r n, mod-lt r pos, ap (λ (t : ℕ). n * t) zero_bins))
  | inr some_fit ↦ ground arith
]

bins-draw :
    (rand_max max : ℕ) (rs : List ℕ)
    → max + 1 < 2 ^ 64
    → random_at_most rand_max max rs
      ≡ draw (rand_max + 1 - (rand_max + 1) % (max + 1)) ((rand_max + 1) / (max + 1)) rs
unfolding random_at_most
bins-draw rand_max max rs fits =
    let bins : (max + 1) % 2 ^ 64 ≡ max + 1 = omega (arith, fits) in
    let some_bins : (max + 1 == 0) ≡ false = ground arith in rw (bins, some_bins)

-- With enough results of `rand` that are not among its `most` highest values, where `most` is no fewer
-- than the numbers from 0 to `max`, the result lies in that range.
pub random_at_most_lem :
    (rand_max max most k : ℕ) (rs : List ℕ)
    → max + 1 < 2 ^ 64
    → max < most
    → most ≤ rand_max + 1
    → k < good (rand_max + 1 - most) rs
    → (x : ℕ) × (rs' : List ℕ) × (random_at_most rand_max max rs ≡ some (x, rs'))
      × (x ≤ max)
      × (k ≤ good (rand_max + 1 - most) rs')
random_at_most_lem rand_max max most k rs fits few high enough =
    let n = max + 1 in
    let r = rand_max + 1 in
    let pos = bin_pos r n (omega arith) (omega (arith, few, high)) in
    let (x, rs', e, small, left) =
      draw_lem rs (r - most) (r - r % n) (r / n) n k
        (omega (arith, few, high, mod-lt r {m = n} (omega arith))) enough
        (λ (y : ℕ) (h : y < r - r % n).
          (div-lt_iff_lt-mul pos).1 (omega (arith, h, limit_eq r n))) in
    (x, rs', bins-draw rand_max max rs fits ∙ e, omega (arith, small), left)
