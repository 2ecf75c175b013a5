-- ===== src/CountStrings/Cut.antt =====
-- count-strings.c: a text is the line that `fgets` reads and the text that is left.
use projects_in_c.Base.{
  ℕ, zero, suc, ◌+◌, ◌-◌, ◌≤◌, ◌<◌, ◌≡◌, refl, ap, List, [], ◌∷◌, Bool, true, false, ◌&&◌, ◌==◌,
  if◌then◌else◌, length, arith, Bool-cases, inl, inr,
}
use mathlib.Core.Path.{subst⁻¹}
use projects_in_c.CountStrings.{is_prefix, fgets}
use projects_in_c.CountStrings.Line.{places, IsString}

-- No line is longer than 999 characters with its newline, the first one after `k` that are read.
abbrev pub LinesFit : ℕ → List ℕ → Type 0
LinesFit k [] = Unit
LinesFit k (c ∷ cs) = (k < 999) × LinesFit (if c == b'\n' then 0 else suc k) cs

-- None of the characters is `x`.
abbrev pub Lacks : ℕ → List ℕ → Type 0
Lacks x [] = Unit
Lacks x (c ∷ cs) = ((c == x) ≡ false) × Lacks x cs

-- The text is a line, of which no more is needed to tell where a string with no newline occurs in it,
-- and the text that is left.
pub record Cut (cs line left : List ℕ) : Type 0 where
  pub fit : LinesFit 0 left
  pub line_text : Lacks 0 line
  pub left_text : Lacks 0 left
  pub starts : (s : List ℕ) → Lacks b'\n' s → is_prefix s cs ≡ is_prefix s line
  pub counts :
      (s : List ℕ) → Lacks b'\n' s → IsString s → places s cs ≡ places s line + places s left
  pub shorter : length left ≤ length cs - 1

newline_ends :
    (c : ℕ) (cs s : List ℕ)
    → (c == b'\n') ≡ true
    → Lacks b'\n' s
    → is_prefix s (c ∷ cs) ≡ is_prefix s (c ∷ [])
newline_ends c cs [] e l = refl
newline_ends c cs (x ∷ xs) e l = ground (arith, l.0)

newline_no_string :
    (c : ℕ) (cs s : List ℕ)
    → (c == b'\n') ≡ true
    → Lacks b'\n' s
    → IsString s
    → is_prefix s (c ∷ cs) ≡ false
newline_no_string c cs [] e l h = absurd h
newline_no_string c cs (x ∷ xs) e l h = ground (arith, l.0)

fgets-newline :
    (n c : ℕ) (cs : List ℕ) → (c == b'\n') ≡ true → fgets (suc n) (c ∷ cs) ≡ (c ∷ [], cs)
unfolding fgets
fgets-newline n c cs e = rw e

fgets-other :
    (n c : ℕ) (cs : List ℕ)
    → (c == b'\n') ≡ false
    → fgets (suc n) (c ∷ cs) ≡ (c ∷ (fgets n cs).0, (fgets n cs).1)
unfolding fgets
fgets-other n c cs e = rw e

places-newline :
    (s : List ℕ) (c : ℕ) (cs : List ℕ)
    → (c == b'\n') ≡ true
    → Lacks b'\n' s
    → IsString s
    → places s (c ∷ cs) ≡ places s (c ∷ []) + places s cs
places-newline s c cs e l h =
    rw (newline_no_string c cs s e l h, newline_no_string c [] s e l h) (omega arith)

other_starts :
    (c : ℕ) (cs line s : List ℕ)
    → ((s : List ℕ) → Lacks b'\n' s → is_prefix s cs ≡ is_prefix s line)
    → Lacks b'\n' s
    → is_prefix s (c ∷ cs) ≡ is_prefix s (c ∷ line)
other_starts c cs line [] h l = refl
other_starts c cs line (x ∷ xs) h l = ap (λ (b : Bool). x == c && b) (h xs l.1)

other-Cut :
    (k c : ℕ) (cs line left : List ℕ)
    → ((c == 0) ≡ false)
    → Cut cs line left
    → Cut (c ∷ cs) (c ∷ line) left
other-Cut k c cs line left nul r = record {
  fit = r.fit;
  line_text = (nul, r.line_text);
  left_text = r.left_text;
  starts = λ s l. other_starts c cs line s r.starts l;
  counts = λ s l h. rw (other_starts c cs line s r.starts l) (omega (arith, r.counts s l h));
  shorter = omega (arith, r.shorter);
}

fgets-nil : (n : ℕ) → fgets n [] ≡ ([], [])
unfolding fgets
fgets-nil zero = refl
fgets-nil (suc n) = refl

pub fgets-Cut :
    (n k : ℕ) (cs : List ℕ)
    → n + k ≡ 999
    → LinesFit k cs
    → Lacks 0 cs
    → Cut cs (fgets n cs).0 (fgets n cs).1
fgets-Cut n k [] e fit nul =
    subst⁻¹ (λ (o : List ℕ × List ℕ). Cut [] o.0 o.1) (fgets-nil n)
      (record {
        fit = tt;
        line_text = tt;
        left_text = tt;
        starts = λ s l. refl;
        counts = λ s l h. omega arith;
        shorter = omega arith;
      })
fgets-Cut zero k (c ∷ cs) e fit nul = absurd (omega (arith, e, fit.0))
fgets-Cut (suc n) k (c ∷ cs) e fit nul = elim (Bool-cases (c == b'\n')) [
  | inl nl ↦
      subst⁻¹ (λ (o : List ℕ × List ℕ). Cut (c ∷ cs) o.0 o.1) (fgets-newline n c cs nl)
        (record {
          fit = rw nl at fit.1;
          line_text = (nul.0, tt);
          left_text = nul.1;
          starts = λ s l. newline_ends c cs s nl l;
          counts = λ s l h. places-newline s c cs nl l h;
          shorter = omega arith;
        })
  | inr other ↦
      subst⁻¹ (λ (o : List ℕ × List ℕ). Cut (c ∷ cs) o.0 o.1) (fgets-other n c cs other)
        (other-Cut k c cs (fgets n cs).0 (fgets n cs).1 nul.0
          (fgets-Cut n (suc k) cs (omega (arith, e)) (rw other at fit.1) nul.1))
]
