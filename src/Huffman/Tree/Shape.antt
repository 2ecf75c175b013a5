-- ===== src/Huffman/Tree/Shape.antt =====
-- The trees that huffman.c builds: every node is a leaf with no child, or has two children whose
-- frequencies add up to its own.
use projects_in_c.Base.{
  ℕ, zero, suc, ap, ◌+◌, ◌≡◌, refl, arith, Bool, true, false, ◌<◌, ltb, ◌||◌, sym, ◌∙◌, Bool-cases,
  inl, inr, ◌==◌, if◌then◌else◌,
}
use projects_in_c.Huffman.Tree.{Tree, null, node, internal, leaf, freq_v}

abbrev pub IsCoding : Tree → Type 0
IsCoding null = ⊥
IsCoding (node _ leaf _ null null) = Unit
IsCoding (node _ leaf _ null (node _ _ _ _ _)) = ⊥
IsCoding (node _ leaf _ (node _ _ _ _ _) _) = ⊥
IsCoding (node _ internal freq left right) =
    IsCoding left × IsCoding right × (freq.v ≡ freq_v left + freq_v right)

-- How many places of a tree break the shape: a weight, which a permutation of trees keeps.
abbrev pub flaws : Tree → ℕ
flaws null = 1
flaws (node _ leaf _ null null) = 0
flaws (node _ leaf _ null (node _ _ _ _ _)) = 1
flaws (node _ leaf _ (node _ _ _ _ _) _) = 1
flaws (node _ internal freq left right) =
    flaws left + flaws right + (if freq.v == freq_v left + freq_v right then 0 else 1)

pub flaws-IsCoding : (t : Tree) → flaws t ≡ 0 → IsCoding t
flaws-IsCoding null h = absurd (omega arith)
flaws-IsCoding (node _ leaf _ null null) h = tt
flaws-IsCoding (node _ leaf _ null (node _ _ _ _ _)) h = absurd (omega arith)
flaws-IsCoding (node _ leaf _ (node _ _ _ _ _) _) h = absurd (omega arith)
flaws-IsCoding (node _ internal freq left right) h =
    (flaws-IsCoding left (omega arith), flaws-IsCoding right (omega arith), ground arith)

-- The frequency that the leaves of a tree give to the character `c`.
abbrev pub leaf_v : ℕ → Tree → ℕ
leaf_v c null = 0
leaf_v c (node _ leaf freq _ _) = if freq.c == c then freq.v else 0
leaf_v c (node _ internal _ left right) = leaf_v c left + leaf_v c right

-- How many leaves a tree has.
abbrev pub leaves : Tree → ℕ
leaves null = 0
leaves (node _ leaf _ _ _) = 1
leaves (node _ internal _ left right) = leaves left + leaves right

-- A weight that counts an inner node as its two children.
abbrev pub Additive : (Tree → ℕ) → Type 0
Additive w =
    (id : ℕ) (l r : Tree)
    → w (node id internal (record { v = freq_v l + freq_v r; c = 0 }) l r) ≡ w l + w r

pub flaws-Additive : Additive flaws
flaws-Additive id l r = ground arith

pub freq_v-Additive : Additive freq_v
freq_v-Additive id l r = refl

pub leaf_v-Additive : (c : ℕ) → Additive (leaf_v c)
leaf_v-Additive c id l r = refl

pub leaves-Additive : Additive leaves
leaves-Additive id l r = refl

-- The sum of `g` over `n` ids, from `a` on.
abbrev pub total : (ℕ → ℕ) → ℕ → ℕ → ℕ
total g a zero = 0
total g a (suc n) = g a + total g (a + 1) n

pub total-add : (g : ℕ → ℕ) (a m n : ℕ) → total g a (m + n) ≡ total g a m + total g (a + m) n
total-add g a zero n =
    let e : 0 + n ≡ n = omega arith in
    let start : a + 0 ≡ a = omega arith in
    omega (arith, ap (λ m. total g a m) e, ap (λ b. total g b n) start)
total-add g a (suc m) n =
    let e : suc m + n ≡ suc (m + n) = omega arith in
    let next : total g (a + suc m) n ≡ total g (a + 1 + m) n =
      ap (λ b. total g b n) (omega arith) in
    rw e (omega (arith, total-add g (a + 1) m n, next))

pub total-zero : (a n : ℕ) → total (λ _. 0) a n ≡ 0
total-zero a zero = refl
total-zero a (suc n) = omega (arith, total-zero (a + 1) n)

-- A weight that counts an inner node as its two children, and `g` for the id of the node.
abbrev pub Numbered : (ℕ → ℕ) → (Tree → ℕ) → Type 0
Numbered g w =
    (id : ℕ) (l r : Tree)
    → w (node id internal (record { v = freq_v l + freq_v r; c = 0 }) l r) ≡ g id + (w l + w r)

pub Additive-Numbered : (w : Tree → ℕ) → Additive w → Numbered (λ _. 0) w
Additive-Numbered w h id l r = omega (arith, h id l r)

-- A leaf for the character stands in the tree.
abbrev pub occurs : ℕ → Tree → Bool
occurs c null = false
occurs c (node _ leaf freq _ _) = freq.c == c
occurs c (node _ internal _ left right) = occurs c left || occurs c right

-- Every character of the tree is a byte.
abbrev pub CharsBelow : ℕ → Tree → Type 0
CharsBelow n null = Unit
CharsBelow n (node _ leaf freq _ _) = freq.c < n
CharsBelow n (node _ internal _ left right) = CharsBelow n left × CharsBelow n right

-- How many leaves are for a character that is no byte.
abbrev pub beyond : Tree → ℕ
beyond null = 0
beyond (node _ leaf freq _ _) = if ltb freq.c 256 then 0 else 1
beyond (node _ internal _ left right) = beyond left + beyond right

pub beyond-Additive : Additive beyond
beyond-Additive id l r = refl

pub CharsBelow-beyond : (t : Tree) → beyond t ≡ 0 → CharsBelow 256 t
CharsBelow-beyond null h = tt
CharsBelow-beyond (node _ leaf freq _ _) h = ground arith
CharsBelow-beyond (node _ internal _ left right) h =
    (CharsBelow-beyond left (omega arith), CharsBelow-beyond right (omega arith))

-- A character to which the leaves give a frequency occurs in the tree.
pub leaf_v-occurs : (c : ℕ) (t : Tree) → 0 < leaf_v c t → occurs c t ≡ true
leaf_v-occurs c null h = absurd (omega arith)
leaf_v-occurs c (node _ leaf freq _ _) h = ground arith
leaf_v-occurs c (node _ internal _ left right) h = elim (Bool-cases (occurs c left)) [
  | inl yes_left ↦ rw yes_left
  | inr no_left ↦ rw no_left (
      leaf_v-occurs c right (elim (Bool-cases (ltb 0 (leaf_v c left))) [
        | inl some_left ↦
            let bad : true ≡ false = sym (leaf_v-occurs c left (ground arith)) ∙ no_left in cc
        | inr none_left ↦ ground arith
      ]))
]
