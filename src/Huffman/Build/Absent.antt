-- ===== src/Huffman/Build/Absent.antt =====
-- huffman.c: a character that is not read gets no leaf.
use projects_in_c.Base.{
  ℕ, ◌+◌, ◌≤◌, ◌≡◌, ◌≢◌, ◌<◌, length, refl, List, [], ◌∷◌, some, false, arith, ◌==◌, if◌then◌else◌,
}
use projects_in_c.Base.Sums.{sum_by}
use projects_in_c.Base.Words.{int_sign}
use projects_in_c.Huffman.Tree.{Tree, null, node, internal, leaf, Frequency}
use projects_in_c.Huffman.Tree.Shape.{Additive, Additive-Numbered, occurs, total-zero}
use projects_in_c.Huffman.Pqueue.{Qsort}
use projects_in_c.Huffman.Build.{huffman_build_tree}
use projects_in_c.Huffman.Build.Freq.{readable, count, Bytes, v_of, sum-compute_freq}
use projects_in_c.Huffman.Build.Nodes.{made}
use projects_in_c.Huffman.Build.Whole.{table_of, built_tree, nodes}

-- How many leaves a tree has for `c`.
abbrev leaves_for : ℕ → Tree → ℕ
leaves_for c null = 0
leaves_for c (node _ leaf freq _ _) = if freq.c == c then 1 else 0
leaves_for c (node _ internal _ left right) = leaves_for c left + leaves_for c right

leaves_for-Additive : (c : ℕ) → Additive (leaves_for c)
leaves_for-Additive c id l r = refl

leaves_for-occurs : (c : ℕ) (t : Tree) → leaves_for c t ≡ 0 → occurs c t ≡ false
leaves_for-occurs c null h = refl
leaves_for-occurs c (node _ leaf freq _ _) h = ground arith
leaves_for-occurs c (node _ internal _ left right) h =
    rw (leaves_for-occurs c left (omega arith), leaves_for-occurs c right (omega arith))

abbrev entry_for : ℕ → Frequency → ℕ
entry_for c e = if e.c == c then 1 else 0

made-le : (c : ℕ) (t : List Frequency) → sum_by (made (entry_for c)) t ≤ sum_by (v_of c) t
made-le c [] = omega arith
made-le c (e ∷ es) = ground (arith, made-le c es)

pub absent-occurs :
    (Q : Qsort) (file : List ℕ) (ids : ℕ) (c : ℕ) (root : Tree) (ids' : ℕ)
    → Bytes file
    → length (readable file) < int_sign
    → readable file ≢ []
    → huffman_build_tree Q (some file) ids ≡ some (root, ids')
    → count c (readable file) ≡ 0
    → occurs c root ≡ false
absent-occurs Q file ids c root ids' b short ne e none_read =
    let (root₁, ids₁, built, counter, weight) = built_tree Q file ids b short ne in
    let same : root₁ ≡ root = cc in
    let n = nodes Q file ids b short in
    let sum =
      weight (leaves_for c) (λ _. 0) (entry_for c)
        (Additive-Numbered (leaves_for c) (leaves_for-Additive c)) (λ i e'. omega arith) in
    rw (← same) (
      leaves_for-occurs c root₁ (
        omega (
          arith,
          sum,
          made-le c (table_of file),
          sum-compute_freq file b short c,
          none_read,
          total-zero ids n,
        )))
