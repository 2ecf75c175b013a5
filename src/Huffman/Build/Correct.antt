-- ===== src/Huffman/Build/Correct.antt =====
-- huffman.c, `huffman_build_tree`: the tree that is built for a file.

use projects_in_c.Base.{ℕ, ◌≡◌, ◌≢◌, ◌<◌, refl, List, [], some, arith, length}
use projects_in_c.Base.Words.{int_sign}
use projects_in_c.Huffman.Tree.{Tree, null, Frequency, freq_v}
use projects_in_c.Huffman.Tree.Shape.{
  IsCoding, CharsBelow, CharsBelow-beyond, beyond, beyond-Additive, flaws, flaws-IsCoding,
  flaws-Additive, leaf_v, leaf_v-Additive, freq_v-Additive, Additive, Additive-Numbered, total-zero,
}
use projects_in_c.Huffman.Pqueue.{Qsort}
use projects_in_c.Huffman.Build.{huffman_build_tree}
use projects_in_c.Huffman.Build.Freq.{
  readable, count, v_of, Bytes, compute_freq-Indexed, length-compute_freq, sum-compute_freq,
  total-compute_freq,
}
use projects_in_c.Huffman.Build.Whole.{
  table_of, built_tree, built_null, nodes, no_byte, made-v_of, made-v, made-zero, made-no_byte,
}

-- The tree of a file: shaped as a coding tree, and with the file's frequencies at its leaves.
pub record IsTreeOf (file : List ℕ) (root : Tree) : Type 0 where
  pub shape : IsCoding root
  pub total : freq_v root ≡ length (readable file)
  pub chars : (c : ℕ) → leaf_v c root ≡ count c (readable file)
  pub below : CharsBelow 256 root

abbrev no_id : ℕ → ℕ
no_id i = 0

module _ (Q : Qsort) (file : List ℕ) (ids : ℕ) (b : Bytes file)
    (short : length (readable file) < int_sign) where
  -- A file of bytes that starts with a readable byte gets a tree; the readable bytes are those in
  -- front of the first byte 255, and there are fewer than 2^31 of them. The loops end, nothing faults,
  -- every inner node has two children whose frequencies add up to its own, the root has the number of
  -- readable bytes, and the leaves give each character its number of occurrences among them, and are
  -- for bytes only.
  pub huffman_build_tree-IsTreeOf :
      readable file ≢ []
      → (root : Tree) × (ids' : ℕ) × (huffman_build_tree Q (some file) ids ≡ some (root, ids'))
        × IsTreeOf file root
  huffman_build_tree-IsTreeOf ne =
      let (root, ids', built, counter, weight) = built_tree Q file ids b short ne in
      let none_given = total-zero ids (nodes Q file ids b short) in
      let sum = λ (w : Tree → ℕ) (f : Frequency → ℕ) (h : Additive w).
        weight w no_id f (Additive-Numbered w h) in
      (
        root,
        ids',
        built,
        record {
          shape = flaws-IsCoding root (
              omega (
                arith,
                sum flaws (λ _. 0) flaws-Additive (λ i e. refl),
                made-zero (table_of file),
                none_given,
              ));
          total = omega (
            arith,
            sum freq_v (λ e. e.v) freq_v-Additive (λ i e. omega arith),
            made-v (table_of file),
            total-compute_freq file b short,
            none_given,
          );
          below = CharsBelow-beyond root (
              omega (
                arith,
                sum beyond no_byte beyond-Additive (λ i e. omega arith),
                made-no_byte 0 (table_of file) (compute_freq-Indexed file b short)
                    (omega (arith, length-compute_freq file b short)),
                none_given,
              ));
          chars = λ c. omega (
            arith,
            sum (leaf_v c) (v_of c) (leaf_v-Additive c) (λ i e. omega arith),
            made-v_of c (table_of file),
            sum-compute_freq file b short c,
            none_given,
          );
        },
      )

  -- A file of bytes with no readable byte, one that is empty or starts with 255, gets the null
  -- pointer.
  pub huffman_build_tree-null :
      readable file ≡ [] → (ids' : ℕ) × (huffman_build_tree Q (some file) ids ≡ some (null, ids'))
  huffman_build_tree-null e = built_null Q file ids b short e
