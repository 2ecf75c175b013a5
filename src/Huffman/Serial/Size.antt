-- ===== src/Huffman/Serial/Size.antt =====
-- tree.c: how long the text of a tree can be.
use projects_in_c.Base.{
  ℕ, zero, suc, ◌+◌, ◌*◌, ◌/◌, ◌%◌, ◌-◌, ◌≤◌, List, [], ◌∷◌, ◌++◌, arith, ltb, length,
  length-append, Bool-cases, inl, inr,
}
use projects_in_c.Base.Words.{word, int_sign}
use projects_in_c.Base.Decimal.{digits, print_int}
use projects_in_c.Huffman.Tree.{Tree, null, node, internal, leaf, tree_size}
use projects_in_c.Huffman.Serial.{Values, values_of, print_values}
use projects_in_c.Huffman.Serial.Write.{text_of, tree_text}

length-digits : (k n : ℕ) → length (digits k n) ≤ k
unfolding digits
length-digits zero n = omega arith
length-digits (suc k) n = elim (Bool-cases (ltb n 10)) [
  | inl one ↦ rw one (omega arith)
  | inr more ↦ rw more (
      omega
        (arith, length-digits k (n / 10), length-append (digits k (n / 10)) ((b'0' + n % 10) ∷ [])))
]

length-print_int : (x : ℕ) → length (print_int x) ≤ 11
unfolding print_int
length-print_int x = elim (Bool-cases (ltb x int_sign)) [
  | inl up ↦ rw up (omega (arith, length-digits 10 x))
  | inr down ↦ rw down (omega (arith, length-digits 10 (word - x)))
]

-- A number and what stands behind it.
field_length : (x n : ℕ) (cs : List ℕ) → length cs ≤ n → length (print_int x ++ cs) ≤ 11 + n
field_length x n cs h = omega (arith, h, length-append (print_int x) cs, length-print_int x)

spaced : (c n : ℕ) (cs : List ℕ) → length cs ≤ n → length (c ∷ cs) ≤ 1 + n
spaced c n cs h = omega (arith, h)

length-print_values : (v : Values) → length (print_values v) ≤ 72
unfolding print_values
length-print_values v = field_length v.type 61 _ (
    spaced b' ' 60 _ (
      field_length v.id 49 _ (
        spaced b' ' 48 _ (
          field_length v.fval 37 _ (
            spaced b' ' 36 _ (
              field_length v.fch 25 _ (
                spaced b' ' 24 _ (
                  field_length v.left 13 _
                    (spaced b' ' 12 _ (field_length v.right 1 (b',' ∷ []) (omega arith)))))))))))

length-text_of : (t : Tree) → length (text_of t) ≤ 72 * tree_size t
unfolding tree_size
length-text_of null = omega arith
length-text_of (node id leaf f l r) = omega (arith, length-print_values (values_of leaf id f l r))
length-text_of (node id internal f l r) =
    let own : List ℕ = print_values (values_of internal id f l r) in
    omega (
      arith,
      length-text_of l,
      length-text_of r,
      length-print_values (values_of internal id f l r),
      length-append (text_of l) (text_of r ++ own),
      length-append (text_of r) own,
    )

-- At most 72 characters for each node, and two '#'.
pub length-tree_text : (t : Tree) → length (tree_text t) ≤ 72 * tree_size t + 2
length-tree_text t = omega (arith, length-text_of t, length-append (text_of t) (b'#' ∷ []))
