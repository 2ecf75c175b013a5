-- ===== src/Huffman/Coder/Bits.antt =====
-- encoder.c: how many bits are written for a text.
use projects_in_c.Base.{
  ℕ, ◌*◌, ◌≤◌, ◌<◌, ◌≡◌, ◌≢◌, refl, sym, ◌∙◌, List, [], ◌∷◌, none, some, arith, length,
  length-append, ◌==◌, if◌then◌else◌, Bool-cases, inl, inr,
}
use projects_in_c.Huffman.Tree.{
  Tree, NodeType, Frequency, null, node, internal, leaf, tree_size, is_null,
}
use projects_in_c.Huffman.Build.{huffman_find, child}
use projects_in_c.Huffman.Table.{EncodeTable}
use projects_in_c.Huffman.Coder.Decode.{code_bits}
use projects_in_c.Huffman.Coder.RoundTrip.{AllHaveCodes, all_bits}

tree_size-child :
    (id x : ℕ) (type : NodeType) (f : Frequency) (l r : Tree)
    → tree_size (child x (node id type f l r)) < tree_size (node id type f l r)
unfolding tree_size
tree_size-child id x type f l r = elim (Bool-cases (x == b'1')) [
  | inl left ↦ rw left (omega arith)
  | inr right ↦ rw right (omega arith)
]

find-step :
    (id x : ℕ) (type : NodeType) (f : Frequency) (l r : Tree) (xs : List ℕ)
    → huffman_find (node id type f l r) (x ∷ xs) ≡ (
        if is_null (child x (node id type f l r))
        then some none
        else huffman_find (child x (node id type f l r)) xs)
unfolding huffman_find
find-step id x internal f l r xs = refl
find-step id x leaf f l r xs = refl

find-null : (code : List ℕ) (c : ℕ) → huffman_find null code ≢ some (some c)
unfolding huffman_find
find-null code c h = cc

-- A way down to a character is shorter than the tree is large.
find-length :
    (code : List ℕ) (t : Tree) (c : ℕ)
    → huffman_find t code ≡ some (some c)
    → length code < tree_size t
find-length code null c h = absurd (find-null code c h)
find-length [] (node id type f l r) c h = unfold tree_size in omega arith
find-length (x ∷ xs) (node id type f l r) c h =
    let step = sym (find-step id x type f l r xs) ∙ h in
    elim (Bool-cases (is_null (child x (node id type f l r)))) [
      | inl end ↦ let bad : some none ≡ some (some c) = rw end at step in cc
      | inr more ↦ omega (
        arith,
        find-length xs (child x (node id type f l r)) c (rw more at step),
        tree_size-child id x type f l r,
      )
    ]

length-code_bits : (code : List ℕ) → length (code_bits code) ≡ length code
length-code_bits [] = omega arith
length-code_bits (x ∷ xs) = omega (arith, length-code_bits xs)

-- Every character takes fewer bits than the tree has nodes.
pub length-all_bits :
    (root : Tree) (etab : EncodeTable) (cs : List ℕ) (n : ℕ) (h : AllHaveCodes root etab cs)
    → tree_size root ≤ n
    → length (all_bits root etab cs h) ≤ n * length cs
length-all_bits root etab [] n h few = omega arith
length-all_bits root etab (c ∷ cs) n h few =
    let one = find-length h.0.code root c h.0.leads in
    let rest = length-all_bits root etab cs n h.1 few in
    let sum = length-append (code_bits h.0.code) (all_bits root etab cs h.1) in
    let bits = length-code_bits h.0.code in grind (arith, one, rest, sum, bits)
