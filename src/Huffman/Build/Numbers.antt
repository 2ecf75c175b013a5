-- ===== src/Huffman/Build/Numbers.antt =====
-- huffman.c: the ids of a tree that is built, and the ranges of its numbers.
use projects_in_c.Base.{
  ℕ, zero, suc, ◌+◌, ◌≤◌, ◌<◌, ◌≡◌, ◌≢◌, refl, List, [], some, length, arith, ltb, leb, ◌==◌, ◌&&◌,
  if◌then◌else◌,
}
use projects_in_c.Base.Words.{int_sign}
use projects_in_c.Huffman.Tree.{Tree, null, node, internal, leaf, Frequency, freq_v, tree_size}
use projects_in_c.Huffman.Tree.Shape.{IsCoding, Numbered, total, total-zero}
use projects_in_c.Huffman.Pqueue.{Qsort}
use projects_in_c.Huffman.Build.{huffman_build_tree}
use projects_in_c.Huffman.Build.Freq.{readable, Bytes, compute_freq-Indexed, length-compute_freq}
use projects_in_c.Huffman.Build.Whole.{
  table_of, built_tree, nodes, nodes-le, no_byte, made-zero, made-no_byte,
}
use projects_in_c.Huffman.Build.Correct.{IsTreeOf, huffman_build_tree-IsTreeOf}
use projects_in_c.Huffman.Serial.Nodes.{Fits, id_count, IdsDiffer}

-- One for an id outside of the range from `a` to `b`.
abbrev outside : ℕ → ℕ → ℕ → ℕ
outside a b i = if leb a i && ltb i b then 0 else 1

-- How many nodes have an id outside of the range.
abbrev strays : ℕ → ℕ → Tree → ℕ
strays a b null = 0
strays a b (node id _ _ left right) = outside a b id + (strays a b left + strays a b right)

-- How many nodes, inner ones as well, have a character that is no byte.
abbrev wide : Tree → ℕ
wide null = 0
wide (node _ _ freq left right) = (if ltb freq.c 256 then 0 else 1) + (wide left + wide right)

abbrev size : Tree → ℕ
size null = 0
size (node _ _ _ left right) = 1 + (size left + size right)

size-tree_size : (t : Tree) → tree_size t ≡ size t
unfolding tree_size
size-tree_size null = refl
size-tree_size (node _ _ _ l r) = omega (arith, size-tree_size l, size-tree_size r)

total-outside : (a b s n : ℕ) → a ≤ s → s + n ≤ b → total (outside a b) s n ≡ 0
total-outside a b s zero lo hi = refl
total-outside a b s (suc n) lo hi =
    ground (arith, total-outside a b (s + 1) n (omega arith) (omega arith))

total-one : (s n : ℕ) → total (λ _. 1) s n ≡ n
total-one s zero = refl
total-one s (suc n) = omega (arith, total-one (s + 1) n)

total-before : (k s n : ℕ) → k < s → total (λ i. if i == k then 1 else 0) s n ≡ 0
total-before k s zero h = refl
total-before k s (suc n) h = ground (arith, total-before k (s + 1) n (omega arith))

total-same : (k s n : ℕ) → total (λ i. if i == k then 1 else 0) s n ≤ 1
total-same k s zero = omega arith
total-same k s (suc n) = ground (arith, total-same k (s + 1) n, total-before k (s + 1) n)

outside-zero : (a b i : ℕ) → outside a b i ≡ 0 → (a ≤ i) × (i < b)
outside-zero a b i h = ground arith

-- One for a character that is no byte.
abbrev no_char : ℕ → ℕ
no_char c = if ltb c 256 then 0 else 1

byte_of : (c : ℕ) → no_char c ≡ 0 → c < 256
byte_of c h = ground arith

Fits_lem :
    (t : Tree) (a b : ℕ)
    → IsCoding t
    → 0 < a
    → b ≤ int_sign
    → strays a b t ≡ 0
    → wide t ≡ 0
    → freq_v t < int_sign
    → Fits t
Fits_lem null a b coding lo hi here bytes small = tt
Fits_lem (node id leaf f null null) a b coding lo hi here bytes small =
    let (from, upto) = outside-zero a b id (omega arith) in
    (omega (arith, from), omega (arith, upto), small, byte_of f.c (omega arith), tt, tt)
Fits_lem (node id leaf f null (node _ _ _ _ _)) a b coding lo hi here bytes small = absurd coding
Fits_lem (node id leaf f (node _ _ _ _ _) _) a b coding lo hi here bytes small = absurd coding
Fits_lem (node id internal f l r) a b (cl, cr, sum) lo hi here bytes small =
    let fl = Fits_lem l a b cl lo hi (omega arith) (omega arith) (omega arith) in
    let fr = Fits_lem r a b cr lo hi (omega arith) (omega arith) (omega arith) in
    let (from, upto) = outside-zero a b id (omega arith) in
    (omega (arith, from), omega (arith, upto), small, byte_of f.c (omega arith), fl, fr)

-- Every node has an id from `a` on, and in front of `b`.
abbrev pub IdsWithin : ℕ → ℕ → Tree → Type 0
IdsWithin a b null = Unit
IdsWithin a b (node id _ _ left right) =
    (a ≤ id) × (id < b) × IdsWithin a b left × IdsWithin a b right

IdsWithin-strays : (a b : ℕ) (t : Tree) → strays a b t ≡ 0 → IdsWithin a b t
IdsWithin-strays a b null h = tt
IdsWithin-strays a b (node id type f l r) h =
    let (from, upto) = outside-zero a b id (omega arith) in
    (from, upto, IdsWithin-strays a b l (omega arith), IdsWithin-strays a b r (omega arith))

-- The ids are those that the counter has given, each to one node, and every number is in its range.
pub record IsNumbered (ids ids' : ℕ) (root : Tree) : Type 0 where
  pub within : IdsWithin ids ids' root
  pub differ : IdsDiffer root
  pub counted : ids' ≡ ids + tree_size root
  pub few : tree_size root ≤ 509
  pub fits : Fits root

module _ (Q : Qsort) (file : List ℕ) (ids : ℕ) (b : Bytes file)
    (short : length (readable file) < int_sign) where
  -- A tree is built for a file of bytes that starts with a readable byte (the readable bytes are those
  -- in front of the first byte 255) and has fewer than 2^31 of them; the counter of ids is positive
  -- and at most 2^31 - 509. The tree has at most 509 nodes. The counter is afterwards higher by the
  -- number of nodes, the id of every node is one of those from the old value to the new one, and no
  -- two nodes have the same; all the numbers of the nodes fit the types they have in C.
  pub huffman_build_tree-IsNumbered :
      (root : Tree) (ids' : ℕ)
      → 0 < ids
      → ids + 509 ≤ int_sign
      → readable file ≢ []
      → huffman_build_tree Q (some file) ids ≡ some (root, ids')
      → IsNumbered ids ids' root
  huffman_build_tree-IsNumbered root ids' start end ne e =
      let (root₁, ids₁, built, counter, weight) = built_tree Q file ids b short ne in
      let same : root₁ ≡ root = cc in
      let same_ids : ids₁ ≡ ids' = cc in
      let n = nodes Q file ids b short in
      let none_made = made-zero (table_of file) in
      let id_sum =
        λ (w : Tree → ℕ) (g : ℕ → ℕ) (h : Numbered g w)
            (k : (i : ℕ) (e : Frequency) → w (node i leaf e null null) ≡ g i + 0).
          weight w g (λ _. 0) h k in
      let sizes : size root₁ ≡ n = omega (
        arith,
        id_sum size (λ _. 1) (λ i l r. refl) (λ i e. omega arith),
        none_made,
        total-one ids n,
      ) in
      let (root₂, ids₂, built₂, t₂) = huffman_build_tree-IsTreeOf Q file ids b short ne in
      let same_tree : root₂ ≡ root₁ = cc in
      let t : IsTreeOf file root₁ = rw same_tree at t₂ in
      let no_stray : strays ids ids₁ root₁ ≡ 0 = omega (
        arith,
        id_sum (strays ids ids₁) (outside ids ids₁) (λ i l r. refl) (λ i e. omega arith),
        total-outside ids ids₁ ids n (omega arith) (omega (arith, counter)),
        none_made,
      ) in
      rw (← same, ← same_ids)
        (record {
          differ = λ k. omega (
            arith,
            id_sum (id_count k) (λ i. if i == k then 1 else 0) (λ i l r. refl) (λ i e. omega arith),
            total-same k ids n,
            none_made,
          );
          counted = omega (arith, counter, sizes, size-tree_size root₁);
          few = omega (arith, sizes, size-tree_size root₁, nodes-le Q file ids b short);
          within = IdsWithin-strays ids ids₁ root₁ no_stray;
          fits =
              Fits_lem root₁ ids ids₁ t.shape start
                (omega (arith, counter, nodes-le Q file ids b short)) no_stray
                (omega (
                  arith,
                  weight wide (λ _. 0) no_byte (λ i l r. omega arith) (λ i e. omega arith),
                  made-no_byte 0 (table_of file) (compute_freq-Indexed file b short)
                      (omega (arith, length-compute_freq file b short)),
                  total-zero ids n,
                ))
                (omega (arith, t.total, short));
        })
