-- ===== src/Huffman/Build/Whole.antt =====
-- huffman.c, `huffman_build_tree`: what the whole run adds up to, by any weight of the nodes.
use native.Mathlib.Numerals.{add-one}
use projects_in_c.Base.{
  if◌then◌else◌, ltb, ℕ, ◌+◌, ◌-◌, ◌≤◌, ◌<◌, ◌≡◌, ◌≢◌, refl, ap, ◌∙◌, inl, inr, List, [], ◌∷◌, some,
  arith, ◌==◌, length, Bool-cases, length-replicate,
}
use projects_in_c.Base.Sums.{sum_by}
use projects_in_c.Base.Words.{int_sign}
use projects_in_c.Huffman.Tree.{Tree, null, node, NodeType, Frequency, freq_v}
use projects_in_c.Huffman.Tree.Shape.{flaws, Numbered, total, total-zero, total-add}
use projects_in_c.Huffman.Pqueue.{PriorityQueue, Qsort, pqueue_new, maxsize}
use projects_in_c.Huffman.Pqueue.Laws.{items, IsValid}
use projects_in_c.Huffman.Build.{compute_freq, create_tree_nodes, huffman_build_tree, eof_byte}
use projects_in_c.Huffman.Build.Freq.{
  readable, count, Indexed, v_of, Bytes, compute_freq-Indexed, length-compute_freq,
  sum-compute_freq, total-compute_freq,
}
use projects_in_c.Huffman.Build.Nodes.{made, Filled, create_tree_nodes-Filled}
use projects_in_c.Huffman.Build.Forest.{build_tree_lem, build_tree-null}

-- How many entries of a table have been seen.
abbrev pub seen : List Frequency → ℕ
seen t = sum_by (made (λ _. 1)) t

seen-le : (t : List Frequency) → seen t ≤ length t
seen-le [] = omega arith
seen-le (e ∷ es) = ground (arith, seen-le es)

-- An entry that counts nothing makes no leaf.
seen-lt :
    (d i : ℕ) (t : List Frequency)
    → Indexed i t
    → i ≤ d
    → d < i + length t
    → sum_by (v_of d) t ≡ 0
    → seen t < length t
seen-lt d i [] h lo hi z = absurd (omega arith)
seen-lt d i (e ∷ es) h lo hi z = elim (Bool-cases (e.c == d)) [
  | inl hit ↦ ground (arith, seen-le es)
  | inr miss ↦ ground (arith, seen-lt d (i + 1) es h.1 (ground arith) (ground arith) (ground arith))
]

seen-pos : (d : ℕ) (t : List Frequency) → 0 < sum_by (v_of d) t → 0 < seen t
seen-pos d [] h = h
seen-pos d (e ∷ es) h = ground (arith, seen-pos d es)

pub seen-none : (t : List Frequency) → sum_by (λ e. e.v) t ≡ 0 → seen t ≡ 0
seen-none [] h = refl
seen-none (e ∷ es) h = ground (arith, seen-none es)

pub made-v_of : (c : ℕ) (t : List Frequency) → sum_by (made (v_of c)) t ≡ sum_by (v_of c) t
made-v_of c [] = refl
made-v_of c (e ∷ es) = ground (arith, made-v_of c es)

pub made-v : (t : List Frequency) → sum_by (made (λ e. e.v)) t ≡ sum_by (λ e. e.v) t
made-v [] = refl
made-v (e ∷ es) = ground (arith, made-v es)

pub made-zero : (t : List Frequency) → sum_by (made (λ _. 0)) t ≡ 0
made-zero [] = refl
made-zero (e ∷ es) = ground (arith, made-zero es)

-- Every entry is for a byte.
abbrev pub no_byte : Frequency → ℕ
no_byte e = if ltb e.c 256 then 0 else 1

pub made-no_byte :
    (i : ℕ) (t : List Frequency) → Indexed i t → i + length t ≤ 256 → sum_by (made no_byte) t ≡ 0
made-no_byte i [] h fits = refl
made-no_byte i (e ∷ es) h fits = ground (arith, h.0, made-no_byte (i + 1) es h.1 (omega arith))

count-eof : (file : List ℕ) → count eof_byte (readable file) ≡ 0
count-eof [] = refl
count-eof (c ∷ cs) = ground (arith, count-eof cs)

some_char : (cs : List ℕ) → cs ≢ [] → (c : ℕ) × (0 < count c cs)
some_char [] ne = absurd (ne refl)
some_char (c ∷ cs) ne = (c, ground arith)

pqueue_new-IsValid : IsValid pqueue_new
unfolding pqueue_new
pqueue_new-IsValid = record {
  slots = length-replicate 256 null;
  within = omega arith;
  ordered = tt;
}

-- The frequencies of a file.
abbrev pub table_of : List ℕ → List Frequency
table_of file = compute_freq file

module _ (Q : Qsort) (file : List ℕ) (ids : ℕ) (b : Bytes file)
    (short : length (readable file) < int_sign) where
  start : PriorityQueue × ℕ
  start = create_tree_nodes Q (table_of file) (pqueue_new, ids)

  filled : Filled Q (table_of file) (pqueue_new, ids) start
  unfolding start pqueue_new
  filled =
      create_tree_nodes-Filled Q (table_of file) pqueue_new ids pqueue_new-IsValid
        (omega (arith, length-compute_freq file b short))
        (omega (arith, total-compute_freq file b short))

  count-start : start.0.count ≡ seen (table_of file)
  unfolding pqueue_new
  count-start = omega (arith, filled.grown)

  weight-start :
      (w : Tree → ℕ) (g : ℕ → ℕ) (f : Frequency → ℕ)
      → ((i : ℕ) (e : Frequency) → w (node i NodeType.leaf e null null) ≡ g i + f e)
      → sum_by w (items start.0)
        ≡ sum_by (made f) (table_of file) + total g ids (seen (table_of file))
  unfolding pqueue_new
  weight-start w g f h = omega (arith, filled.weights w g f h)

  pos_start : readable file ≢ [] → 0 < seen (table_of file)
  pos_start ne =
      let (c, h) = some_char (readable file) ne in
      seen-pos c (table_of file) (omega (arith, sum-compute_freq file b short c))

  room-start : start.0.count < maxsize
  room-start = omega (
    arith,
    count-start,
    length-compute_freq file b short,
    seen-lt eof_byte 0 (table_of file) (compute_freq-Indexed file b short) (omega arith)
        (omega (arith, length-compute_freq file b short))
        (sum-compute_freq file b short eof_byte ∙ count-eof file),
  )

  -- How many nodes the tree has.
  abbrev pub nodes : ℕ
  nodes = seen (table_of file) + (seen (table_of file) - 1)

  -- The run on a file that starts with a readable byte ends with a tree; a weight of its root is the sum
  -- over the table and over the ids that have been given.
  pub built_tree :
      readable file ≢ []
      → (root : Tree) × (ids' : ℕ) × (huffman_build_tree Q (some file) ids ≡ some (root, ids'))
        × (ids' ≡ ids + nodes)
        × ((w : Tree → ℕ) (g : ℕ → ℕ) (f : Frequency → ℕ)
            → Numbered g w
            → ((i : ℕ) (e : Frequency) → w (node i NodeType.leaf e null null) ≡ g i + f e)
            → w root ≡ sum_by (made f) (table_of file) + total g ids nodes)
  unfolding huffman_build_tree start
  built_tree ne =
      let whole : sum_by flaws (items start.0) ≡ 0 = omega (
        arith,
        weight-start flaws (λ _. 0) (λ _. 0) (λ i e. refl),
        made-zero (table_of file),
        total-zero ids (seen (table_of file)),
      ) in
      let (root, ids', built, counter, same) =
        build_tree_lem Q (start.0.count + 1) start.0 start.1 filled.valid
          (omega (arith, count-start, pos_start ne)) room-start (omega arith) whole
          (omega (
            arith,
            weight-start freq_v (λ _. 0) (λ e. e.v) (λ i e. omega arith),
            made-v (table_of file),
            total-compute_freq file b short,
            total-zero ids (seen (table_of file)),
          )) in
      (
        root,
        ids',
        built,
        omega (arith, counter, filled.counter, count-start, pos_start ne),
        λ w g f add made_leaf.
            let rounds : start.0.count - 1 ≡ seen (table_of file) - 1 =
              omega (arith, count-start) in
            omega (
              arith,
              same w g add,
              weight-start w g f made_leaf,
              total-add g ids (seen (table_of file)) (seen (table_of file) - 1),
              ap (λ a. total g a (start.0.count - 1)) filled.counter,
              ap (λ n. total g (ids + seen (table_of file)) n) rounds,
            ),
      )

  -- With no readable byte, the null pointer.
  pub built_null :
      readable file ≡ [] → (ids' : ℕ) × (huffman_build_tree Q (some file) ids ≡ some (null, ids'))
  unfolding huffman_build_tree start
  built_null e =
      let empty : start.0.count ≡ 0 = omega (
        arith,
        count-start,
        seen-none (table_of file) (total-compute_freq file b short ∙ ap length e),
      ) in
      (start.1, rw add-one (build_tree-null Q start.0.count start.0 start.1 empty))

  pub nodes-le : nodes ≤ 509
  nodes-le = omega (arith, count-start, room-start)
