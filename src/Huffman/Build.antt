-- ===== src/Huffman/Build.antt =====
-- huffman.h and huffman.c: the frequencies of an input, its coding tree, and the way down a tree.
pub mod Freq
pub mod Nodes
pub mod Forest
pub mod Whole
pub mod Correct
pub mod Numbers
pub mod Absent
use projects_in_c.Base.{
  ℕ, zero, suc, ◌+◌, ◌≤◌, List, [], ◌∷◌, ◌++◌, Option, none, some, Bool, true, false, ltb, leb,
  ◌==◌, if◌then◌else◌, ◌>>=◌,
}
use projects_in_c.Base.Words.{add, slt}
use projects_in_c.Huffman.Tree.{Tree, null, node, NodeType, internal, leaf, Frequency, is_null}
use projects_in_c.Huffman.Pqueue.{
  PriorityQueue, Qsort, pqueue_new, pqueue_enqueue, pqueue_dequeue, pqueue_size,
}

abbrev pub number_of_chars : ℕ
number_of_chars = 256

-- The byte that is -1 as a signed `char`, which the reading loop takes for `EOF`.
abbrev pub eof_byte : ℕ
eof_byte = 255

-- The first loop of `compute_freq`, over the `n` entries from number `i` on.
unfoldable pub fresh_table : ℕ → ℕ → List Frequency
fresh_table zero i = []
fresh_table (suc n) i = record { v = 0; c = i } ∷ fresh_table n (i + 1)

-- The inner loop of `compute_freq`: the first entry for the character counts one more.
unfoldable pub count_char : ℕ → List Frequency → List Frequency
count_char c [] = []
count_char c (e ∷ es) =
    if e.c == c then record { v = add e.v 1; c = c } ∷ es else e ∷ count_char c es

-- The reading loop of `compute_freq`, on the bytes that are left in the file.
unfoldable pub count_chars : List ℕ → List Frequency → List Frequency
unfolding count_char
count_chars [] table = table
count_chars (c ∷ cs) table = if c == eof_byte then table else count_chars cs (count_char c table)

unfoldable pub compute_freq : List ℕ → List Frequency
unfolding fresh_table count_chars
compute_freq file = count_chars file (fresh_table number_of_chars 0)

-- One round of `create_tree_nodes`; the second component is the counter of node ids.
unfoldable pub create_leaf : Qsort → Frequency → PriorityQueue × ℕ → PriorityQueue × ℕ
create_leaf Q e (pq, ids) =
    if slt 0 e.v then (pqueue_enqueue Q pq (node ids leaf e null null), ids + 1) else (pq, ids)

unfoldable pub create_tree_nodes : Qsort → List Frequency → PriorityQueue × ℕ → PriorityQueue × ℕ
unfolding create_leaf
create_tree_nodes Q [] s = s
create_tree_nodes Q (e ∷ es) s = create_tree_nodes Q es (create_leaf Q e s)

-- `n->freq`, a fault at the null pointer.
unfoldable pub get_freq : Tree → Option Frequency
get_freq null = none
get_freq (node _ _ freq _ _) = some freq

-- One round of `build_tree`: the two smallest nodes become the children of a new one.
unfoldable pub merge_two : Qsort → PriorityQueue × ℕ → Option (PriorityQueue × ℕ)
unfolding get_freq
merge_two Q (pq, ids) = pqueue_dequeue pq >>= λ (l, pq₁). pqueue_dequeue pq₁ >>= λ (r, pq₂).
    get_freq l >>= λ f. get_freq r >>= λ g.
    some (pqueue_enqueue Q pq₂ (node ids internal (record { v = add f.v g.v; c = 0 }) l r), ids + 1)

-- `build_tree`, with fuel for the rounds; the caller gives the size of the queue.
unfoldable pub build_tree : Qsort → ℕ → PriorityQueue × ℕ → Option (Tree × ℕ)
unfolding merge_two
build_tree Q zero s = none
build_tree Q (suc fuel) (pq, ids) =
    let rest = merge_two Q (pq, ids) >>= λ s. build_tree Q fuel s in
    if ltb 1 (pqueue_size pq) then rest else pqueue_dequeue pq >>= λ (root, _). some (root, ids)

-- The file is `none` if it cannot be opened. `some (null, ids)` is the result `NULL`.
unfoldable pub huffman_build_tree : Qsort → Option (List ℕ) → ℕ → Option (Tree × ℕ)
unfolding compute_freq create_tree_nodes build_tree
huffman_build_tree Q none ids = some (null, ids)
huffman_build_tree Q (some file) ids =
    let (pq, ids') = create_tree_nodes Q (compute_freq file) (pqueue_new, ids) in
    build_tree Q (pq.count + 1) (pq, ids')

-- The child that a character of an encoding leads to: left for '1'.
abbrev pub child : ℕ → Tree → Tree
child ch null = null
child ch (node _ _ _ left right) = if ch == b'1' then left else right

-- `huffman_find`: a fault is a null `tree` or a failed assertion, and the result -1 is `some none`.
unfoldable pub huffman_find : Tree → List ℕ → Option (Option ℕ)
huffman_find null encoding = none
huffman_find (node _ internal _ _ _) [] = none
huffman_find (node _ leaf freq _ _) [] = some (some freq.c)
huffman_find (node id type freq left right) (ch ∷ encoding) =
    let tr : Tree = child ch (node id type freq left right) in
    let rest = huffman_find tr encoding in if is_null tr then some none else rest
