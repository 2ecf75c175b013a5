-- ===== src/Huffman/Tests/Examples.antt =====
-- The theorems about the compressor's parts at concrete inputs.
use mathlib.Core.List.{cons≢nil}
use projects_in_c.Base.{
  ℕ, zero, suc, take, replicate, length-replicate, ◌+◌, ◌<◌, ◌≡◌, refl, List, [], ◌∷◌, some, none,
  true, false, arith,
}
use projects_in_c.Base.Words.{slt, sub}
use projects_in_c.Base.Sums.{sum_by}
use projects_in_c.Base.Stdio.{File}
use projects_in_c.Huffman.Tree.{Tree, null, node, internal, leaf, freq_v}
use projects_in_c.Huffman.Pqueue.{
  comparator, IsOrdered, PriorityQueue, pqueue_new, pqueue_enqueue, pqueue_dequeue, maxsize,
}
use projects_in_c.Huffman.Pqueue.Laws.{
  items, IsValid, enqueue-IsValid, sum_by-enqueue, count-enqueue,
}
use projects_in_c.Huffman.Pqueue.Dequeue.{Dequeued, dequeue_lem, dequeue_full}
use projects_in_c.Huffman.Build.{huffman_find, huffman_build_tree}
use projects_in_c.Huffman.Build.Freq.{readable, count, Bytes}
use projects_in_c.Huffman.Build.Correct.{IsTreeOf, huffman_build_tree-IsTreeOf}
use projects_in_c.Huffman.Table.{EncodeTable, table_bit_encode, table_build}
use projects_in_c.Huffman.Table.Codes.{IsCode, IsTableOf, table_build-IsTableOf}
use projects_in_c.Huffman.BitsIo.{BitsIoFile, bits_io_open, bits_io_close}
use projects_in_c.Huffman.Codes.{huffman_codes}
use projects_in_c.Huffman.BitsIo.RoundTrip.{write_bits, read_bits, results, read_bits-write_bits}
use projects_in_c.Huffman.Tests.Sorting.{insertion}

-- The bytes of "aba".
abbrev aba : List ℕ
aba = 97 ∷ 98 ∷ 97 ∷ []

aba-Bytes : Bytes aba
aba-Bytes = (omega arith, (omega arith, (omega arith, tt)))

huffman_build_tree-IsTreeOf_example :
    (root : Tree) × (ids : ℕ) × (huffman_build_tree insertion (some aba) 0 ≡ some (root, ids))
    × IsTreeOf aba root
huffman_build_tree-IsTreeOf_example =
    huffman_build_tree-IsTreeOf insertion aba 0 aba-Bytes (omega arith) (λ e. cons≢nil e)

abbrev small_tree : Tree
small_tree =
    node 2 internal (record { v = 3; c = 0 }) (node 1 leaf (record { v = 1; c = 98 }) null null)
      (node 0 leaf (record { v = 2; c = 97 }) null null)

table_build-IsTableOf_example :
    (etab : EncodeTable) × (table_build small_tree ≡ some etab) × IsTableOf small_tree etab
table_build-IsTableOf_example =
    table_build-IsTableOf small_tree (tt, tt, refl) (omega arith, omega arith)

abbrev leaf_a : Tree
leaf_a = node 0 leaf (record { v = 2; c = 97 }) null null

pqueue_new-IsValid : IsValid pqueue_new
unfolding pqueue_new
pqueue_new-IsValid = record { slots = refl; within = omega arith; ordered = tt }

pqueue_new-count : pqueue_new.count ≡ 0
unfolding pqueue_new
pqueue_new-count = refl

sum_by-enqueue_example :
    sum_by freq_v (items (pqueue_enqueue insertion pqueue_new leaf_a))
    ≡ freq_v leaf_a + sum_by freq_v (items pqueue_new)
sum_by-enqueue_example =
    sum_by-enqueue insertion freq_v pqueue_new leaf_a pqueue_new-IsValid
      (omega (arith, pqueue_new-count))

abbrev one_item : PriorityQueue
one_item = pqueue_enqueue insertion pqueue_new leaf_a

one_item-count : one_item.count ≡ 1
one_item-count = omega (
  arith,
  count-enqueue insertion pqueue_new leaf_a pqueue_new-IsValid (omega (arith, pqueue_new-count)),
  pqueue_new-count,
)

dequeue_lem_example :
    (t : Tree) × (pq : PriorityQueue) × (pqueue_dequeue one_item ≡ some (t, pq))
    × Dequeued one_item t pq
dequeue_lem_example =
    dequeue_lem one_item (enqueue-IsValid insertion pqueue_new leaf_a pqueue_new-IsValid)
      (omega (arith, one_item-count)) (omega (arith, one_item-count))

comparator_self : (t : Tree) → slt 0 (comparator t t) ≡ false
unfolding comparator slt sub
comparator_self t = ground arith

same-IsOrdered : (k n : ℕ) (t : Tree) → IsOrdered (take k (replicate n t))
same-IsOrdered zero n t = tt
same-IsOrdered (suc k) zero t = tt
same-IsOrdered (suc zero) (suc n) t = tt
same-IsOrdered (suc (suc k)) (suc zero) t = tt
same-IsOrdered (suc (suc k)) (suc (suc n)) t = (comparator_self t, same-IsOrdered (suc k) (suc n) t)

-- A queue with every slot in use.
abbrev full_queue : PriorityQueue
full_queue = record { queue = replicate maxsize leaf_a; count = maxsize }

full_queue-IsValid : IsValid full_queue
full_queue-IsValid = record {
  slots = length-replicate maxsize leaf_a;
  within = omega arith;
  ordered = same-IsOrdered maxsize maxsize leaf_a;
}

dequeue_full_example : pqueue_dequeue full_queue ≡ none
dequeue_full_example = dequeue_full full_queue full_queue-IsValid refl

abbrev fp : File
fp = record { input = []; output = 42 ∷ []; room = 9 }

read_bits-write_bits_example :
    (w w' closed r : BitsIoFile) × (body : List ℕ) × (bits_io_open (some fp) b'w' ≡ some w)
    × (write_bits (1 ∷ 0 ∷ 1 ∷ []) w ≡ some w')
    × (bits_io_close w' ≡ (true, closed))
    × (closed.fp.output ≡ 42 ∷ body)
    × (bits_io_open (some (record fp { input = body })) b'r' ≡ some r)
    × (read_bits 4 r ≡ results (1 ∷ 0 ∷ 1 ∷ []))
read_bits-write_bits_example =
    read_bits-write_bits (1 ∷ 0 ∷ 1 ∷ []) fp fp (omega arith, (omega arith, (omega arith, tt)))
      (omega arith)

huffman_codes_example :
    (root : Tree) × (ids : ℕ) × (etab : EncodeTable) × (huffman_build_tree insertion (some aba) 0
      ≡ some (root, ids))
    × (table_build root ≡ some etab)
    × ((c : ℕ)
        → 0 < count c (readable aba)
        → (code : List ℕ) × (table_bit_encode etab c ≡ some code)
          × IsCode code
          × (huffman_find root code ≡ some (some c)))
huffman_codes_example = huffman_codes insertion aba 0 aba-Bytes (omega arith) (λ e. cons≢nil e)
