-- ===== src/Huffman/Pqueue.antt =====
-- pqueue.h and pqueue.c: the priority queue, an array of 256 slots that is sorted again at each
-- insertion. `qsort` is the C library's: a parameter, of which only the documented behaviour is
-- used, that it orders the array by the comparison function and keeps its items.
pub mod Laws
pub mod Dequeue
use mathlib.Core.List.{Perm}
use projects_in_c.Base.{
  ℕ, zero, suc, ◌+◌, ◌-◌, ◌≡◌, false, List, [], ◌∷◌, ◌++◌, Option, none, some, Bool, ltb, leb, ◌==◌,
  if◌then◌else◌, take, drop, set, get_elem?, replicate, ◌>>=◌,
}
use projects_in_c.Base.Words.{sub, slt}
use projects_in_c.Huffman.Tree.{Tree, null, node, freq_v}

abbrev pub maxsize : ℕ
maxsize = 256

pub record PriorityQueue : Type 0 where
  pub queue : List Tree
  pub count : ℕ

-- The difference of the frequencies, an `int` that wraps.
unfoldable pub comparator : Tree → Tree → ℕ
comparator x y = sub (freq_v x) (freq_v y)

-- `comparator(x, y) <= 0` for each node and the next.
abbrev pub IsOrdered : List Tree → Type 0
IsOrdered [] = Unit
IsOrdered (x ∷ []) = Unit
IsOrdered (x ∷ y ∷ ts) = (slt 0 (comparator x y) ≡ false) × IsOrdered (y ∷ ts)

-- In the result no node is greater than the next. Where a difference of frequencies overflows the
-- comparison is no order and C promises nothing; an insertion sort has the two laws there as well.
pub record Qsort : Type 0 where
  pub qsort : List Tree → List Tree
  pub qsort-perm : (ts : List Tree) → Perm (qsort ts) ts
  pub qsort-IsOrdered : (ts : List Tree) → IsOrdered (qsort ts)

unfoldable pub pqueue_new : PriorityQueue
pqueue_new = record { queue = replicate maxsize null; count = 0 }

unfoldable pub is_empty : PriorityQueue → Bool
is_empty pq = pq.count == 0

unfoldable pub pqueue_size : PriorityQueue → ℕ
pqueue_size pq = pq.count

-- The sort reorders the first `count` slots.
unfoldable pub sort : Qsort → PriorityQueue → PriorityQueue
sort Q pq = record pq { queue = Q.qsort (take pq.count pq.queue) ++ drop pq.count pq.queue }

unfoldable pub pqueue_enqueue : Qsort → PriorityQueue → Tree → PriorityQueue
unfolding sort
pqueue_enqueue Q pq n =
    if leb maxsize pq.count
    then pq
    else sort Q (record { queue = set pq.queue pq.count n; count = pq.count + 1 })

-- The `rounds` passes of the loop from index `i` on; a fault is a read past the array.
unfoldable pub shift_left : ℕ → ℕ → List Tree → Option (List Tree)
shift_left zero i q = some q
shift_left (suc rounds) i q = get_elem? q i >>= λ t. shift_left rounds (i + 1) (set q (i - 1) t)

-- `none` is a fault, `some (null, pq)` the result for the empty queue.
unfoldable pub pqueue_dequeue : PriorityQueue → Option (Tree × PriorityQueue)
unfolding is_empty shift_left
pqueue_dequeue pq =
    if is_empty pq
    then some (null, pq)
    else get_elem? pq.queue 0 >>= λ t. shift_left pq.count 1 pq.queue >>= λ q.
        some (t, record { queue = set q (pq.count - 1) null; count = pq.count - 1 })
