-- ===== src/Huffman/Pqueue/Laws.antt =====
-- pqueue.c keeps its array sorted: what insertion and removal do to the queued nodes.

use projects_in_c.Base.{
  ℕ, zero, suc, ◌+◌, ◌≤◌, ◌<◌, ◌≡◌, refl, ap, List, [], ◌∷◌, ◌++◌, arith, length, take, drop, set,
  length-set, length-append, length-take, length-drop, sym,
}
use native.Mathlib.Numerals.{add-one}
use native.Mathlib.Decide.{dec_lt}
use projects_in_c.Base.Sums.{sum_by-append, sum_by, Perm-sum_by}
use projects_in_c.Huffman.Tree.{Tree}
use projects_in_c.Huffman.Pqueue.{PriorityQueue, maxsize, IsOrdered, Qsort, pqueue_enqueue}

-- The nodes in the queue, in the order in which they will leave it.
abbrev pub items : PriorityQueue → List Tree
items pq = take pq.count pq.queue

pub record IsValid (pq : PriorityQueue) : Type 0 where
  pub slots : length pq.queue ≡ maxsize
  pub within : pq.count ≤ maxsize
  pub ordered : IsOrdered (items pq)

take-set :
    (n : ℕ) (xs : List Tree) (x : Tree)
    → n < length xs
    → take (suc n) (set xs n x) ≡ take n xs ++ x ∷ []
take-set n [] x h = absurd (omega arith)
take-set zero (y ∷ ys) x h = refl
take-set (suc n) (y ∷ ys) x h = ap (λ t. y ∷ t) (take-set n ys x (omega arith))

take-append : (xs ys : List Tree) (n : ℕ) → n ≡ length xs → take n (xs ++ ys) ≡ xs
take-append [] ys zero h = refl
take-append [] ys (suc n) h = absurd (omega arith)
take-append (x ∷ xs) ys zero h = absurd (omega arith)
take-append (x ∷ xs) ys (suc n) h = ap (λ t. x ∷ t) (take-append xs ys n (omega arith))

length-sum_by : (xs : List Tree) → sum_by (λ _. 1) xs ≡ length xs
length-sum_by [] = refl
length-sum_by (x ∷ xs) = omega (arith, length-sum_by xs)

module _ (Q : Qsort) where
  length-qsort : (ts : List Tree) → length (Q.qsort ts) ≡ length ts
  length-qsort ts =
      omega (
        arith,
        Perm-sum_by (λ _. 1) (Q.qsort-perm ts),
        length-sum_by ts,
        length-sum_by (Q.qsort ts),
      )

  enqueue_full : (pq : PriorityQueue) (n : Tree) → maxsize ≤ pq.count → pqueue_enqueue Q pq n ≡ pq
  unfolding pqueue_enqueue
  enqueue_full pq n h = ground arith

  module _ (pq : PriorityQueue) (n : Tree) (v : IsValid pq) (h : pq.count < maxsize) where
    stored : List Tree
    stored = set pq.queue pq.count n

    take-stored : take (pq.count + 1) stored ≡ items pq ++ n ∷ []
    unfolding stored
    take-stored = rw add-one (take-set pq.count pq.queue n (omega (arith, v.slots)))

    queue-enqueue : pqueue_enqueue Q pq n ≡ record {
      queue = Q.qsort (items pq ++ n ∷ []) ++ drop (pq.count + 1) stored;
      count = pq.count + 1;
    }
    unfolding pqueue_enqueue stored
    queue-enqueue = ground (arith, take-stored)

    length-sorted : length (Q.qsort (items pq ++ n ∷ [])) ≡ pq.count + 1
    length-sorted = omega (
      arith,
      length-qsort (items pq ++ n ∷ []),
      length-append (items pq) (n ∷ []),
      length-take pq.count pq.queue,
      v.slots,
    )

    -- With room left, insertion sorts the queued nodes together with the new one.
    pub items-enqueue : items (pqueue_enqueue Q pq n) ≡ Q.qsort (items pq ++ n ∷ [])
    items-enqueue =
        rw queue-enqueue (take-append (Q.qsort (items pq ++ n ∷ [])) _ _ (sym length-sorted))

    pub count-enqueue : (pqueue_enqueue Q pq n).count ≡ pq.count + 1
    count-enqueue = rw queue-enqueue

    length-enqueue : length (pqueue_enqueue Q pq n).queue ≡ maxsize
    unfolding stored
    length-enqueue = rw queue-enqueue (
        omega (
          arith,
          length-sorted,
          length-append (Q.qsort (items pq ++ n ∷ [])) (drop (pq.count + 1) stored),
          length-drop (pq.count + 1) stored,
          length-set pq.queue pq.count n,
          v.slots,
        ))

  pub enqueue-IsValid :
      (pq : PriorityQueue) (n : Tree) → IsValid pq → IsValid (pqueue_enqueue Q pq n)
  enqueue-IsValid pq n v = elim (dec_lt pq.count maxsize) [
    | yes h ↦ record {
      slots = length-enqueue pq n v h;
      within = omega (arith, count-enqueue pq n v h);
      ordered = rw (items-enqueue pq n v h) (Q.qsort-IsOrdered (items pq ++ n ∷ []));
    }
    | no h ↦ rw (enqueue_full pq n (omega arith)) v
  ]

  -- Insertion into a valid queue with room left adds the weight of the new node to the sum of the
  -- weights of the queued nodes, for every weight: the queue has the old nodes and the new one.
  pub sum_by-enqueue :
      (w : Tree → ℕ) (pq : PriorityQueue) (n : Tree)
      → IsValid pq
      → pq.count < maxsize
      → sum_by w (items (pqueue_enqueue Q pq n)) ≡ w n + sum_by w (items pq)
  sum_by-enqueue w pq n v h = rw (items-enqueue pq n v h) (
      omega (
        arith,
        Perm-sum_by w (Q.qsort-perm (items pq ++ n ∷ [])),
        sum_by-append w (items pq) (n ∷ []),
      ))
