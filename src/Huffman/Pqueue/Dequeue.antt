-- ===== src/Huffman/Pqueue/Dequeue.antt =====
-- pqueue.c, `pqueue_dequeue`: the smallest node leaves, and a full array is read past its end.
use native.Mathlib.Numerals.{sub-one, add-one}
use projects_in_c.Base.{
  ℕ, zero, suc, ◌+◌, ◌≤◌, ◌<◌, ◌≡◌, refl, ap, sym, inl, inr, List, [], ◌∷◌, ◌++◌, none, some, arith,
  length, take, drop, set, get_elem?, length-set, ◌>>=◌, Option-cases, false,
}
use projects_in_c.Huffman.Tree.{Tree, null}
use projects_in_c.Huffman.Pqueue.{
  PriorityQueue, maxsize, IsOrdered, pqueue_dequeue, shift_left, is_empty,
}
use projects_in_c.Huffman.Pqueue.Laws.{items, IsValid}

shift-cons :
    (n i : ℕ) (z : Tree) (q : List Tree)
    → shift_left n (suc (suc i)) (z ∷ q) ≡ (shift_left n (suc i) q >>= λ r. some (z ∷ r))
unfolding shift_left
shift-cons zero i z q = refl
shift-cons (suc n) i z q = elim (Option-cases (get_elem? q (suc i))) [
  | inl e ↦ rw e
  | inr (t, e) ↦ rw (e, sub-one, sub-one, add-one, add-one) (shift-cons n (suc i) z (set q i t))
]

-- After the loop over `n` indices the slots 1 to n have moved down by one.
shift_lem :
    (n : ℕ) (x : Tree) (ys : List Tree)
    → n ≤ length ys
    → shift_left n 1 (x ∷ ys) ≡ some (take n ys ++ drop n (x ∷ ys))
unfolding shift_left
shift_lem zero x ys h = refl
shift_lem (suc n) x [] h = absurd (omega arith)
shift_lem (suc n) x (y ∷ zs) h = rw (shift-cons n 0 y (y ∷ zs), shift_lem n y zs (omega arith))

-- A loop that runs up to the array's length reads past it.
shift_past : (n : ℕ) (x : Tree) (ys : List Tree) → length ys < n → shift_left n 1 (x ∷ ys) ≡ none
unfolding shift_left
shift_past zero x ys h = absurd (omega arith)
shift_past (suc n) x [] h = refl
shift_past (suc n) x (y ∷ zs) h = rw (shift-cons n 0 y (y ∷ zs), shift_past n y zs (omega arith))

take-rest :
    (k : ℕ) (ys zs : List Tree)
    → k < length ys
    → take k (set (take (suc k) ys ++ zs) k null) ≡ take k ys
take-rest k [] zs h = absurd (omega arith)
take-rest zero (y ∷ ys) zs h = refl
take-rest (suc k) (y ∷ ys) zs h = ap (λ t. y ∷ t) (take-rest k ys zs (omega arith))

length-shifted :
    (n : ℕ) (x : Tree) (ys : List Tree)
    → n ≤ length ys
    → length (take n ys ++ drop n (x ∷ ys)) ≡ suc (length ys)
length-shifted zero x ys h = refl
length-shifted (suc n) x [] h = absurd (omega arith)
length-shifted (suc n) x (y ∷ zs) h = ap suc (length-shifted n y zs (omega arith))

-- What a removal leaves behind: the queue was `t` and then the items of `pq'`.
pub record Dequeued (pq : PriorityQueue) (t : Tree) (pq' : PriorityQueue) : Type 0 where
  pub first : items pq ≡ t ∷ items pq'
  pub valid : IsValid pq'
  pub fewer : pq'.count + 1 ≡ pq.count

IsOrdered-tail : (t : Tree) (ts : List Tree) → IsOrdered (t ∷ ts) → IsOrdered ts
IsOrdered-tail t [] o = tt
IsOrdered-tail t (u ∷ ts) o = o.1

nonempty : (q : List Tree) (k : ℕ) → is_empty (record { queue = q; count = suc k }) ≡ false
unfolding is_empty
nonempty q k = ground arith

dequeue_cons :
    (k : ℕ) (x : Tree) (ys : List Tree)
    → suc (length ys) ≡ maxsize
    → suc k < maxsize
    → IsOrdered (x ∷ take k ys)
    → (pq' : PriorityQueue) × (pqueue_dequeue (record { queue = x ∷ ys; count = suc k })
        ≡ some (x, pq'))
      × Dequeued (record { queue = x ∷ ys; count = suc k }) x pq'
unfolding pqueue_dequeue
dequeue_cons k x ys len room o = (
  record { queue = set (take (suc k) ys ++ drop k ys) k null; count = k },
  rw (nonempty (x ∷ ys) k, shift_lem (suc k) x ys (omega arith), sub-one),
  record {
    first = ap (λ t. x ∷ t) (sym (take-rest k ys (drop k ys) (omega arith)));
    valid = record {
      slots = omega (
        arith,
        length-set (take (suc k) ys ++ drop k ys) k null,
        length-shifted (suc k) x ys (omega arith),
      );
      within = omega arith;
      ordered = rw (take-rest k ys (drop k ys) (omega arith)) (IsOrdered-tail x (take k ys) o);
    };
    fewer = omega arith;
  },
)

-- Removal from a valid queue that is neither empty nor full does not fault. The result is the first
-- queued node, the others stay in their order, and the queue is valid with one node fewer.
pub dequeue_lem :
    (pq : PriorityQueue)
    → IsValid pq
    → 0 < pq.count
    → pq.count < maxsize
    → (t : Tree) × (pq' : PriorityQueue) × (pqueue_dequeue pq ≡ some (t, pq')) × Dequeued pq t pq'
dequeue_lem pq v pos room = split pq.queue pq.count v.slots v.ordered pos room
  where
    split :
        (q : List Tree) (c : ℕ)
        → length q ≡ maxsize
        → IsOrdered (take c q)
        → 0 < c
        → c < maxsize
        → (t : Tree) × (pq' : PriorityQueue) × (pqueue_dequeue (record { queue = q; count = c })
            ≡ some (t, pq'))
          × Dequeued (record { queue = q; count = c }) t pq'
    split [] c len o pos room = absurd (omega arith)
    split (x ∷ ys) zero len o pos room = absurd (omega arith)
    split (x ∷ ys) (suc k) len o pos room =
        let (pq', e, d) = dequeue_cons k x ys len room o in (x, pq', e, d)

pub dequeue_empty : (pq : PriorityQueue) → pq.count ≡ 0 → pqueue_dequeue pq ≡ some (null, pq)
unfolding pqueue_dequeue
dequeue_empty pq e = ground arith

past :
    (k : ℕ) (x : Tree) (ys : List Tree)
    → length ys < suc k
    → pqueue_dequeue (record { queue = x ∷ ys; count = suc k }) ≡ none
unfolding pqueue_dequeue
past k x ys h = rw (nonempty (x ∷ ys) k, shift_past (suc k) x ys h)

-- Removal from a valid queue with all 256 slots in use faults: it reads one slot past the array.
pub dequeue_full : (pq : PriorityQueue) → IsValid pq → pq.count ≡ maxsize → pqueue_dequeue pq ≡ none
dequeue_full pq v e = split pq.queue pq.count v.slots e
  where
    split :
        (q : List Tree) (c : ℕ)
        → length q ≡ maxsize
        → c ≡ maxsize
        → pqueue_dequeue (record { queue = q; count = c }) ≡ none
    split [] c len e = absurd (omega arith)
    split (x ∷ ys) zero len e = absurd (omega arith)
    split (x ∷ ys) (suc k) len e = past k x ys (omega arith)
