-- ===== src/Huffman/Build/Nodes.antt =====
-- huffman.c, `create_tree_nodes`: one leaf in the queue for each character that occurs.
use projects_in_c.Base.{
  ℕ, ◌+◌, ◌≤◌, ◌<◌, ◌≡◌, inl, inr, List, [], ◌∷◌, arith, ltb, if◌then◌else◌, length, Bool-cases, ap,
}
use projects_in_c.Base.Sums.{sum_by}
use projects_in_c.Base.Words.{int_sign, slt_nat}
use projects_in_c.Huffman.Tree.{Tree, null, node, leaf, Frequency}
use projects_in_c.Huffman.Tree.Shape.{total, total-add}
use projects_in_c.Huffman.Pqueue.{PriorityQueue, Qsort, maxsize}
use projects_in_c.Huffman.Pqueue.Laws.{
  items, IsValid, enqueue-IsValid, count-enqueue, sum_by-enqueue,
}
use projects_in_c.Huffman.Build.{create_leaf, create_tree_nodes}

-- The weight that the leaf for an entry has, if one is made.
abbrev pub made : (Frequency → ℕ) → Frequency → ℕ
made f e = if ltb 0 e.v then f e else 0

module _ (Q : Qsort) where
  -- The queue after the entries `es`: valid, and heavier by the leaves that were made.
  pub record Filled (es : List Frequency) (s s' : PriorityQueue × ℕ) : Type 0 where
    pub valid : IsValid s'.0
    pub grown : s'.0.count ≡ s.0.count + sum_by (made (λ _. 1)) es
    pub weights :
        (w : Tree → ℕ) (g : ℕ → ℕ) (f : Frequency → ℕ)
        → ((ids : ℕ) (e : Frequency) → w (node ids leaf e null null) ≡ g ids + f e)
        → sum_by w (items s'.0)
          ≡ sum_by w (items s.0) + sum_by (made f) es + total g s.1 (sum_by (made (λ _. 1)) es)
    pub counter : s'.1 ≡ s.1 + sum_by (made (λ _. 1)) es

  create_leaf-Filled :
      (e : Frequency) (pq : PriorityQueue) (ids : ℕ)
      → IsValid pq
      → pq.count < maxsize
      → e.v < int_sign
      → Filled (e ∷ []) (pq, ids) (create_leaf Q e (pq, ids))
  unfolding create_leaf
  create_leaf-Filled e pq ids v room small =
      rw (slt_nat 0 e.v (omega arith) small) (elim (Bool-cases (ltb 0 e.v)) [
        | inl seen ↦ rw seen (record {
          valid = enqueue-IsValid Q pq _ v;
          grown = rw seen (omega (arith, count-enqueue Q pq (node ids leaf e null null) v room));
          weights = λ w g f h.
              rw seen
                (omega (arith, sum_by-enqueue Q w pq (node ids leaf e null null) v room, h ids e));
          counter = rw seen (omega arith);
        })
        | inr unseen ↦ rw unseen (record {
          valid = v;
          grown = rw unseen (omega arith);
          weights = λ w g f h. rw unseen (omega arith);
          counter = rw unseen (omega arith);
        })
      ])

  pub create_tree_nodes-Filled :
      (es : List Frequency) (pq : PriorityQueue) (ids : ℕ)
      → IsValid pq
      → pq.count + length es ≤ maxsize
      → sum_by (λ e. e.v) es < int_sign
      → Filled es (pq, ids) (create_tree_nodes Q es (pq, ids))
  unfolding create_tree_nodes
  create_tree_nodes-Filled [] pq ids v room light = record {
    valid = v;
    grown = omega arith;
    weights = λ w g f h. omega arith;
    counter = omega arith;
  }
  create_tree_nodes-Filled (e ∷ es) pq ids v room light =
      let one = create_leaf-Filled e pq ids v (omega arith) (omega arith) in
      let (pq', ids') = create_leaf Q e (pq, ids) in
      let rest =
        create_tree_nodes-Filled es pq' ids' one.valid (ground (arith, one.grown)) (omega arith) in
      record {
        valid = rest.valid;
        grown = omega (arith, one.grown, rest.grown);
        weights = λ w g f h.
            let first = sum_by (made (λ _. 1)) (e ∷ []) in
            let all : sum_by (made (λ _. 1)) (e ∷ es) ≡ first + sum_by (made (λ _. 1)) es =
              omega arith in
            omega (
              arith,
              ap (λ n. total g ids n) all,
              one.weights w g f h,
              rest.weights w g f h,
              total-add g ids (sum_by (made (λ _. 1)) (e ∷ [])) (sum_by (made (λ _. 1)) es),
              ap (λ a. total g a (sum_by (made (λ _. 1)) es)) one.counter,
            );
        counter = omega (arith, one.counter, rest.counter);
      }
