-- ===== src/Huffman/Build/Forest.antt =====
-- huffman.c, `build_tree`: the loop ends with one tree that holds the leaves of the whole queue.
use projects_in_c.Base.{
  ℕ, zero, suc, ◌+◌, ◌-◌, ◌<◌, ◌≡◌, refl, ap, ◌∙◌, inl, inr, some, arith, ltb, ltb→lt, Bool-cases,
  take,
}
use projects_in_c.Base.Sums.{sum_by}
use projects_in_c.Base.Words.{add, add_exact, int_sign}
use projects_in_c.Huffman.Tree.{Tree, null, node, internal, Frequency, freq_v}
use projects_in_c.Huffman.Tree.Shape.{
  flaws, flaws-Additive, freq_v-Additive, Numbered, Additive-Numbered, total,
}
use projects_in_c.Huffman.Pqueue.{PriorityQueue, Qsort, pqueue_enqueue, pqueue_size, maxsize}
use projects_in_c.Huffman.Pqueue.Laws.{
  items, IsValid, enqueue-IsValid, count-enqueue, sum_by-enqueue,
}
use projects_in_c.Huffman.Pqueue.Dequeue.{dequeue_lem, dequeue_empty}
use projects_in_c.Huffman.Build.{get_freq, merge_two, build_tree}

get_freq_lem : (t : Tree) → flaws t ≡ 0 → (f : Frequency) × (get_freq t ≡ some f) × (f.v ≡ freq_v t)
unfolding get_freq
get_freq_lem null h = absurd (omega arith)
get_freq_lem (node _ _ freq _ _) h = (freq, refl, refl)

module _ (Q : Qsort) where
  -- What a round leaves: one node fewer, of the same weight but for the id of the new node.
  record Merged (ids : ℕ) (pq : PriorityQueue) (pq' : PriorityQueue) : Type 0 where
    valid : IsValid pq'
    fewer : pq'.count + 1 ≡ pq.count
    weights :
        (w : Tree → ℕ) (g : ℕ → ℕ)
        → Numbered g w
        → sum_by w (items pq') ≡ g ids + sum_by w (items pq)

  merge_two_lem :
      (pq : PriorityQueue) (ids : ℕ)
      → IsValid pq
      → 1 < pq.count
      → pq.count < maxsize
      → sum_by flaws (items pq) ≡ 0
      → sum_by freq_v (items pq) < int_sign
      → (pq' : PriorityQueue) × (merge_two Q (pq, ids) ≡ some (pq', ids + 1)) × Merged ids pq pq'
  unfolding merge_two
  merge_two_lem pq ids v many room whole light =
      let (l, pq₁, e₁, d₁) = dequeue_lem pq v (omega arith) room in
      let (r, pq₂, e₂, d₂) =
        dequeue_lem pq₁ d₁.valid (omega (arith, d₁.fewer)) (omega (arith, d₁.fewer)) in
      let total = λ (w : Tree → ℕ). ap (sum_by w) d₁.first ∙ ap (λ s. w l + sum_by w s) d₂.first in
      let (f, ef, fv) = get_freq_lem l (omega (arith, total flaws)) in
      let (g, eg, gv) = get_freq_lem r (omega (arith, total flaws)) in
      let n : Tree = node ids internal (record { v = add f.v g.v; c = 0 }) l r in
      let exact : add f.v g.v ≡ f.v + g.v =
        add_exact f.v g.v (omega (arith, fv, gv, total freq_v)) in
      let small : pq₂.count < maxsize = omega (arith, d₁.fewer, d₂.fewer) in
      (
        pqueue_enqueue Q pq₂ n,
        rw (e₁, e₂, ef, eg),
        record {
          valid = enqueue-IsValid Q pq₂ n d₂.valid;
          fewer = omega (arith, count-enqueue Q pq₂ n d₂.valid small, d₁.fewer, d₂.fewer);
          weights = λ w g' h.
              let sum : w n ≡ g' ids + (w l + w r) = rw (exact, fv, gv) (h ids l r) in
              omega (arith, sum_by-enqueue Q w pq₂ n d₂.valid small, total w, sum);
        },
      )

  -- One tree is left, of the weight of the whole queue, the ids of the new nodes added.
  pub build_tree_lem :
      (fuel : ℕ) (pq : PriorityQueue) (ids : ℕ)
      → IsValid pq
      → 0 < pq.count
      → pq.count < maxsize
      → pq.count < fuel
      → sum_by flaws (items pq) ≡ 0
      → sum_by freq_v (items pq) < int_sign
      → (root : Tree) × (ids' : ℕ) × (build_tree Q fuel (pq, ids) ≡ some (root, ids'))
        × (ids' + 1 ≡ ids + pq.count)
        × ((w : Tree → ℕ) (g : ℕ → ℕ)
            → Numbered g w
            → w root ≡ sum_by w (items pq) + total g ids (pq.count - 1))
  unfolding build_tree pqueue_size
  build_tree_lem zero pq ids v some_left room enough whole light = absurd (omega arith)
  build_tree_lem (suc fuel) pq ids v some_left room enough whole light =
      elim (Bool-cases (ltb 1 pq.count)) [
        | inl more ↦
            let (pq', e, m) = merge_two_lem pq ids v (ground arith) room whole light in
            let (root, ids', built, counter, same) =
              build_tree_lem fuel pq' (ids + 1) m.valid
                (omega (arith, m.fewer, ltb→lt 1 pq.count more)) (omega (arith, m.fewer))
                (omega (arith, m.fewer))
                (omega
                  (arith, m.weights flaws (λ _. 0) (Additive-Numbered flaws flaws-Additive), whole))
                (omega (
                  arith,
                  m.weights freq_v (λ _. 0) (Additive-Numbered freq_v freq_v-Additive),
                  light,
                )) in
            let rounds : pq.count - 1 ≡ suc (pq'.count - 1) = ground (arith, m.fewer) in
            (
              root,
              ids',
              rw (more, e) built,
              omega (arith, counter, m.fewer),
              λ w g h. omega (arith, same w g h, m.weights w g h, ap (λ n. total g ids n) rounds),
            )
        | inr last ↦
            let (t, pq', e, d) = dequeue_lem pq v some_left room in
            let none_left : pq'.count ≡ 0 = ground (arith, d.fewer) in
            let no_round : pq.count - 1 ≡ 0 = omega (arith, d.fewer, none_left) in
            (
              t,
              ids,
              rw (last, e),
              omega (arith, d.fewer, none_left),
              λ w g add. omega (
                arith,
                ap (sum_by w) d.first,
                ap (λ k. sum_by w (take k pq'.queue)) none_left,
                ap (λ k. total g ids k) no_round,
              ),
            )
      ]

  -- An empty queue gives the null pointer.
  pub build_tree-null :
      (fuel : ℕ) (pq : PriorityQueue) (ids : ℕ)
      → pq.count ≡ 0
      → build_tree Q (suc fuel) (pq, ids) ≡ some (null, ids)
  unfolding build_tree pqueue_size
  build_tree-null fuel pq ids e = rw (dequeue_empty pq e, e)
