-- ===== src/Cache/Lru/Refine.antt =====
-- lru.c, `lru_init_queue` and `lru_fetch`: a set is a bounded list of tags, the most recent first.
use projects_in_c.Base.{
  ℕ, zero, suc, ◌+◌, ◌≤◌, ◌<◌, ◌≡◌, ◌≢◌, refl, sym, ap, ◌∙◌, List, [], ◌∷◌, some, get_elem?, length,
  arith, ◌==◌, ==_iff, Bool-cases, inl, inr,
}
use projects_in_c.Base.Sums.{sum_by}
use projects_in_c.Base.Words.{IsNat, rounds_to_nat}
use projects_in_c.Cache.Lru.{
  AccessResult, Line, LineSet, Found, lru_fetch, queue_from, lru_init_queue,
}
use projects_in_c.Cache.Lru.Spec.{evict, use_tag}
use projects_in_c.Cache.Lru.Walk.{IsView, IsFree, AreDistinct, is, Walked, walk-Walked}

-- The set `s` of `n` lines, each of `size` bytes, holds the tags `ts`.
pub record Represents (n size : ℕ) (s : LineSet) (ts : List ℕ) : Type 0 where
  pub view : IsView s.lines s.lru_queue ts
  pub distinct : AreDistinct s.lru_queue
  pub queued : length s.lru_queue ≡ n
  pub blocks : (i : ℕ) (line : Line) → get_elem? s.lines i ≡ some line → length line.accessed ≡ size

length-sum : (q : List ℕ) → length q ≡ sum_by (λ (j : ℕ). 1) q
length-sum [] = refl
length-sum (i ∷ q) = omega (arith, length-sum q)

-- What a fetch of the tag `t` does to the set: its line at `i` is then in front and holds `t`.
pub record Fetched (n size : ℕ) (s : LineSet) (ts : List ℕ) (t : ℕ) (s' : LineSet) (i : ℕ)
    (r : AccessResult) : Type 0 where
  pub represents : Represents n size s' (use_tag n ts t).0
  pub access : r ≡ (use_tag n ts t).1
  pub line : Line
  pub before : get_elem? s.lines i ≡ some line
  pub after : get_elem? s'.lines i ≡ some (record line { valid = 1; tag = t })
  pub off : (j : ℕ) → j ≢ i → get_elem? s'.lines j ≡ get_elem? s.lines j

module _ (n size : ℕ) (s : LineSet) (ts : List ℕ) (t : ℕ) where
  block_sizes :
      (f : Found)
      → Represents n size s ts
      → Walked s.lines s.lru_queue ts t f
      → (i : ℕ) (line : Line) → get_elem? f.lines i ≡ some line
      → length line.accessed ≡ size
  block_sizes f p r i line e = elim (Bool-cases (i == f.at)) [
    | inl here ↦
        let same : get_elem? f.lines i ≡ some (record r.line { valid = 1; tag = t }) =
          rw ((==_iff i f.at).0 here) r.after in
        let l : line ≡ record r.line { valid = 1; tag = t } = cc in
        rw l (p.blocks f.at r.line r.before)
    | inr there ↦ p.blocks i line (sym (r.off i (λ eq. ground (arith, eq))) ∙ e)
  ]

  Walked-Represents :
      (f : Found)
      → Represents n size s ts
      → Walked s.lines s.lru_queue ts t f
      → Represents n size
          (record s { lines = f.lines; lru_queue = f.at ∷ f.others })
          (use_tag n ts t).0
  unfolding use_tag AreDistinct
  Walked-Represents f p r = record {
    view = ((record r.line { valid = 1; tag = t }, r.after, refl, refl), rw (← p.queued) r.rest);
    distinct = λ i. omega (arith, p.distinct i, r.same (is i));
    queued =
        omega (arith, p.queued, length-sum s.lru_queue, length-sum f.others, r.same (λ (j : ℕ). 1));
    blocks = block_sizes f p r;
  }

  -- A fetch from a set that has lines never faults. It finds what the bounded list of tags tells: a
  -- hit where the list holds the tag, a cold miss where it is not full and a conflict where it is,
  -- which drops the tag used longest ago. The set then stands for the list with the tag in front,
  -- and no line but the one found has changed.
  pub lru_fetch_lem :
      Represents n size s ts
      → 0 < n
      → (s' : LineSet) × (i : ℕ) × (r : AccessResult) × (lru_fetch s t ≡ some (s', i, r))
        × Fetched n size s ts t s' i r
  unfolding lru_fetch use_tag
  lru_fetch_lem p h =
      let (f, e, r) =
        walk-Walked s.lines t s.lru_queue ts p.view p.distinct (omega (arith, p.queued)) in
      (
        record s { lines = f.lines; lru_queue = f.at ∷ f.others },
        f.at,
        f.access,
        rw e,
        record {
          represents = Walked-Represents f p r;
          access = r.access ∙ ap (λ (m : ℕ). (evict m ts t).1) p.queued;
          line = r.line;
          before = r.before;
          after = r.after;
          off = r.off;
        },
      )

module _ (lines : List Line) where
  IsView-queue_from :
      (i n : ℕ) → ((j : ℕ) → i ≤ j → j < i + n → IsFree lines j) → IsView lines (queue_from i n) []
  unfolding queue_from
  IsView-queue_from i zero h = tt
  IsView-queue_from i (suc n) h = (
    h i (omega arith) (omega arith),
    IsView-queue_from (i + 1) n (λ j lo hi. h j (omega arith) (omega arith)),
  )

queue_from-below : (k i n : ℕ) → k < i → sum_by (is k) (queue_from i n) ≡ 0
unfolding queue_from
queue_from-below k i zero h = refl
queue_from-below k i (suc n) h = ground (arith, queue_from-below k (i + 1) n (omega arith))

queue_from-AreDistinct : (i n : ℕ) → AreDistinct (queue_from i n)
unfolding AreDistinct queue_from
queue_from-AreDistinct i zero = λ k. omega arith
queue_from-AreDistinct i (suc n) = λ k. elim (Bool-cases (k == i)) [
  | inl here ↦ ground (arith, queue_from-below k (i + 1) n (ground arith))
  | inr there ↦ ground (arith, queue_from-AreDistinct (i + 1) n k)
]

length-queue_from : (i n : ℕ) → length (queue_from i n) ≡ n
unfolding queue_from
length-queue_from i zero = refl
length-queue_from i (suc n) = ap suc (length-queue_from (i + 1) n)

-- The queue that `lru_init_queue` makes for a set whose lines are all empty and have blocks of
-- `size` bytes stands for no tags, whatever the set's queue was.
pub lru_init_queue-Represents :
    (s : LineSet) (size : ℕ)
    → IsNat s.line_count
    → ((j : ℕ) → j < s.line_count → IsFree s.lines j)
    → ((j : ℕ) (line : Line) → get_elem? s.lines j ≡ some line → length line.accessed ≡ size)
    → Represents s.line_count size (lru_init_queue s) []
unfolding lru_init_queue
lru_init_queue-Represents s size nat free blocks = rw (rounds_to_nat s.line_count nat) (record {
  view = IsView-queue_from s.lines 0 s.line_count (λ j lo hi. free j (omega arith));
  distinct = queue_from-AreDistinct 0 s.line_count;
  queued = length-queue_from 0 s.line_count;
  blocks = blocks;
})
