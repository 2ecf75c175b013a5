-- ===== src/Huffman/Serial/Children.antt =====
-- tree.c, the search for the children of a node that has been read: where the records come in the order
-- in which they are written, the right child is the first node of the list.
use projects_in_c.Base.{
  ℕ, ◌≡◌, ◌≢◌, refl, sym, ap, ◌∙◌, List, [], ◌∷◌, ◌++◌, some, true, false, ◌==◌, if◌then◌else◌,
  arith, append_assoc, append-nil, ◌>>=◌,
}
use projects_in_c.Base.Sums.{sum_by}
use projects_in_c.Huffman.Tree.{Tree, null}
use projects_in_c.Huffman.Serial.{
  child_id, ChildSearch, Prev, no_prev, in_list, taken_out, unlink, match_child, visit,
  find_children,
}

-- One for a node with the id `k`.
abbrev pub has_id : ℕ → Tree → ℕ
has_id k t = if child_id t == k then 1 else 0

-- How many nodes of the list have the id.
abbrev pub heads : ℕ → List Tree → ℕ
heads k = sum_by (has_id k)

-- The state of the search after nodes that are no children.
abbrev passed : List Tree → ChildSearch → ChildSearch
passed [] s = s
passed (c ∷ cs) s =
    passed cs
      (record { prev = in_list; gone = 0; kept = s.kept ++ c ∷ []; left = s.left; right = s.right })

passed_form :
    (x : Tree) (cs : List Tree) (s : ChildSearch)
    → passed (x ∷ cs) s
      ≡ record { prev = in_list; gone = 0; kept = s.kept ++ x ∷ cs; left = s.left; right = s.right }
passed_form x [] s = refl
passed_form x (c ∷ cs) s =
    passed_form c cs (passed (x ∷ []) s)
    ∙ ap (λ k. record { prev = in_list; gone = 0; kept = k; left = s.left; right = s.right })
        (append_assoc s.kept (x ∷ []) (c ∷ cs))

passed-kept : (cs : List Tree) (s : ChildSearch) → (passed cs s).kept ≡ s.kept ++ cs
passed-kept [] s = sym (append-nil s.kept)
passed-kept (c ∷ cs) s = passed-kept cs _ ∙ append_assoc s.kept (c ∷ []) cs

passed-left : (cs : List Tree) (s : ChildSearch) → (passed cs s).left ≡ s.left
passed-left [] s = refl
passed-left (c ∷ cs) s = passed-left cs _

passed-right : (cs : List Tree) (s : ChildSearch) → (passed cs s).right ≡ s.right
passed-right [] s = refl
passed-right (c ∷ cs) s = passed-right cs _

module _ (left right : ℕ) where
  visit_other :
      (c : Tree) (cs : List Tree) (s : ChildSearch)
      → has_id left c ≡ 0
      → has_id right c ≡ 0
      → s.gone ≡ 0
      → visit left right c cs s ≡ some (passed (c ∷ []) s)
  unfolding visit match_child
  visit_other c cs s hl hr here = ground arith

  find_children-append :
      (cs ds : List Tree) (s : ChildSearch)
      → heads left cs ≡ 0
      → heads right cs ≡ 0
      → s.gone ≡ 0
      → find_children left right (cs ++ ds) s ≡ find_children left right ds (passed cs s)
  unfolding find_children
  find_children-append [] ds s hl hr here = refl
  find_children-append (c ∷ cs) ds s hl hr here =
      rw (visit_other c (cs ++ ds) s (omega arith) (omega arith) here)
        (find_children-append cs ds _ (omega arith) (omega arith) refl)

  find_children-passed :
      (cs : List Tree) (s : ChildSearch)
      → heads left cs ≡ 0
      → heads right cs ≡ 0
      → s.gone ≡ 0
      → find_children left right cs s ≡ some (passed cs s)
  find_children-passed cs s hl hr here =
      ap (λ xs. find_children left right xs s) (sym (append-nil cs))
      ∙ find_children-append cs [] s hl hr here
      ∙ unfold find_children in refl

-- The left child stays in the list where no other node stands between it and the right child.
abbrev pub left_over : List Tree → Tree → List Tree
left_over [] l = l ∷ []
left_over (_ ∷ _) l = []

abbrev pub search_start : ChildSearch
search_start = record { prev = no_prev; gone = 0; kept = []; left = null; right = null }

module _ (l r : Tree) (other : child_id l ≢ child_id r) where
  found_right : ChildSearch
  found_right = record { prev = taken_out; gone = 0; kept = []; left = null; right = r }

  visit_right :
      (cs : List Tree) → visit (child_id l) (child_id r) r cs search_start ≡ some found_right
  unfolding visit match_child unlink found_right
  visit_right cs =
      let no_left : (child_id r == child_id l) ≡ false = ground arith in
      let same : (child_id r == child_id r) ≡ true = ground arith in rw (no_left, same)

  same_left : (child_id l == child_id l) ≡ true
  same_left = ground arith

  no_right : (child_id l == child_id r) ≡ false
  no_right = ground arith

  -- The right child, which stood in front of the left one, is out of the list: so the left one stays.
  visit_left_stays :
      (cs : List Tree)
      → visit (child_id l) (child_id r) l cs found_right
        ≡ some (record { prev = in_list; gone = 0; kept = l ∷ []; left = l; right = r })
  unfolding visit match_child unlink found_right
  visit_left_stays cs = rw (same_left, no_right)

  -- A node of the list stands in front of the left child, which is taken out.
  visit_left_goes :
      (cs kept : List Tree)
      → visit
          (child_id l)
          (child_id r)
          l
          cs
          (record { prev = in_list; gone = 0; kept = kept; left = null; right = r })
        ≡ some (record { prev = taken_out; gone = 0; kept = kept; left = l; right = r })
  unfolding visit match_child unlink
  visit_left_goes cs kept = rw (same_left, no_right)

  -- What is found in a list that starts with the right child and holds the left one further on.
  pub record Found (front back : List Tree) (s : ChildSearch) : Type 0 where
    pub left_eq : s.left ≡ l
    pub right_eq : s.right ≡ r
    pub kept_eq : s.kept ≡ front ++ (left_over front l ++ back)

  passed-Found :
      (front back cs kept : List Tree) (prev : Prev)
      → kept ++ cs ≡ front ++ (left_over front l ++ back)
      → Found front back
          (passed cs (record { prev = prev; gone = 0; kept = kept; left = l; right = r }))
  passed-Found front back cs kept prev e = record {
    left_eq = passed-left cs _;
    right_eq = passed-right cs _;
    kept_eq = passed-kept cs _ ∙ e;
  }

  find_behind :
      (front back : List Tree)
      → heads (child_id l) front ≡ 0
      → heads (child_id r) front ≡ 0
      → heads (child_id l) back ≡ 0
      → heads (child_id r) back ≡ 0
      → (s : ChildSearch) × (find_children
            (child_id l)
            (child_id r)
            (front ++ (l ∷ back))
            found_right
          ≡ some s)
        × Found front back s
  unfolding find_children found_right
  find_behind [] back fl fr bl br = (
    passed back (record { prev = in_list; gone = 0; kept = l ∷ []; left = l; right = r }),
    rw (visit_left_stays back) (find_children-passed (child_id l) (child_id r) back _ bl br refl),
    passed-Found [] back back (l ∷ []) in_list refl,
  )
  find_behind (x ∷ xs) back fl fr bl br = (
    passed back (record { prev = taken_out; gone = 0; kept = x ∷ xs; left = l; right = r }),
    find_children-append (child_id l) (child_id r) (x ∷ xs) (l ∷ back) found_right fl fr refl
        ∙ rw (passed_form x xs found_right) (
            ap (λ o. o >>= find_children (child_id l) (child_id r) back)
              (visit_left_goes back (x ∷ xs))
            ∙ find_children-passed (child_id l) (child_id r) back _ bl br refl),
    passed-Found (x ∷ xs) back back (x ∷ xs) taken_out refl,
  )

  -- The search finds both children and leaves the other nodes in the list.
  pub find_children_lem :
      (front back : List Tree)
      → heads (child_id l) front ≡ 0
      → heads (child_id r) front ≡ 0
      → heads (child_id l) back ≡ 0
      → heads (child_id r) back ≡ 0
      → (s : ChildSearch) × (find_children
            (child_id l)
            (child_id r)
            (r ∷ (front ++ (l ∷ back)))
            search_start
          ≡ some s)
        × Found front back s
  unfolding find_children
  find_children_lem front back fl fr bl br =
      rw (visit_right (front ++ (l ∷ back))) (find_behind front back fl fr bl br)

-- Where no node is a child, the list stays as it is.
pub find_children-none :
    (hs : List Tree) (left right : ℕ)
    → heads left hs ≡ 0
    → heads right hs ≡ 0
    → (s : ChildSearch) × (find_children left right hs search_start ≡ some s)
      × (s.kept ≡ hs)
      × (s.left ≡ null)
      × (s.right ≡ null)
find_children-none hs left right hl hr = (
  passed hs search_start,
  find_children-passed left right hs search_start hl hr refl,
  passed-kept hs search_start,
  passed-left hs search_start,
  passed-right hs search_start,
)
