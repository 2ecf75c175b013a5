-- ===== src/Huffman/Serial/Nodes.antt =====
-- tree.c, `tree_deserialize`: what the list of nodes holds as the records of a tree are read, the
-- children in front of their parent.
use projects_in_c.Base.{
  ℕ, ◌+◌, ◌<◌, ◌≤◌, ◌≡◌, ◌≢◌, List, [], ◌∷◌, ◌++◌, some, ◌==◌, if◌then◌else◌, arith,
}
use projects_in_c.Base.Words.{word, int_sign}
use projects_in_c.Base.Sums.{sum_by-append}
use projects_in_c.Huffman.Tree.{Tree, null, node, NodeType, internal, leaf, Frequency}
use projects_in_c.Huffman.Tree.Shape.{IsCoding}
use projects_in_c.Huffman.Serial.{
  child_id, values_of, add_node, int_of_char, int_of_type, char_of_int,
}
use projects_in_c.Huffman.Serial.Children.{
  has_id, heads, left_over, find_children_lem, find_children-none,
}
use projects_in_c.Huffman.Serial.Records.{AreInts}

-- Every number of the tree is an `int` of its range: ids are positive, and characters are bytes.
abbrev pub Fits : Tree → Type 0
Fits null = Unit
Fits (node id _ freq left right) =
    (0 < id) × (id < int_sign) × (freq.v < int_sign) × (freq.c < 256) × Fits left × Fits right

-- How many nodes of a tree have the id.
abbrev pub id_count : ℕ → Tree → ℕ
id_count k null = 0
id_count k (node id _ _ left right) =
    (if id == k then 1 else 0) + (id_count k left + id_count k right)

-- No two nodes have one id.
abbrev pub IdsDiffer : Tree → Type 0
IdsDiffer t = (k : ℕ) → id_count k t ≤ 1

-- The nodes that stay in the list although they have become children: the left children of nodes whose
-- right child is a leaf.
abbrev pub garbage : Tree → List Tree
garbage null = []
garbage (node _ leaf _ _ _) = []
garbage (node _ internal _ left right) =
    garbage right ++ (left_over (garbage right) left ++ garbage left)

heads-left_over : (k : ℕ) (xs : List Tree) (l : Tree) → heads k (left_over xs l) ≤ has_id k l
heads-left_over k [] l = omega arith
heads-left_over k (x ∷ xs) l = omega arith

-- They are nodes of the tree below its root.
pub heads-garbage :
    (k : ℕ) (t : Tree) → IsCoding t → heads k (garbage t) + has_id k t ≤ id_count k t
heads-garbage k null h = absurd h
heads-garbage k (node id leaf f null null) h = omega arith
heads-garbage k (node id leaf f null (node _ _ _ _ _)) h = absurd h
heads-garbage k (node id leaf f (node _ _ _ _ _) _) h = absurd h
heads-garbage k (node id internal f l r) (cl, cr, sum) = omega (
  arith,
  heads-garbage k l cl,
  heads-garbage k r cr,
  heads-left_over k (garbage r) l,
  sum_by-append (has_id k) (garbage r) (left_over (garbage r) l ++ garbage l),
  sum_by-append (has_id k) (left_over (garbage r) l) (garbage l),
)

has_id_self : (t : Tree) → has_id (child_id t) t ≡ 1
has_id_self t = ground arith

same_char : (c : ℕ) → c < 256 → char_of_int (int_of_char c) ≡ c
same_char c h = ground arith

child_id-Fits : (t : Tree) → Fits t → child_id t < word
child_id-Fits null h = omega arith
child_id-Fits (node _ _ _ _ _) h = omega arith

int_of_type-lt : (type : NodeType) → int_of_type type < word
int_of_type-lt internal = omega arith
int_of_type-lt leaf = omega arith

pub values_of-AreInts :
    (id : ℕ) (type : NodeType) (f : Frequency) (l r : Tree)
    → Fits (node id type f l r)
    → AreInts (values_of type id f l r)
values_of-AreInts id type f l r h = record {
  type = int_of_type-lt type;
  id = omega arith;
  fval = omega arith;
  fch = ground arith;
  left = child_id-Fits l h.4;
  right = child_id-Fits r h.5;
}

-- No node of the list has an id of the tree, or the id 0.
pub record Apart (t : Tree) (hs : List Tree) : Type 0 where
  pub ids : (k : ℕ) → 0 < id_count k t → heads k hs ≡ 0
  pub no_zero : heads 0 hs ≡ 0

same_node :
    (id : ℕ) (type : NodeType) (f : Frequency) (l r l' r' : Tree) (kept kept' : List Tree)
    → f.c < 256
    → l' ≡ l
    → r' ≡ r
    → kept' ≡ kept
    → some (node id type (record { v = f.v; c = char_of_int (int_of_char f.c) }) l' r' ∷ kept')
      ≡ some (node id type f l r ∷ kept)
same_node id type f l r l' r' kept kept' small el er ek = rw (same_char f.c small, el, er, ek)

-- A leaf that is read goes in front of the list.
pub add_leaf :
    (id : ℕ) (f : Frequency) (hs : List Tree)
    → f.c < 256
    → heads 0 hs ≡ 0
    → add_node (values_of leaf id f null null) hs ≡ some (node id leaf f null null ∷ hs)
unfolding add_node
add_leaf id f hs small apart =
    let (s, found, kept, left, right) = find_children-none hs 0 0 apart apart in
    rw found (same_node id leaf f null null s.left s.right hs s.kept small left right kept)

-- The roots of the children have other ids than all nodes that stay in the list.
pub record Siblings (l r : Tree) (back : List Tree) : Type 0 where
  pub other : child_id l ≢ child_id r
  pub front_left : heads (child_id l) (garbage r) ≡ 0
  pub front_right : heads (child_id r) (garbage r) ≡ 0
  pub back_left : heads (child_id l) back ≡ 0
  pub back_right : heads (child_id r) back ≡ 0

-- An inner node that is read behind its subtrees gets them as its children.
pub add_internal :
    (id : ℕ) (f : Frequency) (l r : Tree) (back : List Tree)
    → f.c < 256
    → Siblings l r back
    → add_node (values_of internal id f l r) (r ∷ (garbage r ++ (l ∷ back)))
      ≡ some (node id internal f l r ∷ (garbage r ++ (left_over (garbage r) l ++ back)))
unfolding add_node
add_internal id f l r back small d =
    let (s, found, which) =
      find_children_lem l r d.other (garbage r) back d.front_left d.front_right d.back_left
        d.back_right in
    rw found (
      same_node id internal f l r s.left s.right _ s.kept small which.left_eq which.right_eq
        which.kept_eq)

id_count-child_id : (t : Tree) → IsCoding t → 0 < id_count (child_id t) t
id_count-child_id t h = omega (arith, heads-garbage (child_id t) t h, has_id_self t)

-- The ids of a node's subtrees are apart.
pub IdsDiffer-Siblings :
    (id : ℕ) (f : Frequency) (l r : Tree) (hs : List Tree)
    → IsCoding l
    → IsCoding r
    → IdsDiffer (node id internal f l r)
    → Apart (node id internal f l r) hs
    → Siblings l r (garbage l ++ hs)
IdsDiffer-Siblings id f l r hs cl cr differ apart =
    let left = id_count-child_id l cl in
    let right = id_count-child_id r cr in
    record {
      other = λ e. absurd (omega (arith, differ (child_id l), left, (rw (← e) at right)));
      front_left = omega (arith, differ (child_id l), left, heads-garbage (child_id l) r cr);
      front_right =
          omega (arith, differ (child_id r), heads-garbage (child_id r) r cr, has_id_self r);
      back_left = omega (
        arith,
        differ (child_id l),
        left,
        heads-garbage (child_id l) l cl,
        has_id_self l,
        sum_by-append (has_id (child_id l)) (garbage l) hs,
        apart.ids (child_id l) (omega (arith, left)),
      );
      back_right = omega (
        arith,
        differ (child_id r),
        right,
        heads-garbage (child_id r) l cl,
        sum_by-append (has_id (child_id r)) (garbage l) hs,
        apart.ids (child_id r) (omega (arith, right)),
      );
    }
