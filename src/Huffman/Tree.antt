-- ===== src/Huffman/Tree.antt =====
-- tree.h and tree.c: the nodes of the coding tree. A pointer to a node is the tree below it, and
-- the null pointer is a tree of its own; no two nodes of a tree share a child. A `char` is its
-- byte, 0 to 255.
pub mod Shape
use projects_in_c.Base.{ℕ, suc, ◌+◌, Bool, true, false}

-- `v` is an `int`: its bit pattern.
pub record Frequency : Type 0 where
  pub v : ℕ
  pub c : ℕ

pub data NodeType : Type 0 where
  internal leaf : NodeType

-- `TreeNode *`: the field `next` is used by the deserializer alone.
pub data Tree : Type 0 where
  null : Tree
  node : (id : ℕ) (type : NodeType) (freq : Frequency) (left right : Tree) → Tree

-- `tree_new`: a fresh node, and the counter `ids` after it.
unfoldable pub tree_new : ℕ → Tree × ℕ
tree_new ids = (node ids internal (record { v = 0; c = 0 }) null null, ids + 1)

unfoldable pub tree_size : Tree → ℕ
tree_size null = 0
tree_size (node _ _ _ left right) = tree_size left + tree_size right + 1

-- `->freq.v` of a node; the null pointer counts for nothing here.
abbrev pub freq_v : Tree → ℕ
freq_v null = 0
freq_v (node _ _ freq _ _) = freq.v

abbrev pub freq_c : Tree → ℕ
freq_c null = 0
freq_c (node _ _ freq _ _) = freq.c

abbrev pub is_null : Tree → Bool
is_null null = true
is_null (node _ _ _ _ _) = false
