-- ===== src/Huffman/Serial/RoundTrip.antt =====
-- tree.c: a tree that `tree_serialize` has written is read back by `tree_deserialize`.
use projects_in_c.Base.{
  ℕ, ◌+◌, ◌-◌, ◌≤◌, ◌≡◌, refl, ap, ◌∙◌, List, [], ◌∷◌, ◌++◌, none, some, true, arith, append_assoc,
  length, length-append, ◌>>=◌,
}
use projects_in_c.Base.Stdio.{File, fgetc}
use projects_in_c.Huffman.Tree.{Tree, null, node, internal, leaf, tree_size, Frequency}
use projects_in_c.Huffman.Tree.Shape.{IsCoding}
use projects_in_c.Huffman.Serial.{
  values_of, print_values, read_records, reset_next, tree_serialize, tree_deserialize,
}
use projects_in_c.Huffman.Serial.Children.{left_over}
use projects_in_c.Huffman.Serial.Write.{text_of, tree_text, wrote, tree_serialize_lem}
use projects_in_c.Huffman.Serial.Nodes.{Fits, IdsDiffer, garbage, Apart}
use projects_in_c.Huffman.Serial.Read.{at, next, read_tree, print_values-starts}

text_of-size : (t : Tree) → IsCoding t → tree_size t ≤ length (text_of t)
unfolding tree_size
text_of-size null h = absurd h
text_of-size (node id leaf f null null) h =
    let (d, ds, e, _, _) = print_values-starts (values_of leaf id f null null) in
    omega (arith, ap length e)
text_of-size (node id leaf f null (node _ _ _ _ _)) h = absurd h
text_of-size (node id leaf f (node _ _ _ _ _) _) h = absurd h
text_of-size (node id internal f l r) (cl, cr, sum) =
    let own : List ℕ = print_values (values_of internal id f l r) in
    let (d, ds, e, _, _) = print_values-starts (values_of internal id f l r) in
    omega (
      arith,
      text_of-size l cl,
      text_of-size r cr,
      ap length e,
      length-append (text_of l) (text_of r ++ own),
      length-append (text_of r) own,
    )

some_stay :
    (gs gl : List Tree) (l : Tree)
    → (x : Tree) × (xs : List Tree) × (gs ++ (left_over gs l ++ gl) ≡ x ∷ xs)
some_stay [] gl l = (l, gl, refl)
some_stay (x ∷ xs) gl l = (x, xs ++ gl, refl)

module _ (fp : File) where
  -- The whole text of a tree gives it as the first node of the list.
  read_text :
      (t : Tree) (ids : ℕ) (rest : List ℕ)
      → IsCoding t
      → Fits t
      → IdsDiffer t
      → read_records
          (length (text_of t ++ (b'#' ∷ rest)) + 1)
          []
          ids
          (at fp (text_of t ++ (b'#' ∷ rest)))
        ≡ some (some (t ∷ (garbage t ++ []), at fp rest), ids + tree_size t)
  unfolding next
  read_text t ids rest coding fits differ =
      let input : List ℕ = text_of t ++ (b'#' ∷ rest) in
      let apart : Apart t [] = record { ids = λ k h. refl; no_zero = refl } in
      let rounds : length input + 1 ≡ tree_size t + (length input + 1 - tree_size t) =
        omega (arith, text_of-size t coding, length-append (text_of t) (b'#' ∷ rest)) in
      ap (λ n. read_records n [] ids (at fp input)) rounds
      ∙ read_tree fp t [] ids b'#' (length input + 1 - tree_size t) rest coding fits differ apart
          (omega arith)

  deserialize_text :
      (t : Tree) (ids : ℕ) (rest : List ℕ)
      → IsCoding t
      → Fits t
      → IdsDiffer t
      → tree_deserialize (at fp (tree_text t ++ rest)) ids ≡ (
          reset_next (t ∷ (garbage t ++ [])) >>= λ root.
          some (some (root, at fp rest), ids + tree_size t))
  unfolding tree_deserialize fgetc
  deserialize_text t ids rest coding fits differ =
      ap (λ cs. tree_deserialize (at fp (b'#' ∷ cs)) ids)
        (append_assoc (text_of t) (b'#' ∷ []) rest)
      ∙ rw (read_text t ids rest coding fits differ)

-- A coding tree whose root is an inner node, whose ids differ and are positive, and whose ids and
-- frequencies fit an `int` and characters a byte, is written to a file with room for its text: the
-- records of its nodes, the children in front of their parent, between two '#'. From a file that has
-- this text in front, `tree_deserialize` gives the same tree, and leaves what stands behind the text.
pub tree_deserialize-tree_serialize :
    (id : ℕ) (f : Frequency) (l r : Tree) (fp back : File) (ids : ℕ) (rest : List ℕ)
    → IsCoding (node id internal f l r)
    → Fits (node id internal f l r)
    → IdsDiffer (node id internal f l r)
    → length (tree_text (node id internal f l r)) ≤ fp.room
    → (w : File) × (tree_serialize (node id internal f l r) fp ≡ some (true, w))
      × (w.output ≡ fp.output ++ tree_text (node id internal f l r))
      × (tree_deserialize (record back { input = tree_text (node id internal f l r) ++ rest }) ids
          ≡ some (
            some (node id internal f l r, record back { input = rest }),
            ids + tree_size (node id internal f l r),
          ))
unfolding reset_next
tree_deserialize-tree_serialize id f l r fp back ids rest coding fits differ room =
    let t : Tree = node id internal f l r in
    let (x, xs, e) = some_stay (garbage r) (garbage l) l in
    let list : garbage t ++ [] ≡ x ∷ (xs ++ []) = ap (λ (gs : List Tree). gs ++ []) e in
    (
      wrote (tree_text t) fp,
      tree_serialize_lem t fp coding room,
      refl,
      deserialize_text back t ids rest coding fits differ ∙ rw list,
    )

-- A tree that is a single leaf, which is what a file of one character repeated gets, is written, but
-- reading what was written is a fault, whatever stands behind it.
pub tree_deserialize-leaf :
    (id : ℕ) (f : Frequency) (fp back : File) (ids : ℕ) (rest : List ℕ)
    → Fits (node id leaf f null null)
    → length (tree_text (node id leaf f null null)) ≤ fp.room
    → (w : File) × (tree_serialize (node id leaf f null null) fp ≡ some (true, w))
      × (w.output ≡ fp.output ++ tree_text (node id leaf f null null))
      × (tree_deserialize (record back { input = tree_text (node id leaf f null null) ++ rest }) ids
          ≡ none)
unfolding reset_next
tree_deserialize-leaf id f fp back ids rest fits room =
    let t : Tree = node id leaf f null null in
    (
      wrote (tree_text t) fp,
      tree_serialize_lem t fp tt room,
      refl,
      deserialize_text back t ids rest tt fits (λ k. ground arith),
    )
