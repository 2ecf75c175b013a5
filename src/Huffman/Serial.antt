-- ===== src/Huffman/Serial.antt =====
-- tree.c, `tree_serialize` and `tree_deserialize`: a coding tree in front of the codes in a file.
pub mod Children
pub mod Records
pub mod Write
pub mod Read
pub mod Size
pub mod Rounds
pub mod RoundTrip
pub mod Nodes
use projects_in_c.Base.{
  ℕ, zero, suc, ◌+◌, ◌-◌, ◌%◌, List, [], ◌∷◌, ◌++◌, Option, none, some, Bool, true, false, ltb,
  ◌==◌, if◌then◌else◌, ◌>>=◌, drop, length, not, ◌||◌,
}
use projects_in_c.Base.Stdio.{File, fgetc, put_text}
use projects_in_c.Base.Decimal.{print_int, scan_int}
use projects_in_c.Huffman.Tree.{
  Tree, null, node, NodeType, internal, leaf, Frequency, is_null, tree_new,
}

-- The `int` of an enumeration's value. What is read back is compared with `LEAF` and never else, so
-- that any other value is as good as `INTERNAL`.
abbrev pub int_of_type : NodeType → ℕ
int_of_type internal = 0
int_of_type leaf = 1

abbrev pub type_of_int : ℕ → NodeType
type_of_int x = if x == 1 then leaf else internal

-- A `char` as an `int`, sign and all, and an `int` stored in a `char`.
abbrev pub int_of_char : ℕ → ℕ
int_of_char c = if ltb c 128 then c else 0xffffff00 + c

abbrev pub char_of_int : ℕ → ℕ
char_of_int x = x % 256

-- `t == NULL ? 0 : t->id`.
abbrev pub child_id : Tree → ℕ
child_id null = 0
child_id (node id _ _ _ _) = id

-- The values of a record; `left` and `right` are the ids of the children.
pub record Values : Type 0 where
  pub type : ℕ
  pub id : ℕ
  pub fval : ℕ
  pub fch : ℕ
  pub left : ℕ
  pub right : ℕ

-- "%d %d %d %d %d %d,".
unfoldable pub print_values : Values → List ℕ
print_values v =
    print_int v.type
    ++ b' '
      ∷ (print_int v.id
          ++ b' '
            ∷ (print_int v.fval
                ++ b' '
                  ∷ (print_int v.fch
                      ++ b' ' ∷ (print_int v.left ++ b' ' ∷ (print_int v.right ++ b',' ∷ [])))))

abbrev pub values_of : NodeType → ℕ → Frequency → Tree → Tree → Values
values_of type id freq left right = record {
  type = int_of_type type;
  id = id;
  fval = freq.v;
  fch = int_of_char freq.c;
  left = child_id left;
  right = child_id right;
}

-- `tree_serialize_rec`; a fault is a null `tree`. Whether the result is not negative, and the file.
unfoldable pub tree_serialize_rec : Tree → File → Option (Bool × File)
unfolding print_values
tree_serialize_rec null fp = none
tree_serialize_rec (node id leaf freq left right) fp =
    some (put_text (print_values (values_of leaf id freq left right)) fp)
tree_serialize_rec (node id internal freq left right) fp =
    (if is_null left then some (true, fp) else tree_serialize_rec left fp) >>= λ (done, fp₁).
    if not done
    then some (false, fp₁)
    else (if is_null right then some (true, fp₁) else tree_serialize_rec right fp₁)
      >>= λ (done', fp₂).
          if not done'
          then some (false, fp₂)
          else some (put_text (print_values (values_of internal id freq left right)) fp₂)

unfoldable pub tree_serialize : Tree → File → Option (Bool × File)
unfolding tree_serialize_rec
tree_serialize tree fp =
    let (done, fp₁) = put_text (b'#' ∷ []) fp in
    if not done
    then some (false, fp₁)
    else tree_serialize_rec tree fp₁ >>= λ (done', fp₂).
        if not done' then some (false, fp₂) else some (put_text (b'#' ∷ []) fp₂)

-- A literal ',' of a format: what does not fit it stays, and no value is missing for it.
abbrev pub skip_comma : List ℕ → List ℕ
skip_comma [] = []
skip_comma (c ∷ cs) = if c == b',' then cs else c ∷ cs

-- `fscanf` of a record: `none` is `EOF` or a result below 6.
unfoldable pub scan_values : List ℕ → Option (Values × List ℕ)
scan_values input = scan_int input >>= λ (type, i₁). scan_int i₁ >>= λ (id, i₂).
    scan_int i₂ >>= λ (fval, i₃). scan_int i₃ >>= λ (fch, i₄). scan_int i₄ >>= λ (left, i₅).
    scan_int i₅ >>= λ (right, i₆). some (
      record { type = type; id = id; fval = fval; fch = fch; left = left; right = right },
      skip_comma i₆,
    )

-- `p`, the node before the current one `c`: there is none, or the list that starts at `head` has it,
-- and then its `next` is `c`; or it has been taken out of that list.
pub data Prev : Type 0 where
  no_prev in_list taken_out : Prev

-- The loop over the list of nodes. The list from `head` on is `kept`, followed by the nodes from `c` on
-- without the first `gone` of them.
pub record ChildSearch : Type 0 where
  pub prev : Prev
  pub gone : ℕ
  pub kept : List Tree
  pub left : Tree
  pub right : Tree

-- "Adjust pointers to remove the child node": the new `gone`. A fault is a null `head`.
unfoldable pub unlink : Prev → ℕ → List Tree → Option ℕ
unlink no_prev gone cs = elim (drop gone cs) [ [] ↦ none | _ ∷ _ ↦ some (gone + 1) ]
unlink in_list gone cs = some 1
unlink taken_out gone cs = some gone

-- One `if` of the loop, at a node: the node is the child with that id, or the child stays.
unfoldable pub match_child : ℕ → Tree → List Tree → Prev → ℕ × Tree → Option (ℕ × Tree)
unfolding unlink
match_child wanted c cs prev (gone, child) =
    if child_id c == wanted
    then (unlink prev gone (c ∷ cs) >>= λ gone'. some (gone', c))
    else some (gone, child)

-- One round, at the node `c` with `cs` behind it.
unfoldable pub visit : ℕ → ℕ → Tree → List Tree → ChildSearch → Option ChildSearch
unfolding match_child
visit left right c cs s = match_child left c cs s.prev (s.gone, s.left) >>= λ (gone, l).
    match_child right c cs s.prev (gone, s.right) >>= λ (gone', r). some (
      if gone' == 0
      then record { prev = in_list; gone = 0; kept = s.kept ++ c ∷ []; left = l; right = r }
      else record { prev = taken_out; gone = gone' - 1; kept = s.kept; left = l; right = r })

unfoldable pub find_children : ℕ → ℕ → List Tree → ChildSearch → Option ChildSearch
unfolding visit
find_children left right [] s = some s
find_children left right (c ∷ cs) s = visit left right c cs s >>= find_children left right cs

-- The node of a record, in front of the list that its children have been searched in.
unfoldable pub add_node : Values → List Tree → Option (List Tree)
unfolding find_children
add_node v head =
    find_children v.left v.right head
      (record { prev = no_prev; gone = 0; kept = []; left = null; right = null })
    >>= λ s. some (
        node v.id (type_of_int v.type) (record { v = v.fval; c = char_of_int v.fch }) s.left s.right
        ∷ s.kept)

-- The delimiter check: whether the character is '#'; any other is pushed back, but -1, which is `EOF`,
-- cannot be.
unfoldable pub at_end : File → Bool × File
unfolding fgetc
at_end fp =
    let (delim, fp') = fgetc fp in
    elim delim [
      | none ↦ (false, fp')
      | some c ↦ (c == b'#', if c == b'#' || c == 255 then fp' else fp)
    ]

-- The rest of a round, behind `fscanf`: `none` inside is the result `NULL`, and otherwise there are
-- whether '#' has come, the list, and the file.
unfoldable pub use_values :
    Option (Values × List ℕ) → List Tree → File → Option (Option (Bool × List Tree × File))
use_values none head fp = some none
use_values (some (v, input)) head fp = add_node v head >>= λ head'.
    let (done, fp') = at_end (record fp { input = input }) in some (some (done, head', fp'))

-- One round of the main loop.
unfoldable pub read_record : List Tree → File → Option (Option (Bool × List Tree × File))
unfolding use_values
read_record head fp = use_values (scan_values fp.input) head fp

-- The main loop, with fuel for its rounds, and the counter `ids`: the list and the file at the end, or
-- `none` for `NULL`.
unfoldable pub read_records : ℕ → List Tree → ℕ → File → Option (Option (List Tree × File) × ℕ)
read_records zero head ids fp = none
read_records (suc fuel) head ids fp = read_record head fp >>= λ round. elim round [
  | none ↦ some (none, ids)
  | some (done, head', fp') ↦
      let more = read_records fuel head' (tree_new ids).1 fp' in
      if done then some (some (head', fp'), (tree_new ids).1) else more
]

-- The end: the `next` pointers are reset, which the trees do not show. A fault is a list of one node,
-- for which `p` stays null.
unfoldable pub reset_next : List Tree → Option Tree
reset_next [] = some null
reset_next (t ∷ []) = none
reset_next (t ∷ _ ∷ _) = some t

-- The tree and the file behind it, or `none` for `NULL`, and the counter `ids`. The loop makes a round
-- for each record, which is a character long at least.
unfoldable pub tree_deserialize : File → ℕ → Option (Option (Tree × File) × ℕ)
unfolding read_records reset_next
tree_deserialize fp ids =
    let (delim, fp₁) = fgetc fp in
    elim delim [
      | none ↦ some (none, ids)
      | some c ↦
          if not (c == b'#')
          then some (none, ids)
          else read_records (length fp₁.input + 1) [] ids fp₁ >>= λ (result, ids'). elim result [
            | none ↦ some (none, ids')
            | some (head, fp₂) ↦ reset_next head >>= λ root. some (some (root, fp₂), ids')
          ]
    ]
