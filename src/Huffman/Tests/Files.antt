-- ===== src/Huffman/Tests/Files.antt =====
-- The theorems about trees in files and about whole files at concrete inputs.
use mathlib.Core.List.{cons≢nil}
use projects_in_c.Base.{
  ℕ, ◌+◌, ◌≡◌, ◌≤◌, refl, List, [], ◌∷◌, ◌++◌, some, none, true, arith, length,
}
use projects_in_c.Base.Stdio.{File, open_read}
use projects_in_c.Huffman.Tree.{Tree, Frequency, null, node, internal, leaf, tree_size}
use projects_in_c.Huffman.Build.{huffman_build_tree}
use projects_in_c.Huffman.Build.Correct.{huffman_build_tree-IsTreeOf}
use projects_in_c.Huffman.Build.Numbers.{IsNumbered, huffman_build_tree-IsNumbered}
use projects_in_c.Huffman.Serial.{tree_serialize, tree_deserialize}
use projects_in_c.Huffman.Serial.Nodes.{id_count}
use projects_in_c.Huffman.Serial.Write.{tree_text}
use projects_in_c.Huffman.Serial.RoundTrip.{tree_deserialize-tree_serialize, tree_deserialize-leaf}
use projects_in_c.Huffman.Serial.Size.{length-tree_text}
use projects_in_c.Huffman.Coder.{huffc, huffd}
use projects_in_c.Huffman.Coder.Prepare.{CanPack}
use projects_in_c.Huffman.Coder.Files.{huffd-huffc}
use projects_in_c.Huffman.Coder.Fault.{huffc-eof_byte}
use projects_in_c.Huffman.Serial.{read_records}
use projects_in_c.Huffman.Serial.Rounds.{Ends, read_records-Ends}
use projects_in_c.Huffman.Tests.Sorting.{insertion}

abbrev leaf_of : ℕ → ℕ → ℕ → Tree
leaf_of id v c = node id leaf (record { v = v; c = c }) null null

-- Three characters, the last one a byte that is negative as a `char`.
abbrev left_part : Tree
left_part = leaf_of 1 4 97

abbrev right_part : Tree
right_part = node 4 internal (record { v = 3; c = 0 }) (leaf_of 2 1 98) (leaf_of 3 2 200)

abbrev whole : Frequency
whole = record { v = 7; c = 0 }

abbrev tree : Tree
tree = node 5 internal whole left_part right_part

abbrev large : File
large = record { input = []; output = []; room = 40000 }

tree-ids : (k : ℕ) → id_count k tree ≤ 1
tree-ids k = ground arith

tree-room : length (tree_text tree) ≤ 40000
unfolding tree_size
tree-room = omega (arith, length-tree_text tree)

tree_deserialize-tree_serialize_example :
    (w : File) × (tree_serialize tree large ≡ some (true, w))
    × (w.output ≡ tree_text tree)
    × (tree_deserialize (open_read (tree_text tree ++ 1 ∷ 2 ∷ [])) 1
        ≡ some (some (tree, open_read (1 ∷ 2 ∷ [])), 1 + tree_size tree))
tree_deserialize-tree_serialize_example =
    tree_deserialize-tree_serialize 5 whole left_part right_part large (open_read []) 1 (1 ∷ 2 ∷ [])
      (omega arith) (omega arith) tree-ids tree-room

leaf-room : length (tree_text (leaf_of 1 4 97)) ≤ 40000
unfolding tree_size
leaf-room = omega (arith, length-tree_text (leaf_of 1 4 97))

tree_deserialize-leaf_example :
    (w : File) × (tree_serialize (leaf_of 1 4 97) large ≡ some (true, w))
    × (w.output ≡ tree_text (leaf_of 1 4 97))
    × (tree_deserialize (open_read (tree_text (leaf_of 1 4 97) ++ 254 ∷ [])) 2 ≡ none)
tree_deserialize-leaf_example =
    tree_deserialize-leaf 1 (record { v = 4; c = 97 }) large (open_read []) 2 (254 ∷ [])
      (omega arith) leaf-room

-- The bytes of "aba".
abbrev aba : List ℕ
aba = 97 ∷ 98 ∷ 97 ∷ []

aba-CanPack : CanPack aba
aba-CanPack = record {
  bytes = omega arith;
  fine = (refl, (refl, (refl, tt)));
  one = 97;
  another = 98;
  other = omega arith;
  has_one = omega arith;
  has_another = omega arith;
  short = omega arith;
}

huffd-huffc_example :
    (packed restored : File) × (huffc insertion (some aba) large 1 ≡ some (0, packed))
    × (huffd 4 (some (open_read packed.output)) large 1 ≡ some (0, restored))
    × (restored.output ≡ aba)
huffd-huffc_example =
    huffd-huffc insertion aba large large 1 1 aba-CanPack (omega arith) (omega arith) refl
      (omega arith) (omega arith)

aba_tree :
    (root : Tree) × (ids : ℕ) × (huffman_build_tree insertion (some aba) 1 ≡ some (root, ids))
aba_tree =
    let (root, ids, built, _) =
      huffman_build_tree-IsTreeOf insertion aba 1 (omega arith) (omega arith) (λ e. cons≢nil e) in
    (root, ids, built)

huffman_build_tree-IsNumbered_example : IsNumbered 1 aba_tree.1 aba_tree.0
huffman_build_tree-IsNumbered_example =
    huffman_build_tree-IsNumbered insertion aba 1 (omega arith) (omega arith) aba_tree.0 aba_tree.1
      (omega arith) (omega arith) (λ e. cons≢nil e) aba_tree.2

-- No tree: the second record has no numbers.
abbrev broken : List ℕ
broken = 49 ∷ 32 ∷ 49 ∷ 32 ∷ 52 ∷ 32 ∷ 57 ∷ 55 ∷ 32 ∷ 48 ∷ 32 ∷ 48 ∷ 44 ∷ 120 ∷ []

read_records-Ends_example : Ends [] 1 (open_read broken) (read_records 100 [] 1 (open_read broken))
read_records-Ends_example = read_records-Ends 100 [] 1 (open_read broken) (omega arith)

huffc-eof_byte_example : huffc insertion (some (aba ++ 255 ∷ 7 ∷ [])) large 1 ≡ none
huffc-eof_byte_example =
    huffc-eof_byte insertion aba (7 ∷ []) large 1 (omega arith) (λ e. cons≢nil e)
      (refl, (refl, (refl, tt))) (omega arith) (omega arith) (omega arith) (omega arith)
