-- ===== src/Huffman/Codes.antt =====
-- From the input file to the codes: `huffman_build_tree` and then `table_build`.
use projects_in_c.Base.{ℕ, ◌<◌, ◌≡◌, ◌≢◌, List, [], some, length, arith}
use projects_in_c.Base.Words.{int_sign}
use projects_in_c.Huffman.Tree.{Tree}
use projects_in_c.Huffman.Tree.Shape.{leaf_v-occurs}
use projects_in_c.Huffman.Pqueue.{Qsort}
use projects_in_c.Huffman.Build.{huffman_build_tree, huffman_find}
use projects_in_c.Huffman.Build.Freq.{readable, count, Bytes}
use projects_in_c.Huffman.Build.Correct.{huffman_build_tree-IsTreeOf}
use projects_in_c.Huffman.Table.{EncodeTable, table_build, table_bit_encode}
use projects_in_c.Huffman.Table.Codes.{IsCode, table_build-IsTableOf}

-- For a file of bytes whose first byte is not 255, with fewer than 2^31 bytes in front of the first
-- byte 255: the tree and then the table are built without a
-- fault, and every character that occurs in front of the first byte 255 has a code of '0' and '1'
-- that leads from the root of the tree back to the character.
pub huffman_codes :
    (Q : Qsort) (file : List ℕ) (ids : ℕ)
    → Bytes file
    → length (readable file) < int_sign
    → readable file ≢ []
    → (root : Tree) × (ids' : ℕ) × (etab : EncodeTable) × (huffman_build_tree Q (some file) ids
        ≡ some (root, ids'))
      × (table_build root ≡ some etab)
      × ((c : ℕ)
          → 0 < count c (readable file)
          → (code : List ℕ) × (table_bit_encode etab c ≡ some code)
            × IsCode code
            × (huffman_find root code ≡ some (some c)))
huffman_codes Q file ids b short ne =
    let (root, ids', built, t) = huffman_build_tree-IsTreeOf Q file ids b short ne in
    let (etab, made, codes) = table_build-IsTableOf root t.shape t.below in
    (
      root,
      ids',
      etab,
      built,
      made,
      λ c some_c. codes.codes c (leaf_v-occurs c root (omega (arith, some_c, t.chars c))),
    )
