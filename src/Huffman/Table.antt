-- ===== src/Huffman/Table.antt =====
-- table.h and table.c: the codes of the characters, read off the coding tree. A C string is the
-- list of its characters in front of the terminator; memory that is freed is not modelled.
pub mod Codes
use projects_in_c.Base.{
  ℕ, zero, suc, ◌+◌, List, [], ◌∷◌, ◌++◌, Option, none, some, ltb, if◌then◌else◌, ◌>>=◌, set, take,
  get_elem?, replicate,
}
use projects_in_c.Huffman.Tree.{Tree, null, node, internal, leaf, Frequency, is_null}

abbrev pub number_of_chars : ℕ
number_of_chars = 256

pub record BitArray : Type 0 where
  pub len : ℕ
  pub bits : List ℕ

unfoldable pub bit_array_new : BitArray
bit_array_new = record { len = 0; bits = [] }

-- A fault is a failed assertion: the argument is no bit.
unfoldable pub bit_array_new_with : BitArray → ℕ → Option BitArray
bit_array_new_with b bit =
    if ltb bit 2
    then some (record { len = b.len + 1; bits = take b.len b.bits ++ (b'0' + bit) ∷ [] })
    else none

-- `EncodeTable`: a null entry is a character with no code.
abbrev pub EncodeTable : Type 0
EncodeTable = List (Option BitArray)

-- A fault is a null `node`.
unfoldable pub rec_gen_table : EncodeTable → Tree → BitArray → Option EncodeTable
rec_gen_table etab null b = none
rec_gen_table etab (node _ leaf freq _ _) b = some (set etab freq.c (some b))
rec_gen_table etab (node _ internal _ left right) b =
    (if is_null left
      then some etab
      else bit_array_new_with b 1 >>= λ lb. rec_gen_table etab left lb)
    >>= λ etab'.
        if is_null right
        then some etab'
        else bit_array_new_with b 0 >>= λ rb. rec_gen_table etab' right rb

-- A fault is the null pointer of a character with no code.
unfoldable pub table_bit_encode : EncodeTable → ℕ → Option (List ℕ)
table_bit_encode etab c = get_elem? etab c >>= λ entry. entry >>= λ b. some b.bits

unfoldable pub table_build : Tree → Option EncodeTable
unfolding rec_gen_table bit_array_new bit_array_new_with
table_build root = rec_gen_table (replicate number_of_chars none) root bit_array_new
