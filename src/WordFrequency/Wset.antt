-- ===== src/WordFrequency/Wset.antt =====
-- wset.h and wset.c: a set of words with their frequencies, a linked list. A pointer to a cell of the
-- list is the number of the nodes in front of it. A word is the list of its characters in front of
-- the terminator; memory that is freed is not modelled.
pub mod Search
pub mod Lookup
pub mod Distinct
pub mod Ops
use projects_in_c.Base.{
  ℕ, zero, suc, ◌+◌, List, [], ◌∷◌, ◌++◌, Option, none, some, Bool, true, false, ◌&&◌, ◌==◌,
  if◌then◌else◌, get_elem?, set, take, drop,
}
use projects_in_c.Base.Words.{add, sub, minus_one}

pub record WordNode : Type 0 where
  pub freq : ℕ
  pub word : List ℕ

pub record WordSet : Type 0 where
  pub size : ℕ
  pub head : List WordNode

-- `strcmp(x, y) == 0`.
abbrev pub same_word : List ℕ → List ℕ → Bool
same_word [] [] = true
same_word [] (_ ∷ _) = false
same_word (_ ∷ _) [] = false
same_word (x ∷ xs) (y ∷ ys) = x == y && same_word xs ys

unfoldable pub node_new : List ℕ → WordNode
node_new word = record { freq = 0; word = word }

unfoldable pub wset_new : WordSet
wset_new = record { size = 0; head = [] }

unfoldable pub wset_size : WordSet → ℕ
wset_size wset = wset.size

-- The loop of `search` along the list.
unfoldable pub search_from : List ℕ → List WordNode → ℕ
search_from word [] = 0
search_from word (n ∷ ns) = if same_word word n.word then 0 else suc (search_from word ns)

-- The cell with the node of the word, or the cell with the null pointer at the end.
unfoldable pub search : WordSet → List ℕ → ℕ
unfolding search_from
search wset word = search_from word wset.head

-- The list without the node in a cell.
abbrev pub unlink : List WordNode → ℕ → List WordNode
unlink ns i = take i ns ++ drop (suc i) ns

-- A node that counts one more.
abbrev pub counted : WordNode → WordNode
counted n = record n { freq = add n.freq 1 }

-- The frequency of the word, and the set afterwards.
unfoldable pub wset_add : WordSet → List ℕ → ℕ × WordSet
unfolding node_new
wset_add wset word =
    let i : ℕ = search wset word in
    elim (get_elem? wset.head i) [
      | none ↦
          let n : WordNode = counted (node_new word) in
          (n.freq, record { size = add wset.size 1; head = take i wset.head ++ n ∷ [] })
      | some n ↦ (add n.freq 1, record wset { head = set wset.head i (counted n) })
    ]

unfoldable pub wset_fast_add : WordSet → List ℕ → ℕ × WordSet
unfolding node_new
wset_fast_add wset word =
    let i : ℕ = search wset word in
    elim (get_elem? wset.head i) [
      | none ↦
          let n : WordNode = record (node_new word) { freq = 1 } in
          (n.freq, record { size = add wset.size 1; head = n ∷ wset.head })
      | some n ↦ (add n.freq 1, record wset { head = counted n ∷ unlink wset.head i })
    ]

-- The frequency of the word that is removed, or -1.
unfoldable pub wset_remove : WordSet → List ℕ → ℕ × WordSet
unfolding wset_size
wset_remove wset word =
    let i : ℕ = search wset word in
    let found : ℕ × WordSet = elim (get_elem? wset.head i) [
      | none ↦ (minus_one, wset)
      | some n ↦ (n.freq, record { size = sub wset.size 1; head = unlink wset.head i })
    ] in
    if wset_size wset == 0 then (minus_one, wset) else found

abbrev pub is_last : List WordNode → Bool
is_last [] = true
is_last (_ ∷ _) = false

-- The loop of `wset_exists` from a cell on.
unfoldable pub exists_from : List ℕ → List WordNode → ℕ
exists_from word [] = 0
exists_from word (n ∷ ns) =
    let rest : ℕ = exists_from word ns in
    if same_word word n.word then 1 else (if is_last ns then 0 else rest)

unfoldable pub wset_exists : WordSet → List ℕ → ℕ
unfolding exists_from
wset_exists wset word = exists_from word (drop (search wset word) wset.head)

-- The loop of `wset_freq` from a cell on.
unfoldable pub freq_from : List ℕ → List WordNode → ℕ
freq_from word [] = 0
freq_from word (n ∷ ns) =
    let rest : ℕ = freq_from word ns in
    if same_word word n.word then n.freq else (if is_last ns then 0 else rest)

unfoldable pub wset_freq : WordSet → List ℕ → ℕ
unfolding freq_from
wset_freq wset word = freq_from word (drop (search wset word) wset.head)
