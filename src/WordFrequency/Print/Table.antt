-- ===== src/WordFrequency/Print/Table.antt =====
-- wset.c, `wset_print`: the table that is printed is in columns.
use projects_in_c.Base.{
  ℕ, zero, suc, ◌-◌, ◌%◌, ◌≤◌, ◌≡◌, refl, ap, sym, ◌∙◌, List, [], ◌∷◌, ◌++◌, some, false, ltb,
  if◌then◌else◌, length, replicate, append-nil, arith,
}
use projects_in_c.Base.Words.{word}
use projects_in_c.Base.Decimal.{print_int}
use projects_in_c.WordFrequency.Wset.{WordNode, WordSet, wset_freq}
use projects_in_c.WordFrequency.Wset.Distinct.{IsWset}
use projects_in_c.WordFrequency.Words.Split.{words, AllFit}
use projects_in_c.WordFrequency.Programs.Counts.{occurrences, wordfreq-counts}
use projects_in_c.WordFrequency.Print.{
  longest_from, pad_right, print_nodes, wset_print, is_quiet, wordfreq_main,
}

-- The larger of two numbers.
abbrev larger : ℕ → ℕ → ℕ
larger m n = if ltb m n then n else m

-- The length of the longest word.
abbrev pub widest : List WordNode → ℕ
widest [] = 0
widest (n ∷ ns) = larger (length n.word) (widest ns)

-- The rows of a table whose first column has a width: a word, blanks up to the width, and its
-- frequency.
abbrev pub rows : ℕ → List WordNode → List ℕ
rows width [] = []
rows width (n ∷ ns) =
    n.word
    ++ replicate (width - length n.word) b' '
    ++ b' ' ∷ (b':' ∷ (b' ' ∷ (print_int n.freq ++ b'\n' ∷ rows width ns)))

-- Every word has room in the first column.
abbrev pub AllHaveRoom : ℕ → List WordNode → Type 0
AllHaveRoom width [] = Unit
AllHaveRoom width (n ∷ ns) = (length n.word ≤ width) × AllHaveRoom width ns

longest_from-widest : (k : ℕ) (ns : List WordNode) → longest_from k ns ≡ larger k (widest ns)
unfolding longest_from
longest_from-widest k [] = ground arith
longest_from-widest k (n ∷ ns) = longest_from-widest (larger k (length n.word)) ns ∙ ground arith

more_room : (w v : ℕ) (ns : List WordNode) → w ≤ v → AllHaveRoom w ns → AllHaveRoom v ns
more_room w v [] h room = tt
more_room w v (n ∷ ns) h (room, rest) = (omega arith, more_room w v ns h rest)

widest-AllHaveRoom : (ns : List WordNode) → AllHaveRoom (widest ns) ns
widest-AllHaveRoom [] = tt
widest-AllHaveRoom (n ∷ ns) = (
  ground arith,
  more_room (widest ns) (larger (length n.word) (widest ns)) ns (ground arith)
      (widest-AllHaveRoom ns),
)

blanks : (cs : List ℕ) (m n : ℕ) → m ≡ n → cs ++ replicate m b' ' ≡ cs ++ replicate n b' '
blanks cs m n e = rw e refl

zero_larger : (n : ℕ) → larger 0 n ≡ n
zero_larger n = ground arith

pad_right-replicate : (k : ℕ) (cs : List ℕ) → pad_right k cs ≡ cs ++ replicate (k - length cs) b' '
unfolding pad_right
pad_right-replicate zero cs = sym (append-nil cs) ∙ blanks cs 0 (0 - length cs) (omega arith)
pad_right-replicate (suc k) [] =
    ap (λ (xs : List ℕ). b' ' ∷ xs) (pad_right-replicate k [])
    ∙ blanks [] (suc (k - 0)) (suc k - 0) (omega arith)
pad_right-replicate (suc k) (c ∷ cs) =
    ap (λ (xs : List ℕ). c ∷ xs) (pad_right-replicate k cs)
    ∙ blanks (c ∷ cs) (k - length cs) (suc k - length (c ∷ cs)) (omega arith)

print_nodes-rows : (k : ℕ) (ns : List WordNode) → print_nodes k ns ≡ rows k ns
unfolding print_nodes
print_nodes-rows k [] = refl
print_nodes-rows k (n ∷ ns) = rw (pad_right-replicate k n.word, print_nodes-rows k ns) refl

wset_print-rows : (s : WordSet) → wset_print s ≡ rows (widest s.head) s.head
unfolding wset_print
wset_print-rows s =
    rw (longest_from-widest 0 s.head, zero_larger (widest s.head))
      (print_nodes-rows (widest s.head) s.head)

-- For a text in which no word is longer than 500 characters, and a command line whose first argument
-- is not "quiet", wordfreq ends without a fault and prints a table: each of its rows is a word,
-- blanks up to the length of the longest word, a colon between two spaces, the frequency, and a
-- newline. No word has two rows, every word has room in its column, and the frequency of every
-- word, 0 where it has no row, is how often it occurs in the text (modulo 2^32).
pub wordfreq_main-rows :
    (text : List ℕ) (args : List (List ℕ))
    → AllFit (words text)
    → is_quiet args ≡ false
    → (s : WordSet) × (wordfreq_main args text ≡ some (rows (widest s.head) s.head))
      × AllHaveRoom (widest s.head) s.head
      × IsWset s
      × ((v : List ℕ) → wset_freq s v ≡ occurrences v (words text) % word)
unfolding wordfreq_main
wordfreq_main-rows text args fit loud =
    let (s, run, k, all) = wordfreq-counts text fit in
    (
      s,
      rw (run, loud) (ap (λ (cs : List ℕ). some cs) (wset_print-rows s)),
      widest-AllHaveRoom s.head,
      k,
      all,
    )
