-- ===== src/WordFrequency/Print.antt =====
-- wset.c, `wset_print`, and what the three programs wordfreq.c, wordfreq-fast.c and wordfreq-none.c
-- print with the arguments of their command lines. A word is shorter than 2^31 characters.
pub mod Table
use projects_in_c.Base.{
  ℕ, zero, suc, List, [], ◌∷◌, ◌++◌, Option, some, Bool, true, false, ltb, if◌then◌else◌, length,
  ◌>>=◌,
}
use projects_in_c.Base.Text.{codes}
use projects_in_c.Base.Decimal.{print_int}
use projects_in_c.WordFrequency.Wset.{WordNode, WordSet, same_word}
use projects_in_c.WordFrequency.Programs.{wordfreq, wordfreq_fast, wordfreq_none}

-- The first loop of `wset_print`, with the length so far.
unfoldable pub longest_from : ℕ → List WordNode → ℕ
longest_from longest [] = longest
longest_from longest (n ∷ ns) =
    longest_from (if ltb longest (length n.word) then length n.word else longest) ns

-- "%-*s": blanks behind the word up to the width.
unfoldable pub pad_right : ℕ → List ℕ → List ℕ
pad_right zero cs = cs
pad_right (suc n) [] = b' ' ∷ pad_right n []
pad_right (suc n) (c ∷ cs) = c ∷ pad_right n cs

-- The second loop.
unfoldable pub print_nodes : ℕ → List WordNode → List ℕ
unfolding pad_right
print_nodes longest [] = []
print_nodes longest (n ∷ ns) =
    pad_right longest n.word
    ++ b' ' ∷ (b':' ∷ (b' ' ∷ (print_int n.freq ++ b'\n' ∷ print_nodes longest ns)))

unfoldable pub wset_print : WordSet → List ℕ
unfolding longest_from print_nodes
wset_print wset = print_nodes (longest_from 0 wset.head) wset.head

-- The test of wordfreq.c for "quiet", and that of the other two, on the arguments behind the name of
-- the program.
unfoldable pub is_quiet : List (List ℕ) → Bool
is_quiet [] = false
is_quiet (a ∷ rest) = same_word a (codes "quiet")

unfoldable pub is_only_quiet : List (List ℕ) → Bool
is_only_quiet [] = false
is_only_quiet (a ∷ []) = same_word a (codes "quiet")
is_only_quiet (a ∷ b ∷ rest) = false

abbrev pub printed : Bool → WordSet → List ℕ
printed quiet ws = if quiet then [] else wset_print ws

-- The three programs: what they print.
unfoldable pub wordfreq_main : List (List ℕ) → List ℕ → Option (List ℕ)
unfolding is_quiet
wordfreq_main args input = wordfreq input >>= λ ws. some (printed (is_quiet args) ws)

unfoldable pub wordfreq_fast_main : List (List ℕ) → List ℕ → Option (List ℕ)
unfolding is_only_quiet
wordfreq_fast_main args input = wordfreq_fast input >>= λ ws. some (printed (is_only_quiet args) ws)

unfoldable pub wordfreq_none_main : List (List ℕ) → List ℕ → Option (List ℕ)
unfolding is_only_quiet
wordfreq_none_main args input = wordfreq_none input >>= λ ws. some (printed (is_only_quiet args) ws)
