-- ===== src/WordFrequency/Programs.antt =====
-- wordfreq.c, wordfreq-fast.c and wordfreq-none.c: the loop of the three programs, which differ in how
-- they add a word. What they print is in Print.
pub mod Counts
use projects_in_c.Base.{ℕ, zero, suc, ◌+◌, List, Option, none, some, length, ◌>>=◌}
use projects_in_c.WordFrequency.Wset.{WordSet, wset_new, wset_add, wset_fast_add}
use projects_in_c.WordFrequency.Words.{words_next_word}

-- The loop over the words of the input, with fuel for its rounds; the set afterwards.
unfoldable pub word_loop : (WordSet → List ℕ → ℕ × WordSet) → ℕ → List ℕ → WordSet → Option WordSet
word_loop add zero input ws = none
word_loop add (suc fuel) input ws = words_next_word input >>= λ (word, left). elim word [
  | none ↦ some ws
  | some w ↦ word_loop add fuel left (add ws w).1
]

-- The set of words that each program ends with.
unfoldable pub wordfreq : List ℕ → Option WordSet
wordfreq input = word_loop wset_add (length input + 1) input wset_new

unfoldable pub wordfreq_fast : List ℕ → Option WordSet
wordfreq_fast input = word_loop wset_fast_add (length input + 1) input wset_new

unfoldable pub wordfreq_none : List ℕ → Option WordSet
wordfreq_none input = word_loop (λ ws w. (0, ws)) (length input + 1) input wset_new
