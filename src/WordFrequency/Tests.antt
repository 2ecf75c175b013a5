-- ===== src/WordFrequency/Tests.antt =====
-- The theorems about word sets and the word frequency programs at concrete inputs.
use projects_in_c.Base.{
  replicate, none, false, ℕ, ◌%◌, ◌≡◌, refl, List, [], ◌∷◌, some, if◌then◌else◌, arith,
}
use projects_in_c.Base.Words.{word, minus_one}
use projects_in_c.WordFrequency.Wset.{
  WordSet, same_word, wset_new, wset_add, wset_fast_add, wset_remove, wset_exists, wset_freq,
}
use projects_in_c.WordFrequency.Wset.Lookup.{Adds, both_add-freq}
use projects_in_c.WordFrequency.Wset.Distinct.{has, IsWset}
use projects_in_c.WordFrequency.Wset.Ops.{operations-IsWset, wset_remove-freq, wset_exists-has}
use projects_in_c.WordFrequency.Words.{words_next_word, skip_to_word, take_word}
use projects_in_c.WordFrequency.Words.Split.{words, split, AllFit, Next, words_next_word-Next}
use projects_in_c.WordFrequency.Words.Overflow.{words_next_word-overflow}
use projects_in_c.Base.Text.{codes}
use projects_in_c.Base.Decimal.{print_int, digits}
use projects_in_c.WordFrequency.Print.{is_quiet, wordfreq_main}
use projects_in_c.WordFrequency.Print.Table.{rows, widest, AllHaveRoom, wordfreq_main-rows}
use projects_in_c.WordFrequency.Programs.{wordfreq, wordfreq_fast}
use projects_in_c.WordFrequency.Programs.Counts.{occurrences, wordfreq_fast-counts}

-- The words "be" and "to", and a set with both.
abbrev be : List ℕ
be = 98 ∷ 101 ∷ []

abbrev to_word : List ℕ
to_word = 116 ∷ 111 ∷ []

abbrev both : WordSet
both = record {
  size = 2;
  head = record { freq = 4; word = to_word } ∷ record { freq = 7; word = be } ∷ [];
}

both-IsWset : IsWset both
both-IsWset = record { distinct = (refl, (refl, tt)); size = refl }

both_add-freq_example : Adds wset_add both be × Adds wset_fast_add both be
both_add-freq_example = both_add-freq both be

operations-IsWset_example :
    IsWset wset_new
    × IsWset (wset_add both be).1
    × IsWset (wset_fast_add both be).1
    × IsWset (wset_remove both be).1
operations-IsWset_example = operations-IsWset both be both-IsWset

wset_remove-freq_example :
    ((wset_remove both be).0 ≡ (if has be both.head then wset_freq both be else minus_one))
    × ((v : List ℕ)
        → wset_freq (wset_remove both be).1 v ≡ (if same_word v be then 0 else wset_freq both v))
wset_remove-freq_example = wset_remove-freq both be both-IsWset (omega arith)

wset_exists-has_example : wset_exists both be ≡ (if has be both.head then 1 else 0)
wset_exists-has_example = wset_exists-has both be

-- The text "to be, to".
abbrev text : List ℕ
text = 116 ∷ 111 ∷ 32 ∷ 98 ∷ 101 ∷ 44 ∷ 32 ∷ 116 ∷ 111 ∷ []

text_words : words text ≡ to_word ∷ be ∷ to_word ∷ []
unfolding words split
text_words = refl

text-AllFit : AllFit (words text)
text-AllFit = rw text_words (omega arith, (omega arith, (omega arith, tt)))

words_next_word-Next_example : Next text
words_next_word-Next_example = words_next_word-Next text text-AllFit

-- The first word of the text, and what is left.
first_word : words_next_word text ≡ some (some to_word, 98 ∷ 101 ∷ 44 ∷ 32 ∷ 116 ∷ 111 ∷ [])
unfolding words_next_word skip_to_word take_word
first_word = refl

loud : is_quiet [] ≡ false
unfolding is_quiet
loud = refl

wordfreq_main-rows_example :
    (s : WordSet) × (wordfreq_main [] text ≡ some (rows (widest s.head) s.head))
    × AllHaveRoom (widest s.head) s.head
    × IsWset s
    × ((v : List ℕ) → wset_freq s v ≡ occurrences v (words text) % word)
wordfreq_main-rows_example = wordfreq_main-rows text [] text-AllFit loud

-- The table of the set with both words.
both_rows : rows (widest both.head) both.head ≡ codes "to : 4\nbe : 7\n"
unfolding print_int digits
both_rows = refl

wordfreq_fast-counts_example :
    (s t : WordSet) × (wordfreq text ≡ some s)
    × (wordfreq_fast text ≡ some t)
    × ((v : List ℕ) → wset_freq t v ≡ occurrences v (words text) % word)
    × ((v : List ℕ) → wset_freq t v ≡ wset_freq s v)
wordfreq_fast-counts_example = wordfreq_fast-counts text text-AllFit

-- A text of 501 letters is one word.
abbrev long_text : List ℕ
long_text = replicate 501 97

long_words : words long_text ≡ long_text ∷ []
unfolding words split
long_words = refl

words_next_word-overflow_example : words_next_word long_text ≡ none
words_next_word-overflow_example =
    words_next_word-overflow long_text long_text [] long_words (omega arith)
