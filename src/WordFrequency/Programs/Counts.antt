-- ===== src/WordFrequency/Programs/Counts.antt =====
-- wordfreq.c and wordfreq-fast.c: the set holds how often each word occurs in the text.
use projects_in_c.Base.{
  ℕ, zero, suc, ◌+◌, ◌%◌, ◌<◌, ◌≡◌, refl, ap, sym, ◌∙◌, List, [], ◌∷◌, some, if◌then◌else◌, length,
  arith, Bool-cases, inl, inr,
}
use projects_in_c.Base.Words.{word, add, add-lt}
use projects_in_c.WordFrequency.Wset.{
  WordSet, same_word, wset_new, wset_add, wset_fast_add, wset_freq,
}
use projects_in_c.WordFrequency.Wset.Lookup.{wset_freq-lookup, wset_add-freq, wset_fast_add-freq}
use projects_in_c.WordFrequency.Wset.Search.{same_word_sound}
use projects_in_c.WordFrequency.Wset.Distinct.{IsWset}
use projects_in_c.WordFrequency.Wset.Ops.{operations-IsWset}
use projects_in_c.WordFrequency.Words.Split.{words, AllFit, ended, given, words_next_word-Next}
use projects_in_c.WordFrequency.Programs.{word_loop, wordfreq, wordfreq_fast}

-- How often a word occurs in a list of words.
abbrev pub occurrences : List ℕ → List (List ℕ) → ℕ
occurrences v [] = 0
occurrences v (w ∷ ws) = (if same_word v w then 1 else 0) + occurrences v ws

-- What the loop needs of the way a word is added.
record Adder : Type 0 where
  put : WordSet → List ℕ → ℕ × WordSet
  put-freq :
      (s : WordSet) (w v : List ℕ)
      → wset_freq (put s w).1 v ≡ (if same_word v w then add (wset_freq s w) 1 else wset_freq s v)
  put-IsWset : (s : WordSet) (w : List ℕ) → IsWset s → IsWset (put s w).1

-- The set after the words `ws`: each occurrence has counted.
record Counted (s : WordSet) (ws : List (List ℕ)) (s' : WordSet) : Type 0 where
  is_set : IsWset s'
  freqs : (v : List ℕ) → wset_freq s' v ≡ (wset_freq s v + occurrences v ws) % word

module _ (A : Adder) where
  put-lt :
      (s : WordSet) (w : List ℕ)
      → ((v : List ℕ) → wset_freq s v < word)
      → (v : List ℕ) → wset_freq (A.put s w).1 v < word
  put-lt s w below v = rw (A.put-freq s w v) (elim (Bool-cases (same_word v w)) [
    | inl h ↦ rw h (add-lt (wset_freq s w) 1)
    | inr h ↦ rw h (below v)
  ])

  put-count :
      (s : WordSet) (w : List ℕ) (ws : List (List ℕ)) (v : List ℕ)
      → (wset_freq (A.put s w).1 v + occurrences v ws) % word
        ≡ (wset_freq s v + occurrences v (w ∷ ws)) % word
  unfolding add
  put-count s w ws v = rw (A.put-freq s w v) (elim (Bool-cases (same_word v w)) [
    | inl h ↦ rw h (omega (arith, ap (λ (u : List ℕ). wset_freq s u) (same_word_sound v w h)))
    | inr h ↦ rw h (omega arith)
  ])

  word_loop-Counted :
      (fuel : ℕ) (input : List ℕ) (s : WordSet)
      → length input < fuel
      → AllFit (words input)
      → IsWset s
      → ((v : List ℕ) → wset_freq s v < word)
      → (s' : WordSet) × (word_loop A.put fuel input s ≡ some s') × Counted s (words input) s'
  unfolding word_loop
  word_loop-Counted zero input s h fit k below = absurd (omega arith)
  word_loop-Counted (suc fuel) input s h fit k below = elim (words_next_word-Next input fit) [
    | ended none_left e ↦
        (s, rw e, record { is_set = k; freqs = λ v. rw none_left (omega (arith, below v)) })
    | given w ws left all e rest shorter ↦
        let fit' : AllFit (words left) = rw rest (rw all at fit).1 in
        let (s', run, c) =
          word_loop-Counted fuel left (A.put s w).1 (omega (arith, shorter)) fit'
            (A.put-IsWset s w k) (put-lt s w below) in
        (
          s',
          rw e run,
          record {
            is_set = c.is_set;
            freqs = λ v. rw all (c.freqs v ∙ rw rest (put-count s w ws v));
          },
        )
  ]

-- Adding at the end of the list, or moving to its front.
abbrev by_add : Adder
by_add = record {
  put = wset_add;
  put-freq = λ s w v. (wset_add-freq s w).1 v;
  put-IsWset = λ s w k. (operations-IsWset s w k).1;
}

abbrev by_fast_add : Adder
by_fast_add = record {
  put = wset_fast_add;
  put-freq = λ s w v. (wset_fast_add-freq s w).1 v;
  put-IsWset = λ s w k. (operations-IsWset s w k).2;
}

new-IsWset : IsWset wset_new
unfolding wset_new
new-IsWset = record { distinct = tt; size = refl }

no_freq : (v : List ℕ) → wset_freq wset_new v ≡ 0
unfolding wset_new
no_freq v = wset_freq-lookup wset_new v

module _ (text : List ℕ) (fit : AllFit (words text)) where
  from_new :
      (A : Adder)
      → (s : WordSet) × (word_loop A.put (length text + 1) text wset_new ≡ some s)
        × IsWset s
        × ((v : List ℕ) → wset_freq s v ≡ occurrences v (words text) % word)
  from_new A =
      let (s, run, c) =
        word_loop-Counted A (length text + 1) text wset_new (omega arith) fit new-IsWset
          (λ v. omega (arith, no_freq v)) in
      (
        s,
        run,
        c.is_set,
        λ v.
            c.freqs v
            ∙ ap (λ (n : ℕ). (n + occurrences v (words text)) % word) (no_freq v)
            ∙ omega arith,
      )

  -- For a text in which no word is longer than 500 characters, wordfreq ends without a fault. No word
  -- has two nodes in its set, whose size is the number of nodes, and the frequency of every word is
  -- how often it occurs in the text (modulo 2^32): 0 for a word that is not in the text.
  pub wordfreq-counts :
      (s : WordSet) × (wordfreq text ≡ some s)
      × IsWset s
      × ((v : List ℕ) → wset_freq s v ≡ occurrences v (words text) % word)
  unfolding wordfreq
  wordfreq-counts = from_new by_add

  -- For a text in which no word is longer than 500 characters, wordfreq and wordfreq-fast both end
  -- without a fault, with the same frequency for every word: how often it occurs in the text (modulo
  -- 2^32).
  pub wordfreq_fast-counts :
      (s t : WordSet) × (wordfreq text ≡ some s)
      × (wordfreq_fast text ≡ some t)
      × ((v : List ℕ) → wset_freq t v ≡ occurrences v (words text) % word)
      × ((v : List ℕ) → wset_freq t v ≡ wset_freq s v)
  unfolding wordfreq wordfreq_fast
  wordfreq_fast-counts =
      let (s, run, k, all) = from_new by_add in
      let (t, run', k', all') = from_new by_fast_add in
      (s, t, run, run', all', λ v. all' v ∙ sym (all v))
