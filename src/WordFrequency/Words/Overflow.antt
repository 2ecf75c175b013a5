-- ===== src/WordFrequency/Words/Overflow.antt =====
-- words.c: a word that does not fit the buffer, whose bound the loop does not check.
use projects_in_c.Base.{
  ℕ, ◌+◌, ◌≤◌, ◌<◌, ◌≡◌, refl, ap, sym, ◌∙◌, List, [], ◌∷◌, none, true, ltb, length, arith,
  Bool-cases, inl, inr,
}
use projects_in_c.WordFrequency.Words.{maxbuf, is_alnum, skip_to_word, take_word, words_next_word}
use projects_in_c.WordFrequency.Words.Split.{
  words, split, no_words, words-alnum, words-other, split-other, alnum-lt,
}

take_word-over :
    (c n : ℕ) (cs : List ℕ)
    → is_alnum c ≡ true
    → (n < maxbuf → take_word (n + 1) cs ≡ none)
    → take_word n (c ∷ cs) ≡ none
unfolding take_word
take_word-over c n cs a more = elim (Bool-cases (ltb n maxbuf)) [
  | inl room ↦ rw (a, alnum-lt c a, room, more (ground arith)) refl
  | inr full ↦ rw (a, alnum-lt c a, full) refl
]

nothing_first : length (split []).0 ≡ 0
unfolding split
nothing_first = refl

take_word-none :
    (cs : List ℕ) (n : ℕ) → n ≤ maxbuf → maxbuf < n + length (split cs).0 → take_word n cs ≡ none
take_word-none [] n le h = absurd (omega (arith, h, nothing_first))
take_word-none (c ∷ cs) n le h = elim (Bool-cases (is_alnum c)) [
  | inl a ↦
      let size = ap (λ (w : List ℕ). length w) (words-alnum c cs a).0 in
      take_word-over c n cs a
        (λ lt. take_word-none cs (n + 1) (omega (arith, lt)) (omega (arith, h, size)))
  | inr na ↦ absurd (omega (arith, h, ap (λ (w : List ℕ). length w) (split-other c cs na).0))
]

-- Where the first word of the input is longer than the buffer of 500 characters, words_next_word
-- faults: it writes past the buffer.
pub words_next_word-overflow :
    (cs w : List ℕ) (ws : List (List ℕ))
    → words cs ≡ w ∷ ws
    → maxbuf < length w
    → words_next_word cs ≡ none
unfolding words_next_word skip_to_word
words_next_word-overflow [] w ws e h = let bad : [] ≡ w ∷ ws = sym no_words ∙ e in cc
words_next_word-overflow (c ∷ cs) w ws e h = elim (Bool-cases (is_alnum c)) [
  | inl a ↦
      let (first, rest, all) = words-alnum c cs a in
      let both : (c ∷ (split cs).0) ∷ (split cs).1 ≡ w ∷ ws = sym all ∙ e in
      let same : c ∷ (split cs).0 ≡ w = cc in
      let size = ap (λ (v : List ℕ). length v) same in
      let size' = ap (λ (v : List ℕ). length v) first in
      rw (
        words_next_word,
        a,
        take_word-none (c ∷ cs) 0 (omega arith) (omega (arith, h, size, size')),
      )
  | inr na ↦
      rw (words_next_word, na) (words_next_word-overflow cs w ws (sym (words-other c cs na) ∙ e) h)
]
