-- ===== src/WordFrequency/Words/Split.antt =====
-- words.c against the words of a text: its longest runs of letters and digits.
use projects_in_c.Base.{
  ℕ, ◌+◌, ◌-◌, ◌≤◌, ◌<◌, ◌≡◌, refl, ap, sym, ◌∙◌, List, [], ◌∷◌, none, some, true, false, ltb, leb,
  if◌then◌else◌, length, arith, Bool-cases, inl, inr,
}
use projects_in_c.WordFrequency.Words.{maxbuf, is_alnum, skip_to_word, take_word, words_next_word}

-- A word in front of others; no letters are no word.
abbrev pub put_word : List ℕ → List (List ℕ) → List (List ℕ)
put_word [] ws = ws
put_word (c ∷ cs) ws = (c ∷ cs) ∷ ws

-- The letters that a text starts with, and the words after them.
unfoldable pub split : List ℕ → List ℕ × List (List ℕ)
split [] = ([], [])
split (c ∷ cs) = let (w, ws) = split cs in if is_alnum c then (c ∷ w, ws) else ([], put_word w ws)

unfoldable pub words : List ℕ → List (List ℕ)
words cs = put_word (split cs).0 (split cs).1

pub no_words : words [] ≡ []
unfolding words split
no_words = refl

pub words-alnum :
    (c : ℕ) (cs : List ℕ)
    → is_alnum c ≡ true
    → ((split (c ∷ cs)).0 ≡ c ∷ (split cs).0)
      × ((split (c ∷ cs)).1 ≡ (split cs).1)
      × (words (c ∷ cs) ≡ (c ∷ (split cs).0) ∷ (split cs).1)
unfolding words split
words-alnum c cs a = rw a (refl, refl, refl)

split-nil : words [] ≡ (split []).1
unfolding words split
split-nil = refl

pub split-other :
    (c : ℕ) (cs : List ℕ)
    → is_alnum c ≡ false
    → ((split (c ∷ cs)).0 ≡ []) × ((split (c ∷ cs)).1 ≡ words cs)
unfolding words split
split-other c cs na = rw na (refl, refl)

pub words-other : (c : ℕ) (cs : List ℕ) → is_alnum c ≡ false → words (c ∷ cs) ≡ words cs
unfolding words split
words-other c cs na = rw na

-- No word is longer than the buffer.
abbrev pub AllFit : List (List ℕ) → Type 0
AllFit [] = Unit
AllFit (w ∷ ws) = (length w ≤ maxbuf) × AllFit ws

pub alnum-lt : (c : ℕ) → is_alnum c ≡ true → leb maxbuf c ≡ false
alnum-lt c h = ground arith

take_word-alnum :
    (c n : ℕ) (cs w left : List ℕ)
    → is_alnum c ≡ true
    → n < maxbuf
    → take_word (n + 1) cs ≡ some (w, left)
    → take_word n (c ∷ cs) ≡ some (c ∷ w, left)
unfolding take_word
take_word-alnum c n cs w left a h e =
    let room : ltb n maxbuf ≡ true = ground arith in rw (a, alnum-lt c a, room, e)

take_word-other :
    (c n : ℕ) (cs : List ℕ) → is_alnum c ≡ false → take_word n (c ∷ cs) ≡ some ([], cs)
unfolding take_word
take_word-other c n cs na = rw na

take_word-nil : (n : ℕ) → take_word n [] ≡ some ((split []).0, [])
unfolding take_word split
take_word-nil n = refl

take_word_lem :
    (cs : List ℕ) (n : ℕ)
    → n + length (split cs).0 ≤ maxbuf
    → (left : List ℕ) × (take_word n cs ≡ some ((split cs).0, left))
      × (words left ≡ (split cs).1)
      × (length left ≤ length cs - 1)
take_word_lem [] n h = ([], take_word-nil n, split-nil, omega arith)
take_word_lem (c ∷ cs) n h = elim (Bool-cases (is_alnum c)) [
  | inl a ↦
      let (first, rest, all) = words-alnum c cs a in
      let size = ap (λ (w : List ℕ). length w) first in
      let (left, e, ws, shorter) = take_word_lem cs (n + 1) (omega (arith, h, size)) in
      (
        left,
        take_word-alnum c n cs (split cs).0 left a (omega (arith, h, size)) e
            ∙ ap (λ (w : List ℕ). some (w, left)) (sym first),
        ws ∙ sym rest,
        omega (arith, shorter),
      )
  | inr na ↦
      let (first, rest) = split-other c cs na in
      (
        cs,
        take_word-other c n cs na ∙ ap (λ (w : List ℕ). some (w, cs)) (sym first),
        sym rest,
        omega arith,
      )
]

-- What the next word of an input is, against the words of the input.
pub data Next (cs : List ℕ) : Type 0 where
  ended : words cs ≡ [] → words_next_word cs ≡ some (none, []) → Next cs
  given :
      (w : List ℕ) (ws : List (List ℕ)) (left : List ℕ)
      → words cs ≡ w ∷ ws
      → words_next_word cs ≡ some (some w, left)
      → words left ≡ ws
      → length left < length cs
      → Next cs

-- A character that is in no word is skipped.
later : (c : ℕ) (cs : List ℕ) → is_alnum c ≡ false → Next cs → Next (c ∷ cs)
unfolding words_next_word skip_to_word
later c cs na (ended ws e) = ended (words-other c cs na ∙ ws) (rw (words_next_word, na) e)
later c cs na (given w ws left all e rest shorter) =
    given w ws left (words-other c cs na ∙ all) (rw (words_next_word, na) e) rest
      (omega (arith, shorter))

-- Where every word fits the buffer of 500 characters: the result is the first word of the input, and
-- the words of the input that is left are the others; or it is the null pointer, and there is no word.
pub words_next_word-Next : (cs : List ℕ) → AllFit (words cs) → Next cs
unfolding words_next_word skip_to_word
words_next_word-Next [] fit = ended (no_words) refl
words_next_word-Next (c ∷ cs) fit = elim (Bool-cases (is_alnum c)) [
  | inl a ↦
      let (first, rest, all) = words-alnum c cs a in
      let fits : length (c ∷ (split cs).0) ≤ maxbuf = (rw all at fit).0 in
      let (left, e, ws, shorter) =
        take_word_lem (c ∷ cs) 0 (omega (arith, fits, ap (λ (w : List ℕ). length w) first)) in
      given (split (c ∷ cs)).0 (split (c ∷ cs)).1 left (rw (first, rest) all)
        (rw (words_next_word, a, e)) ws (omega (arith, shorter))
  | inr na ↦ later c cs na (words_next_word-Next cs (rw (words-other c cs na) at fit))
]
