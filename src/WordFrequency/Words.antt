-- ===== src/WordFrequency/Words.antt =====
-- words.c: the next word of standard input, which is the list of the bytes that are left in it.
pub mod Split
pub mod Overflow
use projects_in_c.Base.{
  ℕ, zero, suc, ◌+◌, List, [], ◌∷◌, Option, none, some, Bool, true, false, ◌&&◌, ◌||◌, ltb, leb,
  if◌then◌else◌, ◌>>=◌,
}

abbrev pub maxbuf : ℕ
maxbuf = 500

-- `isalnum` of the C locale.
abbrev pub is_alnum : ℕ → Bool
is_alnum c = (leb b'0' c && leb c b'9') || (leb b'A' c && leb c b'Z') || (leb b'a' c && leb c b'z')

-- The first loop: the first character of a word, with the input after it; `none` is `EOF`.
unfoldable pub skip_to_word : List ℕ → Option (ℕ × List ℕ)
skip_to_word [] = none
skip_to_word (c ∷ cs) = let rest = skip_to_word cs in if is_alnum c then some (c, cs) else rest

-- The second loop, from the character `c` on, with `counter` characters in the buffer: the word, and
-- the input after the character that ends it. A fault is a write past the buffer.
unfoldable pub take_word : ℕ → List ℕ → Option (List ℕ × List ℕ)
take_word counter [] = some ([], [])
take_word counter (c ∷ cs) =
    let rest = take_word (counter + 1) cs in
    if is_alnum c
    then (if leb maxbuf c
        then some ([], cs)
        else (if ltb counter maxbuf then (rest >>= λ (w, left). some (c ∷ w, left)) else none))
    else some ([], cs)

-- A word, or the null pointer at the end of the input, and the input that is left.
unfoldable pub words_next_word : List ℕ → Option (Option (List ℕ) × List ℕ)
unfolding skip_to_word take_word
words_next_word input = elim (skip_to_word input) [
  | none ↦ some (none, [])
  | some (c, cs) ↦ take_word 0 (c ∷ cs) >>= λ (w, left). some (some w, left)
]
