-- ===== src/Huffman/Build/Freq.antt =====
-- huffman.c, `compute_freq`: the table holds for each character how often it occurs.

use projects_in_c.Base.{
  ℕ, zero, suc, ◌+◌, ◌≤◌, ◌<◌, ◌≡◌, refl, ap, ◌∙◌, inl, inr, List, [], ◌∷◌, some, arith, ◌==◌,
  if◌then◌else◌, length, get_elem?, Bool-cases,
}
use projects_in_c.Base.Sums.{sum_by}
use projects_in_c.Base.Words.{word, int_sign, add_exact}
use projects_in_c.Huffman.Tree.{Frequency}
use projects_in_c.Huffman.Build.{
  number_of_chars, eof_byte, fresh_table, count_char, count_chars, compute_freq,
}

-- What the reading loop reads: the bytes in front of the first one that it takes for `EOF`.
abbrev pub readable : List ℕ → List ℕ
readable [] = []
readable (c ∷ cs) = if c == eof_byte then [] else c ∷ readable cs

-- How often `c` occurs in a list of bytes.
abbrev pub count : ℕ → List ℕ → ℕ
count c [] = 0
count c (x ∷ xs) = (if x == c then 1 else 0) + count c xs

-- The entries are those of the characters `i`, `i + 1` and so on.
abbrev pub Indexed : ℕ → List Frequency → Type 0
Indexed i [] = Unit
Indexed i (e ∷ es) = (e.c ≡ i) × Indexed (i + 1) es

-- What the table says of `c`.
abbrev pub v_of : ℕ → Frequency → ℕ
v_of c e = if e.c == c then e.v else 0

fresh-Indexed : (n i : ℕ) → Indexed i (fresh_table n i)
unfolding fresh_table
fresh-Indexed zero i = tt
fresh-Indexed (suc n) i = (refl, fresh-Indexed n (i + 1))

length-fresh : (n i : ℕ) → length (fresh_table n i) ≡ n
unfolding fresh_table
length-fresh zero i = refl
length-fresh (suc n) i = ap suc (length-fresh n (i + 1))

sum-fresh : (c n i : ℕ) → sum_by (v_of c) (fresh_table n i) ≡ 0
unfolding fresh_table
sum-fresh c zero i = refl
sum-fresh c (suc n) i = ground (arith, sum-fresh c n (i + 1))

count_char-Indexed : (c i : ℕ) (t : List Frequency) → Indexed i t → Indexed i (count_char c t)
unfolding count_char
count_char-Indexed c i [] h = tt
count_char-Indexed c i (e ∷ es) h = ground (arith, count_char-Indexed c (i + 1) es h.1)

length-count_char : (c : ℕ) (t : List Frequency) → length (count_char c t) ≡ length t
unfolding count_char
length-count_char c [] = refl
length-count_char c (e ∷ es) = ground (arith, length-count_char c es)

total-fresh : (n i : ℕ) → sum_by (λ e. e.v) (fresh_table n i) ≡ 0
unfolding fresh_table
total-fresh zero i = refl
total-fresh (suc n) i = omega (arith, total-fresh n (i + 1))

sum-count_char :
    (c d i : ℕ) (t : List Frequency)
    → Indexed i t
    → i ≤ c
    → c < i + length t
    → sum_by (λ e. e.v) t + 1 < word
    → sum_by (v_of d) (count_char c t) ≡ (if c == d then 1 else 0) + sum_by (v_of d) t
unfolding count_char
sum-count_char c d i [] h lo hi lt = absurd (omega arith)
sum-count_char c d i (e ∷ es) h lo hi lt = elim (Bool-cases (e.c == c)) [
  | inl hit ↦ rw (hit, add_exact e.v 1 (omega arith)) (ground arith)
  | inr miss ↦ rw miss (
      ground (arith, sum-count_char c d (i + 1) es h.1 (ground arith) (ground arith) (omega arith)))
]

total-count_char :
    (c i : ℕ) (t : List Frequency)
    → Indexed i t
    → i ≤ c
    → c < i + length t
    → sum_by (λ e. e.v) t + 1 < word
    → sum_by (λ e. e.v) (count_char c t) ≡ 1 + sum_by (λ e. e.v) t
unfolding count_char
total-count_char c i [] h lo hi lt = absurd (omega arith)
total-count_char c i (e ∷ es) h lo hi lt = elim (Bool-cases (e.c == c)) [
  | inl hit ↦ rw (hit, add_exact e.v 1 (omega arith)) (omega arith)
  | inr miss ↦
      rw miss (
        omega
          (arith, total-count_char c (i + 1) es h.1 (ground arith) (ground arith) (omega arith)))
]

-- Below its first index a table says nothing of a character.
sum-below : (c i : ℕ) (t : List Frequency) → Indexed i t → c < i → sum_by (v_of c) t ≡ 0
sum-below c i [] h lt = refl
sum-below c i (e ∷ es) h lt = ground (arith, sum-below c (i + 1) es h.1 (omega arith))

-- The entry with the number `c` is the one for `c`.
get-Indexed :
    (k c i : ℕ) (t : List Frequency)
    → Indexed i t
    → c ≡ i + k
    → k < length t
    → get_elem? t k ≡ some (record { v = sum_by (v_of c) t; c = c })
get-Indexed k c i [] h e lt = absurd (omega arith)
get-Indexed zero c i (x ∷ xs) h e lt = ground (arith, sum-below c (i + 1) xs h.1 (omega arith))
get-Indexed (suc k) c i (x ∷ xs) h e lt =
    ground (arith, get-Indexed k c (i + 1) xs h.1 (omega arith) (omega arith))

-- All the bytes of a file are bytes.
abbrev pub Bytes : List ℕ → Type 0
Bytes [] = Unit
Bytes (c ∷ cs) = (c < 256) × Bytes cs

record Counted (d : ℕ) (cs : List ℕ) (t t' : List Frequency) : Type 0 where
  indexed : Indexed 0 t'
  size : length t' ≡ length t
  sum : sum_by (v_of d) t' ≡ count d (readable cs) + sum_by (v_of d) t
  total : sum_by (λ e. e.v) t' ≡ length (readable cs) + sum_by (λ e. e.v) t

count_chars-Counted :
    (d : ℕ) (cs : List ℕ) (t : List Frequency)
    → Bytes cs
    → Indexed 0 t
    → length t ≡ number_of_chars
    → sum_by (λ e. e.v) t + length (readable cs) < word
    → Counted d cs t (count_chars cs t)
unfolding count_chars
count_chars-Counted d [] t b h len lt = record {
  indexed = h;
  size = refl;
  sum = omega arith;
  total = omega arith;
}
count_chars-Counted d (c ∷ cs) t b h len lt = elim (Bool-cases (c == eof_byte)) [
  | inl stop ↦ rw stop (record {
    indexed = h;
    size = refl;
    sum = rw stop (omega arith);
    total = rw stop (omega arith);
  })
  | inr more ↦ rw more (
      let less : sum_by (λ e. e.v) t + length (c ∷ readable cs) < word = rw more at lt in
      let one = total-count_char c 0 t h (omega arith) (omega (arith, b.0)) (omega arith) in
      let r =
        count_chars-Counted d cs (count_char c t) b.1 (count_char-Indexed c 0 t h)
          (length-count_char c t ∙ len) (omega (arith, one)) in
      record {
        indexed = r.indexed;
        size = r.size ∙ length-count_char c t;
        sum = rw more (
            omega (
              arith,
              r.sum,
              sum-count_char c d 0 t h (omega arith) (omega (arith, b.0)) (omega arith),
            ));
        total = rw more (omega (arith, r.total, one));
      })
]

module _ (file : List ℕ) (b : Bytes file) (short : length (readable file) < int_sign) where
  counted : (c : ℕ) → Counted c file (fresh_table 256 0) (compute_freq file)
  unfolding compute_freq
  counted c =
      count_chars-Counted c file (fresh_table 256 0) b (fresh-Indexed 256 0) (length-fresh 256 0)
        (omega (arith, total-fresh 256 0))

  pub compute_freq-Indexed : Indexed 0 (compute_freq file)
  compute_freq-Indexed = (counted 0).indexed

  pub length-compute_freq : length (compute_freq file) ≡ 256
  length-compute_freq = (counted 0).size ∙ length-fresh 256 0

  pub sum-compute_freq : (c : ℕ) → sum_by (v_of c) (compute_freq file) ≡ count c (readable file)
  sum-compute_freq c = omega (arith, (counted c).sum, sum-fresh c 256 0)

  pub total-compute_freq : sum_by (λ e. e.v) (compute_freq file) ≡ length (readable file)
  total-compute_freq = omega (arith, (counted 0).total, total-fresh 256 0)

-- For a file of bytes with fewer than 2^31 in front of the first byte 255, the entry of the frequency table with a character's number is that of the
-- character, and counts how often it occurs in front of the first byte 255 of the file.
pub compute_freq-counts :
    (c : ℕ) (file : List ℕ)
    → Bytes file
    → length (readable file) < int_sign
    → c < number_of_chars
    → get_elem? (compute_freq file) c ≡ some (record { v = count c (readable file); c = c })
compute_freq-counts c file b short h = rw (← sum-compute_freq file b short c) (
    get-Indexed c c 0 (compute_freq file) (compute_freq-Indexed file b short) (omega arith)
      (omega (arith, length-compute_freq file b short)))
