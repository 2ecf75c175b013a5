-- ===== src/CountStrings/Text.antt =====
-- count-strings.c: the counts of a whole text.
use projects_in_c.Base.{
  ℕ, zero, suc, ◌+◌, ◌%◌, ◌<◌, ◌≡◌, refl, ap, ap₂, sym, ◌∙◌, List, [], ◌∷◌, some, length, take,
  arith,
}
use projects_in_c.Base.Words.{word}
use projects_in_c.CountStrings.{
  Entry, fgets, c_string, count_occurrences, prepare_table, count_strings, max_strings,
}
use projects_in_c.CountStrings.Line.{places, IsString, counted, AreEntries, count_entries_lem}
use projects_in_c.CountStrings.Cut.{Cut, Lacks, LinesFit, fgets-Cut}

c_string-text : (cs : List ℕ) → Lacks 0 cs → c_string cs ≡ cs
unfolding c_string
c_string-text [] l = refl
c_string-text (c ∷ cs) l = rw (l.0, c_string-text cs l.1)

-- Every entry's string has no newline.
abbrev pub OnOneLine : List Entry → Type 0
OnOneLine [] = Unit
OnOneLine (e ∷ es) = Lacks b'\n' e.string × OnOneLine es

counted-OnOneLine : (cs : List ℕ) (es : List Entry) → OnOneLine es → OnOneLine (counted cs es)
counted-OnOneLine cs [] h = tt
counted-OnOneLine cs (e ∷ es) h = (h.0, counted-OnOneLine cs es h.1)

counted-AreEntries : (cs : List ℕ) (es : List Entry) → AreEntries es → AreEntries (counted cs es)
counted-AreEntries cs [] h = tt
counted-AreEntries cs (e ∷ es) h = (h.0, omega arith, counted-AreEntries cs es h.2)

-- Counting a line and then what is left is counting the whole.
counted-counted :
    (cs line left : List ℕ) (es : List Entry)
    → Cut cs line left
    → AreEntries es
    → OnOneLine es
    → counted left (counted line es) ≡ counted cs es
counted-counted cs line left [] r h one = refl
counted-counted cs line left (e ∷ es) r h one =
    ap₂ (λ (k : ℕ) (ks : List Entry). record e { count = k } ∷ ks)
      (omega (arith, r.counts e.string one.0 h.0)) (counted-counted cs line left es r h.2 one.1)

counted-nil : (es : List Entry) → AreEntries es → counted [] es ≡ es
counted-nil [] h = refl
counted-nil (e ∷ es) h =
    ap₂ (λ (k : ℕ) (ks : List Entry). record e { count = k } ∷ ks) (omega (arith, h.1))
      (counted-nil es h.2)

count_occurrences_lem :
    (fuel : ℕ) (file : List ℕ) (es : List Entry)
    → length file < fuel
    → LinesFit 0 file
    → Lacks 0 file
    → AreEntries es
    → OnOneLine es
    → count_occurrences fuel file es ≡ some (counted file es)
unfolding count_occurrences
count_occurrences_lem zero file es lt fit nul h one = absurd (omega arith)
count_occurrences_lem (suc fuel) [] es lt fit nul h one = ap some (sym (counted-nil es h))
count_occurrences_lem (suc fuel) (c ∷ cs) es lt fit nul h one =
    let line : List ℕ = (fgets 999 (c ∷ cs)).0 in
    let left : List ℕ = (fgets 999 (c ∷ cs)).1 in
    let r : Cut (c ∷ cs) line left = fgets-Cut 999 0 (c ∷ cs) (omega arith) fit nul in
    rw (c_string-text line r.line_text, count_entries_lem line es h)
      (count_occurrences_lem fuel left (counted line es) (omega (arith, r.shorter)) r.fit
          r.left_text (counted-AreEntries line es h) (counted-OnOneLine line es one)
        ∙ ap some (counted-counted (c ∷ cs) line left es r h one))

-- The strings are not empty and have no newline.
abbrev pub AreSearched : List (List ℕ) → Type 0
AreSearched [] = Unit
AreSearched (s ∷ ss) = IsString s × Lacks b'\n' s × AreSearched ss

-- Each string with the number of its places in a text.
abbrev pub totals : List ℕ → List (List ℕ) → List Entry
totals cs [] = []
totals cs (s ∷ ss) = record { string = s; count = places s cs % word } ∷ totals cs ss

prepared :
    (cs : List ℕ) (ss : List (List ℕ))
    → AreSearched ss
    → AreEntries (prepare_table ss)
      × OnOneLine (prepare_table ss)
      × (counted cs (prepare_table ss) ≡ totals cs ss)
unfolding prepare_table
prepared cs [] h = (tt, tt, refl)
prepared cs (s ∷ ss) h =
    let (entries, one, e) = prepared cs ss h.2 in
    (
      (h.0, omega arith, entries),
      (h.1, one),
      ap₂ (λ (k : ℕ) (ks : List Entry). record { string = s; count = k } ∷ ks) (omega arith) e,
    )

-- For a text with no zero byte and no line of more than 999 characters (its newline included), and
-- where the first 50 strings of the command line are not empty and have no newline: the program ends
-- without a fault, and its table has those strings in their order, each with the number of places of
-- the text at which it occurs (modulo 2^32), overlapping ones included.
pub count_strings-totals :
    (strings : List (List ℕ)) (text : List ℕ)
    → AreSearched (take max_strings strings)
    → LinesFit 0 text
    → Lacks 0 text
    → count_strings strings text ≡ some (totals text (take max_strings strings))
unfolding count_strings
count_strings-totals strings text h fit nul =
    let (entries, one, e) = prepared text (take max_strings strings) h in
    count_occurrences_lem (length text + 1) text (prepare_table (take max_strings strings))
      (omega arith) fit nul entries one
    ∙ ap some e
