-- ===== src/CountStrings/Report.antt =====
-- count-strings.c, `main`: what the program prints.
use projects_in_c.Base.{ℕ, ◌%◌, ◌≡◌, refl, ap, List, [], ◌∷◌, ◌++◌, some, take}
use projects_in_c.Base.Words.{word}
use projects_in_c.Base.Decimal.{print_int}
use projects_in_c.CountStrings.{max_strings, count_strings_main, print_occurrences}
use projects_in_c.CountStrings.Line.{places}
use projects_in_c.CountStrings.Cut.{Lacks, LinesFit}
use projects_in_c.CountStrings.Text.{AreSearched, totals, count_strings-totals}

-- A line for each string, with the number of its places in a text.
abbrev pub report : List ℕ → List (List ℕ) → List ℕ
report text [] = []
report text (s ∷ ss) =
    s ++ b':' ∷ (b' ' ∷ (print_int (places s text % word) ++ b'\n' ∷ report text ss))

print_occurrences-totals :
    (text : List ℕ) (ss : List (List ℕ)) → print_occurrences (totals text ss) ≡ report text ss
unfolding print_occurrences
print_occurrences-totals text [] = refl
print_occurrences-totals text (s ∷ ss) =
    ap (λ cs. s ++ b':' ∷ (b' ' ∷ (print_int (places s text % word) ++ b'\n' ∷ cs)))
      (print_occurrences-totals text ss)

-- count-strings is given at least one string, of which the first 50 are not empty and have no
-- newline, and a text with no zero byte and no line of more than 999 characters (its newline
-- included). It ends with the status 0 and prints one line for each of the first 50 strings, in
-- their order: the string, a colon, a space, and the number of places of the text at which it
-- occurs (modulo 2^32, as an `int`), overlapping ones included.
pub count_strings_main-report :
    (program s : List ℕ) (strings : List (List ℕ)) (text : List ℕ)
    → AreSearched (take max_strings (s ∷ strings))
    → LinesFit 0 text
    → Lacks 0 text
    → count_strings_main program (s ∷ strings) text
      ≡ some (0, report text (take max_strings (s ∷ strings)))
unfolding count_strings_main
count_strings_main-report program s strings text h fit nul =
    rw (count_strings-totals (s ∷ strings) text h fit nul) (
      ap (λ (cs : List ℕ). some (0, cs))
        (print_occurrences-totals text (take max_strings (s ∷ strings))))
