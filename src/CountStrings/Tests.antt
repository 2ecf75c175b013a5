-- ===== src/CountStrings/Tests.antt =====
-- The theorems about counted strings at concrete inputs: the string "aba" in the text "ababa".
use projects_in_c.Base.{ℕ, ◌≡◌, refl, List, [], ◌∷◌, some, none, take, arith}
use projects_in_c.CountStrings.{
  count_strings, count_occurrences, count_entries, prepare_table, c_string, fgets, strstr,
  max_strings, count_strings_main,
}
use projects_in_c.CountStrings.Line.{places}
use projects_in_c.CountStrings.Report.{report, count_strings_main-report}
use projects_in_c.Base.Text.{codes}
use projects_in_c.Base.Decimal.{print_int, digits}
use projects_in_c.CountStrings.Cut.{LinesFit, Lacks}

abbrev ababa : List ℕ
ababa = 97 ∷ 98 ∷ 97 ∷ 98 ∷ 97 ∷ []

abbrev aba : List ℕ
aba = 97 ∷ 98 ∷ 97 ∷ []

-- The places may overlap.
aba_twice : places aba ababa ≡ 2
aba_twice = refl

ababa-LinesFit : LinesFit 0 ababa
ababa-LinesFit = (omega arith, (omega arith, (omega arith, (omega arith, (omega arith, tt)))))

ababa-Lacks : Lacks 0 ababa
ababa-Lacks = (refl, (refl, (refl, (refl, (refl, tt)))))

count_strings_main-report_example :
    count_strings_main (codes "count-strings") (aba ∷ []) ababa
    ≡ some (0, report ababa (take max_strings (aba ∷ [])))
count_strings_main-report_example =
    count_strings_main-report (codes "count-strings") aba [] ababa
      (tt, (refl, (refl, (refl, tt))), tt) ababa-LinesFit ababa-Lacks

report-ababa : report ababa (aba ∷ []) ≡ codes "aba: 2\n"
unfolding print_int digits
report-ababa = refl

-- A search for the empty string runs over the end of the line.
empty_string_faults : count_strings ([] ∷ []) aba ≡ none
unfolding count_strings count_occurrences count_entries prepare_table c_string fgets strstr
empty_string_faults = refl
