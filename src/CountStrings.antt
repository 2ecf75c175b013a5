-- ===== src/CountStrings.antt =====
-- count-strings-proj/count-strings.c: how often given strings occur in a text. A C string is the list
-- of its characters in front of the terminator, and a pointer into it is the rest of the string from
-- there on. `fgets` and `strstr` are those of the C library.
pub mod Line
pub mod Cut
pub mod Text
pub mod Report
mod Tests
use projects_in_c.Base.{
  ℕ, zero, suc, ◌+◌, ◌-◌, List, [], ◌∷◌, ◌++◌, Option, none, some, Bool, true, false, ◌&&◌, ◌==◌,
  if◌then◌else◌, map, take, length, ◌>>=◌,
}
use projects_in_c.Base.Words.{add}
use projects_in_c.Base.Text.{codes}
use projects_in_c.Base.Decimal.{print_int}

pub record Entry : Type 0 where
  pub string : List ℕ
  pub count : ℕ

abbrev pub line_max_chars : ℕ
line_max_chars = 1000

abbrev pub max_strings : ℕ
max_strings = 50

unfoldable pub prepare_table : List (List ℕ) → List Entry
prepare_table [] = []
prepare_table (s ∷ strings) = record { string = s; count = 0 } ∷ prepare_table strings

-- What `fgets` reads with room for `n` characters, and what it leaves in the file.
unfoldable pub fgets : ℕ → List ℕ → List ℕ × List ℕ
fgets zero cs = ([], cs)
fgets (suc n) [] = ([], [])
fgets (suc n) (c ∷ cs) =
    let (line, left) = fgets n cs in if c == b'\n' then (c ∷ [], cs) else (c ∷ line, left)

-- The string in a buffer with these characters.
unfoldable pub c_string : List ℕ → List ℕ
c_string [] = []
c_string (c ∷ cs) = if c == 0 then [] else c ∷ c_string cs

abbrev pub is_prefix : List ℕ → List ℕ → Bool
is_prefix [] cs = true
is_prefix (x ∷ xs) [] = false
is_prefix (x ∷ xs) (c ∷ cs) = x == c && is_prefix xs cs

-- The first place of the string, if there is any.
unfoldable pub strstr : List ℕ → List ℕ → Option (List ℕ)
strstr s [] = if is_prefix s [] then some [] else none
strstr s (c ∷ cs) = let rest = strstr s cs in if is_prefix s (c ∷ cs) then some (c ∷ cs) else rest

-- The inner loop of `count_occurrences`, with fuel for its rounds: the count of a string after the
-- places from `found` on. A fault is a search that starts behind the terminator.
unfoldable pub count_line : ℕ → List ℕ → List ℕ → ℕ → Option ℕ
count_line zero s found count = none
count_line (suc fuel) s found count = elim (strstr s found) [
  | none ↦ some count
  | some [] ↦ none
  | some (c ∷ cs) ↦ count_line fuel s cs (add count 1)
]

-- The loop over the entries, for one line.
unfoldable pub count_entries : List ℕ → List Entry → Option (List Entry)
unfolding count_line
count_entries line [] = some []
count_entries line (e ∷ es) =
    let rest = count_entries line es in
    count_line (length line + 1) e.string line e.count >>= λ k.
    rest >>= λ es'. some (record e { count = k } ∷ es')

-- The loop over the lines, with fuel for its rounds. `fgets` gives no line at the end of the file.
unfoldable pub count_occurrences : ℕ → List ℕ → List Entry → Option (List Entry)
count_occurrences zero file entries = none
count_occurrences (suc fuel) file entries = elim file [
  | [] ↦ some entries
  | c ∷ cs ↦
      let (line, left) = fgets (line_max_chars - 1) (c ∷ cs) in
      count_entries (c_string line) entries >>= λ es. count_occurrences fuel left es
]

-- `main` from the count of its arguments on, with the strings of the command line: the table.
unfoldable pub count_strings : List (List ℕ) → List ℕ → Option (List Entry)
count_strings strings file =
    count_occurrences (length file + 1) file (prepare_table (take max_strings strings))

-- "%s: %d\n" for each entry: what `print_occurrences` prints.
unfoldable pub print_occurrences : List Entry → List ℕ
print_occurrences [] = []
print_occurrences (e ∷ es) =
    e.string ++ b':' ∷ (b' ' ∷ (print_int e.count ++ b'\n' ∷ print_occurrences es))

-- What `main` prints where there is no string on the command line.
unfoldable pub usage : (program : List ℕ) → List ℕ
usage program =
    codes "Usage: "
    ++ program
    ++ codes " s1 s2 s3 ...\n"
    ++ codes "  Reads text from standard input and counts how many times\n"
    ++ codes "  each string s1, s2, etc., occurs in the standard input text.\n"
    ++ codes "  The program will consider up to 50 strings to search for;\n"
    ++ codes "  any more than that wll be ignored.  Matches must be exact,\n"
    ++ codes "  including upper/lower case.  Lines read from the input\n"
    ++ codes "  are expected to be no more than "
    ++ print_int line_max_chars
    ++ codes " characters long.\n"
    ++ codes "Example output:\n"
    ++ codes "  If the invocation is \""
    ++ program
    ++ codes " my friend flicka\"\n"
    ++ codes "  the output may look like:\n"
    ++ codes "my: 17\n"
    ++ codes "friend: 0\n"
    ++ codes "flicka: 4\n"

-- `main` for the program's name and the strings of the command line: the exit status, and what is
-- printed.
unfoldable pub count_strings_main :
    (program : List ℕ) → List (List ℕ) → List ℕ → Option (ℕ × List ℕ)
unfolding usage print_occurrences
count_strings_main program [] file = some (1, usage program)
count_strings_main program (s ∷ strings) file =
    count_strings (s ∷ strings) file >>= λ entries. some (0, print_occurrences entries)
