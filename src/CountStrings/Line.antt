-- ===== src/CountStrings/Line.antt =====
-- count-strings.c: the count of one string in one line.
use projects_in_c.Base.{
  ℕ, zero, suc, ◌+◌, ◌%◌, ◌<◌, ◌≡◌, refl, ap, ◌∙◌, List, [], ◌∷◌, none, some, if◌then◌else◌, length,
  arith, Bool-cases, inl, inr,
}
use projects_in_c.Base.Words.{add, word, add-lt}
use projects_in_c.CountStrings.{Entry, is_prefix, strstr, count_line, count_entries}

-- At how many places of the text the string occurs; the places may overlap.
abbrev pub places : List ℕ → List ℕ → ℕ
places s [] = 0
places s (c ∷ cs) = (if is_prefix s (c ∷ cs) then 1 else 0) + places s cs

abbrev pub IsString : List ℕ → Type 0
IsString [] = ⊥
IsString (c ∷ cs) = Unit

-- What `strstr` finds.
data Found (s cs : List ℕ) : Type 0 where
  nowhere : strstr s cs ≡ none → places s cs ≡ 0 → Found s cs
  somewhere :
      (d : ℕ) (ds : List ℕ)
      → strstr s cs ≡ some (d ∷ ds)
      → places s cs ≡ 1 + places s ds
      → length ds < length cs
      → Found s cs

strstr-Found : (s cs : List ℕ) → IsString s → Found s cs
unfolding strstr
strstr-Found [] cs h = absurd h
strstr-Found (x ∷ xs) [] h = nowhere refl refl
strstr-Found (x ∷ xs) (c ∷ cs) h = elim (Bool-cases (is_prefix (x ∷ xs) (c ∷ cs))) [
  | inl here ↦ somewhere c cs (rw here) (rw here) (omega arith)
  | inr absent ↦ elim (strstr-Found (x ∷ xs) cs h) [
    | nowhere e z ↦ nowhere (rw absent e) (rw absent (omega (arith, z)))
    | somewhere d ds e more shorter ↦
        somewhere d ds (rw absent e) (rw absent (omega (arith, more))) (omega (arith, shorter))
  ]
]

one_round : (c p : ℕ) → (add c 1 + p) % word ≡ (c + (1 + p)) % word
unfolding add
one_round c p = omega arith

count_line_lem :
    (fuel : ℕ) (s found : List ℕ) (count : ℕ)
    → IsString s
    → length found < fuel
    → count < word
    → count_line fuel s found count ≡ some ((count + places s found) % word)
unfolding count_line
count_line_lem zero s found count h lt small = absurd (omega arith)
count_line_lem (suc fuel) s found count h lt small = elim (strstr-Found s found h) [
  | nowhere e z ↦ rw (count_line, e, z) (ap some (omega arith))
  | somewhere d ds e more shorter ↦
      rw (count_line, e, more)
        (count_line_lem fuel s ds (add count 1) h (omega (arith, shorter)) (add-lt count 1)
          ∙ ap some (one_round count (places s ds)))
]

-- The entries after the places in a line, or a text, are counted.
abbrev pub counted : List ℕ → List Entry → List Entry
counted cs [] = []
counted cs (e ∷ es) = record e { count = (e.count + places e.string cs) % word } ∷ counted cs es

abbrev pub AreEntries : List Entry → Type 0
AreEntries [] = Unit
AreEntries (e ∷ es) = IsString e.string × (e.count < word) × AreEntries es

pub count_entries_lem :
    (line : List ℕ) (es : List Entry)
    → AreEntries es
    → count_entries line es ≡ some (counted line es)
unfolding count_entries
count_entries_lem line [] h = refl
count_entries_lem line (e ∷ es) h = rw (
  count_line_lem (length line + 1) e.string line e.count h.0 (omega arith) h.1,
  count_entries_lem line es h.2,
)
