-- ===== src/Huffman/Serial/Rounds.antt =====
-- tree.c, the main loop of `tree_deserialize`: it ends on every file.
use projects_in_c.Base.{
  ℕ, zero, suc, ◌+◌, ◌≤◌, ◌<◌, ◌≡◌, refl, ap, List, [], ◌∷◌, Option, none, some, Bool, true, false,
  ◌==◌, ◌||◌, arith, length, >>=-eq-some, Bool-cases, Option-cases, inl, inr,
}
use projects_in_c.Base.Stdio.{File, fgetc}
use projects_in_c.Base.Decimal.{scan_int}
use projects_in_c.Base.Decimal.Length.{scan_int-Shorter}
use projects_in_c.Huffman.Tree.{Tree, tree_new}
use projects_in_c.Huffman.Serial.{
  Values, scan_values, skip_comma, at_end, add_node, use_values, read_record, read_records,
}

scan_int-lt : (cs rest : List ℕ) (n : ℕ) → scan_int cs ≡ some (n, rest) → length rest < length cs
scan_int-lt cs rest n e = rw e at (scan_int-Shorter cs)

skip_comma-le : (cs : List ℕ) → length (skip_comma cs) ≤ length cs
skip_comma-le [] = omega arith
skip_comma-le (c ∷ cs) = ground arith

some-second :
    {A B : Type 0} {a a' : A} {b b' : B}
    → ◌≡◌ {A = Option (A × B)} (some (a, b)) (some (a', b'))
    → b ≡ b'
some-second e = cc

scan_values-lt :
    (cs rest : List ℕ) (v : Values) → scan_values cs ≡ some (v, rest) → length rest < length cs
unfolding scan_values
scan_values-lt cs rest v e =
    let ((n₁, i₁), e₁, r₁) = >>=-eq-some (scan_int cs) _ e in
    let ((n₂, i₂), e₂, r₂) = >>=-eq-some (scan_int i₁) _ r₁ in
    let ((n₃, i₃), e₃, r₃) = >>=-eq-some (scan_int i₂) _ r₂ in
    let ((n₄, i₄), e₄, r₄) = >>=-eq-some (scan_int i₃) _ r₃ in
    let ((n₅, i₅), e₅, r₅) = >>=-eq-some (scan_int i₄) _ r₄ in
    let ((n₆, i₆), e₆, r₆) = >>=-eq-some (scan_int i₅) _ r₅ in
    let end = some-second r₆ in
    omega (
      arith,
      scan_int-lt cs i₁ n₁ e₁,
      scan_int-lt i₁ i₂ n₂ e₂,
      scan_int-lt i₂ i₃ n₃ e₃,
      scan_int-lt i₃ i₄ n₄ e₄,
      scan_int-lt i₄ i₅ n₅ e₅,
      scan_int-lt i₅ i₆ n₆ e₆,
      skip_comma-le i₆,
      ap length end,
    )

at_end-le :
    (input : List ℕ) (fp : File)
    → length (at_end (record fp { input = input })).1.input ≤ length input
unfolding at_end fgetc
at_end-le [] fp = omega arith
at_end-le (c ∷ cs) fp = elim (Bool-cases (c == b'#' || c == 255)) [
  | inl used ↦ rw used (omega arith)
  | inr back ↦ rw back (omega arith)
]

-- The file of a round's result.
abbrev file_of : File → Option (Option (Bool × List Tree × File)) → File
file_of fp none = fp
file_of fp (some none) = fp
file_of fp (some (some (done, head, fp'))) = fp'

use_values-lt :
    (o : Option (Values × List ℕ)) (head head' : List Tree) (fp fp' : File) (done : Bool) (n : ℕ)
    → ((v : Values) (rest : List ℕ) → o ≡ some (v, rest) → length rest < n)
    → use_values o head fp ≡ some (some (done, head', fp'))
    → length fp'.input < n
unfolding use_values
use_values-lt none head head' fp fp' done n h e = cc
use_values-lt (some (v, input)) head head' fp fp' done n h e =
    let (list, added, eq) = >>=-eq-some (add_node v head) _ e in
    let file = ap (file_of fp) eq in
    omega (arith, h v input refl, at_end-le input fp, ap (λ (f : File). length f.input) file)

read_record-lt :
    (head head' : List Tree) (fp fp' : File) (done : Bool)
    → read_record head fp ≡ some (some (done, head', fp'))
    → length fp'.input < length fp.input
unfolding read_record
read_record-lt head head' fp fp' done e =
    use_values-lt (scan_values fp.input) head head' fp fp' done (length fp.input)
      (λ v rest. scan_values-lt fp.input rest v) e

-- The loop, as the rounds it makes, each of which is there: what it ends with from a list, the counter
-- and a file. There is no way to go on for ever, and no fuel.
pub data Ends : List Tree → ℕ → File → Option (Option (List Tree × File) × ℕ) → Type 0 where
  faulted :
      (head : List Tree) (ids : ℕ) (fp : File) → read_record head fp ≡ none → Ends head ids fp none
  no_record :
      (head : List Tree) (ids : ℕ) (fp : File)
      → read_record head fp ≡ some none
      → Ends head ids fp (some (none, ids))
  delimited :
      (head head' : List Tree) (ids : ℕ) (fp fp' : File)
      → read_record head fp ≡ some (some (true, head', fp'))
      → Ends head ids fp (some (some (head', fp'), ids + 1))
  again :
      (head head' : List Tree) (ids : ℕ) (fp fp' : File)
      (o : Option (Option (List Tree × File) × ℕ))
      → read_record head fp ≡ some (some (false, head', fp'))
      → Ends head' (ids + 1) fp' o
      → Ends head ids fp o

after_record :
    (fuel : ℕ) (head head' : List Tree) (ids : ℕ) (fp fp' : File) (done : Bool)
    → read_record head fp ≡ some (some (done, head', fp'))
    → Ends head' (ids + 1) fp' (read_records fuel head' (ids + 1) fp')
    → Ends head ids fp (read_records (suc fuel) head ids fp)
unfolding read_records tree_new
after_record fuel head head' ids fp fp' true e rest =
    rw (read_records, e) (delimited head head' ids fp fp' e)
after_record fuel head head' ids fp fp' false e rest =
    rw (read_records, e) (again head head' ids fp fp' _ e rest)

-- The main loop comes to its end on every file, also on one that holds no tree: with fuel for one round
-- more than the file has characters, the result of `read_records` is what a finite run of the rounds
-- ends with. The last round is a fault, finds no record, or is followed by a '#', and each round
-- before it reads a record that is not; the fuel never runs out.
pub read_records-Ends :
    (fuel : ℕ) (head : List Tree) (ids : ℕ) (fp : File)
    → length fp.input < fuel
    → Ends head ids fp (read_records fuel head ids fp)
unfolding read_records tree_new
read_records-Ends zero head ids fp enough = absurd (omega arith)
read_records-Ends (suc fuel) head ids fp enough = elim (Option-cases (read_record head fp)) [
  | inl fault ↦ rw fault (faulted head ids fp fault)
  | inr (none, e) ↦ rw e (no_record head ids fp e)
  | inr (some (done, head', fp'), e) ↦ after_record fuel head head' ids fp fp' done e (
      read_records-Ends fuel head' (ids + 1) fp'
        (omega (arith, read_record-lt head head' fp fp' done e)))
]
