-- ===== src/Huffman/Serial/Records.antt =====
-- tree.c, a record of a tree in a file: what `fprintf` has written, `fscanf` reads.
use projects_in_c.Base.{ℕ, ◌<◌, ◌≡◌, refl, ◌∙◌, List, ◌∷◌, ◌++◌, some, append_assoc}
use projects_in_c.Base.Words.{word}
use projects_in_c.Base.Decimal.{print_int, scan_int}
use projects_in_c.Base.Decimal.RoundTrip.{NoDigit, scan_int-print_int, scan_int-space}
use projects_in_c.Huffman.Serial.{Values, print_values, scan_values}

-- Every value is an `int`.
pub record AreInts (v : Values) : Type 0 where
  pub type : v.type < word
  pub id : v.id < word
  pub fval : v.fval < word
  pub fch : v.fch < word
  pub left : v.left < word
  pub right : v.right < word

scan_next :
    (x : ℕ) (cs : List ℕ)
    → x < word
    → NoDigit cs
    → scan_int (b' ' ∷ (print_int x ++ cs)) ≡ some (x, cs)
scan_next x cs h stop = scan_int-space (print_int x ++ cs) ∙ scan_int-print_int x cs h stop

values_text :
    (v : Values) (rest : List ℕ)
    → print_values v ++ rest
      ≡ print_int v.type
        ++ (b' '
            ∷ (print_int v.id
                ++ (b' '
                    ∷ (print_int v.fval
                        ++ (b' '
                            ∷ (print_int v.fch
                                ++ (b' '
                                    ∷ (print_int v.left
                                        ++ (b' ' ∷ (print_int v.right ++ (b',' ∷ rest)))))))))))
unfolding print_values
values_text v rest = simp append_assoc

-- A record is read back, up to what stands behind it.
pub scan_values-print_values :
    (v : Values) (rest : List ℕ) → AreInts v → scan_values (print_values v ++ rest) ≡ some (v, rest)
unfolding scan_values
scan_values-print_values v rest ints = rw (values_text v rest) (
    rw (
      scan_int-print_int v.type _ ints.type refl,
      scan_next v.id _ ints.id refl,
      scan_next v.fval _ ints.fval refl,
      scan_next v.fch _ ints.fch refl,
      scan_next v.left _ ints.left refl,
      scan_next v.right (b',' ∷ rest) ints.right refl,
    ))
