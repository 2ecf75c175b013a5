-- ===== src/Huffman/Serial/Read.antt =====
-- tree.c, the main loop of `tree_deserialize` over the records of a tree.

use projects_in_c.Base.{
  ℕ, suc, ◌+◌, ◌<◌, ◌≡◌, refl, sym, ap, ◌∙◌, ap₂, List, [], ◌∷◌, ◌++◌, Option, some, Bool, false,
  ◌==◌, if◌then◌else◌, arith, append_assoc, Bool-cases, inl, inr,
}
use projects_in_c.Base.Stdio.{File, fgetc}
use projects_in_c.Base.Sums.{sum_by-append}
use projects_in_c.Huffman.Tree.{Tree, null, node, internal, leaf, tree_size, tree_new, Frequency}
use projects_in_c.Huffman.Tree.Shape.{IsCoding}
use projects_in_c.Base.Decimal.{print_int}
use projects_in_c.Base.Decimal.RoundTrip.{print_int-starts}
use projects_in_c.Huffman.Serial.{
  Values, values_of, print_values, at_end, add_node, use_values, read_record, read_records,
}
use projects_in_c.Huffman.Serial.Children.{has_id, left_over}
use projects_in_c.Huffman.Serial.Records.{AreInts, scan_values-print_values}
use projects_in_c.Huffman.Serial.Write.{text_of}
use projects_in_c.Huffman.Serial.Nodes.{
  Fits, id_count, IdsDiffer, garbage, heads-garbage, values_of-AreInts, Apart, add_leaf,
  add_internal, IdsDiffer-Siblings,
}

module _ (fp : File) where
  -- The file, read up to a rest.
  abbrev pub at : List ℕ → File
  at cs = record fp { input = cs }

  -- How the loop goes on behind a record: '#' is its end.
  unfoldable pub next : ℕ → List Tree → ℕ → ℕ → List ℕ → Option (Option (List Tree × File) × ℕ)
  next fuel head ids c rest =
      let more = read_records fuel head ids (at (c ∷ rest)) in
      if c == b'#' then some (some (head, at rest), ids) else more

  at_end_lem :
      (c : ℕ) (rest : List ℕ)
      → c < 255
      → at_end (at (c ∷ rest)) ≡ (c == b'#', at (if c == b'#' then rest else c ∷ rest))
  unfolding at_end fgetc
  at_end_lem c rest h = elim (Bool-cases (c == b'#')) [
    | inl last ↦ rw last
    | inr more ↦ let not_eof : (c == 255) ≡ false = ground arith in rw (more, not_eof)
  ]

  read_record_lem :
      (v : Values) (head head' : List Tree) (c : ℕ) (rest : List ℕ)
      → AreInts v
      → add_node v head ≡ some head'
      → c < 255
      → read_record head (at (print_values v ++ (c ∷ rest)))
        ≡ some (some (c == b'#', head', at (if c == b'#' then rest else c ∷ rest)))
  unfolding read_record
  read_record_lem v head head' c rest ints added small =
      ap (λ o. use_values o head (at (print_values v ++ (c ∷ rest))))
        (scan_values-print_values v (c ∷ rest) ints)
      ∙ rw added (ap (λ (o : Bool × File). some (some (o.0, head', o.1))) (at_end_lem c rest small))

  read_records-record :
      (fuel : ℕ) (v : Values) (head head' : List Tree) (ids c : ℕ) (rest : List ℕ)
      → AreInts v
      → add_node v head ≡ some head'
      → c < 255
      → read_records (suc fuel) head ids (at (print_values v ++ (c ∷ rest)))
        ≡ next fuel head' (ids + 1) c rest
  unfolding read_records next tree_new
  read_records-record fuel v head head' ids c rest ints added small =
      rw (read_record_lem v head head' c rest ints added small)
        (elim (Bool-cases (c == b'#')) [ inl last ↦ rw last | inr more ↦ rw more ])

  next-more :
      (fuel : ℕ) (head : List Tree) (ids d : ℕ) (rest : List ℕ)
      → (d == b'#') ≡ false
      → next fuel head ids d rest ≡ read_records fuel head ids (at (d ∷ rest))
  unfolding next
  next-more fuel head ids d rest h = rw h

pub print_values-starts :
    (v : Values)
    → (d : ℕ) × (ds : List ℕ) × (print_values v ≡ d ∷ ds) × ((d == b'#') ≡ false) × (d < 255)
unfolding print_values
print_values-starts v =
    let (d, ds, e, _, other, small) = print_int-starts v.type in
    let behind : List ℕ =
      b' '
      ∷ (print_int v.id
          ++ b' '
            ∷ (print_int v.fval
                ++ b' '
                  ∷ (print_int v.fch
                      ++ b' ' ∷ (print_int v.left ++ b' ' ∷ (print_int v.right ++ b',' ∷ []))))) in
    (d, ds ++ behind, ap (λ (cs : List ℕ). cs ++ behind) e, ground arith, small)

text_of-starts :
    (t : Tree)
    → IsCoding t
    → (d : ℕ) × (ds : List ℕ) × (text_of t ≡ d ∷ ds) × ((d == b'#') ≡ false) × (d < 255)
text_of-starts null h = absurd h
text_of-starts (node id leaf f null null) h = print_values-starts (values_of leaf id f null null)
text_of-starts (node id leaf f null (node _ _ _ _ _)) h = absurd h
text_of-starts (node id leaf f (node _ _ _ _ _) _) h = absurd h
text_of-starts (node id internal f l r) (cl, cr, sum) =
    let (d, ds, e, other, small) = text_of-starts l cl in
    (
      d,
      ds ++ (text_of r ++ print_values (values_of internal id f l r)),
      ap (λ (cs : List ℕ). cs ++ (text_of r ++ print_values (values_of internal id f l r))) e,
      other,
      small,
    )

id_count-zero : (t : Tree) → Fits t → id_count 0 t ≡ 0
id_count-zero null h = refl
id_count-zero (node id _ _ l r) h = ground (arith, id_count-zero l h.4, id_count-zero r h.5)

Apart-left :
    (id : ℕ) (f : Frequency) (l r : Tree) (hs : List Tree)
    → Apart (node id internal f l r) hs
    → Apart l hs
Apart-left id f l r hs a = record { ids = λ k h. a.ids k (omega arith); no_zero = a.no_zero }

Apart-right :
    (id : ℕ) (f : Frequency) (l r : Tree) (hs : List Tree)
    → IsCoding l
    → Fits l
    → IdsDiffer (node id internal f l r)
    → Apart (node id internal f l r) hs
    → Apart r (l ∷ (garbage l ++ hs))
Apart-right id f l r hs cl fits differ a = record {
  ids = λ k h. omega (
    arith,
    differ k,
    a.ids k (omega arith),
    heads-garbage k l cl,
    sum_by-append (has_id k) (garbage l) hs,
  );
  no_zero = omega (
    arith,
    a.no_zero,
    id_count-zero l fits,
    heads-garbage 0 l cl,
    sum_by-append (has_id 0) (garbage l) hs,
  );
}

module _ (fp : File) where
  -- What starts like the text `xs` is no end of the records.
  next_text :
      (fuel : ℕ) (head : List Tree) (ids d : ℕ) (ds xs rest : List ℕ)
      → xs ≡ d ∷ ds
      → (d == b'#') ≡ false
      → next fp fuel head ids d (ds ++ rest) ≡ read_records fuel head ids (at fp (xs ++ rest))
  next_text fuel head ids d ds xs rest e h =
      next-more fp fuel head ids d (ds ++ rest) h
      ∙ ap (λ (cs : List ℕ). read_records fuel head ids (at fp (cs ++ rest))) (sym e)

  -- The last record of an inner node, behind those of its subtrees.
  read_inner :
      (id : ℕ) (f : Frequency) (l r : Tree) (hs : List Tree) (ids c fuel : ℕ) (rest : List ℕ)
      → IsCoding l
      → IsCoding r
      → Fits (node id internal f l r)
      → IdsDiffer (node id internal f l r)
      → Apart (node id internal f l r) hs
      → c < 255
      → read_records
          (suc fuel)
          (r ∷ (garbage r ++ (l ∷ (garbage l ++ hs))))
          ids
          (at fp (print_values (values_of internal id f l r) ++ (c ∷ rest)))
        ≡ next fp fuel
            (node id internal f l r ∷ (garbage (node id internal f l r) ++ hs))
            (ids + 1)
            c
            rest
  read_inner id f l r hs ids c fuel rest cl cr fits differ apart small =
      let own =
        add_internal id f l r (garbage l ++ hs) (omega arith)
          (IdsDiffer-Siblings id f l r hs cl cr differ apart) in
      let order : garbage r ++ (left_over (garbage r) l ++ (garbage l ++ hs))
          ≡ garbage (node id internal f l r) ++ hs =
        simp append_assoc in
      read_records-record fp fuel (values_of internal id f l r) _ _ ids c rest
        (values_of-AreInts id internal f l r fits) own small
      ∙ ap (λ (kept : List Tree). next fp fuel (node id internal f l r ∷ kept) (ids + 1) c rest)
          order

  -- The records of a tree put it in front of the list, with what stays of its nodes behind it.
  pub read_tree :
      (t : Tree) (hs : List Tree) (ids c fuel : ℕ) (rest : List ℕ)
      → IsCoding t
      → Fits t
      → IdsDiffer t
      → Apart t hs
      → c < 255
      → read_records (tree_size t + fuel) hs ids (at fp (text_of t ++ (c ∷ rest)))
        ≡ next fp fuel (t ∷ (garbage t ++ hs)) (ids + tree_size t) c rest
  unfolding tree_size
  read_tree null hs ids c fuel rest coding fits differ apart small = absurd coding
  read_tree (node id leaf f null null) hs ids c fuel rest coding fits differ apart small =
      ap
        (λ n.
          read_records n hs ids
            (at fp (print_values (values_of leaf id f null null) ++ (c ∷ rest))))
        (omega arith)
      ∙ read_records-record fp fuel (values_of leaf id f null null) hs _ ids c rest
          (values_of-AreInts id leaf f null null fits)
          (add_leaf id f hs (omega arith) apart.no_zero) small
      ∙ ap (λ n. next fp fuel (node id leaf f null null ∷ hs) n c rest) (omega arith)
  read_tree (node id leaf f null (node _ _ _ _ _)) hs ids c fuel rest coding fits differ apart
        small =
      absurd coding
  read_tree (node id leaf f (node _ _ _ _ _) _) hs ids c fuel rest coding fits differ apart small =
      absurd coding
  read_tree (node id internal f l r) hs ids c fuel rest (cl, cr, sum) fits differ apart small =
      let own : List ℕ = print_values (values_of internal id f l r) in
      let back : List Tree = garbage l ++ hs in
      let (d, ds, e, other, low) = text_of-starts r cr in
      let (d', ds', e', other', low') = print_values-starts (values_of internal id f l r) in
      let left = tree_size l in
      let right = tree_size r in
      ap₂ (λ n (cs : List ℕ). read_records n hs ids (at fp cs)) (omega arith)
        (append_assoc (text_of l) (text_of r ++ own) (c ∷ rest)
          ∙ ap (λ (cs : List ℕ). text_of l ++ cs)
              (append_assoc (text_of r) own (c ∷ rest)
                ∙ ap (λ (cs : List ℕ). cs ++ (own ++ (c ∷ rest))) e))
      ∙ read_tree l hs ids d (right + suc fuel) (ds ++ (own ++ (c ∷ rest))) cl fits.4
          (λ k. omega (arith, differ k)) (Apart-left id f l r hs apart) low
      ∙ next_text (right + suc fuel) (l ∷ back) (ids + left) d ds (text_of r) (own ++ (c ∷ rest)) e
          other
      ∙ ap
          (λ (cs : List ℕ).
            read_records (right + suc fuel) (l ∷ back) (ids + left)
              (at fp (text_of r ++ (cs ++ (c ∷ rest)))))
          e'
      ∙ read_tree r (l ∷ back) (ids + left) d' (suc fuel) (ds' ++ (c ∷ rest)) cr fits.5
          (λ k. omega (arith, differ k)) (Apart-right id f l r hs cl fits.4 differ apart) low'
      ∙ next_text (suc fuel) (r ∷ (garbage r ++ (l ∷ back))) (ids + left + right) d' ds' own
          (c ∷ rest) e' other'
      ∙ read_inner id f l r hs (ids + left + right) c fuel rest cl cr fits differ apart small
      ∙ ap
          (λ n.
            next fp fuel (node id internal f l r ∷ (garbage (node id internal f l r) ++ hs)) n c
              rest)
          (omega arith)
