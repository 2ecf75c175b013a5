-- ===== src/WordFrequency/Wset/Lookup.antt =====
-- wset.c: the frequencies that a set holds, as a function of the word.
use projects_in_c.Base.{
  ℕ, ◌≡◌, refl, ap, sym, ◌∙◌, List, [], ◌∷◌, ◌++◌, Option, none, some, if◌then◌else◌, get_elem?,
  set, take, drop, Bool-cases, Option-cases, inl, inr,
}
use mathlib.Core.Path.{subst⁻¹}
use projects_in_c.Base.Words.{add}
use projects_in_c.WordFrequency.Wset.{
  WordNode, WordSet, same_word, node_new, search_from, search, unlink, counted, wset_add,
  wset_fast_add, freq_from, wset_freq,
}
use projects_in_c.WordFrequency.Wset.Search.{
  found, lookup, lookup-set, lookup-snoc, lookup-unlink, not_found, same_word_swap,
}

-- What `wset_freq` returns is the frequency of the first node with the word.
freq_from-lookup : (w : List ℕ) (ns : List WordNode) → freq_from w ns ≡ lookup w ns
unfolding freq_from
freq_from-lookup w [] = refl
freq_from-lookup w (n ∷ []) = refl
freq_from-lookup w (n ∷ m ∷ ns) = rw (freq_from-lookup w (m ∷ ns)) refl

lookup-drop :
    (w : List ℕ) (ns : List WordNode) → lookup w (drop (search_from w ns) ns) ≡ lookup w ns
unfolding search_from
lookup-drop w [] = refl
lookup-drop w (n ∷ ns) = elim (Bool-cases (same_word w n.word)) [
  | inl h ↦ rw (h, h) refl
  | inr h ↦ rw h (lookup-drop w ns)
]

pub wset_freq-lookup : (s : WordSet) (w : List ℕ) → wset_freq s w ≡ lookup w s.head
unfolding wset_freq search
wset_freq-lookup s w =
    freq_from-lookup w (drop (search_from w s.head) s.head) ∙ lookup-drop w s.head

-- The set after a word is added, by its frequencies.
abbrev IsAdded : WordSet → List ℕ → ℕ × WordSet → Type 0
IsAdded s w o =
    (o.0 ≡ add (lookup w s.head) 1)
    × ((v : List ℕ)
        → lookup v o.1.head ≡ (if same_word v w then add (lookup w s.head) 1 else lookup v s.head))

module _ (s : WordSet) (w : List ℕ) where
  -- The node that `search` stops at, if any.
  abbrev pub cell : Option WordNode
  cell = get_elem? s.head (search_from w s.head)

  pub wset_add-new :
      cell ≡ none
      → wset_add s w ≡ (
        add 0 1,
        record {
          size = add s.size 1;
          head = take (search_from w s.head) s.head ++ record { freq = add 0 1; word = w } ∷ [];
        },
      )
  unfolding wset_add search node_new
  wset_add-new e = rw (wset_add, e)

  pub wset_add-old :
      (n : WordNode)
      → cell ≡ some n
      → wset_add s w
        ≡ (add n.freq 1, record s { head = set s.head (search_from w s.head) (counted n) })
  unfolding wset_add search node_new
  wset_add-old n e = rw (wset_add, e)

  pub wset_fast_add-new :
      cell ≡ none
      → wset_fast_add s w
        ≡ (1, record { size = add s.size 1; head = record { freq = 1; word = w } ∷ s.head })
  unfolding wset_fast_add search node_new
  wset_fast_add-new e = rw (wset_fast_add, e)

  pub wset_fast_add-old :
      (n : WordNode)
      → cell ≡ some n
      → wset_fast_add s w
        ≡ (add n.freq 1, record s { head = counted n ∷ unlink s.head (search_from w s.head) })
  unfolding wset_fast_add search node_new
  wset_fast_add-old n e = rw (wset_fast_add, e)

  add-IsAdded : IsAdded s w (wset_add s w)
  add-IsAdded = elim (Option-cases cell) [
    | inl e ↦ subst⁻¹ (IsAdded s w) (wset_add-new e) (
      ap (λ (f : ℕ). add f 1) (sym (not_found w w s.head e)),
      λ v.
          lookup-snoc v w s.head (add 0 1) e
          ∙ ap (λ (f : ℕ). if same_word v w then add f 1 else lookup v s.head)
              (sym (not_found w w s.head e)),
    )
    | inr (n, e) ↦
        subst⁻¹ (IsAdded s w) (wset_add-old n e)
          (ap (λ (f : ℕ). add f 1) (found w w s.head n e).1, λ v. lookup-set v w s.head n e)
  ]

  first : cell ≡ none → 1 ≡ add (lookup w s.head) 1
  unfolding add
  first e = rw (not_found w w s.head e)

  fast_add-IsAdded : IsAdded s w (wset_fast_add s w)
  fast_add-IsAdded = elim (Option-cases cell) [
    | inl e ↦
        subst⁻¹ (IsAdded s w) (wset_fast_add-new e)
          (first e, λ v. ap (λ (f : ℕ). if same_word v w then f else lookup v s.head) (first e))
    | inr (n, e) ↦
        let (same, freq) = found w w s.head n e in
        let one_more : add n.freq 1 ≡ add (lookup w s.head) 1 = ap (λ (f : ℕ). add f 1) freq in
        subst⁻¹ (IsAdded s w) (wset_fast_add-old n e) (
          one_more,
          λ v. elim (Bool-cases (same_word v w)) [
            | inl vw ↦ rw (same_word_swap v w n.word same, vw) one_more
            | inr vw ↦ rw (same_word_swap v w n.word same, vw) (lookup-unlink v w s.head n e vw)
          ],
        )
  ]

pub wset_add-freq :
    (s : WordSet) (w : List ℕ)
    → ((wset_add s w).0 ≡ add (wset_freq s w) 1)
      × ((v : List ℕ)
          → wset_freq (wset_add s w).1 v
            ≡ (if same_word v w then add (wset_freq s w) 1 else wset_freq s v))
wset_add-freq s w =
    let (r, all) = add-IsAdded s w in
    (
      r ∙ ap (λ (f : ℕ). add f 1) (sym (wset_freq-lookup s w)),
      λ v.
          rw (wset_freq-lookup s w, wset_freq-lookup s v)
            (wset_freq-lookup (wset_add s w).1 v ∙ all v),
    )

pub wset_fast_add-freq :
    (s : WordSet) (w : List ℕ)
    → ((wset_fast_add s w).0 ≡ add (wset_freq s w) 1)
      × ((v : List ℕ)
          → wset_freq (wset_fast_add s w).1 v
            ≡ (if same_word v w then add (wset_freq s w) 1 else wset_freq s v))
wset_fast_add-freq s w =
    let (r, all) = fast_add-IsAdded s w in
    (
      r ∙ ap (λ (f : ℕ). add f 1) (sym (wset_freq-lookup s w)),
      λ v.
          rw (wset_freq-lookup s w, wset_freq-lookup s v)
            (wset_freq-lookup (wset_fast_add s w).1 v ∙ all v),
    )

-- What a way to add a word does: the result, and the frequencies afterwards.
abbrev pub Adds : (WordSet → List ℕ → ℕ × WordSet) → WordSet → List ℕ → Type 0
Adds put s w =
    ((put s w).0 ≡ add (wset_freq s w) 1)
    × ((v : List ℕ)
        → wset_freq (put s w).1 v
          ≡ (if same_word v w then add (wset_freq s w) 1 else wset_freq s v))

-- For any set and word: `wset_add`, and `wset_fast_add`, which puts the word in front of the list, each
-- return the word's frequency, one more than it was (modulo 2^32), and the set afterwards has that
-- frequency for the word and the old one for every other word.
pub both_add-freq : (s : WordSet) (w : List ℕ) → Adds wset_add s w × Adds wset_fast_add s w
both_add-freq s w = (wset_add-freq s w, wset_fast_add-freq s w)
