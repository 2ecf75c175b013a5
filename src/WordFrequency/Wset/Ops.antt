-- ===== src/WordFrequency/Wset/Ops.antt =====
-- wset.c: what the operations do to a set in which no word has two nodes.
use mathlib.Core.Path.{subst⁻¹}
use projects_in_c.Base.{
  ℕ, ◌+◌, ◌%◌, ◌<◌, ◌≡◌, refl, ap, sym, ◌∙◌, List, [], ◌∷◌, none, some, Bool, true, false, ◌==◌,
  if◌then◌else◌, drop, length, length-append, length-set, Bool-cases, Option-cases, inl, inr, arith,
}
use projects_in_c.Base.Words.{add, sub, minus_one, word}
use projects_in_c.WordFrequency.Wset.{
  WordNode, WordSet, same_word, search_from, search, unlink, wset_new, wset_size, wset_add,
  wset_fast_add, wset_remove, exists_from, wset_exists, wset_freq,
}
use projects_in_c.WordFrequency.Wset.Lookup.{
  cell, wset_add-new, wset_add-old, wset_fast_add-new, wset_fast_add-old, wset_freq-lookup,
}
use projects_in_c.WordFrequency.Wset.Search.{
  lookup, same_word_sound, found, not_found, lookup-unlink,
}
use projects_in_c.WordFrequency.Wset.Distinct.{
  has, IsWset, has-found, has-not_found, AreDistinct-set, AreDistinct-snoc, AreDistinct-unlink,
  gone, length-unlink, lookup-none,
}

size-more : (x n m : ℕ) → x ≡ n % word → m ≡ n + 1 → add x 1 ≡ m % word
unfolding add
size-more x n m e h = omega (arith, e, h)

size-less : (x n m : ℕ) → x ≡ n % word → m + 1 ≡ n → sub x 1 ≡ m % word
unfolding sub
size-less x n m e h = omega (arith, e, h)

module _ (s : WordSet) (w : List ℕ) where
  wset_remove-new : cell s w ≡ none → wset_remove s w ≡ (minus_one, s)
  unfolding wset_remove wset_size search
  wset_remove-new e = rw (wset_remove, e) (ground arith)

  wset_remove-zero : (s.size == 0) ≡ true → wset_remove s w ≡ (minus_one, s)
  unfolding wset_remove wset_size
  wset_remove-zero z = rw (wset_remove, z)

  wset_remove-old :
      (n : WordNode)
      → cell s w ≡ some n
      → (s.size == 0) ≡ false
      → wset_remove s w
        ≡ (n.freq, record { size = sub s.size 1; head = unlink s.head (search_from w s.head) })
  unfolding wset_remove wset_size search
  wset_remove-old n e h = rw (wset_remove, e, h)

module _ (s : WordSet) (w : List ℕ) (k : IsWset s) where
  add-IsWset : IsWset (wset_add s w).1
  add-IsWset = elim (Option-cases (cell s w)) [
    | inl e ↦
        let (absent, all) = has-not_found w s.head e in
        subst⁻¹ (λ (o : ℕ × WordSet). IsWset o.1) (wset_add-new s w e)
          (record {
            distinct =
                rw all
                  (AreDistinct-snoc s.head (record { freq = add 0 1; word = w }) absent k.distinct);
            size = rw all (
                size-more s.size (length s.head) _ k.size
                  (length-append s.head (record { freq = add 0 1; word = w } ∷ [])));
          })
    | inr (n, e) ↦
        subst⁻¹ (λ (o : ℕ × WordSet). IsWset o.1) (wset_add-old s w n e)
          (record {
            distinct = AreDistinct-set s.head (search_from w s.head) n e k.distinct;
            size =
                k.size
                ∙ ap (λ (m : ℕ). m % word) (sym (length-set s.head (search_from w s.head) _));
          })
  ]

  fast_add-IsWset : IsWset (wset_fast_add s w).1
  fast_add-IsWset = elim (Option-cases (cell s w)) [
    | inl e ↦
        let (absent, all) = has-not_found w s.head e in
        subst⁻¹ (λ (o : ℕ × WordSet). IsWset o.1) (wset_fast_add-new s w e)
          (record {
            distinct = (absent, k.distinct);
            size = size-more s.size (length s.head) _ k.size (omega arith);
          })
    | inr (n, e) ↦
        let i : ℕ = search_from w s.head in
        let (same, freq) = found w w s.head n e in
        let w_gone : has n.word (unlink s.head i) ≡ false =
          ap (λ (v : List ℕ). has v (unlink s.head i)) (sym (same_word_sound w n.word same))
          ∙ gone w s.head k.distinct in
        subst⁻¹ (λ (o : ℕ × WordSet). IsWset o.1) (wset_fast_add-old s w n e)
          (record {
            distinct = (w_gone, AreDistinct-unlink s.head i k.distinct);
            size = k.size ∙ ap (λ (m : ℕ). m % word) (omega (arith, length-unlink s.head i n e));
          })
  ]

  remove-IsWset : IsWset (wset_remove s w).1
  remove-IsWset = elim (Option-cases (cell s w)) [
    | inl e ↦ subst⁻¹ (λ (o : ℕ × WordSet). IsWset o.1) (wset_remove-new s w e) k
    | inr (n, e) ↦ elim (Bool-cases (s.size == 0)) [
      | inl z ↦ subst⁻¹ (λ (o : ℕ × WordSet). IsWset o.1) (wset_remove-zero s w z) k
      | inr nz ↦
          subst⁻¹ (λ (o : ℕ × WordSet). IsWset o.1) (wset_remove-old s w n e nz)
            (record {
              distinct = AreDistinct-unlink s.head (search_from w s.head) k.distinct;
              size =
                  size-less s.size (length s.head) _ k.size
                    (length-unlink s.head (search_from w s.head) n e);
            })
    ]
  ]

-- Where no word has two nodes and the size is the number of nodes (modulo 2^32), the same holds after
-- each of the operations that change the set, for any word; and it holds of a new set.
pub operations-IsWset :
    (s : WordSet) (w : List ℕ)
    → IsWset s
    → IsWset wset_new
      × IsWset (wset_add s w).1
      × IsWset (wset_fast_add s w).1
      × IsWset (wset_remove s w).1
unfolding wset_new
operations-IsWset s w k = (
  record { distinct = tt; size = refl },
  add-IsWset s w k,
  fast_add-IsWset s w k,
  remove-IsWset s w k,
)

-- What a removal returns, and what the set holds of a word afterwards.
abbrev IsRemoved : WordSet → List ℕ → ℕ × WordSet → Type 0
IsRemoved s w o =
    (o.0 ≡ (if has w s.head then lookup w s.head else minus_one))
    × ((v : List ℕ) → lookup v o.1.head ≡ (if same_word v w then 0 else lookup v s.head))

module _ (s : WordSet) (w : List ℕ) (k : IsWset s) (small : length s.head < word) where
  some-size : (n : WordNode) → cell s w ≡ some n → (s.size == 0) ≡ false
  some-size n e = ground (arith, k.size, length-unlink s.head (search_from w s.head) n e)

  remove-IsRemoved : IsRemoved s w (wset_remove s w)
  remove-IsRemoved = elim (Option-cases (cell s w)) [
    | inl e ↦
        let (absent, all) = has-not_found w s.head e in
        subst⁻¹ (IsRemoved s w) (wset_remove-new s w e) (
          rw absent refl,
          λ v. elim (Bool-cases (same_word v w)) [
            | inl vw ↦ rw vw (
                ap (λ (u : List ℕ). lookup u s.head) (same_word_sound v w vw)
                ∙ not_found w w s.head e)
            | inr vw ↦ rw vw refl
          ],
        )
    | inr (n, e) ↦ subst⁻¹ (IsRemoved s w) (wset_remove-old s w n e (some-size n e)) (
      rw (has-found w s.head n e) (found w w s.head n e).1,
      λ v. elim (Bool-cases (same_word v w)) [
        | inl vw ↦ rw vw (
            ap (λ (u : List ℕ). lookup u (unlink s.head (search_from w s.head)))
              (same_word_sound v w vw)
            ∙ lookup-none w _ (gone w s.head k.distinct))
        | inr vw ↦ rw vw (lookup-unlink v w s.head n e vw)
      ],
    )
  ]

-- On a set of fewer than 2^32 nodes in which no word has two nodes and the size is right,
-- `wset_remove` returns the frequency of a word that is in the set and -1 for another. Afterwards the
-- word's frequency is 0, and that of every other word is as before.
pub wset_remove-freq :
    (s : WordSet) (w : List ℕ)
    → IsWset s
    → length s.head < word
    → ((wset_remove s w).0 ≡ (if has w s.head then wset_freq s w else minus_one))
      × ((v : List ℕ)
          → wset_freq (wset_remove s w).1 v ≡ (if same_word v w then 0 else wset_freq s v))
wset_remove-freq s w k small =
    let (r, all) = remove-IsRemoved s w k small in
    (
      rw (wset_freq-lookup s w) r,
      λ v. rw (wset_freq-lookup s v) (wset_freq-lookup (wset_remove s w).1 v ∙ all v),
    )

exists_from-has : (w : List ℕ) (ns : List WordNode) → exists_from w ns ≡ (if has w ns then 1 else 0)
unfolding exists_from
exists_from-has w [] = refl
exists_from-has w (n ∷ []) = ground arith
exists_from-has w (n ∷ m ∷ ns) = ground (arith, exists_from-has w (m ∷ ns))

has-drop : (w : List ℕ) (ns : List WordNode) → has w (drop (search_from w ns) ns) ≡ has w ns
unfolding search_from
has-drop w [] = refl
has-drop w (n ∷ ns) = elim (Bool-cases (same_word w n.word)) [
  | inl h ↦ rw (h, h)
  | inr h ↦ rw h (has-drop w ns)
]

-- `wset_exists` returns 1 for a word that has a node in the set, and 0 for another.
pub wset_exists-has : (s : WordSet) (w : List ℕ) → wset_exists s w ≡ (if has w s.head then 1 else 0)
unfolding wset_exists search
wset_exists-has s w =
    exists_from-has w (drop (search_from w s.head) s.head)
    ∙ ap (λ (b : Bool). if b then 1 else 0) (has-drop w s.head)
