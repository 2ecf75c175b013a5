-- ===== src/WordFrequency/Wset/Search.antt =====
-- wset.c, `search`: the cell that it stops at, and the list when its node changes.
use projects_in_c.Base.{
  ℕ, ◌≡◌, refl, ap, ap₂, sym, ◌∙◌, List, [], ◌∷◌, ◌++◌, none, some, true, false, ◌==◌, ==_iff,
  if◌then◌else◌, get_elem?, set, take, Bool-cases, inl, inr, arith,
}
use projects_in_c.Base.Words.{add}
use projects_in_c.WordFrequency.Wset.{WordNode, same_word, search_from, unlink, counted}

-- The frequency of the first node with the word.
abbrev pub lookup : List ℕ → List WordNode → ℕ
lookup w [] = 0
lookup w (n ∷ ns) = if same_word w n.word then n.freq else lookup w ns

pub same_word_refl : (w : List ℕ) → same_word w w ≡ true
same_word_refl [] = refl
same_word_refl (x ∷ xs) = ground (arith, same_word_refl xs)

pub same_word_sound : (v w : List ℕ) → same_word v w ≡ true → v ≡ w
same_word_sound [] [] e = refl
same_word_sound [] (y ∷ ys) e = cc
same_word_sound (x ∷ xs) [] e = cc
same_word_sound (x ∷ xs) (y ∷ ys) e = elim (Bool-cases (x == y)) [
  | inl h ↦
      ap₂ (λ (z : ℕ) (zs : List ℕ). z ∷ zs) ((==_iff x y).0 h) (same_word_sound xs ys (rw h at e))
  | inr h ↦ let bad : false ≡ true = rw h at e in cc
]

-- Two words that are the same are the same as any third.
pub same_word_swap : (v w u : List ℕ) → same_word w u ≡ true → same_word v u ≡ same_word v w
same_word_swap v w u h = ap (λ (x : List ℕ). same_word v x) (sym (same_word_sound w u h))

module _ (v w : List ℕ) where
  -- The search has found the node `n`: what it holds, and what counting it changes.
  pub found :
      (ns : List WordNode) (n : WordNode)
      → get_elem? ns (search_from w ns) ≡ some n
      → (same_word w n.word ≡ true) × (n.freq ≡ lookup w ns)
  unfolding search_from
  found [] n e = cc
  found (m ∷ ns) n e = elim (Bool-cases (same_word w m.word)) [
    | inl h ↦
        let e' : some m ≡ some n = rw h at e in let mn : m ≡ n = cc in (rw (← mn) h, rw (h, ← mn))
    | inr h ↦ let (a, b) = found ns n (rw h at e) in (a, rw h b)
  ]

  -- The search has found nothing.
  pub not_found : (ns : List WordNode) → get_elem? ns (search_from w ns) ≡ none → lookup w ns ≡ 0
  unfolding search_from
  not_found [] e = refl
  not_found (m ∷ ns) e = elim (Bool-cases (same_word w m.word)) [
    | inl h ↦ let bad : some m ≡ none = rw h at e in cc
    | inr h ↦ rw h (not_found ns (rw h at e))
  ]

  pub lookup-set :
      (ns : List WordNode) (n : WordNode)
      → get_elem? ns (search_from w ns) ≡ some n
      → lookup v (set ns (search_from w ns) (counted n))
        ≡ (if same_word v w then add (lookup w ns) 1 else lookup v ns)
  unfolding search_from
  lookup-set [] n e = cc
  lookup-set (m ∷ ns) n e = elim (Bool-cases (same_word w m.word)) [
    | inl h ↦
        let e' : some m ≡ some n = rw h at e in
        let mn : m ≡ n = cc in
        elim (Bool-cases (same_word v w)) [
          | inl vw ↦ rw (h, ← mn, same_word_swap v w m.word h, vw) refl
          | inr vw ↦ rw (h, ← mn, same_word_swap v w m.word h, vw) refl
        ]
    | inr h ↦ elim (Bool-cases (same_word v w)) [
      | inl vw ↦
          let apart : same_word v m.word ≡ false = rw (same_word_sound v w vw) h in
          rw (h, apart, vw) (lookup-set ns n (rw h at e) ∙ rw vw refl)
      | inr vw ↦
          rw (h, vw)
            (ap (λ (r : ℕ). if same_word v m.word then m.freq else r)
              (lookup-set ns n (rw h at e) ∙ rw vw refl))
    ]
  ]

  pub lookup-snoc :
      (ns : List WordNode) (f : ℕ)
      → get_elem? ns (search_from w ns) ≡ none
      → lookup v (take (search_from w ns) ns ++ record { freq = f; word = w } ∷ [])
        ≡ (if same_word v w then f else lookup v ns)
  unfolding search_from
  lookup-snoc [] f e = refl
  lookup-snoc (m ∷ ns) f e = elim (Bool-cases (same_word w m.word)) [
    | inl h ↦ let bad : some m ≡ none = rw h at e in cc
    | inr h ↦ elim (Bool-cases (same_word v w)) [
      | inl vw ↦
          let apart : same_word v m.word ≡ false = rw (same_word_sound v w vw) h in
          rw (h, apart, vw) (lookup-snoc ns f (rw h at e) ∙ rw vw refl)
      | inr vw ↦
          rw (h, vw)
            (ap (λ (r : ℕ). if same_word v m.word then m.freq else r)
              (lookup-snoc ns f (rw h at e) ∙ rw vw refl))
    ]
  ]

  pub lookup-unlink :
      (ns : List WordNode) (n : WordNode)
      → get_elem? ns (search_from w ns) ≡ some n
      → same_word v w ≡ false
      → lookup v (unlink ns (search_from w ns)) ≡ lookup v ns
  unfolding search_from
  lookup-unlink [] n e vw = cc
  lookup-unlink (m ∷ ns) n e vw = elim (Bool-cases (same_word w m.word)) [
    | inl h ↦
        let apart : same_word v m.word ≡ false = same_word_swap v w m.word h ∙ vw in
        rw (h, apart) refl
    | inr h ↦ rw h (
        ap (λ (r : ℕ). if same_word v m.word then m.freq else r)
          (lookup-unlink ns n (rw h at e) vw))
  ]
