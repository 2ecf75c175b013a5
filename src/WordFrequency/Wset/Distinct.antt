-- ===== src/WordFrequency/Wset/Distinct.antt =====
-- wset.c: no word has two nodes and the size is the number of nodes, and what that is good for.

use projects_in_c.Base.{
  ℕ, zero, suc, ◌+◌, ◌%◌, ◌≡◌, refl, ap, ◌∙◌, List, [], ◌∷◌, ◌++◌, none, some, Bool, true, false,
  ◌||◌, get_elem?, set, take, length, Bool-cases, inl, inr, arith,
}
use projects_in_c.Base.Words.{word}
use projects_in_c.WordFrequency.Wset.{WordNode, WordSet, same_word, search_from, unlink, counted}
use projects_in_c.WordFrequency.Wset.Search.{lookup, same_word_sound}

-- The word has a node.
abbrev pub has : List ℕ → List WordNode → Bool
has w [] = false
has w (n ∷ ns) = same_word w n.word || has w ns

abbrev pub AreDistinct : List WordNode → Type 0
AreDistinct [] = Unit
AreDistinct (n ∷ ns) = (has n.word ns ≡ false) × AreDistinct ns

pub record IsWset (s : WordSet) : Type 0 where
  pub distinct : AreDistinct s.head
  pub size : s.size ≡ length s.head % word

same_word_sym : (v w : List ℕ) → same_word v w ≡ same_word w v
same_word_sym [] [] = refl
same_word_sym [] (y ∷ ys) = refl
same_word_sym (x ∷ xs) [] = refl
same_word_sym (x ∷ xs) (y ∷ ys) = ground (arith, same_word_sym xs ys)

-- Where the search finds a node, or none.
pub has-found :
    (w : List ℕ) (ns : List WordNode) (n : WordNode)
    → get_elem? ns (search_from w ns) ≡ some n
    → has w ns ≡ true
unfolding search_from
has-found w [] n e = cc
has-found w (m ∷ ns) n e = elim (Bool-cases (same_word w m.word)) [
  | inl h ↦ rw h
  | inr h ↦ rw h (has-found w ns n (rw h at e))
]

pub has-not_found :
    (w : List ℕ) (ns : List WordNode)
    → get_elem? ns (search_from w ns) ≡ none
    → (has w ns ≡ false) × (take (search_from w ns) ns ≡ ns)
unfolding search_from
has-not_found w [] e = (refl, refl)
has-not_found w (m ∷ ns) e = elim (Bool-cases (same_word w m.word)) [
  | inl h ↦ let bad : some m ≡ none = rw h at e in cc
  | inr h ↦
      let (a, b) = has-not_found w ns (rw h at e) in rw h (a, ap (λ (ms : List WordNode). m ∷ ms) b)
]

-- Counting a node more changes no word.
has-set :
    (v : List ℕ) (ns : List WordNode) (i : ℕ) (n : WordNode)
    → get_elem? ns i ≡ some n
    → has v (set ns i (counted n)) ≡ has v ns
has-set v [] i n e = refl
has-set v (m ∷ ns) zero n e = let mn : m ≡ n = cc in rw mn
has-set v (m ∷ ns) (suc i) n e = ap (λ (b : Bool). same_word v m.word || b) (has-set v ns i n e)

pub AreDistinct-set :
    (ns : List WordNode) (i : ℕ) (n : WordNode)
    → get_elem? ns i ≡ some n
    → AreDistinct ns
    → AreDistinct (set ns i (counted n))
AreDistinct-set [] i n e d = d
AreDistinct-set (m ∷ ns) zero n e d = let mn : m ≡ n = cc in (rw (← mn) d.0, d.1)
AreDistinct-set (m ∷ ns) (suc i) n e d =
    (has-set m.word ns i n e ∙ d.0, AreDistinct-set ns i n e d.1)

pub has-snoc :
    (v : List ℕ) (ns : List WordNode) (n : WordNode)
    → has v ns ≡ false
    → has v (ns ++ n ∷ []) ≡ same_word v n.word
has-snoc v [] n h = ground arith
has-snoc v (m ∷ ns) n h = ground (arith, has-snoc v ns n)

pub AreDistinct-snoc :
    (ns : List WordNode) (n : WordNode)
    → has n.word ns ≡ false
    → AreDistinct ns
    → AreDistinct (ns ++ n ∷ [])
AreDistinct-snoc [] n h d = (refl, tt)
AreDistinct-snoc (m ∷ ns) n h d = (
  has-snoc m.word ns n d.0 ∙ same_word_sym m.word n.word ∙ ground arith,
  AreDistinct-snoc ns n (ground arith) d.1,
)

pub has-unlink :
    (v : List ℕ) (ns : List WordNode) (i : ℕ) → has v ns ≡ false → has v (unlink ns i) ≡ false
has-unlink v [] zero h = refl
has-unlink v [] (suc i) h = refl
has-unlink v (m ∷ ns) zero h = ground arith
has-unlink v (m ∷ ns) (suc i) h = ground (arith, has-unlink v ns i)

pub AreDistinct-unlink : (ns : List WordNode) (i : ℕ) → AreDistinct ns → AreDistinct (unlink ns i)
AreDistinct-unlink [] zero d = tt
AreDistinct-unlink [] (suc i) d = tt
AreDistinct-unlink (m ∷ ns) zero d = d.1
AreDistinct-unlink (m ∷ ns) (suc i) d = (has-unlink m.word ns i d.0, AreDistinct-unlink ns i d.1)

-- Without its node a word is not there.
pub gone :
    (w : List ℕ) (ns : List WordNode)
    → AreDistinct ns
    → has w (unlink ns (search_from w ns)) ≡ false
unfolding search_from
gone w [] d = refl
gone w (m ∷ ns) d = elim (Bool-cases (same_word w m.word)) [
  | inl h ↦ rw h (ap (λ (v : List ℕ). has v ns) (same_word_sound w m.word h) ∙ d.0)
  | inr h ↦ rw (h, h) (gone w ns d.1)
]

pub length-unlink :
    (ns : List WordNode) (i : ℕ) (n : WordNode)
    → get_elem? ns i ≡ some n
    → length (unlink ns i) + 1 ≡ length ns
length-unlink [] i n e = cc
length-unlink (m ∷ ns) zero n e = omega arith
length-unlink (m ∷ ns) (suc i) n e = omega (arith, length-unlink ns i n e)

pub lookup-none : (v : List ℕ) (ns : List WordNode) → has v ns ≡ false → lookup v ns ≡ 0
lookup-none v [] h = refl
lookup-none v (m ∷ ns) h = ground (arith, lookup-none v ns)
