-- ===== src/Cache/Sim/Touch.antt =====
-- cache.c: the block that an access marks, and the set around it.
use projects_in_c.Base.{
  ℕ, zero, suc, ◌<◌, ◌≡◌, refl, sym, ap, ◌∙◌, inl, inr, List, [], ◌∷◌, some, true, leb, get_elem?,
  set, length, replicate, drop, get_elem?-set_self, get_elem?-set_ne, length-replicate, append-nil,
  arith, ◌==◌, ==_iff, Bool-cases,
}
use projects_in_c.Cache.Lru.{AccessResult, hit, cold_miss, conflict_miss, Line, LineSet}
use projects_in_c.Cache.Lru.Walk.{IsView, get-lt}
use projects_in_c.Cache.Lru.Refine.{Represents}
use projects_in_c.Cache.Sim.{clear_accessed, touch}

-- A block with no byte used.
abbrev pub unused : ℕ → List ℕ
unused n = replicate n 0

length-unused : (n : ℕ) → length (unused n) ≡ n
length-unused n = length-replicate n 0

-- A block as an access of this kind finds it: a miss brings in a block with no byte used.
abbrev pub brought : AccessResult → ℕ → List ℕ → List ℕ
brought hit n accessed = accessed
brought cold_miss n accessed = unused n
brought conflict_miss n accessed = unused n

drop-all : (n : ℕ) (xs : List ℕ) → length xs ≡ n → drop n xs ≡ []
drop-all zero [] e = refl
drop-all zero (x ∷ xs) e = absurd (omega (arith, e))
drop-all (suc n) [] e = refl
drop-all (suc n) (x ∷ xs) e = drop-all n xs (omega (arith, e))

clear_accessed_lem : (n : ℕ) (xs : List ℕ) → length xs ≡ n → clear_accessed n xs ≡ some (unused n)
unfolding clear_accessed
clear_accessed_lem n xs e =
    let fits : leb n (length xs) ≡ true = ground arith in
    rw (fits, drop-all n xs e, append-nil (unused n))

pub length-brought :
    (r : AccessResult) (n : ℕ) (xs : List ℕ) → length xs ≡ n → length (brought r n xs) ≡ n
length-brought hit n xs e = e
length-brought cold_miss n xs e = length-unused n
length-brought conflict_miss n xs e = length-unused n

pub touch_lem :
    (r : AccessResult) (n b : ℕ) (xs : List ℕ)
    → length xs ≡ n
    → b < n
    → touch r n b xs ≡ some (set (brought r n xs) b 1)
unfolding touch
touch_lem hit n b xs e h = let fits : leb (suc b) (length xs) ≡ true = ground arith in rw fits
touch_lem cold_miss n b xs e h =
    let fits : leb (suc b) (length (unused n)) ≡ true = ground (arith, length-unused n) in
    rw (clear_accessed_lem n xs e, fits)
touch_lem conflict_miss n b xs e h =
    let fits : leb (suc b) (length (unused n)) ≡ true = ground (arith, length-unused n) in
    rw (clear_accessed_lem n xs e, fits)

-- A write to a line's block does not move the line.
module _ (ls : List Line) (i : ℕ) (line : Line) (acc : List ℕ)
    (get : get_elem? ls i ≡ some line) where
  abbrev written : List Line
  written = set ls i (record line { accessed = acc })

  written-get :
      (k : ℕ) (l : Line)
      → get_elem? ls k ≡ some l
      → (l' : Line) × (get_elem? written k ≡ some l') × (l'.valid ≡ l.valid) × (l'.tag ≡ l.tag)
  written-get k l e = elim (Bool-cases (i == k)) [
    | inl same ↦
        let ik : i ≡ k = (==_iff i k).0 same in
        let e' : get_elem? ls i ≡ some l = rw ik e in
        let ll : line ≡ l = cc in
        (
          record line { accessed = acc },
          rw (← ik) (get_elem?-set_self ls i _ (get-lt ls i get)),
          ap (λ (x : Line). x.valid) ll,
          ap (λ (x : Line). x.tag) ll,
        )
    | inr other ↦ (l, get_elem?-set_ne ls _ (λ eq. ground (arith, eq)) ∙ e, refl, refl)
  ]

  written-IsView : (q ts : List ℕ) → IsView ls q ts → IsView written q ts
  written-IsView [] [] v = v
  written-IsView [] (t ∷ ts) v = v
  written-IsView (k ∷ q) [] ((l, e, free), v) =
      let (l', e', hv, ht) = written-get k l e in ((l', e', hv ∙ free), written-IsView q [] v)
  written-IsView (k ∷ q) (t ∷ ts) ((l, e, live, tag), v) =
      let (l', e', hv, ht) = written-get k l e in
      ((l', e', hv ∙ live, ht ∙ tag), written-IsView q ts v)

  written-blocks :
      (size : ℕ)
      → length acc ≡ size
      → ((k : ℕ) (l : Line) → get_elem? ls k ≡ some l → length l.accessed ≡ size)
      → (k : ℕ) (l : Line) → get_elem? written k ≡ some l
      → length l.accessed ≡ size
  written-blocks size len blocks k l e = elim (Bool-cases (i == k)) [
    | inl same ↦
        let ik : i ≡ k = (==_iff i k).0 same in
        let here : get_elem? written i ≡ some (record line { accessed = acc }) =
          get_elem?-set_self ls i _ (get-lt ls i get) in
        let e' : get_elem? written i ≡ some l = ap (λ (j : ℕ). get_elem? written j) ik ∙ e in
        let ll : record line { accessed = acc } ≡ l = cc in rw (← ll) len
    | inr other ↦ blocks k l (sym (get_elem?-set_ne ls _ (λ eq. ground (arith, eq))) ∙ e)
  ]

pub written-Represents :
    (n size : ℕ) (s : LineSet) (ts : List ℕ) (i : ℕ) (line : Line) (acc : List ℕ)
    → get_elem? s.lines i ≡ some line
    → length acc ≡ size
    → Represents n size s ts
    → Represents n size (record s { lines = set s.lines i (record line { accessed = acc }) }) ts
written-Represents n size s ts i line acc get len p = record {
  view = written-IsView s.lines i line acc get s.lru_queue ts p.view;
  distinct = p.distinct;
  queued = p.queued;
  blocks = written-blocks s.lines i line acc get size len p.blocks;
}
