-- ===== src/Cache/Lru/Spec.antt =====
-- What lru.c promises: a bounded list of tags, with the most recently used in front.
use projects_in_c.Base.{
  ℕ, suc, ◌-◌, ◌≡◌, inl, inr, List, [], ◌∷◌, Bool, true, false, ◌||◌, ltb, ◌==◌, if◌then◌else◌,
  length, take, arith, Bool-cases,
}
use projects_in_c.Cache.Lru.{AccessResult, hit, cold_miss, conflict_miss}

abbrev pub holds : ℕ → List ℕ → Bool
holds t [] = false
holds t (x ∷ xs) = x == t || holds t xs

-- Without the first occurrence of `t`.
abbrev pub without : ℕ → List ℕ → List ℕ
without t [] = []
without t (x ∷ xs) = if x == t then xs else x ∷ without t xs

-- A use of the tag `t` by a cache of `n` lines: what stays behind it, and the kind of access.
unfoldable pub evict : ℕ → List ℕ → ℕ → List ℕ × AccessResult
evict n ts t =
    if holds t ts
    then (without t ts, hit)
    else (if ltb (length ts) n then (ts, cold_miss) else (take (n - 1) ts, conflict_miss))

unfoldable pub use_tag : ℕ → List ℕ → ℕ → List ℕ × AccessResult
use_tag n ts t = (t ∷ (evict n ts t).0, (evict n ts t).1)

pub suc-sub_one : (n : ℕ) → suc n - 1 ≡ n
suc-sub_one n = omega arith

-- A tag in front that is not used stays in front.
pub evict-cons :
    (m x : ℕ) (ts : List ℕ) (t : ℕ)
    → (x == t) ≡ false
    → evict (suc (suc m)) (x ∷ ts) t ≡ (x ∷ (evict (suc m) ts t).0, (evict (suc m) ts t).1)
unfolding evict
evict-cons m x ts t ne = elim (Bool-cases (holds t ts)) [
  | inl h ↦ rw (ne, h)
  | inr h ↦ elim (Bool-cases (ltb (length ts) (suc m))) [
    | inl l ↦
        let l' : ltb (suc (length ts)) (suc (suc m)) ≡ true = ground arith in rw (ne, h, l, l')
    | inr l ↦
        let l' : ltb (suc (length ts)) (suc (suc m)) ≡ false = ground arith in
        rw (ne, h, l, l', suc-sub_one (suc m), suc-sub_one m)
  ]
]

pub evict-free : (m t : ℕ) → evict (suc m) [] t ≡ ([], cold_miss)
unfolding evict
evict-free m t = let l : ltb 0 (suc m) ≡ true = ground arith in rw l

pub evict-hit : (n x : ℕ) (ts : List ℕ) (t : ℕ) → (x == t) ≡ true → evict n (x ∷ ts) t ≡ (ts, hit)
unfolding evict
evict-hit n x ts t e = rw e

pub evict-full : (x t : ℕ) → (x == t) ≡ false → evict 1 (x ∷ []) t ≡ ([], conflict_miss)
unfolding evict
evict-full x t e = rw e
