-- ===== src/Cache/Lru/Walk.antt =====
-- The walk of `lru_fetch` along a queue that stands for a list of tags.
use projects_in_c.Base.{
  ℕ, zero, suc, ◌+◌, ◌≤◌, ◌<◌, ◌≡◌, ◌≢◌, refl, sym, ap, ◌∙◌, inl, inr, List, [], ◌∷◌, Option, some,
  true, false, ◌==◌, ==_iff, if◌then◌else◌, get_elem?, ◌>>=◌, set, length, length-set,
  get_elem?-set_self, get_elem?-set_ne, arith, Bool-cases,
}
use mathlib.Core.Path.{subst}
use projects_in_c.Base.Sums.{sum_by}
use projects_in_c.Cache.Lru.{AccessResult, Line, Found, fetch_walk, hit, cold_miss, conflict_miss}
use projects_in_c.Cache.Lru.Spec.{evict, evict-cons, evict-free, evict-hit, evict-full}

-- The `i`-th line holds the tag `t`, or nothing.
abbrev pub IsLive : List Line → ℕ → ℕ → Type 0
IsLive ls i t = (line : Line) × (get_elem? ls i ≡ some line) × (line.valid ≡ 1) × (line.tag ≡ t)

abbrev pub IsFree : List Line → ℕ → Type 0
IsFree ls i = (line : Line) × (get_elem? ls i ≡ some line) × (line.valid ≡ 0)

-- The queue stands for the tags: lines that hold them, in their order, then empty lines.
abbrev pub IsView : List Line → List ℕ → List ℕ → Type 0
IsView ls [] [] = Unit
IsView ls [] (t ∷ ts) = ⊥
IsView ls (i ∷ q) [] = IsFree ls i × IsView ls q []
IsView ls (i ∷ q) (t ∷ ts) = IsLive ls i t × IsView ls q ts

-- 1 at `i`, to count with.
abbrev pub is : ℕ → ℕ → ℕ
is i j = if i == j then 1 else 0

-- No line is in the queue twice.
unfoldable pub AreDistinct : List ℕ → Type 0
AreDistinct q = (i : ℕ) → sum_by (is i) q ≤ 1

pub AreDistinct-tail : (i : ℕ) (q : List ℕ) → AreDistinct (i ∷ q) → AreDistinct q
unfolding AreDistinct
AreDistinct-tail i q d j = omega (arith, d j)

pub AreDistinct-head : (i : ℕ) (q : List ℕ) → AreDistinct (i ∷ q) → sum_by (is i) q ≡ 0
unfolding AreDistinct
AreDistinct-head i q d = ground (arith, d i)

-- Lines that are not in the queue do not matter to it.
pub IsView-frame :
    (ls ls' : List Line) (i : ℕ) (q ts : List ℕ)
    → ((j : ℕ) → j ≢ i → get_elem? ls' j ≡ get_elem? ls j)
    → sum_by (is i) q ≡ 0
    → IsView ls q ts
    → IsView ls' q ts
IsView-frame ls ls' i [] [] same z v = v
IsView-frame ls ls' i [] (t ∷ ts) same z v = v
IsView-frame ls ls' i (k ∷ q) [] same z ((line, get, free), v) =
    let ne : k ≢ i = λ e. ground (arith, e, z) in
    ((line, same k ne ∙ get, free), IsView-frame ls ls' i q [] same (ground (arith, z)) v)
IsView-frame ls ls' i (k ∷ q) (t ∷ ts) same z ((line, get, valid, tag), v) =
    let ne : k ≢ i = λ e. ground (arith, e, z) in
    ((line, same k ne ∙ get, valid, tag), IsView-frame ls ls' i q ts same (ground (arith, z)) v)

-- The outcome of a walk along the queue `q` that stands for the tags `ts`.
pub record Walked (ls : List Line) (q ts : List ℕ) (t : ℕ) (f : Found) : Type 0 where
  pub line : Line
  pub before : get_elem? ls f.at ≡ some line
  pub after : get_elem? f.lines f.at ≡ some (record line { valid = 1; tag = t })
  pub off : (j : ℕ) → j ≢ f.at → get_elem? f.lines j ≡ get_elem? ls j
  pub size : length f.lines ≡ length ls
  pub same : (w : ℕ → ℕ) → sum_by w q ≡ w f.at + sum_by w f.others
  pub access : f.access ≡ (evict (length q) ts t).1
  pub rest : IsView f.lines f.others (evict (length q) ts t).0

pub get-lt : (ls : List Line) (i : ℕ) {line : Line} → get_elem? ls i ≡ some line → i < length ls
get-lt [] i e = cc
get-lt (l ∷ ls) zero e = omega arith
get-lt (l ∷ ls) (suc i) e = omega (arith, get-lt ls i e)

set_self : {A : Type 0} (xs : List A) (i : ℕ) {x : A} → get_elem? xs i ≡ some x → set xs i x ≡ xs
set_self [] i e = refl
set_self (y ∷ xs) zero e = cc
set_self (y ∷ xs) (suc i) e = ap (λ (zs : List _). y ∷ zs) (set_self xs i e)

-- The walk stops at the front line and writes `new` to it.
module _ (ls : List Line) (i : ℕ) (q ts : List ℕ) (t : ℕ) (line : Line)
    (get : get_elem? ls i ≡ some line) where
  abbrev new : List Line
  new = set ls i (record line { valid = 1; tag = t })

  new-off : (j : ℕ) → j ≢ i → get_elem? new j ≡ get_elem? ls j
  new-off j ne = get_elem?-set_ne ls _ (λ e. ne (sym e))

  stop-Walked :
      (a : AccessResult) (us : List ℕ)
      → AreDistinct (i ∷ q)
      → IsView ls q us
      → evict (length (i ∷ q)) ts t ≡ (us, a)
      → Walked ls (i ∷ q) ts t (record { at = i; access = a; lines = new; others = q })
  stop-Walked a us d v e = record {
    line = line;
    before = get;
    after = get_elem?-set_self ls i _ (get-lt ls i get);
    off = new-off;
    size = length-set ls i _;
    same = λ w. refl;
    access = rw e;
    rest = rw e (IsView-frame ls new i q us new-off (AreDistinct-head i q d) v);
  }

abbrev passed : ℕ → Option Found → Option Found
passed i o = o >>= λ f. some (record f { others = i ∷ f.others })

-- The walk passes over the front line, which holds another tag.
pass-Walked :
    (ls : List Line) (t i x : ℕ) (q ts : List ℕ) (f : Found)
    → IsLive ls i x
    → (x == t) ≡ false
    → AreDistinct (i ∷ q)
    → 0 < length q
    → Walked ls q ts t f
    → Walked ls (i ∷ q) (x ∷ ts) t (record f { others = i ∷ f.others })
pass-Walked ls t i x [] ts f live ne d h r = absurd (omega arith)
pass-Walked ls t i x (k ∷ q) ts f (line, get, hv, ht) ne d h r =
    let apart : i ≢ f.at = λ e. ground (arith, e, AreDistinct-head i (k ∷ q) d, r.same (is i)) in
    let e = evict-cons (length q) x ts t ne in
    record {
      line = r.line;
      before = r.before;
      after = r.after;
      off = r.off;
      size = r.size;
      same = λ w. omega (arith, r.same w);
      access = rw e r.access;
      rest = rw e ((line, r.off i apart ∙ get, hv, ht), r.rest);
    }

module _ (ls : List Line) (t : ℕ) where
  -- A hit, which changes no line.
  hit-Walked :
      (i x : ℕ) (q ts : List ℕ) (line : Line)
      → get_elem? ls i ≡ some line
      → line.valid ≡ 1
      → line.tag ≡ x
      → (x == t) ≡ true
      → AreDistinct (i ∷ q)
      → IsView ls q ts
      → (f : Found) × (fetch_walk ls t (i ∷ q) ≡ some f) × Walked ls (i ∷ q) (x ∷ ts) t f
  unfolding fetch_walk
  hit-Walked i x q ts line get hv ht eq d v =
      let same : new ls i q (x ∷ ts) t line get ≡ ls =
        set_self ls i (rw (sym hv, sym ((==_iff x t).0 eq), sym ht) get) in
      (
        record { at = i; access = hit; lines = ls; others = q },
        rw (get, hv, ht, eq),
        subst
            (λ (ms : List Line).
              Walked ls (i ∷ q) (x ∷ ts) t
                (record { at = i; access = hit; lines = ms; others = q }))
            same
            (stop-Walked ls i q (x ∷ ts) t line get hit ts d v
              (evict-hit (length (i ∷ q)) x ts t eq)),
      )

  -- A walk along a queue with a line in it finds one.
  pub walk-Walked :
      (q ts : List ℕ)
      → IsView ls q ts
      → AreDistinct q
      → 0 < length q
      → (f : Found) × (fetch_walk ls t q ≡ some f) × Walked ls q ts t f
  unfolding fetch_walk
  walk-Walked [] ts v d h = absurd (omega arith)
  walk-Walked (i ∷ q) [] ((line, get, free), v) d h = (
    record { at = i; access = cold_miss; lines = new ls i q [] t line get; others = q },
    rw (get, free),
    stop-Walked ls i q [] t line get cold_miss [] d v (evict-free (length q) t),
  )
  walk-Walked (i ∷ []) (x ∷ []) ((line, get, hv, ht), v) d h = elim (Bool-cases (x == t)) [
    | inl eq ↦ hit-Walked i x [] [] line get hv ht eq d v
    | inr ne ↦ (
      record { at = i; access = conflict_miss; lines = new ls i [] [] t line get; others = [] },
      rw (get, hv, ht, ne),
      stop-Walked ls i [] (x ∷ []) t line get conflict_miss [] d tt (evict-full x t ne),
    )
  ]
  walk-Walked (i ∷ []) (x ∷ y ∷ ts) (live, v) d h = absurd v
  walk-Walked (i ∷ k ∷ q) (x ∷ ts) ((line, get, hv, ht), v) d h =
      let (f, e, r) = walk-Walked (k ∷ q) ts v (AreDistinct-tail i (k ∷ q) d) (omega arith) in
      elim (Bool-cases (x == t)) [
        | inl eq ↦ hit-Walked i x (k ∷ q) ts line get hv ht eq d v
        | inr ne ↦ (
          record f { others = i ∷ f.others },
          rw (get, hv, ht, ne) (ap (passed i) e),
          pass-Walked ls t i x (k ∷ q) ts f (line, get, hv, ht) ne d (omega arith) r,
        )
      ]
