-- ===== src/Cache/Sim/Run.antt =====
-- cpu.c, `run_cpu`: the counters of a run over a trace.
use projects_in_c.Base.{
  ℕ, suc, ◌+◌, ◌≤◌, ◌<◌, ◌≡◌, refl, ap, ◌∙◌, List, [], ◌∷◌, some, length, arith,
}
use projects_in_c.Base.Words.{word, add, IsNat}
use projects_in_c.Cache.Bits.{IsGeometry}
use projects_in_c.Cache.Lru.{AccessResult, hit, cold_miss, conflict_miss}
use projects_in_c.Cache.Sim.{
  Cache, Memory, TraceLine, Cpu, make_cache, make_cpu, count_access, run_trace, run_cpu,
}
use projects_in_c.Cache.Sim.Access.{IsCache, use_at, cache_access_lem}
use projects_in_c.Cache.Sim.Make.{make_cache-IsCache}

-- The kinds of the accesses of a trace to bounded lists of tags.
unfoldable pub accesses : (s n b : ℕ) → (ℕ → List ℕ) → List TraceLine → List AccessResult
accesses s n b tags [] = []
accesses s n b tags (x ∷ xs) =
    let used : (ℕ → List ℕ) × AccessResult = use_at s n b tags x.address in
    used.1 ∷ accesses s n b used.0 xs

abbrev pub one_if_same : AccessResult → AccessResult → ℕ
one_if_same hit hit = 1
one_if_same hit cold_miss = 0
one_if_same hit conflict_miss = 0
one_if_same cold_miss hit = 0
one_if_same cold_miss cold_miss = 1
one_if_same cold_miss conflict_miss = 0
one_if_same conflict_miss hit = 0
one_if_same conflict_miss cold_miss = 0
one_if_same conflict_miss conflict_miss = 1

-- How many accesses are of the kind `r`.
abbrev pub tally : AccessResult → List AccessResult → ℕ
tally r [] = 0
tally r (x ∷ xs) = one_if_same r x + tally r xs

-- The counters are below a bound, which is below 2^32.
record AreBelow (n : ℕ) (cpu : Cpu) : Type 0 where
  count : cpu.address_count ≤ n
  hits : cpu.hits ≤ n
  cold : cpu.cold ≤ n
  conflict : cpu.conflict ≤ n

-- The counters `cpu'` are those of `cpu` after accesses of the kinds `rs`.
pub record Counted (cpu cpu' : Cpu) (rs : List AccessResult) : Type 0 where
  pub count : cpu'.address_count ≡ cpu.address_count + length rs
  pub hits : cpu'.hits ≡ cpu.hits + tally hit rs
  pub cold : cpu'.cold ≡ cpu.cold + tally cold_miss rs
  pub conflict : cpu'.conflict ≡ cpu.conflict + tally conflict_miss rs

abbrev stepped : Cpu → Cache → AccessResult → Cpu
stepped cpu c r = count_access r (record cpu { cache = c; address_count = add cpu.address_count 1 })

stepped-Counted :
    (n : ℕ) (cpu : Cpu) (c : Cache) (r : AccessResult)
    → AreBelow n cpu
    → suc n < word
    → AreBelow (suc n) (stepped cpu c r) × Counted cpu (stepped cpu c r) (r ∷ [])
unfolding count_access add
stepped-Counted n cpu c hit k h = (
  record {
    count = omega (arith, k.count);
    hits = omega (arith, k.hits);
    cold = omega (arith, k.cold);
    conflict = omega (arith, k.conflict);
  },
  record {
    count = omega (arith, k.count);
    hits = omega (arith, k.hits);
    cold = omega arith;
    conflict = omega arith;
  },
)
stepped-Counted n cpu c cold_miss k h = (
  record {
    count = omega (arith, k.count);
    hits = omega (arith, k.hits);
    cold = omega (arith, k.cold);
    conflict = omega (arith, k.conflict);
  },
  record {
    count = omega (arith, k.count);
    hits = omega arith;
    cold = omega (arith, k.cold);
    conflict = omega arith;
  },
)
stepped-Counted n cpu c conflict_miss k h = (
  record {
    count = omega (arith, k.count);
    hits = omega (arith, k.hits);
    cold = omega (arith, k.cold);
    conflict = omega (arith, k.conflict);
  },
  record {
    count = omega (arith, k.count);
    hits = omega arith;
    cold = omega arith;
    conflict = omega (arith, k.conflict);
  },
)

stepped-cache : (cpu : Cpu) (c : Cache) (r : AccessResult) → (stepped cpu c r).cache ≡ c
unfolding count_access
stepped-cache cpu c hit = refl
stepped-cache cpu c cold_miss = refl
stepped-cache cpu c conflict_miss = refl

Counted-step :
    (cpu next cpu' : Cpu) (r r' : AccessResult) (rs : List AccessResult)
    → Counted cpu next (r ∷ [])
    → Counted next cpu' rs
    → r ≡ r'
    → Counted cpu cpu' (r' ∷ rs)
Counted-step cpu next cpu' r r' rs one all e = rw (← e) (record {
  count = omega (arith, one.count, all.count);
  hits = omega (arith, one.hits, all.hits);
  cold = omega (arith, one.cold, all.cold);
  conflict = omega (arith, one.conflict, all.conflict);
})

-- What `accesses` needs of the cache.
record IsShaped (s n b : ℕ) (c : Cache) : Type 0 where
  sets : c.set_bits ≡ s
  lines : c.line_count ≡ n
  blocks : c.block_bits ≡ b

run_trace-Counted :
    (s n b k : ℕ) (xs : List TraceLine) (cpu : Cpu) (tags : ℕ → List ℕ)
    → IsShaped s n b cpu.cache
    → IsCache cpu.cache tags
    → AreBelow k cpu
    → k + length xs < word
    → (cpu' : Cpu) × (run_trace xs cpu ≡ some cpu') × Counted cpu cpu' (accesses s n b tags xs)
unfolding run_trace accesses
run_trace-Counted s n b k [] cpu tags sh i lo h = (
  record cpu { address_trace = [] },
  refl,
  record { count = omega arith; hits = omega arith; cold = omega arith; conflict = omega arith },
)
run_trace-Counted s n b k (x ∷ xs) cpu tags sh i lo h =
    let (c', r, e, er, i', same, touched) = cache_access_lem cpu.cache tags x.address i in
    let next : Cpu = stepped cpu c' r in
    let (lo', one) = stepped-Counted k cpu c' r lo (omega arith) in
    let at : use_at cpu.cache.set_bits cpu.cache.line_count cpu.cache.block_bits tags x.address
        ≡ use_at s n b tags x.address =
      rw (sh.sets, sh.lines, sh.blocks) refl in
    let (cpu', run, all) =
      run_trace-Counted s n b (suc k) xs next (use_at s n b tags x.address).0
        (rw (stepped-cache cpu c' r) (record {
          sets = same.set_bits ∙ sh.sets;
          lines = same.line_count ∙ sh.lines;
          blocks = same.block_bits ∙ sh.blocks;
        }))
        (rw (stepped-cache cpu c' r, ← at) i') lo' (omega arith) in
    (
      cpu',
      rw e run,
      Counted-step cpu next cpu' r _ _ one all
          (er ∙ ap (λ (u : (ℕ → List ℕ) × AccessResult). u.1) at),
    )

length-accesses :
    (s n b : ℕ) (tags : ℕ → List ℕ) (xs : List TraceLine)
    → length (accesses s n b tags xs) ≡ length xs
unfolding accesses
length-accesses s n b tags [] = refl
length-accesses s n b tags (x ∷ xs) =
    ap suc (length-accesses s n b (use_at s n b tags x.address).0 xs)

tally-length :
    (rs : List AccessResult)
    → tally hit rs + tally cold_miss rs + tally conflict_miss rs ≡ length rs
tally-length [] = refl
tally-length (hit ∷ rs) = omega (arith, tally-length rs)
tally-length (cold_miss ∷ rs) = omega (arith, tally-length rs)
tally-length (conflict_miss ∷ rs) = omega (arith, tally-length rs)

-- A fresh cache has at least one set bit, one block bit and one tag bit, and a number of lines in a
-- set that is a positive `int`. A run
-- over fewer than 2^32 addresses then never faults, and its counters are the numbers of hits, cold
-- misses and conflict misses of empty bounded lists of tags on the same addresses. The three add up
-- to the number of addresses, which is the fourth.
pub run_cpu_lem :
    (memory : Memory) (s n b : ℕ) (trace : List TraceLine)
    → IsGeometry s b
    → 0 < n
    → IsNat n
    → length trace < word
    → (cpu : Cpu) × (run_cpu (make_cpu (make_cache memory s n b) trace) ≡ some cpu)
      × (cpu.hits ≡ tally hit (accesses s n b (λ i. []) trace))
      × (cpu.cold ≡ tally cold_miss (accesses s n b (λ i. []) trace))
      × (cpu.conflict ≡ tally conflict_miss (accesses s n b (λ i. []) trace))
      × (cpu.address_count ≡ length trace)
      × (cpu.hits + cpu.cold + cpu.conflict ≡ length trace)
unfolding run_cpu make_cpu make_cache
run_cpu_lem memory s n b trace g h nat lt =
    let rs : List AccessResult = accesses s n b (λ i. []) trace in
    let start : Cpu = make_cpu (make_cache memory s n b) trace in
    let (cpu, run, k) =
      run_trace-Counted s n b 0 trace start (λ i. [])
        (record { sets = refl; lines = refl; blocks = refl })
        (make_cache-IsCache memory s n b g h nat)
        (record {
          count = omega arith;
          hits = omega arith;
          cold = omega arith;
          conflict = omega arith;
        })
        (omega (arith, lt)) in
    let len = length-accesses s n b (λ i. []) trace in
    (
      cpu,
      run,
      k.hits ∙ omega arith,
      k.cold ∙ omega arith,
      k.conflict ∙ omega arith,
      omega (arith, k.count, len),
      omega (arith, k.hits, k.cold, k.conflict, tally-length rs, len),
    )
