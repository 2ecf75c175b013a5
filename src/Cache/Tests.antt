-- ===== src/Cache/Tests.antt =====
-- The theorems about the cache at concrete inputs: two sets of two lines, and blocks of two bytes.
use projects_in_c.Base.Text.{codes}
use projects_in_c.Base.Decimal.{print_int}
use projects_in_c.Cache.Program.{cache_sim}
use projects_in_c.Cache.Program.Whole.{summary, cache_sim-summary}
use projects_in_c.Base.{
  ℕ, ◌+◌, ◌*◌, ◌^◌, ◌<◌, ◌≡◌, refl, List, [], ◌∷◌, some, arith, length, get_elem?, map,
}
use projects_in_c.Cache.Bits.{IsGeometry, get_set, get_line, get_byte, get-fields}
use projects_in_c.Cache.Lru.{
  AccessResult, hit, cold_miss, conflict_miss, Line, LineSet, lru_fetch, lru_init_queue,
}
use projects_in_c.Cache.Lru.Walk.{IsFree}
use projects_in_c.Cache.Lru.Refine.{Fetched, lru_fetch_lem, lru_init_queue-Represents}
use projects_in_c.Cache.Sim.{
  Cache, Memory, TraceLine, Cpu, make_cache, make_cpu, cache_access, run_cpu,
}
use projects_in_c.Cache.Text.Lines.{TextLine, AreLines, text_of, value_of}
use projects_in_c.Cache.Sim.Access.{IsCache, SameShape, Touched, use_address, cache_access_lem}
use projects_in_c.Cache.Sim.Make.{make_cache-IsCache}
use projects_in_c.Cache.Sim.Run.{accesses, tally, run_cpu_lem}

one_one-IsGeometry : IsGeometry 1 1
unfolding IsGeometry
one_one-IsGeometry = (omega arith, omega arith, omega arith)

get-fields_example :
    (t i o : ℕ) × (get_line 1 1 13 ≡ some t)
    × (get_set 1 1 13 ≡ some i)
    × (get_byte 1 1 13 ≡ some o)
    × (i < 2 ^ 1)
    × (o < 2 ^ 1)
    × (t * 2 ^ (1 + 1) + i * 2 ^ 1 + o ≡ 13)
get-fields_example = get-fields 1 1 13 one_one-IsGeometry

abbrev memory : Memory
memory s l b = 171

-- Two empty lines.
abbrev free_line : Line
free_line = record { valid = 0; tag = 0; accessed = 171 ∷ 171 ∷ []; block_size = 2 }

abbrev pair : LineSet
pair = record { lines = free_line ∷ free_line ∷ []; line_count = 2; lru_queue = [] }

pair-IsFree : (j : ℕ) → j < 2 → IsFree pair.lines j
pair-IsFree ℕ.zero h = (free_line, refl, refl)
pair-IsFree (ℕ.suc ℕ.zero) h = (free_line, refl, refl)
pair-IsFree (ℕ.suc (ℕ.suc j)) h = absurd (omega arith)

pair_blocks : (j : ℕ) (line : Line) → get_elem? pair.lines j ≡ some line → length line.accessed ≡ 2
pair_blocks ℕ.zero line e = let same : line ≡ free_line = cc in rw same
pair_blocks (ℕ.suc ℕ.zero) line e = let same : line ≡ free_line = cc in rw same
pair_blocks (ℕ.suc (ℕ.suc j)) line e = cc

lru_fetch_lem_example :
    (s' : LineSet) × (i : ℕ) × (r : AccessResult) × (lru_fetch (lru_init_queue pair) 5
      ≡ some (s', i, r))
    × Fetched 2 2 (lru_init_queue pair) [] 5 s' i r
lru_fetch_lem_example =
    lru_fetch_lem 2 2 (lru_init_queue pair) [] 5
      (lru_init_queue-Represents pair 2 (omega arith) pair-IsFree pair_blocks) (omega arith)

make_cache-IsCache_example : IsCache (make_cache memory 1 2 1) (λ i. [])
make_cache-IsCache_example =
    make_cache-IsCache memory 1 2 1 one_one-IsGeometry (omega arith) (omega arith)

fresh-IsCache : IsCache (make_cache memory 1 2 1) (λ i. [])
fresh-IsCache = make_cache-IsCache memory 1 2 1 one_one-IsGeometry (omega arith) (omega arith)

cache_access_lem_example :
    (c' : Cache) × (r : AccessResult) × (cache_access (make_cache memory 1 2 1) 13 ≡ some (c', r))
    × (r ≡ (use_address (make_cache memory 1 2 1) (λ i. []) 13).1)
    × IsCache c' (use_address (make_cache memory 1 2 1) (λ i. []) 13).0
    × SameShape (make_cache memory 1 2 1) c'
    × Touched (make_cache memory 1 2 1) c' 13 r
cache_access_lem_example = cache_access_lem (make_cache memory 1 2 1) (λ i. []) 13 fresh-IsCache

abbrev trace : List TraceLine
trace =
    record { operation = 76; address = 13; size = 49 }
    ∷ record { operation = 76; address = 12; size = 49 }
    ∷ record { operation = 83; address = 0; size = 49 }
    ∷ []

run_cpu_lem_example :
    (cpu : Cpu) × (run_cpu (make_cpu (make_cache memory 1 2 1) trace) ≡ some cpu)
    × (cpu.hits ≡ tally hit (accesses 1 2 1 (λ i. []) trace))
    × (cpu.cold ≡ tally cold_miss (accesses 1 2 1 (λ i. []) trace))
    × (cpu.conflict ≡ tally conflict_miss (accesses 1 2 1 (λ i. []) trace))
    × (cpu.address_count ≡ length trace)
    × (cpu.hits + cpu.cold + cpu.conflict ≡ length trace)
run_cpu_lem_example =
    run_cpu_lem memory 1 2 1 trace one_one-IsGeometry (omega arith) (omega arith) (omega arith)

-- The lines "L d,1" and "S 00F0,4".
abbrev lines : List TextLine
lines =
    record { operation = b'L'; digits = b'd' ∷ []; size = b'1' }
    ∷ record { operation = b'S'; digits = b'0' ∷ b'0' ∷ b'F' ∷ b'0' ∷ []; size = b'4' }
    ∷ []

lines-AreLines : AreLines lines
lines-AreLines = (
  record { no_space = refl; some_digits = omega arith; hex = (refl, tt) },
  (
    record { no_space = refl; some_digits = omega arith; hex = (refl, (refl, (refl, (refl, tt)))) },
    tt,
  ),
)

cache_sim-summary_example :
    cache_sim memory 20
      (record { operation = 0; address = 7; size = 0 })
      (print_int 1 ∷ print_int 2 ∷ print_int 1 ∷ codes "small.trace" ∷ [])
      (some (text_of lines))
    ≡ some (0, summary (accesses 1 2 1 (λ i. []) (map value_of lines)))
cache_sim-summary_example =
    cache_sim-summary memory 20 1 2 1 (record { operation = 0; address = 7; size = 0 })
      (codes "small.trace") lines (omega arith) (omega arith) (omega arith) one_one-IsGeometry
      (omega arith) lines-AreLines (omega arith) (omega arith)
