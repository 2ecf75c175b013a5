-- ===== src/Cache/Program.antt =====
-- main.c: the cache simulator with the arguments of its command line, and the counters that `run_cpu` of
-- cpu.c prints. The set bits and the block bits are not negative; the two rates, which are floating point numbers, are
-- left out of the text.
pub mod Whole
use projects_in_c.Base.{ℕ, List, [], ◌∷◌, ◌++◌, Option, none, some, ◌>>=◌}
use projects_in_c.Base.Words.{add}
use projects_in_c.Base.Text.{codes}
use projects_in_c.Base.Decimal.{print_int, scan_int}
use projects_in_c.Cache.Sim.{Memory, TraceLine, Cpu, make_cache, make_cpu, run_cpu}
use projects_in_c.Cache.Text.{trace_lines}

-- `atoi` of the C library: 0 where no number is there.
unfoldable pub atoi : List ℕ → ℕ
atoi cs = elim (scan_int cs) [ none ↦ 0 | some r ↦ r.0 ]

-- What `run_cpu` prints at its end, up to the rates.
unfoldable pub print_counters : Cpu → List ℕ
print_counters cpu =
    codes "hits: "
    ++ print_int cpu.hits
    ++ codes " misses: "
    ++ print_int (add cpu.cold cpu.conflict)
    ++ codes " evictions: "
    ++ print_int cpu.conflict

abbrev usage : List ℕ
usage = codes "usage: cache-sim <set bits> <associativity> <block bits> <tracefile>\n"

-- `main`: the exit status and what is printed. `file` is what `fopen` gives for the last argument, and
-- `line` what `run_cpu` has in its variable at first; with no file, `fscanf` faults.
unfoldable pub cache_sim :
    (memory : Memory) (fuel : ℕ) (line : TraceLine) (args : List (List ℕ)) (file : Option (List ℕ))
    → Option (ℕ × List ℕ)
unfolding atoi print_counters
cache_sim memory fuel line (sets ∷ lines ∷ bytes ∷ path ∷ []) none = none
cache_sim memory fuel line (sets ∷ lines ∷ bytes ∷ path ∷ []) (some text) =
    run_cpu (
      make_cpu (make_cache memory (atoi sets) (atoi lines) (atoi bytes))
        (trace_lines fuel line text))
    >>= λ cpu. some (0, print_counters cpu)
cache_sim memory fuel line [] file = some (1, usage)
cache_sim memory fuel line (a ∷ []) file = some (1, usage)
cache_sim memory fuel line (a ∷ b ∷ []) file = some (1, usage)
cache_sim memory fuel line (a ∷ b ∷ c ∷ []) file = some (1, usage)
cache_sim memory fuel line (a ∷ b ∷ c ∷ d ∷ e ∷ more) file = some (1, usage)
