-- ===== src/Cache/Program/Whole.antt =====
-- main.c: the whole run of the simulator, from the text of its arguments and of the trace.
use projects_in_c.Base.{
  ℕ, ◌+◌, ◌≤◌, ◌<◌, ◌≡◌, refl, ap, sym, ◌∙◌, append-nil, List, [], ◌∷◌, ◌++◌, some, length, map,
  arith,
}
use projects_in_c.Base.Words.{word, add_exact, IsNat}
use projects_in_c.Base.Text.{codes}
use projects_in_c.Base.Decimal.{print_int, scan_int}
use projects_in_c.Base.Decimal.RoundTrip.{scan_int-print_int}
use projects_in_c.Cache.Bits.{IsGeometry}
use projects_in_c.Cache.Lru.{AccessResult, hit, cold_miss, conflict_miss}
use projects_in_c.Cache.Sim.{Memory, TraceLine, Cpu}
use projects_in_c.Cache.Sim.Run.{accesses, tally, run_cpu_lem}
use projects_in_c.Cache.Text.Lines.{TextLine, AreLines, text_of, value_of, trace_lines-text_of}
use projects_in_c.Cache.Program.{atoi, print_counters, cache_sim}

atoi_lem : (cs rest : List ℕ) (x : ℕ) → scan_int cs ≡ some (x, rest) → atoi cs ≡ x
unfolding atoi
atoi_lem cs rest x e = rw (atoi, e) refl

atoi-print_int : (x : ℕ) → x < word → atoi (print_int x) ≡ x
atoi-print_int x h =
    ap (λ (cs : List ℕ). atoi cs) (sym (append-nil (print_int x)))
    ∙ atoi_lem (print_int x ++ []) [] x (scan_int-print_int x [] h tt)

-- The line that is printed for the kinds of the accesses.
abbrev pub summary : List AccessResult → List ℕ
summary rs =
    codes "hits: "
    ++ print_int (tally hit rs)
    ++ codes " misses: "
    ++ print_int (tally cold_miss rs + tally conflict_miss rs)
    ++ codes " evictions: "
    ++ print_int (tally conflict_miss rs)

-- The text of the counters depends on their values only.
print_counters-summary :
    (cpu : Cpu) (rs : List AccessResult)
    → cpu.hits ≡ tally hit rs
    → cpu.cold ≡ tally cold_miss rs
    → cpu.conflict ≡ tally conflict_miss rs
    → cpu.cold + cpu.conflict < word
    → print_counters cpu ≡ summary rs
unfolding print_counters
print_counters-summary cpu rs h c f lt = rw (add_exact cpu.cold cpu.conflict lt, h, c, f) refl

-- cache-sim is given the decimal texts of the set bits, the lines of a set and the block bits, with at
-- least one set bit, one block bit and one tag bit, and a number of lines that is a positive `int`,
-- and a trace file of fewer than
-- 2^32 lines in the format of `read_address`; the loop of `run_cpu` has as many rounds as the file has
-- characters. It ends with the status 0 and prints the numbers of hits, of misses of both kinds and
-- of conflict misses that empty bounded lists of tags have on the addresses of the trace.
pub cache_sim-summary :
    (memory : Memory) (fuel s n b : ℕ) (line : TraceLine) (path : List ℕ) (ls : List TextLine)
    → s < word
    → IsNat n
    → b < word
    → IsGeometry s b
    → 0 < n
    → AreLines ls
    → length (text_of ls) ≤ fuel
    → length (map value_of ls) < word
    → cache_sim memory fuel line
        (print_int s ∷ print_int n ∷ print_int b ∷ path ∷ [])
        (some (text_of ls))
      ≡ some (0, summary (accesses s n b (λ i. []) (map value_of ls)))
unfolding cache_sim
cache_sim-summary memory fuel s n b line path ls hs hn hb g some_line h enough few =
    let trace : List TraceLine = map value_of ls in
    let (cpu, run, hits, cold, conflict, count, sum) =
      run_cpu_lem memory s n b trace g some_line hn few in
    rw
      (
        atoi-print_int s hs,
        atoi-print_int n (omega arith),
        atoi-print_int b hb,
        trace_lines-text_of ls fuel line h enough,
        run,
      )
      (ap (λ (cs : List ℕ). some (0, cs))
        (print_counters-summary cpu (accesses s n b (λ i. []) trace) hits cold conflict
          (omega (arith, sum))))
