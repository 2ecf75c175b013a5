-- ===== src/Cache/Sim.antt =====
-- cache.c and cpu.c: the cache and the simulation of a trace on it.
pub mod Make
pub mod Touch
pub mod Access
pub mod Run
use projects_in_c.Base.{
  ℕ, zero, suc, ◌+◌, ◌-◌, ◌^◌, List, [], ◌∷◌, ◌++◌, Option, none, some, leb, if◌then◌else◌,
  get_elem?, set, length, replicate, drop, ◌>>=◌,
}
use projects_in_c.Base.Words.{add, rounds_to}
use projects_in_c.Cache.Bits.{get_set, get_line, get_byte}
use projects_in_c.Cache.Lru.{
  AccessResult, hit, cold_miss, conflict_miss, Line, LineSet, lru_init, lru_fetch,
}

pub record Cache : Type 0 where
  pub sets : List LineSet
  pub set_count : ℕ
  pub line_count : ℕ
  pub block_size : ℕ
  pub set_bits : ℕ
  pub block_bits : ℕ

-- What `malloc` leaves in memory: byte `b` of the block of a line of a set.
abbrev pub Memory : Type 0
Memory = ℕ → ℕ → ℕ → ℕ

module _ (memory : Memory) (s : ℕ) where
  -- The block from its byte `b` on.
  unfoldable pub make_block_from : (line b size : ℕ) → List ℕ
  make_block_from line b zero = []
  make_block_from line b (suc size) = memory s line b ∷ make_block_from line (b + 1) size

  unfoldable pub make_block : (line block_size : ℕ) → List ℕ
  make_block line block_size = make_block_from line 0 block_size

  -- The lines `i`, `i + 1` and so on, `n` of them.
  unfoldable pub make_lines_from : (i n block_size : ℕ) → List Line
  make_lines_from i zero block_size = []
  make_lines_from i (suc n) block_size =
      record { valid = 0; tag = 0; accessed = make_block i block_size; block_size = block_size }
      ∷ make_lines_from (i + 1) n block_size

  unfoldable pub make_lines : (line_count block_size : ℕ) → List Line
  make_lines line_count block_size = make_lines_from 0 (rounds_to line_count) block_size

module _ (memory : Memory) where
  unfoldable pub make_sets_from : (i n line_count block_size : ℕ) → List LineSet
  make_sets_from i zero line_count block_size = []
  make_sets_from i (suc n) line_count block_size =
      record {
        lines = make_lines memory i line_count block_size;
        line_count = line_count;
        lru_queue = [];
      }
      ∷ make_sets_from (i + 1) n line_count block_size

  unfoldable pub make_sets : (set_count line_count block_size : ℕ) → List LineSet
  make_sets set_count line_count block_size = make_sets_from 0 set_count line_count block_size

  -- `exp2` of the C library is exact for the exponents of an `int`.
  unfoldable pub make_cache : (set_bits line_count block_bits : ℕ) → Cache
  make_cache set_bits line_count block_bits = record {
    sets = lru_init (make_sets (2 ^ set_bits) line_count (2 ^ block_bits));
    set_count = 2 ^ set_bits;
    line_count = line_count;
    block_size = 2 ^ block_bits;
    set_bits = set_bits;
    block_bits = block_bits;
  }

-- The loop of `cache_access` that clears `n` bytes of a block.
unfoldable pub clear_accessed : ℕ → List ℕ → Option (List ℕ)
clear_accessed n accessed =
    if leb n (length accessed) then some (replicate n 0 ++ drop n accessed) else none

-- The block after an access of this kind to its byte `b`.
unfoldable pub touch : AccessResult → (block_size b : ℕ) → List ℕ → Option (List ℕ)
touch r n b accessed =
    elim r [
      | hit ↦ some accessed
      | cold_miss ↦ clear_accessed n accessed
      | conflict_miss ↦ clear_accessed n accessed
    ]
    >>= λ cleared. if leb (suc b) (length cleared) then some (set cleared b 1) else none

-- A fault, `none`, is an undefined shift or an access out of bounds.
unfoldable pub cache_access : Cache → ℕ → Option (Cache × AccessResult)
cache_access cache address = get_set cache.set_bits cache.block_bits address >>= λ s.
    get_line cache.set_bits cache.block_bits address >>= λ t.
    get_byte cache.set_bits cache.block_bits address >>= λ b. get_elem? cache.sets s >>= λ the_set.
    lru_fetch the_set t >>= λ (fetched, i, r). get_elem? fetched.lines i >>= λ line.
    touch r cache.block_size b line.accessed >>= λ accessed.
    let lines : List Line = set fetched.lines i (record line { accessed = accessed }) in
    some (record cache { sets = set cache.sets s (record fetched { lines = lines }) }, r)

pub record TraceLine : Type 0 where
  pub operation : ℕ
  pub address : ℕ
  pub size : ℕ

pub record Cpu : Type 0 where
  pub cache : Cache
  pub address_trace : List TraceLine
  pub address_count : ℕ
  pub hits : ℕ
  pub cold : ℕ
  pub conflict : ℕ

-- The trace is the lines that `fscanf` reads from the file before it returns `EOF`.
unfoldable pub make_cpu : Cache → List TraceLine → Cpu
make_cpu cache trace = record {
  cache = cache;
  address_trace = trace;
  address_count = 0;
  hits = 0;
  cold = 0;
  conflict = 0;
}

-- The counters after one more access.
unfoldable pub count_access : AccessResult → Cpu → Cpu
count_access hit cpu = record cpu { hits = add cpu.hits 1 }
count_access cold_miss cpu = record cpu { cold = add cpu.cold 1 }
count_access conflict_miss cpu = record cpu { conflict = add cpu.conflict 1 }

-- The loop of `run_cpu` over the rest of the trace.
unfoldable pub run_trace : List TraceLine → Cpu → Option Cpu
run_trace [] cpu = some (record cpu { address_trace = [] })
run_trace (x ∷ xs) cpu = cache_access cpu.cache x.address >>= λ (cache, r).
    run_trace xs
      (count_access r (record cpu { cache = cache; address_count = add cpu.address_count 1 }))

unfoldable pub run_cpu : Cpu → Option Cpu
run_cpu cpu = run_trace cpu.address_trace cpu
