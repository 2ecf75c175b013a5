-- ===== src/Cache/Sim/Make.antt =====
-- cache.c, `make_cache`: a fresh cache, whatever `malloc` leaves in its blocks.
use projects_in_c.Base.{
  ℕ, zero, suc, ◌+◌, ◌^◌, ◌<◌, ◌≡◌, refl, ap, ◌∙◌, List, [], some, map, get_elem?, length,
  length-map, arith,
}
use projects_in_c.Base.Words.{IsNat, rounds_to_nat}
use projects_in_c.Cache.Bits.{IsGeometry}
use projects_in_c.Cache.Lru.{Line, LineSet, lru_init_queue, lru_init}
use projects_in_c.Cache.Lru.Walk.{IsFree}
use projects_in_c.Cache.Lru.Refine.{Represents, lru_init_queue-Represents}
use projects_in_c.Cache.Sim.{
  Memory, make_block_from, make_block, make_lines_from, make_lines, make_sets_from, make_sets,
  make_cache,
}
use projects_in_c.Cache.Sim.Access.{IsCache}

module _ (memory : Memory) where
  length-make_block : (s line b n : ℕ) → length (make_block_from memory s line b n) ≡ n
  unfolding make_block_from
  length-make_block s line b zero = refl
  length-make_block s line b (suc n) = ap suc (length-make_block s line (b + 1) n)

  make_lines-IsFree : (s i n size j : ℕ) → j < n → IsFree (make_lines_from memory s i n size) j
  unfolding make_lines_from
  make_lines-IsFree s i zero size j h = absurd (omega arith)
  make_lines-IsFree s i (suc n) size zero h = (
    record { valid = 0; tag = 0; accessed = make_block memory s i size; block_size = size },
    refl,
    refl,
  )
  make_lines-IsFree s i (suc n) size (suc j) h = make_lines-IsFree s (i + 1) n size j (omega arith)

  make_lines-blocks :
      (s i n size j : ℕ) (line : Line)
      → get_elem? (make_lines_from memory s i n size) j ≡ some line
      → length line.accessed ≡ size
  unfolding make_lines_from make_block
  make_lines-blocks s i zero size j line e = cc
  make_lines-blocks s i (suc n) size zero line e =
      let first : Line = record {
        valid = 0;
        tag = 0;
        accessed = make_block memory s i size;
        block_size = size;
      } in
      let same : line ≡ first = cc in rw same (length-make_block s i 0 size)
  make_lines-blocks s i (suc n) size (suc j) line e = make_lines-blocks s (i + 1) n size j line e

  make_sets-get :
      (i n m size j : ℕ)
      → IsNat m
      → j < n
      → (s : LineSet) × (get_elem? (map lru_init_queue (make_sets_from memory i n m size)) j
          ≡ some s)
        × Represents m size s []
  unfolding make_sets_from make_lines
  make_sets-get i zero m size j nat h = absurd (omega arith)
  make_sets-get i (suc n) m size zero nat h =
      let s : LineSet = record {
        lines = make_lines memory i m size;
        line_count = m;
        lru_queue = [];
      } in
      (
        lru_init_queue s,
        refl,
        lru_init_queue-Represents s size nat
            (λ j lt. rw (rounds_to_nat m nat) (make_lines-IsFree i 0 m size j lt))
            (rw (rounds_to_nat m nat) (make_lines-blocks i 0 m size)),
      )
  make_sets-get i (suc n) m size (suc j) nat h = make_sets-get (i + 1) n m size j nat (omega arith)

  length-make_sets : (i n m size : ℕ) → length (make_sets_from memory i n m size) ≡ n
  unfolding make_sets_from
  length-make_sets i zero m size = refl
  length-make_sets i (suc n) m size = ap suc (length-make_sets (i + 1) n m size)

  -- For a geometry that leaves set bits, block bits and tag bits, and a number of lines in a set
  -- that is a positive `int`, the cache that `make_cache` makes stands for empty lists of tags, whatever `malloc` leaves in
  -- the blocks.
  pub make_cache-IsCache :
      (set_bits line_count block_bits : ℕ)
      → IsGeometry set_bits block_bits
      → 0 < line_count
      → IsNat line_count
      → IsCache (make_cache memory set_bits line_count block_bits) (λ i. [])
  unfolding make_cache make_sets lru_init
  make_cache-IsCache s n b g h nat =
      let sets : List LineSet = make_sets_from memory 0 (2 ^ s) n (2 ^ b) in
      let size : length (map lru_init_queue sets) ≡ 2 ^ s =
        length-map sets lru_init_queue ∙ length-make_sets 0 (2 ^ s) n (2 ^ b) in
      record {
        geometry = g;
        lines = h;
        size = size;
        block = refl;
        sets = λ i lt. make_sets-get 0 (2 ^ s) n (2 ^ b) i nat (omega (arith, size));
      }
