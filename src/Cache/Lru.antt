-- ===== src/Cache/Lru.antt =====
-- cache.h, lru.h and lru.c: a set's lines, and its queue of them with the most recent in front. A
-- queue node's pointer to a line is the line's index in the array; a bad index is a fault, `none`.
pub mod Spec
pub mod Walk
pub mod Refine
use projects_in_c.Base.{
  ℕ, zero, suc, List, [], ◌∷◌, Option, none, some, ◌&&◌, ◌==◌, if◌then◌else◌, ◌+◌, get_elem?, set,
  map, ◌>>=◌,
}
use projects_in_c.Base.Words.{rounds_to}

pub data AccessResult : Type 0 where
  hit cold_miss conflict_miss : AccessResult

pub record Line : Type 0 where
  pub valid : ℕ
  pub tag : ℕ
  pub accessed : List ℕ
  pub block_size : ℕ

-- Not `Set`, which antt reads as a type.
pub record LineSet : Type 0 where
  pub lines : List Line
  pub line_count : ℕ
  pub lru_queue : List ℕ

-- The indices `i`, `i + 1` and so on, `n` of them.
unfoldable pub queue_from : ℕ → ℕ → List ℕ
queue_from i zero = []
queue_from i (suc n) = i ∷ queue_from (i + 1) n

unfoldable pub lru_init_queue : LineSet → LineSet
lru_init_queue s = record s { lru_queue = queue_from 0 (rounds_to s.line_count) }

unfoldable pub lru_init : List LineSet → List LineSet
lru_init sets = map lru_init_queue sets

-- What a walk along the queue finds: a line, the kind of access, the lines after it and the rest
-- of the queue without the line.
pub record Found : Type 0 where
  pub at : ℕ
  pub access : AccessResult
  pub lines : List Line
  pub others : List ℕ

-- The loop of `lru_fetch` up to the unlinking of the node; an empty queue leaves `result` unset.
unfoldable pub fetch_walk : List Line → ℕ → List ℕ → Option Found
fetch_walk lines tag [] = none
fetch_walk lines tag (i ∷ q) =
    let rest = fetch_walk lines tag q in
    get_elem? lines i >>= λ line.
    if line.valid == 1 && line.tag == tag
    then some (record { at = i; access = hit; lines = lines; others = q })
    else (if line.valid == 0
        then some (record {
          at = i;
          access = cold_miss;
          lines = set lines i (record line { valid = 1; tag = tag });
          others = q;
        })
        else elim q [
          | [] ↦ some (record {
            at = i;
            access = conflict_miss;
            lines = set lines i (record line { tag = tag });
            others = [];
          })
          | _ ∷ _ ↦ rest >>= λ f. some (record f { others = i ∷ f.others })
        ])

-- The set after the fetch, and the index of the line and the access that `result` holds.
unfoldable pub lru_fetch : LineSet → ℕ → Option (LineSet × ℕ × AccessResult)
lru_fetch s tag = fetch_walk s.lines tag s.lru_queue >>= λ f.
    some (record s { lines = f.lines; lru_queue = f.at ∷ f.others }, f.at, f.access)
