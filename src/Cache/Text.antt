-- ===== src/Cache/Text.antt =====
-- cpu.c, `read_address`: the text of a trace file, and the loop of `run_cpu` that reads it line by line.
pub mod Lines
use projects_in_c.Base.{ℕ, zero, suc, List, [], ◌∷◌, Option, none, some, ◌==◌, if◌then◌else◌}
use projects_in_c.Base.Decimal.{skip_space}
use projects_in_c.Base.Hex.{scan_hex}
use projects_in_c.Cache.Sim.{TraceLine}

-- The part ",%c\n" of the format, with `cs` left of the input: without the comma, or at the end of the
-- file, `size` stays as it was.
unfoldable pub read_size : TraceLine → List ℕ → TraceLine × List ℕ
unfolding skip_space
read_size line [] = (line, [])
read_size line (c ∷ []) = if c == b',' then (line, []) else (line, c ∷ [])
read_size line (c ∷ size ∷ cs) =
    if c == b',' then (record line { size = size }, skip_space cs) else (line, c ∷ size ∷ cs)

-- Behind the operation: `none` is a mismatch at the address.
unfoldable pub read_rest : TraceLine → Option ℕ × List ℕ → TraceLine × List ℕ
unfolding read_size
read_rest line (none, cs) = (line, cs)
read_rest line (some address, cs) = read_size (record line { address = address }) cs

-- `fscanf` with "%c %x,%c\n" into the variable `line`: the variable and what is left of the file, or
-- `none` for `EOF`, the result where not even the operation is there.
unfoldable pub read_address : TraceLine → List ℕ → Option (TraceLine × List ℕ)
unfolding read_rest skip_space
read_address line [] = none
read_address line (operation ∷ cs) =
    some (read_rest (record line { operation = operation }) (scan_hex (skip_space cs)))

-- What the loop of `run_cpu` gets, with fuel for its rounds; each takes a character at least.
unfoldable pub trace_lines : ℕ → TraceLine → List ℕ → List TraceLine
trace_lines zero line cs = []
trace_lines (suc fuel) line cs = elim (read_address line cs) [
  | none ↦ []
  | some (line', cs') ↦ line' ∷ trace_lines fuel line' cs'
]
