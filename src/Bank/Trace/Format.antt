-- ===== src/Bank/Trace/Format.antt =====
-- trace.c: what is read back from a trace file that was written whole.
use Prim.Native.Nat.{bit_or, bit_or-bitwise}
use projects_in_c.Base.{ℕ, ◌<◌, ◌≡◌, refl, List, [], ◌∷◌, ◌++◌, Option, some, true, arith}
use projects_in_c.Base.Words.{word}
use projects_in_c.Bank.Command.{Command, message_size, pack_int, unpack_int-pack_int}
use projects_in_c.Bank.Trace.{
  Trace, trace_start, trace_open, bytes_of4, command_bytes, trace_read_cmd,
}

-- The bytes of the messages of a trace file.
abbrev pub body : List Command → List ℕ
body [] = []
body (m ∷ ms) = command_bytes m ++ body ms

-- The bytes of a trace file.
abbrev pub trace_bytes : ℕ → ℕ → List Command → List ℕ
trace_bytes atms accounts cmds =
    bytes_of4 (pack_int atms) ++ (bytes_of4 (pack_int accounts) ++ body cmds)

zero-bit_or : (x : ℕ) → bit_or 0 x ≡ x
zero-bit_or x = bit_or-bitwise 0 x

-- A message is read back, and the rest of the file stays.
pub read_cmd-cons :
    (m cmd : Command) (rest : List ℕ) (t : Trace)
    → t.tracefd ≡ some (command_bytes m ++ rest)
    → trace_read_cmd cmd t ≡ (some message_size, m, record t { tracefd = some rest })
unfolding trace_read_cmd
read_cmd-cons m cmd rest t e = rw e

pub read_cmd-nil :
    (cmd : Command) (t : Trace)
    → t.tracefd ≡ some []
    → (n : Option ℕ × Command × Trace) × (trace_read_cmd cmd t ≡ n) × (n.0 ≡ some 0)
unfolding trace_read_cmd
read_cmd-nil cmd t e = (trace_read_cmd cmd t, refl, rw e)

-- Where a trace file is opened by a program that has none open, the counts are those of the file,
-- and its messages are still to be read.
pub trace_open_lem :
    (atms accounts : ℕ) (cmds : List Command)
    → atms < word
    → accounts < word
    → trace_open (some (trace_bytes atms accounts cmds)) trace_start
      ≡ (true, record { tracefd = some (body cmds); atm_cnt = atms; account_cnt = accounts })
unfolding trace_open
trace_open_lem atms accounts cmds ha hc = ground (
  arith,
  zero-bit_or atms,
  zero-bit_or accounts,
  unpack_int-pack_int atms ha,
  unpack_int-pack_int accounts hc,
)
