-- ===== src/Bank/Treader.antt =====
-- treader.c, which prints a trace file, and `cmd_dump` of command.c, which prints a message where the
-- environment variable BANKSIM_DEBUG is set (`debug`). The text that is printed is the result.
pub mod Lines
mod Tests
use projects_in_c.Base.{
  ℕ, zero, suc, List, [], ◌∷◌, ◌++◌, Option, none, some, Bool, not, if◌then◌else◌, ◌>>=◌, get_elem?,
}
use projects_in_c.Base.Text.{codes}
use projects_in_c.Base.Decimal.{print_int}
use projects_in_c.Bank.Command.{Command, cmd_unpack}
use projects_in_c.Bank.Trace.{
  Trace, trace_start, trace_open, trace_close, trace_read_cmd, trace_atm_count, trace_account_count,
}
use projects_in_c.Bank.Atm.{is_end}

abbrev pub cmd_strings : List (List ℕ)
cmd_strings =
    codes "OK"
    ∷ codes "CONNECT"
    ∷ codes "EXIT"
    ∷ codes "DEPOSIT"
    ∷ codes "WITHDRAW"
    ∷ codes "TRANSFER"
    ∷ codes "BALANCE"
    ∷ codes "NOFUNDS"
    ∷ codes "ATMUNKN"
    ∷ codes "ACCUNKN"
    ∷ []

-- A fault is a command byte past the table of names.
unfoldable pub cmd_dump : (debug : Bool) (msg : List ℕ) (id : ℕ) → Command → Option (List ℕ)
cmd_dump debug msg id cmd =
    let p = cmd_unpack cmd in
    let text : Option (List ℕ) = get_elem? cmd_strings p.c >>= λ name. some (
      msg
      ++ b'[' ∷ print_int id
      ++ b']' ∷ b' ' ∷ name
      ++ b' ' ∷ print_int p.i
      ++ b' ' ∷ print_int p.f
      ++ b' ' ∷ print_int p.t
      ++ b' ' ∷ print_int p.a
      ++ b'\n' ∷ []) in
    if debug then text else some []

-- The loop of `main`, with fuel for its rounds: what it prints, and the trace afterwards.
unfoldable pub dump_loop : ℕ → Bool → Command → Trace → Option (List ℕ × Trace)
dump_loop zero debug cmd t = none
dump_loop (suc fuel) debug cmd t =
    let (n, cmd', t') = trace_read_cmd cmd t in
    let rest = dump_loop fuel debug cmd' t' in
    let shown : Option (List ℕ × Trace) = cmd_dump debug (codes "TREADER") 0 cmd' >>= λ text.
    rest >>= λ (texts, t''). some (text ++ texts, t'') in
    if is_end n then some ([], t') else shown

unfoldable pub print_counts : Trace → List ℕ
print_counts t =
    codes "number of ATMs: "
    ++ print_int (trace_atm_count t)
    ++ b'\n' ∷ codes "number of accounts: "
    ++ print_int (trace_account_count t)
    ++ b'\n' ∷ []

-- `main` for the arguments `program` and `path`: the exit status and what is printed. `cmd` is what
-- the buffer holds before the first read.
unfoldable pub treader :
    ℕ → Bool → (program path : List ℕ) → Option (List ℕ) → Command → Option (ℕ × List ℕ)
unfolding print_counts
treader fuel debug program path file cmd =
    let (opened, t) = trace_open file trace_start in
    let run : Option (ℕ × List ℕ) = dump_loop fuel debug cmd t >>= λ (texts, t').
    trace_close t' >>= λ _. some (0, print_counts t ++ texts) in
    if not opened then some (1, program ++ codes ": could not open " ++ path ++ b'\n' ∷ []) else run
