-- ===== src/Bank/Sim.antt =====
-- banksim.c: the processes of the simulation, the ATMs and the bank, and the pipes between them. The
-- order in which the messages of the ATMs arrive at the bank is that of the rounds, and comes from
-- outside. Processes and descriptors that are closed are not modelled, nor what is printed at the end.
pub mod History
pub mod Order
mod Tests
use projects_in_c.Base.{
  ℕ, zero, suc, ◌+◌, List, [], ◌∷◌, Option, none, some, not, ◌==◌, if◌then◌else◌,
}
use projects_in_c.Base.Words.{slt}
use projects_in_c.Bank.Command.{Command, message_size}
use projects_in_c.Bank.Errors.{Errors}
use projects_in_c.Bank.Trace.{trace_start, trace_open}
use projects_in_c.Bank.Server.{Bank, Round, bank_open, run_bank}
use projects_in_c.Bank.Atm.{Exchange, AtmState, atm_run}

-- What the pipe to the ATM `i` carries, of all that the bank writes.
unfoldable pub replies_to : ℕ → List (ℕ × Command) → List Command
replies_to i [] = []
replies_to i ((j, m) ∷ ms) = if i == j then m ∷ replies_to i ms else replies_to i ms

-- An exchange for each reply: the pipes carry whole messages.
unfoldable pub exchanges_of : List Command → List Exchange
exchanges_of [] = []
exchanges_of (m ∷ ms) =
    record { wrote = message_size; got = message_size; answer = m } ∷ exchanges_of ms

-- What the bank has written at the end.
unfoldable pub written : Option (Option ℕ × Bank × ℕ) → List (ℕ × Command)
written none = []
written (some (status, b, left)) = b.outbox

-- The process of the ATM `i`, where the bank writes `ms`.
unfoldable pub run_atm :
    ℕ → Option (List ℕ) → Command → Errors → List (ℕ × Command) → ℕ → Option ℕ × AtmState
unfolding replies_to exchanges_of
run_atm fuel file buffer e ms i =
    atm_run fuel file i buffer
      (record { exchanges = exchanges_of (replies_to i ms); errors = e; outbox = []; notices = [] })

-- The first loop of `main`, for the next ATMs from `i` on.
unfoldable pub run_atms :
    ℕ
    → Option (List ℕ)
    → Command
    → Errors
    → List (ℕ × Command)
    → (count i : ℕ) → List (Option ℕ × AtmState)
unfolding run_atm
run_atms fuel file buffer e ms zero i = []
run_atms fuel file buffer e ms (suc count) i =
    run_atm fuel file buffer e ms i ∷ run_atms fuel file buffer e ms count (suc i)

-- What `main` ends with: `not_opened` is the exit where there is no trace file, and `bad_count` the
-- table of a negative number of descriptors, which C leaves undefined.
pub data Simulation : Type 0 where
  not_opened bad_count : Simulation
  simulated : List (Option ℕ × AtmState) → Option (Option ℕ × Bank × ℕ) → Simulation

-- The variables of bank.c before `bank_open`.
abbrev pub no_bank : Errors → Bank
no_bank e = record { accounts = []; account_count = 0; atm_count = 0; errors = e; outbox = [] }

-- `main`: `fuel` and `buffer` are those of the ATMs, and `e` is the last error so far.
unfoldable pub banksim : ℕ → Option (List ℕ) → Command → Errors → List Round → Simulation
banksim fuel file buffer e rounds =
    let (opened, t) = trace_open file trace_start in
    let served : Option (Option ℕ × Bank × ℕ) =
      run_bank rounds (bank_open t.atm_cnt t.account_cnt (no_bank e)) t.atm_cnt in
    if not opened
    then not_opened
    else (if slt t.atm_cnt 0
        then bad_count
        else simulated (run_atms fuel file buffer e (written served) t.atm_cnt 0) served)
