-- ===== src/Bank/Twriter.antt =====
-- twriter.c: a program that writes a trace file of random requests. `rand` is the C library's: its results
-- are a parameter, the list of those that the run is given, and so is `RAND_MAX`. The files are opened
-- and written without an error; the code does not look at these results.
pub mod Random
pub mod Written
mod Tests
use projects_in_c.Base.{
  ℕ, zero, suc, ◌+◌, ◌-◌, ◌/◌, ◌%◌, ◌^◌, List, [], ◌∷◌, ◌++◌, Option, none, some, leb, ltb, ◌==◌,
  if◌then◌else◌, ◌>>=◌,
}
use projects_in_c.Base.Words.{int_sign, sub}
use projects_in_c.Bank.Command.{
  Command, pack_int, cmd_deposit, cmd_withdraw, cmd_transfer, cmd_balance, msg_connect, msg_exit,
  msg_deposit, msg_withdraw, msg_transfer, msg_balance,
}
use projects_in_c.Bank.Trace.{bytes_of4, command_bytes}

-- An `int` as a `long` of 64 bits.
abbrev pub long_of_int : ℕ → ℕ
long_of_int x = if ltb x int_sign then x else 0xffffffff00000000 + x

-- The loop that throws results of `rand` away, and the division behind it. `none` is a run that is given
-- no more results.
unfoldable pub draw : ℕ → ℕ → List ℕ → Option (ℕ × List ℕ)
draw limit bin_size [] = none
draw limit bin_size (x ∷ rs) =
    let again = draw limit bin_size rs in if leb limit x then again else some (x / bin_size, rs)

-- `random_at_most`, and the results of `rand` behind those that it uses. A division by zero is a fault.
unfoldable pub random_at_most : ℕ → ℕ → List ℕ → Option (ℕ × List ℕ)
unfolding draw
random_at_most rand_max max rs =
    let num_bins = (max + 1) % 2 ^ 64 in
    let num_rand = rand_max + 1 in
    if num_bins == 0 then none else draw (num_rand - num_rand % num_bins) (num_rand / num_bins) rs

-- How many rounds `for (int i = 0; i < n; i++)` makes.
abbrev pub rounds : ℕ → ℕ
rounds n = if ltb n int_sign then n else 0

-- The loop that lets the ATMs connect, from number `i` on.
unfoldable pub connects : ℕ → ℕ → List Command
connects zero i = []
connects (suc n) i = msg_connect i ∷ connects n (i + 1)

-- The last loop, in which they leave.
unfoldable pub exits : ℕ → ℕ → List Command
exits zero i = []
exits (suc n) i = msg_exit i ∷ exits n (i + 1)

-- The loop over the accounts, from number `i` on.
unfoldable pub deposits : ℕ → ℕ → ℕ → ℕ → List ℕ → Option (List Command × List ℕ)
deposits rand_max atm_cnt zero i rs = some ([], rs)
deposits rand_max atm_cnt (suc n) i rs =
    random_at_most rand_max (long_of_int (sub atm_cnt 1)) rs >>= λ (rand_atm, rs₁).
    deposits rand_max atm_cnt n (i + 1) rs₁ >>= λ (cmds, rs₂).
    some (msg_deposit rand_atm i 5000 ∷ cmds, rs₂)

-- The `switch`: with any other kind the buffer `cmd` stays as it is.
unfoldable pub choose : ℕ → Command → (atm from to amount : ℕ) → Command
choose kind cmd atm from to amount =
    if kind == cmd_transfer
    then msg_transfer atm from to amount
    else (if kind == cmd_deposit
        then msg_deposit atm to amount
        else (if kind == cmd_withdraw
            then msg_withdraw atm from amount
            else (if kind == cmd_balance then msg_balance atm from else cmd)))

-- A round of the loop over the transactions.
unfoldable pub transaction : ℕ → ℕ → ℕ → Command → List ℕ → Option (Command × List ℕ)
unfolding choose
transaction rand_max atm_cnt account_cnt cmd rs =
    random_at_most rand_max (long_of_int (sub atm_cnt 1)) rs >>= λ (rand_atm, rs₁).
    random_at_most rand_max (long_of_int (sub account_cnt 1)) rs₁ >>= λ (rand_from_acct, rs₂).
    random_at_most rand_max (long_of_int (sub account_cnt 1)) rs₂ >>= λ (rand_to_acct, rs₃).
    random_at_most rand_max 200 rs₃ >>= λ (rand_amount, rs₄).
    random_at_most rand_max 2 rs₄ >>= λ (rand_trans, rs₅).
    some (choose (rand_trans % 256 + 4) cmd rand_atm rand_from_acct rand_to_acct rand_amount, rs₅)

unfoldable pub transactions : ℕ → ℕ → ℕ → ℕ → Command → List ℕ → Option (List Command × List ℕ)
transactions rand_max atm_cnt account_cnt zero cmd rs = some ([], rs)
transactions rand_max atm_cnt account_cnt (suc n) cmd rs =
    transaction rand_max atm_cnt account_cnt cmd rs >>= λ (cmd', rs₁).
    transactions rand_max atm_cnt account_cnt n cmd' rs₁ >>= λ (cmds, rs₂). some (cmd' ∷ cmds, rs₂)

-- The buffer after messages have been made in it.
abbrev pub last_of : List Command → Command → Command
last_of [] cmd = cmd
last_of (c ∷ cs) cmd = last_of cs c

-- The bytes that are written for messages.
unfoldable pub write_all : List Command → List ℕ
write_all [] = []
write_all (c ∷ cs) = command_bytes c ++ write_all cs

-- `main`, given the three numbers of the command line, each an `int`, and what the buffer holds at
-- first: the bytes of the trace file.
unfoldable pub twriter :
    ℕ → (atm_cnt account_cnt trans_cnt : ℕ) → Command → List ℕ → Option (List ℕ)
twriter rand_max atm_cnt account_cnt trans_cnt cmd rs =
    let cs = connects (rounds atm_cnt) 0 in
    deposits rand_max atm_cnt (rounds account_cnt) 0 rs >>= λ (ds, rs₁).
    transactions rand_max atm_cnt account_cnt (rounds trans_cnt) (last_of (cs ++ ds) cmd) rs₁
    >>= λ (ts, rs₂). some (
        bytes_of4 (pack_int atm_cnt)
        ++ (bytes_of4 (pack_int account_cnt)
            ++ write_all (cs ++ (ds ++ (ts ++ exits (rounds atm_cnt) 0)))))
