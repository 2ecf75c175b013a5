-- ===== src/Bank/Tests.antt =====
-- The theorems about the bank, its ATMs and their messages at concrete inputs.
use projects_in_c.Base.{
  ℕ, ◌+◌, ◌%◌, ◌≤◌, ◌≡◌, ◌≢◌, refl, inl, inr, List, [], ◌∷◌, ◌++◌, Option, some, true, arith,
  get_elem?,
}
use projects_in_c.Base.Words.{word, int_sign}
use projects_in_c.Bank.Command.{
  Bytes4, Command, unpack_int, cmd_pack, cmd_unpack, cmd_deposit, cmd_exit, cmd_ok,
  cmd_unpack-cmd_pack,
}
use projects_in_c.Bank.Errors.{Errors, success, err_unknown_atm}
use projects_in_c.Bank.Server.{Bank, Round, bank, run_bank}
use projects_in_c.Bank.Server.Checks.{IsOpen, SameBut}
use projects_in_c.Bank.Server.Ledger.{AreWords}
use projects_in_c.Bank.Server.Ledger.Steps.{active, Transacted, bank-Transacted, bank-unknown_atm}
use projects_in_c.Bank.Server.Ledger.Operations.{write_status}
use projects_in_c.Bank.Server.Ledger.Money.{sum, AllBelow, paid_in, paid_out}
use projects_in_c.Bank.Server.Ledger.Audit.{IsServed, bank-money, bank-no_overdraft}
use projects_in_c.Bank.Server.Run.{IsGood, Served, run_bank-Served}
use projects_in_c.Bank.Atm.{AtmState, is_request, atm_run}
use projects_in_c.Bank.Atm.Laws.{own, AllRequests, IsComplete, Sent, atm_run-own}
use projects_in_c.Bank.Trace.{trace_start, trace_open}
use projects_in_c.Bank.Trace.Format.{trace_bytes, body, trace_open_lem}

cmd_unpack-cmd_pack_example :
    cmd_unpack (cmd_pack cmd_deposit 1 2 3 500)
    ≡ record { c = cmd_deposit; i = 1; f = 2; t = 3; a = 500 }
cmd_unpack-cmd_pack_example =
    cmd_unpack-cmd_pack cmd_deposit 1 2 3 500 (omega arith) (omega arith) (omega arith)
      (omega arith)

abbrev bytes_1234 : Bytes4
bytes_1234 = record { b0 = 1; b1 = 2; b2 = 3; b3 = 4 }

-- The four bytes of a small number, and the message that pays 500 into account 1 from ATM 0.
abbrev small : ℕ → Bytes4
small n = record { b0 = 0; b1 = 0; b2 = 0; b3 = n }

abbrev pay_in : Command
pay_in = record { cmd = cmd_deposit; id = small 0; from = small 0; to = small 1; amt = small 50 }

abbrev leave : Command
leave = record { cmd = cmd_exit; id = small 0; from = small 0; to = small 0; amt = small 0 }

pay_in-parts : cmd_unpack pay_in ≡ record { c = cmd_deposit; i = 0; f = 0; t = 1; a = 50 }
unfolding cmd_unpack unpack_int
pay_in-parts = refl

leave-parts : cmd_unpack leave ≡ record { c = cmd_exit; i = 0; f = 0; t = 0; a = 0 }
unfolding cmd_unpack unpack_int
leave-parts = refl

abbrev no_error : Errors
no_error = record { err = 0; errm = [] }

abbrev two_accounts : Bank
two_accounts = record {
  accounts = 10 ∷ 20 ∷ [];
  account_count = 2;
  atm_count = 1;
  errors = no_error;
  outbox = [];
}

two_accounts-IsOpen : IsOpen two_accounts
two_accounts-IsOpen = record { size = refl; accounts_fit = omega arith; atms_fit = omega arith }

pay_in-IsServed : IsServed pay_in two_accounts
unfolding cmd_unpack unpack_int
pay_in-IsServed = record {
  words = record { i = omega arith; f = omega arith; t = omega arith; a = omega arith };
  atm = omega arith;
  known = inr (inr (inl refl));
  own = λ e h. omega arith;
}

bank-Transacted_example :
    Transacted 17
      (cmd_unpack pay_in)
      two_accounts
      1
      two_accounts-IsOpen
      pay_in-IsServed.words
      (bank 17 pay_in two_accounts 1)
bank-Transacted_example =
    bank-Transacted 17 pay_in two_accounts 1 two_accounts-IsOpen pay_in-IsServed.words
      pay_in-IsServed.atm pay_in-IsServed.known pay_in-IsServed.own

bank-money_example :
    (b' : Bank) × (m : Command) × (bank 17 pay_in two_accounts 1
      ≡ some (write_status 17, b', active (cmd_unpack pay_in) 1))
    × (b'.outbox ≡ two_accounts.outbox ++ ((cmd_unpack pay_in).i, m) ∷ [])
    × ((sum b'.accounts + paid_out (cmd_unpack pay_in) m) % word
        ≡ (sum two_accounts.accounts + paid_in (cmd_unpack pay_in) m) % word)
    × ((j : ℕ)
        → j ≢ (cmd_unpack pay_in).f
        → j ≢ (cmd_unpack pay_in).t
        → get_elem? b'.accounts j ≡ get_elem? two_accounts.accounts j)
bank-money_example = bank-money 17 pay_in two_accounts 1 two_accounts-IsOpen pay_in-IsServed

pay_in-a : (cmd_unpack pay_in).a ≡ 50
unfolding cmd_unpack unpack_int
pay_in-a = refl

bank-no_overdraft_example :
    (b' : Bank) × (bank 17 pay_in two_accounts 1
      ≡ some (write_status 17, b', active (cmd_unpack pay_in) 1))
    × AllBelow int_sign b'.accounts
bank-no_overdraft_example =
    bank-no_overdraft 17 pay_in two_accounts 1 two_accounts-IsOpen pay_in-IsServed
      (omega arith, (omega arith, tt)) (omega (arith, pay_in-a)) (omega (arith, pay_in-a))

abbrev from_far : Command
from_far = record { cmd = cmd_deposit; id = small 7; from = small 0; to = small 1; amt = small 50 }

from_far-words : AreWords (cmd_unpack from_far)
unfolding cmd_unpack unpack_int
from_far-words = record { i = omega arith; f = omega arith; t = omega arith; a = omega arith }

from_far-atm : 1 ≤ (cmd_unpack from_far).i
unfolding cmd_unpack unpack_int
from_far-atm = omega arith

bank-unknown_atm_example :
    (b' : Bank) × (bank 17 from_far two_accounts 1 ≡ some (err_unknown_atm, b', 1))
    × SameBut two_accounts b'
bank-unknown_atm_example =
    bank-unknown_atm 17 from_far two_accounts 1 two_accounts-IsOpen from_far-words from_far-atm

abbrev rounds : List Round
rounds =
    record { result = 17; cmd = pay_in; wrote = 17 }
    ∷ record { result = 17; cmd = leave; wrote = 17 }
    ∷ []

pay_in-IsGood : IsGood 2 1 (record { result = 17; cmd = pay_in; wrote = 17 })
unfolding cmd_unpack unpack_int
pay_in-IsGood = record {
  read_all = omega arith;
  read_nat = omega arith;
  wrote_all = omega arith;
  wrote_nat = omega arith;
  words = record { i = omega arith; f = omega arith; t = omega arith; a = omega arith };
  atm = omega arith;
  known = inr (inr (inl refl));
  own = λ e h. omega arith;
}

leave-IsGood : IsGood 2 1 (record { result = 17; cmd = leave; wrote = 17 })
unfolding cmd_unpack unpack_int
leave-IsGood = record {
  read_all = omega arith;
  read_nat = omega arith;
  wrote_all = omega arith;
  wrote_nat = omega arith;
  words = record { i = omega arith; f = omega arith; t = omega arith; a = omega arith };
  atm = omega arith;
  known = inr (inl refl);
  own = λ e h. omega arith;
}

run_bank-Served_example :
    (status : Option ℕ) × (b' : Bank) × (left : ℕ) × (run_bank rounds two_accounts 1
      ≡ some (status, b', left))
    × Served two_accounts 1 rounds status b' left
run_bank-Served_example =
    run_bank-Served rounds two_accounts 1 two_accounts-IsOpen (omega arith)
      (pay_in-IsGood, (leave-IsGood, tt))

trace_open_lem_example :
    trace_open (some (trace_bytes 1 2 (pay_in ∷ []))) trace_start
    ≡ (true, record { tracefd = some (body (pay_in ∷ [])); atm_cnt = 1; account_cnt = 2 })
trace_open_lem_example = trace_open_lem 1 2 (pay_in ∷ []) (omega arith) (omega arith)

-- The pipes carry one request and its reply.
abbrev okay : Command
okay = record { cmd = cmd_ok; id = small 0; from = small 0; to = small 0; amt = small 0 }

okay-c : (cmd_unpack okay).c ≡ cmd_ok
unfolding cmd_unpack
okay-c = refl

abbrev at_atm : AtmState
at_atm = record {
  exchanges = record { wrote = 17; got = 17; answer = okay } ∷ [];
  errors = no_error;
  outbox = [];
  notices = [];
}

at_atm-IsComplete : IsComplete (record { wrote = 17; got = 17; answer = okay })
at_atm-IsComplete = record {
  wrote_all = omega arith;
  wrote_nat = omega arith;
  got_all = omega arith;
  got_nat = omega arith;
  answer = inl okay-c;
}

own_one : own 0 (pay_in ∷ []) ≡ pay_in ∷ []
unfolding cmd_unpack unpack_int
own_one = refl

own_pay_in : AllRequests (own 0 (pay_in ∷ []))
unfolding cmd_unpack unpack_int is_request
own_pay_in = (refl, tt)

atm_run-own_example :
    (s' : AtmState) × (atm_run 2 (some (trace_bytes 1 2 (pay_in ∷ []))) 0 okay at_atm
      ≡ (some success, s'))
    × Sent 0 (pay_in ∷ []) at_atm s'
atm_run-own_example =
    atm_run-own 1 2 0 2 (pay_in ∷ []) okay at_atm (omega arith) (omega arith) (omega arith)
      (at_atm-IsComplete, tt) own_pay_in (rw own_one (omega arith))
