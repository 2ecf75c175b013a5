-- ===== src/Bank/Sim/Tests.antt =====
-- banksim.c at a concrete trace of two ATMs and two accounts, whose messages arrive in another order.
use projects_in_c.Base.{
  ℕ, zero, suc, ◌≡◌, ◌<◌, refl, List, [], ◌∷◌, some, inl, inr, length, replicate, arith,
}
use projects_in_c.Bank.Command.{
  Command, cmd_unpack, cmd_pack, pack_int, unpack_int, msg_deposit, msg_balance, msg_exit,
}
use projects_in_c.Bank.Errors.{Errors, success}
use projects_in_c.Bank.Trace.Format.{trace_bytes}
use projects_in_c.Bank.Atm.{AtmState}
use projects_in_c.Bank.Atm.Laws.{own}
use projects_in_c.Bank.Server.{Bank, Round}
use projects_in_c.Bank.Server.Run.{IsGood}
use projects_in_c.Bank.Sim.{simulated, banksim}
use projects_in_c.Bank.Sim.History.{History, EndsIn, messages}
use projects_in_c.Bank.Sim.Order.{all_successful, AllSent, banksim-History}

abbrev no_error : Errors
no_error = record { errm = []; err = 0 }

abbrev trace : List Command
trace = msg_balance 1 0 ∷ msg_deposit 0 1 70 ∷ msg_exit 0 ∷ msg_exit 1 ∷ []

-- The deposit arrives first, and the ATM 1 leaves first.
abbrev arrivals : List Command
arrivals = msg_deposit 0 1 70 ∷ msg_balance 1 0 ∷ msg_exit 1 ∷ msg_exit 0 ∷ []

abbrev round_of : Command → Round
round_of m = record { result = 17; cmd = m; wrote = 17 }

abbrev rounds : List Round
rounds =
    round_of (msg_deposit 0 1 70)
    ∷ round_of (msg_balance 1 0)
    ∷ round_of (msg_exit 1)
    ∷ round_of (msg_exit 0)
    ∷ []

pay_in-IsGood : IsGood 2 2 (round_of (msg_deposit 0 1 70))
unfolding cmd_unpack cmd_pack pack_int unpack_int
pay_in-IsGood = record {
  read_all = omega arith;
  read_nat = omega arith;
  wrote_all = omega arith;
  wrote_nat = omega arith;
  words = record { i = omega arith; f = omega arith; t = omega arith; a = omega arith };
  atm = omega arith;
  known = inr (inr (inl refl));
  own = λ e h. omega arith;
}

ask-IsGood : IsGood 2 2 (round_of (msg_balance 1 0))
unfolding cmd_unpack cmd_pack pack_int unpack_int
ask-IsGood = record {
  read_all = omega arith;
  read_nat = omega arith;
  wrote_all = omega arith;
  wrote_nat = omega arith;
  words = record { i = omega arith; f = omega arith; t = omega arith; a = omega arith };
  atm = omega arith;
  known = inr (inr (inr (inr (inr refl))));
  own = λ e h. omega arith;
}

leave-IsGood : (i : ℕ) → i < 2 → IsGood 2 2 (round_of (msg_exit i))
unfolding cmd_unpack cmd_pack pack_int unpack_int
leave-IsGood i h = record {
  read_all = omega arith;
  read_nat = omega arith;
  wrote_all = omega arith;
  wrote_nat = omega arith;
  words = record { i = omega arith; f = omega arith; t = omega arith; a = omega arith };
  atm = omega arith;
  known = inr (inl refl);
  own = λ e h. omega arith;
}

in_order : (i : ℕ) → i < 2 → own i (messages rounds) ≡ own i trace
unfolding cmd_unpack cmd_pack pack_int unpack_int
in_order zero h = refl
in_order (suc zero) h = refl
in_order (suc (suc i)) h = absurd (omega arith)

rounds-EndsIn : EndsIn 2 rounds
unfolding cmd_unpack cmd_pack pack_int unpack_int
rounds-EndsIn = tt

banksim-History_example :
    (b' : Bank) × (ss : List AtmState) × (banksim 5
        (some (trace_bytes 2 2 trace))
        (msg_exit 0)
        no_error
        rounds
      ≡ simulated (all_successful ss) (some (some success, b', 0)))
    × History 2 rounds (replicate 2 0) b'.accounts b'.outbox
    × (length ss ≡ 2)
    × AllSent trace 0 ss
banksim-History_example =
    banksim-History 2 2 5 trace (msg_exit 0) no_error rounds (omega arith) (omega arith)
      (omega arith)
      (
        pay_in-IsGood,
        (ask-IsGood, (leave-IsGood 1 (omega arith), (leave-IsGood 0 (omega arith), tt))),
      )
      in_order rounds-EndsIn
