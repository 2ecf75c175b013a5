-- ===== src/Bank/Twriter/Tests.antt =====
-- The theorem about the writer of traces at a concrete input.
use projects_in_c.Base.{ℕ, ◌-◌, ◌^◌, ◌≡◌, List, [], ◌∷◌, ◌++◌, some, true, arith, length}
use projects_in_c.Bank.Command.{Command, msg_exit}
use projects_in_c.Bank.Trace.{trace_start, trace_open}
use projects_in_c.Bank.Trace.Format.{body}
use projects_in_c.Bank.Twriter.{connects, exits, twriter}
use projects_in_c.Bank.Twriter.Written.{AreDeposits, AreTransactions, twriter_lem}

-- The highest result is thrown away.
abbrev results : List ℕ
results = 5 ∷ 2147483647 ∷ 1500000000 ∷ 9 ∷ 1600000000 ∷ 3 ∷ 700000000 ∷ 2000000000 ∷ []

twriter_lem_example :
    (file : List ℕ) × (ds ts : List Command) × (twriter (2 ^ 31 - 1) 2 2 1 (msg_exit 0) results
      ≡ some file)
    × (trace_open (some file) trace_start ≡ (
      true,
      record {
        tracefd = some (body (connects 2 0 ++ (ds ++ (ts ++ exits 2 0))));
        atm_cnt = 2;
        account_cnt = 2;
      },
    ))
    × (length ds ≡ 2)
    × AreDeposits 2 0 ds
    × (length ts ≡ 1)
    × AreTransactions 2 2 ts
twriter_lem_example =
    twriter_lem (2 ^ 31 - 1) 2 2 1 201 (msg_exit 0) results (omega arith) (omega arith)
      (omega arith) (omega arith) (omega arith) (omega arith) (omega arith) (omega arith)
      (omega arith) (omega arith)
