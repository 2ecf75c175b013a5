-- ===== src/Bank/Treader/Tests.antt =====
-- treader.c at a concrete trace of one ATM and two accounts.
use projects_in_c.Base.{ℕ, ◌≡◌, refl, List, [], ◌∷◌, ◌++◌, true, some, none, arith}
use projects_in_c.Base.Text.{codes}
use projects_in_c.Base.Decimal.{print_int, digits}
use projects_in_c.Bank.Command.{Parts, msg_exit, cmd_pack, cmd_unpack, cmd_connect, cmd_deposit}
use projects_in_c.Bank.Trace.Format.{trace_bytes}
use projects_in_c.Bank.Treader.{treader, cmd_dump}
use projects_in_c.Bank.Treader.Lines.{IsNamed, packed, shown, treader-shown}

abbrev connect : Parts
connect = record { c = cmd_connect; i = 0; f = 4294967295; t = 4294967295; a = 4294967295 }

abbrev pay_in : Parts
pay_in = record { c = cmd_deposit; i = 0; f = 4294967295; t = 1; a = 50 }

abbrev trace : List Parts
trace = connect ∷ pay_in ∷ []

connect-IsNamed : IsNamed connect
connect-IsNamed = record {
  words = record { i = omega arith; f = omega arith; t = omega arith; a = omega arith };
  kind = omega arith;
}

pay_in-IsNamed : IsNamed pay_in
pay_in-IsNamed = record {
  words = record { i = omega arith; f = omega arith; t = omega arith; a = omega arith };
  kind = omega arith;
}

shown_text :
    shown true trace ≡ codes "TREADER[0] CONNECT 0 -1 -1 -1\nTREADER[0] DEPOSIT 0 -1 1 50\n"
unfolding print_int digits
shown_text = refl

-- A command byte that has no name is read past the end of the table.
no_name : (msg : List ℕ) → cmd_dump true msg 0 (cmd_pack 10 0 0 0 0) ≡ none
unfolding cmd_dump cmd_unpack cmd_pack
no_name msg = refl

treader-shown_example :
    treader 3 true
      (codes "treader")
      (codes "small.trace")
      (some (trace_bytes 1 2 (packed trace)))
      (msg_exit 0)
    ≡ some (
      0,
      (codes "number of ATMs: " ++ print_int 1 ++ b'\n' ∷ [])
          ++ (codes "number of accounts: " ++ print_int 2 ++ b'\n' ∷ [])
          ++ shown true trace,
    )
treader-shown_example =
    treader-shown 1 2 3 trace (codes "treader") (codes "small.trace") (msg_exit 0) true
      (omega arith) (omega arith) (omega arith) (connect-IsNamed, (pay_in-IsNamed, tt))
