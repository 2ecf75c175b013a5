-- ===== src/Bank/Server/Ledger/Audit.antt =====
-- bank.c, `bank`: what a message does to the money in the accounts.
use projects_in_c.Base.{ℕ, ◌+◌, ◌%◌, ◌<◌, ◌≡◌, ◌≢◌, [], ◌∷◌, ◌++◌, some, get_elem?}
use projects_in_c.Base.Words.{word, int_sign, IsNat}
use projects_in_c.Bank.Command.{Command, cmd_unpack, cmd_balance}
use projects_in_c.Bank.Server.{Bank, bank}
use projects_in_c.Bank.Server.Checks.{IsOpen}
use projects_in_c.Bank.Server.Ledger.{AreWords}
use projects_in_c.Bank.Server.Ledger.Steps.{active, bank-Transacted}
use projects_in_c.Bank.Server.Ledger.Operations.{IsKnown, write_status}
use projects_in_c.Bank.Server.Ledger.Money.{
  sum, AllBelow, paid_in, paid_out, Step-sum, Step-frame, Step-no_overdraft,
}

-- What the message must be: of a known kind, from one of the bank's ATMs, and, where it asks for
-- the balance of an account, from an ATM whose number is that of an account as well.
pub record IsServed (cmd : Command) (b : Bank) : Type 0 where
  pub words : AreWords (cmd_unpack cmd)
  pub atm : (cmd_unpack cmd).i < b.atm_count
  pub known : IsKnown (cmd_unpack cmd).c
  pub own :
      (cmd_unpack cmd).c ≡ cmd_balance
      → (cmd_unpack cmd).f < b.account_count
      → (cmd_unpack cmd).i < b.account_count

module _ (wrote : ℕ) (cmd : Command) (b : Bank) (n : ℕ) where
  -- Served by an open bank, a message gets one reply, to its ATM, and no other message is written.
  -- The sum of the balances, modulo 2^32, changes by the amount of a deposit or a withdrawal that is
  -- answered by OK in that reply, and by nothing else: a transfer keeps it. No account changes that
  -- the message does not name.
  pub bank-money :
      IsOpen b
      → IsServed cmd b
      → (b' : Bank) × (m : Command) × (bank wrote cmd b n
          ≡ some (write_status wrote, b', active (cmd_unpack cmd) n))
        × (b'.outbox ≡ b.outbox ++ ((cmd_unpack cmd).i, m) ∷ [])
        × ((sum b'.accounts + paid_out (cmd_unpack cmd) m) % word
            ≡ (sum b.accounts + paid_in (cmd_unpack cmd) m) % word)
        × ((j : ℕ)
            → j ≢ (cmd_unpack cmd).f
            → j ≢ (cmd_unpack cmd).t
            → get_elem? b'.accounts j ≡ get_elem? b.accounts j)
  bank-money open_b s =
      let (b', m, e, ans, step) =
        bank-Transacted wrote cmd b n open_b s.words s.atm s.known s.own in
      (b', m, e, ans.outbox, Step-sum s.words.a step, λ j jf jt. Step-frame j jf jt step)

  -- Where no balance and no amount is negative, and all the money with the amount fits an `int`, a
  -- message that is served leaves no balance negative.
  pub bank-no_overdraft :
      IsOpen b
      → IsServed cmd b
      → AllBelow int_sign b.accounts
      → IsNat (cmd_unpack cmd).a
      → sum b.accounts + (cmd_unpack cmd).a < int_sign
      → (b' : Bank) × (bank wrote cmd b n
          ≡ some (write_status wrote, b', active (cmd_unpack cmd) n))
        × AllBelow int_sign b'.accounts
  bank-no_overdraft open_b s below nat fits =
      let (b', m, e, ans, step) =
        bank-Transacted wrote cmd b n open_b s.words s.atm s.known s.own in
      (b', e, Step-no_overdraft below nat fits step)
