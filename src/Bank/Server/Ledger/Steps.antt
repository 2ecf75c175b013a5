-- ===== src/Bank/Server/Ledger/Steps.antt =====
-- bank.c: every message of a known kind from a known ATM is one transaction of the ledger.

use projects_in_c.Base.{
  ℕ, ◌≤◌, ◌<◌, ◌≡◌, ◌⊎◌, inl, inr, refl, Option, some, ◌==◌, if◌then◌else◌, arith,
}
use projects_in_c.Base.Words.{sub}
use projects_in_c.Bank.Command.{
  Command, Parts, cmd_unpack, cmd_connect, cmd_exit, cmd_balance, msg_ok,
}
use projects_in_c.Bank.Errors.{err_unknown_atm}
use projects_in_c.Bank.Server.{Bank, reply, dispatch, bank, check_valid_atm}
use projects_in_c.Bank.Server.Checks.{IsOpen, SameBut, check_valid_atm-yes, check_valid_atm-no}
use projects_in_c.Bank.Server.Ledger.{Step, greeted, AreWords, Answered}
use projects_in_c.Bank.Server.Ledger.Operations.{
  Done, IsKnown, balance-Done, deposit-Done, finish, known, transfer-Done, withdraw-Done,
  write_status,
}

-- `*atm_cnt` after a message: an ATM that exits is no longer active.
abbrev pub active : Parts → ℕ → ℕ
active p n = if p.c == cmd_exit then sub n 1 else n

module _ (wrote : ℕ) (p : Parts) (b : Bank) (n : ℕ) (open_b : IsOpen b) (w : AreWords p) where
  -- The outcome of `dispatch` and of `bank`.
  abbrev pub Transacted : Option (ℕ × Bank × ℕ) → Type 0
  Transacted o =
      (b' : Bank) × (m : Command) × (o ≡ some (write_status wrote, b', active p n))
      × Answered b b' p.i b'.accounts m
      × Step b.account_count p b.accounts b'.accounts m

  lift :
      (o : Option (ℕ × Bank)) (o' : Option (ℕ × Bank × ℕ))
      → Done wrote p b o
      → ((r : ℕ) (b' : Bank) → o ≡ some (r, b') → o' ≡ some (r, b', active p n))
      → Transacted o'
  lift o o' (b', m, e, ans, step) h = (b', m, h _ b' e, ans, step)

  greet :
      (p.c ≡ cmd_connect) ⊎ (p.c ≡ cmd_exit)
      → Done wrote p b (some (reply wrote p.i (msg_ok 0 p.f p.t p.a) b))
  greet e = finish wrote p b b (msg_ok 0 p.f p.t p.a) _ refl refl refl refl (greeted e refl refl)

  pub dispatch-Transacted :
      IsKnown p.c
      → (p.c ≡ cmd_balance → p.f < b.account_count → p.i < b.account_count)
      → Transacted (dispatch wrote p b n)
  unfolding dispatch
  dispatch-Transacted (inl e) hi = lift _ _ (greet (inl e)) (λ r b' h. ground arith)
  dispatch-Transacted (inr (inl e)) hi = lift _ _ (greet (inr e)) (λ r b' h. ground arith)
  dispatch-Transacted (inr (inr (inl e))) hi =
      lift _ _ (deposit-Done wrote p b open_b w e) (λ r b' h. rw h (ground arith))
  dispatch-Transacted (inr (inr (inr (inl e)))) hi =
      lift _ _ (withdraw-Done wrote p b open_b w e) (λ r b' h. rw h (ground arith))
  dispatch-Transacted (inr (inr (inr (inr (inl e))))) hi =
      lift _ _ (transfer-Done wrote p b open_b w e) (λ r b' h. rw h (ground arith))
  dispatch-Transacted (inr (inr (inr (inr (inr e))))) hi =
      lift _ _ (balance-Done wrote p b open_b w e (hi e)) (λ r b' h. rw h (ground arith))

module _ (wrote : ℕ) (cmd : Command) (b : Bank) (n : ℕ) (open_b : IsOpen b)
    (w : AreWords (cmd_unpack cmd)) where
  -- At an open bank, a message of a known kind from a known ATM is one transaction of the ledger,
  -- with one reply to that ATM and no other message, whose result is that of the write. (A
  -- question for a balance is answered with the account numbered as the ATM, which must exist.)
  pub bank-Transacted :
      (cmd_unpack cmd).i < b.atm_count
      → IsKnown (cmd_unpack cmd).c
      → ((cmd_unpack cmd).c ≡ cmd_balance
          → (cmd_unpack cmd).f < b.account_count
          → (cmd_unpack cmd).i < b.account_count)
      → Transacted wrote (cmd_unpack cmd) b n open_b w (bank wrote cmd b n)
  unfolding bank
  bank-Transacted atm known hi =
      rw (check_valid_atm-yes b (cmd_unpack cmd).i w.i open_b.atms_fit atm)
        (dispatch-Transacted wrote (cmd_unpack cmd) b n open_b w known hi)

  -- At an open bank, a message from an unknown ATM changes nothing but the last error, gets no
  -- reply, and is answered with the status for an unknown ATM.
  pub bank-unknown_atm :
      b.atm_count ≤ (cmd_unpack cmd).i
      → (b' : Bank) × (bank wrote cmd b n ≡ some (err_unknown_atm, b', n)) × SameBut b b'
  unfolding bank
  bank-unknown_atm atm =
      let (c, same) = check_valid_atm-no b (cmd_unpack cmd).i w.i open_b.atms_fit atm in
      ((check_valid_atm (cmd_unpack cmd).i b).1, ground (arith, c), same)
