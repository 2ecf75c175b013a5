-- ===== src/Bank/Server/Ledger.antt =====
-- bank.c against a ledger: the transactions that the server may make, as a relation between the
-- accounts before and after and the reply, and that each message makes exactly one of them.
pub mod Operations
pub mod Steps
pub mod Money
pub mod Audit
use projects_in_c.Base.{
  ℕ, ◌+◌, ◌≤◌, ◌<◌, ◌≡◌, ◌⊎◌, List, [], ◌∷◌, ◌++◌, Option, some, Bool, true, false, get_elem?, set,
}
use projects_in_c.Base.Words.{add, sub, slt, word}
use projects_in_c.Bank.Command.{
  Command, Parts, cmd_connect, cmd_exit, cmd_deposit, cmd_withdraw, cmd_transfer, cmd_balance,
  msg_ok, msg_nofunds, msg_accunkn,
}
use projects_in_c.Bank.Server.{Bank}

-- One transaction of a ledger with `n` accounts.
pub data Step (n : ℕ) (p : Parts) (xs ys : List ℕ) (m : Command) : Type 0 where
  greeted :
      (p.c ≡ cmd_connect) ⊎ (p.c ≡ cmd_exit) → ys ≡ xs → m ≡ msg_ok 0 p.f p.t p.a → Step n p xs ys m
  deposited :
      (x : ℕ)
      → p.c ≡ cmd_deposit
      → p.t < n
      → get_elem? xs p.t ≡ some x
      → ys ≡ set xs p.t (add x p.a)
      → m ≡ msg_ok 0 p.f p.t p.a
      → Step n p xs ys m
  withdrawn :
      (x : ℕ)
      → p.c ≡ cmd_withdraw
      → p.f < n
      → get_elem? xs p.f ≡ some x
      → slt x p.a ≡ false
      → ys ≡ set xs p.f (sub x p.a)
      → m ≡ msg_ok 0 p.f p.t p.a
      → Step n p xs ys m
  transferred :
      (x y : ℕ)
      → p.c ≡ cmd_transfer
      → p.f < n
      → p.t < n
      → get_elem? xs p.f ≡ some x
      → slt x p.a ≡ false
      → get_elem? (set xs p.f (sub x p.a)) p.t ≡ some y
      → ys ≡ set (set xs p.f (sub x p.a)) p.t (add y p.a)
      → m ≡ msg_ok 0 p.f p.t p.a
      → Step n p xs ys m
  no_funds :
      (x : ℕ)
      → (p.c ≡ cmd_withdraw) ⊎ ((p.c ≡ cmd_transfer) × (p.t < n))
      → p.f < n
      → get_elem? xs p.f ≡ some x
      → slt x p.a ≡ true
      → ys ≡ xs
      → m ≡ msg_nofunds 0 p.f p.a
      → Step n p xs ys m
  no_target :
      (p.c ≡ cmd_deposit) ⊎ ((p.c ≡ cmd_transfer) × (p.f < n))
      → n ≤ p.t
      → ys ≡ xs
      → m ≡ msg_accunkn 0 p.t
      → Step n p xs ys m
  no_source : p.c ≡ cmd_transfer → n ≤ p.f → ys ≡ xs → m ≡ msg_accunkn 0 p.f → Step n p xs ys m
  no_account :
      (p.c ≡ cmd_withdraw) ⊎ (p.c ≡ cmd_balance)
      → n ≤ p.f
      → ys ≡ xs
      → m ≡ msg_accunkn 0 p.t
      → Step n p xs ys m
  told :
      (x : ℕ)
      → p.c ≡ cmd_balance
      → p.f < n
      → get_elem? xs p.i ≡ some x
      → ys ≡ xs
      → m ≡ msg_ok 0 p.f p.t x
      → Step n p xs ys m

-- The parts are words, as `cmd_unpack` gives them.
pub record AreWords (p : Parts) : Type 0 where
  pub i : p.i < word
  pub f : p.f < word
  pub t : p.t < word
  pub a : p.a < word

-- The bank `b'` is `b` after a transaction with the accounts `ys` and the reply `m` to the ATM `i`.
pub record Answered (b b' : Bank) (i : ℕ) (ys : List ℕ) (m : Command) : Type 0 where
  pub accounts : b'.accounts ≡ ys
  pub account_count : b'.account_count ≡ b.account_count
  pub atm_count : b'.atm_count ≡ b.atm_count
  pub outbox : b'.outbox ≡ b.outbox ++ (i, m) ∷ []
