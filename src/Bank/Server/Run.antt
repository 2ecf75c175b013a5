-- ===== src/Bank/Server/Run.antt =====
-- bank.c, `run_bank`: the server serves until every ATM has left.
use projects_in_c.Base.{
  ℕ, zero, suc, ◌+◌, ◌≤◌, ◌<◌, ◌≡◌, refl, sym, ap, ◌∙◌, List, [], ◌∷◌, Option, none, some, ◌==◌,
  if◌then◌else◌, set, length, length-set, length-append, arith,
}
use projects_in_c.Base.Words.{sub, slt, word, IsNat}
use projects_in_c.Bank.Command.{Command, Parts, cmd_unpack, cmd_exit, cmd_balance, message_size}
use projects_in_c.Bank.Errors.{success}
use projects_in_c.Bank.Server.{Bank, Round, run_bank}
use projects_in_c.Bank.Server.Checks.{IsOpen, check_pipe_read-full}
use projects_in_c.Bank.Server.Ledger.{
  Step, greeted, deposited, withdrawn, transferred, no_funds, no_target, no_source, no_account,
  told, AreWords, Answered,
}
use projects_in_c.Bank.Server.Ledger.Steps.{active, bank-Transacted}
use projects_in_c.Bank.Server.Ledger.Operations.{write_status, IsKnown}

Step-length :
    {n : ℕ} {p : Parts} {xs ys : List ℕ} {m : Command} → Step n p xs ys m → length ys ≡ length xs
Step-length (greeted k e em) = rw e
Step-length {p} {xs} (deposited x k h ex e em) = rw e (length-set xs p.t _)
Step-length {p} {xs} (withdrawn x k h ex rich e em) = rw e (length-set xs p.f _)
Step-length {p} {xs} (transferred x y k hf ht ex rich ey e em) =
    rw e (length-set (set xs p.f _) p.t _ ∙ length-set xs p.f _)
Step-length (no_funds x k h ex poor e em) = rw e
Step-length (no_target k h e em) = rw e
Step-length (no_source k h e em) = rw e
Step-length (no_account k h e em) = rw e
Step-length (told x k h ex e em) = rw e

-- A round in which the pipes carry whole messages, and the message is one that the server knows,
-- from one of `atms` ATMs. (The last field: a balance is read from the account numbered as the
-- ATM.)
pub record IsGood (accounts atms : ℕ) (r : Round) : Type 0 where
  pub read_all : message_size ≤ r.result
  pub read_nat : IsNat r.result
  pub wrote_all : message_size ≤ r.wrote
  pub wrote_nat : IsNat r.wrote
  pub words : AreWords (cmd_unpack r.cmd)
  pub atm : (cmd_unpack r.cmd).i < atms
  pub known : IsKnown (cmd_unpack r.cmd).c
  pub own :
      (cmd_unpack r.cmd).c ≡ cmd_balance
      → (cmd_unpack r.cmd).f < accounts
      → (cmd_unpack r.cmd).i < accounts

abbrev pub AllGood : ℕ → ℕ → List Round → Type 0
AllGood accounts atms [] = Unit
AllGood accounts atms (r ∷ rs) = IsGood accounts atms r × AllGood accounts atms rs

-- How many of the rounds are those of an ATM that leaves.
abbrev pub exits : List Round → ℕ
exits [] = 0
exits (r ∷ rs) = (if (cmd_unpack r.cmd).c == cmd_exit then 1 else 0) + exits rs

-- How many rounds are served before the `n`-th exit.
abbrev pub served : ℕ → List Round → ℕ
served zero rs = 0
served (suc n) [] = 0
served (suc n) (r ∷ rs) = suc (served (if (cmd_unpack r.cmd).c == cmd_exit then n else suc n) rs)

pub write_status-full : (n : ℕ) → message_size ≤ n → IsNat n → write_status n ≡ success
unfolding slt
write_status-full n h s = ground arith

-- The active ATMs after one message to a bank with one more than `n`.
abbrev pub after_exit : Parts → ℕ → ℕ
after_exit p n = if p.c == cmd_exit then n else suc n

pub active-after_exit : (p : Parts) (n : ℕ) → suc n < word → active p (suc n) ≡ after_exit p n
unfolding sub
active-after_exit p n h = ground arith

pub after_exit-lt : (p : Parts) (n : ℕ) → suc n < word → after_exit p n < word
after_exit-lt p n h = ground arith

-- An open bank is open after a transaction.
pub stays_open :
    (b b' : Bank) (r : Round) (m : Command)
    → IsOpen b
    → Answered b b' (cmd_unpack r.cmd).i b'.accounts m
    → Step b.account_count (cmd_unpack r.cmd) b.accounts b'.accounts m
    → IsOpen b'
stays_open b b' r m o ans step = record {
  size = Step-length step ∙ o.size ∙ sym ans.account_count;
  accounts_fit = rw ans.account_count o.accounts_fit;
  atms_fit = rw ans.atm_count o.atms_fit;
}

-- The outcome of a run that starts with `n` active ATMs.
pub record Served (b : Bank) (n : ℕ) (rs : List Round) (status : Option ℕ) (b' : Bank) (left : ℕ)
    : Type 0 where
  pub still_open : IsOpen b'
  pub replies : length b'.outbox ≡ length b.outbox + served n rs
  pub ended : n ≤ exits rs → (status ≡ some success) × (left ≡ 0)
  pub waiting : exits rs < n → (status ≡ none) × (left + exits rs ≡ n)

-- An open bank that is served the good rounds `rs`, for fewer than 2^32 active ATMs, never faults
-- and never stops with an error. It answers every message until the last ATM leaves and then
-- reports success; if fewer leave it waits on.
pub run_bank-Served :
    (rs : List Round) (b : Bank) (n : ℕ)
    → IsOpen b
    → n < word
    → AllGood b.account_count b.atm_count rs
    → (status : Option ℕ) × (b' : Bank) × (left : ℕ) × (run_bank rs b n ≡ some (status, b', left))
      × Served b n rs status b' left
unfolding run_bank
run_bank-Served [] b zero o hn g = (
  some success,
  b,
  0,
  refl,
  record {
    still_open = o;
    replies = omega arith;
    ended = λ h. (refl, refl);
    waiting = λ h. absurd (omega arith);
  },
)
run_bank-Served (r ∷ rs) b zero o hn g = (
  some success,
  b,
  0,
  refl,
  record {
    still_open = o;
    replies = omega arith;
    ended = λ h. (refl, refl);
    waiting = λ h. absurd (omega arith);
  },
)
run_bank-Served [] b (suc n) o hn g = (
  none,
  b,
  suc n,
  refl,
  record {
    still_open = o;
    replies = omega arith;
    ended = λ h. absurd (omega arith);
    waiting = λ h. (refl, omega arith);
  },
)
run_bank-Served (r ∷ rs) b (suc n) o hn (good, rest) =
    let (b', m, e, ans, step) =
      bank-Transacted r.wrote r.cmd b (suc n) o good.words good.atm good.known good.own in
    let k = after_exit (cmd_unpack r.cmd) n in
    let open_b' : IsOpen b' = stays_open b b' r m o ans step in
    let (status, b'', left, run, s) =
      run_bank-Served rs b' k open_b' (after_exit-lt (cmd_unpack r.cmd) n hn)
        (rw (ans.account_count, ans.atm_count) rest) in
    (
      status,
      b'',
      left,
      rw
          (
            check_pipe_read-full r.result b.errors good.read_all good.read_nat,
            e,
            write_status-full r.wrote good.wrote_all good.wrote_nat,
            active-after_exit (cmd_unpack r.cmd) n hn,
          )
          run,
      record {
        still_open = s.still_open;
        replies = omega (
          arith,
          s.replies,
          ap length ans.outbox,
          length-append b.outbox (((cmd_unpack r.cmd).i, m) ∷ []),
        );
        ended = λ h. s.ended (ground arith);
        waiting = λ h. ground (arith, s.waiting);
      },
    )
