-- ===== src/Bank/Server.antt =====
-- bank.h and bank.c: the server that keeps the accounts. The file-level variables are the record
-- `Bank`; what it writes to the ATMs is recorded in the order of the writes. The results of the
-- system calls `read` and `write` come from outside.
pub mod Checks
pub mod Ledger
pub mod Run
use projects_in_c.Base.{
  ℕ, zero, suc, ◌+◌, List, [], ◌∷◌, ◌++◌, Option, none, some, Bool, not, ◌&&◌, ltb, ◌==◌,
  if◌then◌else◌, ◌>>=◌, get_elem?, set, replicate,
}
use projects_in_c.Base.Words.{add, sub, slt, sge, rounds_to}
use projects_in_c.Base.Text.{codes}
use projects_in_c.Bank.Command.{
  Command, message_size, Parts, cmd_unpack, cmd_connect, cmd_exit, cmd_deposit, cmd_withdraw,
  cmd_transfer, cmd_balance, msg_ok, msg_nofunds, msg_accunkn,
}
use projects_in_c.Bank.Errors.{
  Errors, error_msg, success, err_unknown_cmd, err_pipe_read_err, err_pipe_write_err,
  err_unknown_account, err_unknown_atm,
}

pub record Bank : Type 0 where
  pub accounts : List ℕ
  pub account_count : ℕ
  pub atm_count : ℕ
  pub errors : Errors
  pub outbox : List (ℕ × Command)

unfoldable pub check_pipe_write : ℕ → Errors → ℕ × Errors
check_pipe_write result e =
    if slt result 0
    then (
      err_pipe_write_err,
      error_msg err_pipe_write_err (codes "could not write to atm output file descriptor") e,
    )
    else (if ltb result message_size
        then (
          err_pipe_write_err,
          error_msg err_pipe_write_err
              (codes "partial message written to atm output file descriptor") e,
        )
        else (success, e))

unfoldable pub check_pipe_read : ℕ → Errors → ℕ × Errors
check_pipe_read result e =
    if slt result 0
    then (
      err_pipe_read_err,
      error_msg err_pipe_read_err (codes "could not read from bank input file descriptor") e,
    )
    else (if ltb result message_size
        then (
          err_pipe_read_err,
          error_msg err_pipe_read_err (codes "partial message read from bank input file descriptor")
              e,
        )
        else (success, e))

unfoldable pub check_valid_atm : ℕ → Bank → ℕ × Bank
check_valid_atm atmid b = if not (slt atmid 0) && slt atmid b.atm_count then (success, b) else (
  err_unknown_atm,
  record b {
    errors = error_msg err_unknown_atm (codes "message received from unknown ATM") b.errors;
  },
)

unfoldable pub check_valid_account : ℕ → Bank → ℕ × Bank
check_valid_account accountid b =
    if not (slt accountid 0) && slt accountid b.account_count then (success, b) else (
      err_unknown_account,
      record b {
        errors =
            error_msg err_unknown_account (codes "message received for unknown account") b.errors;
      },
    )

unfoldable pub bank_open : (atm_cnt account_cnt : ℕ) → Bank → Bank
bank_open atm_cnt account_cnt b = record b {
  accounts = replicate (rounds_to account_cnt) 0;
  account_count = account_cnt;
  atm_count = atm_cnt;
}

-- One reply to the ATM `i`; `wrote` is the result of `write`.
unfoldable pub reply : (wrote i : ℕ) → Command → Bank → ℕ × Bank
reply wrote i msg b =
    let (result, e) = check_pipe_write wrote b.errors in
    (result, record b { errors = e; outbox = b.outbox ++ (i, msg) ∷ [] })

unfoldable pub deposit : (wrote : ℕ) → Parts → Bank → Option (ℕ × Bank)
deposit wrote p b =
    let (valid, b₁) = check_valid_account p.t b in
    if valid == success
    then (get_elem? b₁.accounts p.t >>= λ x. some (
        reply wrote p.i (msg_ok 0 p.f p.t p.a)
          (record b₁ { accounts = set b₁.accounts p.t (add x p.a) })))
    else some (reply wrote p.i (msg_accunkn 0 p.t) b₁)

unfoldable pub withdraw : (wrote : ℕ) → Parts → Bank → Option (ℕ × Bank)
withdraw wrote p b =
    let (valid, b₁) = check_valid_account p.f b in
    if valid == success
    then (get_elem? b₁.accounts p.f >>= λ x.
        if sge x p.a
        then some (
            reply wrote p.i (msg_ok 0 p.f p.t p.a)
              (record b₁ { accounts = set b₁.accounts p.f (sub x p.a) }))
        else some (reply wrote p.i (msg_nofunds 0 p.f p.a) b₁))
    else some (reply wrote p.i (msg_accunkn 0 p.t) b₁)

unfoldable pub transfer : (wrote : ℕ) → Parts → Bank → Option (ℕ × Bank)
transfer wrote p b =
    let (valid_f, b₁) = check_valid_account p.f b in
    if not (valid_f == success)
    then some (reply wrote p.i (msg_accunkn 0 p.f) b₁)
    else (let (valid_t, b₂) = check_valid_account p.t b₁ in
        if not (valid_t == success)
        then some (reply wrote p.i (msg_accunkn 0 p.t) b₂)
        else get_elem? b₂.accounts p.f >>= λ x.
            if slt x p.a
            then some (reply wrote p.i (msg_nofunds 0 p.f p.a) b₂)
            else (let accounts₁ = set b₂.accounts p.f (sub x p.a) in
                get_elem? accounts₁ p.t >>= λ y. some (
                  reply wrote p.i (msg_ok 0 p.f p.t p.a)
                    (record b₂ { accounts = set accounts₁ p.t (add y p.a) }))))

-- The amount in the reply is that of the account with the number of the ATM.
unfoldable pub balance : (wrote : ℕ) → Parts → Bank → Option (ℕ × Bank)
balance wrote p b =
    let (valid, b₁) = check_valid_account p.f b in
    if not (valid == success)
    then some (reply wrote p.i (msg_accunkn 0 p.t) b₁)
    else get_elem? b₁.accounts p.i >>= λ a. some (reply wrote p.i (msg_ok 0 p.f p.t a) b₁)

-- The branches of `bank` on the command byte. The third component is `*atm_cnt` afterwards.
unfoldable pub dispatch : (wrote : ℕ) → Parts → Bank → ℕ → Option (ℕ × Bank × ℕ)
dispatch wrote p b atm_cnt =
    if p.c == cmd_connect
    then keep (some (reply wrote p.i (msg_ok 0 p.f p.t p.a) b))
    else (if p.c == cmd_exit
        then (let (result, b') = reply wrote p.i (msg_ok 0 p.f p.t p.a) b in
            some (result, b', sub atm_cnt 1))
        else (if p.c == cmd_deposit
            then keep (deposit wrote p b)
            else (if p.c == cmd_withdraw
                then keep (withdraw wrote p b)
                else (if p.c == cmd_transfer
                    then keep (transfer wrote p b)
                    else (if p.c == cmd_balance
                        then keep (balance wrote p b)
                        else some (err_unknown_cmd, b, atm_cnt))))))
  where
    keep : Option (ℕ × Bank) → Option (ℕ × Bank × ℕ)
    keep o = o >>= λ (result, b'). some (result, b', atm_cnt)

-- `bank`: the result, the server and `*atm_cnt` afterwards. A fault is an access outside
-- `accounts`.
unfoldable pub bank : (wrote : ℕ) → Command → Bank → ℕ → Option (ℕ × Bank × ℕ)
bank wrote cmd b atm_cnt =
    let p = cmd_unpack cmd in
    let (valid, b₁) = check_valid_atm p.i b in
    if not (valid == success)
    then some (err_unknown_atm, b₁, atm_cnt)
    else dispatch wrote p b₁ atm_cnt

-- What the system calls of one round give: the result of `read`, the message that it filled in, and
-- the result of the `write` that may follow.
pub record Round : Type 0 where
  pub result : ℕ
  pub cmd : Command
  pub wrote : ℕ

-- `run_bank`, over the rounds that the system gives: the status is `none` where it waits for more.
unfoldable pub run_bank : List Round → Bank → ℕ → Option (Option ℕ × Bank × ℕ)
run_bank rounds b zero = some (some success, b, 0)
run_bank [] b (suc n) = some (none, b, suc n)
run_bank (r ∷ rounds) b (suc n) =
    let (got, e) = check_pipe_read r.result b.errors in
    let b₁ = record b { errors = e } in
    if not (got == success)
    then some (some got, b₁, suc n)
    else bank r.wrote r.cmd b₁ (suc n) >>= λ (result, b₂, atm_cnt).
        let rest = run_bank rounds b₂ atm_cnt in
        if result == err_unknown_atm
        then rest
        else (if not (result == success) then some (some result, b₂, atm_cnt) else rest)
