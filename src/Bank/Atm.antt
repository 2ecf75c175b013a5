-- ===== src/Bank/Atm.antt =====
-- atm.h and atm.c: an ATM plays its part of a trace against the server. What the pipes carry comes
-- from outside: for each message that is sent, the results of `write` and `read`, and the reply.
pub mod Laws
use projects_in_c.Base.{
  ℕ, zero, suc, ◌+◌, List, [], ◌∷◌, ◌++◌, Option, none, some, Bool, true, false, not, ◌||◌, ltb,
  ◌==◌, if◌then◌else◌, length,
}
use projects_in_c.Base.Words.{slt}
use projects_in_c.Base.Text.{codes}
use projects_in_c.Bank.Command.{
  Command, message_size, cmd_unpack, cmd_ok, cmd_connect, cmd_exit, cmd_deposit, cmd_withdraw,
  cmd_transfer, cmd_balance, cmd_nofunds, cmd_accunkn,
}
use projects_in_c.Bank.Errors.{
  Errors, error_msg, success, err_unknown_cmd, err_pipe_read_err, err_pipe_write_err,
  err_unknown_account, err_unknown_atm, err_bad_trace_file, err_nofunds,
}
use projects_in_c.Bank.Trace.{Trace, trace_start, trace_open, trace_read_cmd}

pub record Exchange : Type 0 where
  pub wrote : ℕ
  pub got : ℕ
  pub answer : Command

-- What the user of the ATM is told.
pub data Notice : Type 0 where
  out_of_service retry_transaction : Notice
  stopped : ℕ → Notice

pub record AtmState : Type 0 where
  pub exchanges : List Exchange
  pub errors : Errors
  pub outbox : List Command
  pub notices : List Notice

unfoldable pub check_pipe_write : ℕ → Errors → ℕ × Errors
check_pipe_write result e =
    if slt result 0
    then (
      err_pipe_write_err,
      error_msg err_pipe_write_err (codes "could not write to atm output file descriptor") e,
    )
    else (if ltb result message_size
        then (
          err_pipe_write_err,
          error_msg err_pipe_write_err
              (codes "partial message written to atm output file descriptor") e,
        )
        else (success, e))

unfoldable pub check_pipe_read : ℕ → Errors → ℕ × Errors
check_pipe_read result e =
    if slt result 0
    then (
      err_pipe_read_err,
      error_msg err_pipe_read_err (codes "could not read from bank input file descriptor") e,
    )
    else (if ltb result message_size
        then (
          err_pipe_read_err,
          error_msg err_pipe_read_err (codes "partial message read from bank input file descriptor")
              e,
        )
        else (success, e))

-- The status for the command byte of a reply.
unfoldable pub reply_status : ℕ → ℕ
reply_status c =
    if c == cmd_ok
    then success
    else (if c == cmd_nofunds
        then err_nofunds
        else (if c == cmd_accunkn then err_unknown_account else err_unknown_cmd))

unfoldable pub is_request : ℕ → Bool
is_request c =
    c == cmd_connect
    || c == cmd_exit
    || c == cmd_deposit
    || c == cmd_transfer
    || c == cmd_balance
    || c == cmd_withdraw

-- The middle of `atm`: the message is sent and the reply awaited, for ever if none comes.
unfoldable pub send : Command → AtmState → Option ℕ × AtmState
send cmd s = elim s.exchanges [
  | [] ↦ (none, record s { outbox = s.outbox ++ cmd ∷ [] })
  | x ∷ xs ↦
      let (wrote, e₁) = check_pipe_write x.wrote s.errors in
      let s₁ : AtmState = record s { exchanges = xs; errors = e₁; outbox = s.outbox ++ cmd ∷ [] } in
      if not (wrote == success)
      then (some wrote, s₁)
      else (let (got, e₂) = check_pipe_read x.got e₁ in
          let s₂ : AtmState = record s₁ { errors = e₂ } in
          if not (got == success)
          then (some got, s₂)
          else (some (reply_status (cmd_unpack x.answer).c), s₂))
]

-- The status, where `none` is the wait for a reply that does not come.
unfoldable pub atm : ℕ → Command → AtmState → Option ℕ × AtmState
atm atm_id cmd s =
    let p = cmd_unpack cmd in
    if atm_id == p.i
    then (if is_request p.c then send cmd s else (some err_unknown_cmd, s))
    else (some err_unknown_atm, s)

unfoldable pub tell : Notice → AtmState → AtmState
tell n s = record s { notices = s.notices ++ n ∷ [] }

-- The `switch` on the status: the status to stop with, if the loop stops, and what the user sees.
unfoldable pub after_status : ℕ → AtmState → Option ℕ × AtmState
unfolding tell
after_status status s =
    if status == err_unknown_atm
    then (none, s)
    else (if status == err_unknown_account
        then (none, tell out_of_service s)
        else (if status == err_nofunds
            then (none, tell retry_transaction s)
            else (if status == success then (none, s) else (some status, tell (stopped status) s))))

-- One round of `atm_run` for the message in the buffer: a status to return, or the wait for a
-- reply that does not come, or the next round.
pub data Next : Type 0 where
  return : ℕ → Next
  wait : Next
  continue : Next

unfoldable pub next_round : Option ℕ × AtmState → Next × AtmState
next_round (none, s) = (continue, s)
next_round (some e, s) = (return e, s)

unfoldable pub classify : Option ℕ × AtmState → Next × AtmState
unfolding next_round
classify (none, s) = (wait, s)
classify (some status, s) = next_round (after_status status s)

unfoldable pub round : ℕ → Command → AtmState → Next × AtmState
unfolding classify
round atm_id cmd s = classify (atm atm_id cmd s)

abbrev pub is_end : Option ℕ → Bool
is_end none = false
is_end (some k) = k == 0

-- The loop of `atm_run`, with fuel for the rounds. The first component is the status, and `none`
-- where the ATM waits for ever (or the fuel is out).
unfoldable pub atm_loop : ℕ → ℕ → Command → Trace → AtmState → Option ℕ × AtmState
atm_loop zero atm_id cmd t s = (none, s)
atm_loop (suc fuel) atm_id cmd t s =
    let (n, cmd', t') = trace_read_cmd cmd t in
    let (next, s') = round atm_id cmd' s in
    let rest = atm_loop fuel atm_id cmd' t' s' in
    let go : Option ℕ × AtmState = elim next [
      | return e ↦ (some e, s')
      | wait ↦ (none, s')
      | continue ↦ rest
    ] in
    if is_end n then (some success, s) else go

-- `atm_run`; `cmd` is what the buffer holds before the first read.
unfoldable pub atm_run : ℕ → Option (List ℕ) → ℕ → Command → AtmState → Option ℕ × AtmState
atm_run fuel file atm_id cmd s =
    let (opened, t) = trace_open file trace_start in
    let run = atm_loop fuel atm_id cmd t s in
    if not opened
    then (
      some err_bad_trace_file,
      record s {
        errors = error_msg err_bad_trace_file (codes "could not open trace file") s.errors;
      },
    )
    else run
