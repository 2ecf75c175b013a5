-- ===== src/Bank/Errors.antt =====
-- errors.h and errors.c: the status codes, and the last error with its message.
use projects_in_c.Base.{ℕ, ◌-◌, List, take}
use projects_in_c.Base.Words.{add, sub}

abbrev pub success : ℕ
success = 1

abbrev pub err_unknown_cmd : ℕ
err_unknown_cmd = 2

abbrev pub err_pipe_read_err : ℕ
err_pipe_read_err = 3

abbrev pub err_pipe_write_err : ℕ
err_pipe_write_err = 4

abbrev pub err_unknown_account : ℕ
err_unknown_account = 5

abbrev pub err_unknown_atm : ℕ
err_unknown_atm = 6

abbrev pub err_bad_trace_file : ℕ
err_bad_trace_file = 7

abbrev pub err_nofunds : ℕ
err_nofunds = 8

abbrev pub error_buffer_size : ℕ
error_buffer_size = 200

pub record Errors : Type 0 where
  pub err : ℕ
  pub errm : List ℕ

-- `strncpy`, and the terminator in the last place of the buffer.
unfoldable pub error_msg : ℕ → List ℕ → Errors → Errors
error_msg error msg e = record { err = sub error 1; errm = take (error_buffer_size - 1) msg }

unfoldable pub error_msg_str : Errors → List ℕ
error_msg_str e = e.errm

unfoldable pub error_type : Errors → ℕ
error_type e = add e.err 1
